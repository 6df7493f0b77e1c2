-- ===== src/Mpeg/System/Endless.antt =====
-- read_packet on the last packet of a file.
use fenice_1_12_with_h.Prelude.{
  ℕ, zero, suc, ◌<◌, ◌≡◌, refl, sym, List, [], ◌∷◌, ◌++◌, none, true, length, ◌==◌, ltb, Bool-cases,
  inl, inr, arith,
}
use mathlib.Core.Path.{subst}
use fenice_1_12_with_h.Mpeg.{next_start_code}
use fenice_1_12_with_h.Mpeg.Cut.{IsClear, next_start_code-Outcome}
use fenice_1_12_with_h.Mpeg.System.Section.{read_section, read_packet}

-- A code stands in no clear list.
IsClear-is_start_code : (before rest : List ℕ) → IsClear (before ++ 0 ∷ 0 ∷ 1 ∷ rest) → ⊥
IsClear-is_start_code [] rest h = ground (arith, h.0)
IsClear-is_start_code (x ∷ []) rest h = IsClear-is_start_code [] rest h.1
IsClear-is_start_code (x ∷ y ∷ []) rest h = IsClear-is_start_code (y ∷ []) rest h.1
IsClear-is_start_code (x ∷ y ∷ z ∷ before) rest h = IsClear-is_start_code (y ∷ z ∷ before) rest h.1

-- next_start_code finds nothing in a clear file, and is at its end.
next_start_code_at_end : (buf file : List ℕ) → IsClear file → (next_start_code buf file).unread ≡ []
next_start_code_at_end buf file h = elim (next_start_code-Outcome buf file) [
  | inl f ↦ absurd (IsClear-is_start_code f.before _ (subst IsClear f.splits h))
  | inr m ↦ m.at_end
]

-- A part that is read of a clear file leaves it at its end, with a byte of the buffer for its code.
old_code : (n : ℕ) → n < 185 → ltb n 185 ≡ true
old_code n h = ground arith

read_section-IsClear :
    (old : ℕ → ℕ) (count : ℕ) (buf file : List ℕ)
    → ((n : ℕ) → old n < 185)
    → IsClear file
    → (ltb (read_section old count (record { buf = buf; unread = file })).final_byte 185 ≡ true)
      × ((read_section old count (record { buf = buf; unread = file })).input.unread ≡ [])
unfolding read_section
read_section-IsClear old count buf file low h =
    let c = next_start_code buf file in
    rw (next_start_code_at_end buf file h, read_section)
      (elim (Bool-cases (old (length c.buf) == 0)) [
        | inl e ↦ rw e (old_code _ (low _), refl)
        | inr e ↦ rw e (old_code _ (low _), refl)
      ])

-- Where no code follows in the file, read_packet does not return, whatever its fuel, as long as the
-- bytes that the buffer holds behind those counted are below 0xb9, as zeros are.
pub read_packet-hangs :
    (fuel : ℕ) (old : ℕ → ℕ) (count : ℕ) (buf file : List ℕ)
    → ((n : ℕ) → old n < 185)
    → IsClear file
    → read_packet fuel old count (record { buf = buf; unread = file }) ≡ none
unfolding read_packet
read_packet-hangs zero old count buf file low h = refl
read_packet-hangs (suc fuel) old count buf file low h =
    let (e, f) = read_section-IsClear old count buf file low h in
    let s = read_section old count (record { buf = buf; unread = file }) in
    rw e
      (read_packet-hangs fuel old s.count s.input.buf s.input.unread low (subst IsClear (sym f) tt))
