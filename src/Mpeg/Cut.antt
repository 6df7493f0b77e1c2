-- ===== src/Mpeg/Cut.antt =====
-- mediainfo/common_utils.c: where next_start_code cuts a file.
use mathlib.Core.List.{append_assoc}
use fenice_1_12_with_h.Prelude.{
  ℕ, ◌+◌, ◌%◌, ◌^◌, ◌≡◌, ◌≤◌, ◌<◌, ◌⊎◌, refl, ap, ◌∙◌, inl, inr, true, false, List, [], ◌∷◌, ◌++◌,
  none, some, length, Bool-cases, arith,
}
use fenice_1_12_with_h.Mpeg.{Cutting, is_start_code, search_code, next_start_code}

-- No three bytes in a row are a start code.
abbrev pub IsClear : List ℕ → Type 0
IsClear (a ∷ b ∷ c ∷ xs) = (is_start_code a b c ≡ false) × IsClear (b ∷ c ∷ xs)
IsClear _ = Unit

-- The call found the first start code of `file` and stands behind it.
pub record Found (count : ℕ) (buf file : List ℕ) (r : Cutting) : Type 0 where
  pub before : List ℕ
  pub splits : file ≡ before ++ 0 ∷ 0 ∷ 1 ∷ r.unread
  pub first : IsClear (before ++ 0 ∷ 0 ∷ [])
  pub copied : r.buf ≡ buf ++ (before ++ 0 ∷ 0 ∷ 1 ∷ [])
  pub counted : r.result ≡ some ((count + length before) % 2 ^ 32)

-- There was none: the file is at its end, and its last bytes, two at most, are not in the buffer.
pub record Missing (buf file : List ℕ) (r : Cutting) : Type 0 where
  pub dropped : List ℕ
  pub clear : IsClear file
  pub failed : r.result ≡ none
  pub at_end : r.unread ≡ []
  pub few : length dropped ≤ 2
  pub kept : r.buf ++ dropped ≡ buf ++ file

abbrev pub Outcome : ℕ → List ℕ → List ℕ → Cutting → Type 0
Outcome count buf file r = Found count buf file r ⊎ Missing buf file r

start_code_lem : (a b c : ℕ) → is_start_code a b c ≡ true → (a ≡ 0) × (b ≡ 0) × (c ≡ 1)
start_code_lem a b c e = (ground arith, ground arith, ground arith)

Found-here :
    (count : ℕ) (buf : List ℕ) (a b c : ℕ) (file : List ℕ)
    → count < 2 ^ 32
    → is_start_code a b c ≡ true
    → Found count buf
        (a ∷ b ∷ c ∷ file)
        (record { result = some count; buf = buf ++ a ∷ b ∷ c ∷ []; unread = file })
Found-here count buf a b c file small e =
    let (x, y, z) = start_code_lem a b c e in
    record {
      before = [];
      splits = rw (x, y, z) refl;
      first = tt;
      copied = rw (x, y, z) refl;
      counted = ap some (omega arith);
    }

-- A byte that starts no code stands before a clear list.
IsClear-step :
    (a b c : ℕ) (file before behind : List ℕ)
    → is_start_code a b c ≡ false
    → b ∷ c ∷ file ≡ before ++ behind
    → IsClear (before ++ 0 ∷ 0 ∷ [])
    → IsClear (a ∷ before ++ 0 ∷ 0 ∷ [])
IsClear-step a b c file [] behind e s h = (ground arith, tt)
IsClear-step a b c file (x ∷ []) behind e s h = (ground arith, h)
IsClear-step a b c file (x ∷ y ∷ before) behind e s h = (ground (arith, s, e), h)

Found-later :
    {count : ℕ} {buf : List ℕ} {a b c d : ℕ} {file : List ℕ} {r : Cutting}
    → is_start_code a b c ≡ false
    → Found ((count + 1) % 2 ^ 32) (buf ++ a ∷ []) (b ∷ c ∷ d ∷ file) r
    → Found count buf (a ∷ b ∷ c ∷ d ∷ file) r
Found-later {count} {buf} {a} {b} {c} {d} {file} {r} e g = record {
  before = a ∷ g.before;
  splits = ap (◌∷◌ a) g.splits;
  first = IsClear-step a b c (d ∷ file) g.before _ e g.splits g.first;
  copied = g.copied ∙ append_assoc buf (a ∷ []) _;
  counted = g.counted ∙ ap some (omega arith);
}

Missing-later :
    {buf : List ℕ} {a b c d : ℕ} {file : List ℕ} {r : Cutting}
    → is_start_code a b c ≡ false
    → Missing (buf ++ a ∷ []) (b ∷ c ∷ d ∷ file) r
    → Missing buf (a ∷ b ∷ c ∷ d ∷ file) r
Missing-later {buf} {a} e m = record {
  dropped = m.dropped;
  clear = (e, m.clear);
  failed = m.failed;
  at_end = m.at_end;
  few = m.few;
  kept = m.kept ∙ append_assoc buf (a ∷ []) _;
}

short :
    (buf file : List ℕ)
    → IsClear file
    → length file ≤ 2
    → Missing buf file (record { result = none; buf = buf; unread = [] })
short buf file clear few = record {
  dropped = file;
  clear = clear;
  failed = refl;
  at_end = refl;
  few = few;
  kept = refl;
}

search_code-Outcome :
    (count : ℕ) (buf : List ℕ) (a b c : ℕ) (file : List ℕ)
    → count < 2 ^ 32
    → Outcome count buf (a ∷ b ∷ c ∷ file) (search_code count buf a b c file)
unfolding search_code
search_code-Outcome count buf a b c [] small = elim (Bool-cases (is_start_code a b c)) [
  | inl e ↦ inl (rw e (Found-here count buf a b c [] small e))
  | inr e ↦ rw e (
      inr (record {
        dropped = b ∷ c ∷ [];
        clear = (e, tt);
        failed = refl;
        at_end = refl;
        few = omega arith;
        kept = append_assoc buf (a ∷ []) (b ∷ c ∷ []);
      }))
]
search_code-Outcome count buf a b c (d ∷ file) small =
    let rest =
      search_code-Outcome ((count + 1) % 2 ^ 32) (buf ++ a ∷ []) b c d file (omega arith) in
    elim (Bool-cases (is_start_code a b c)) [
      | inl e ↦ inl (rw e (Found-here count buf a b c (d ∷ file) small e))
      | inr e ↦ rw e (elim rest [ inl g ↦ inl (Found-later e g) | inr m ↦ inr (Missing-later e m) ])
    ]

-- next_start_code behaves in one of two ways. It finds the first start code of the file, appends to the
-- buffer the bytes before it and the code, stands behind it, and returns the number of those bytes
-- modulo 2 ^ 32. Or it returns -1: then the file has no start code, is at its end, and is in the
-- buffer but for its last bytes, two at most.
pub next_start_code-Outcome : (buf file : List ℕ) → Outcome 0 buf file (next_start_code buf file)
unfolding next_start_code
next_start_code-Outcome buf (a ∷ b ∷ c ∷ file) = search_code-Outcome 0 buf a b c file (omega arith)
next_start_code-Outcome buf (a ∷ b ∷ []) = inr (short buf (a ∷ b ∷ []) tt (omega arith))
next_start_code-Outcome buf (a ∷ []) = inr (short buf (a ∷ []) tt (omega arith))
next_start_code-Outcome buf [] = inr (short buf [] tt (omega arith))
