-- ===== src/Mpeg/System/Pack.antt =====
-- read_pack_head on the header of a pack, as ISO 11172 lays it out.
use mathlib.Core.List.{append_assoc}
use fenice_1_12_with_h.Prelude.{
  ℕ, ◌+◌, ◌%◌, ◌/◌, ◌^◌, ◌<◌, ◌≡◌, ◌≢◌, refl, ap, ◌∙◌, List, [], ◌∷◌, ◌++◌, Option, none, some,
  false, length, ◌==◌, arith,
}
use fenice_1_12_with_h.Mpeg.Cut.{IsClear}
use fenice_1_12_with_h.Mpeg.System.{Input, Scr, PackHead, pack_end, read_pack_head}
use fenice_1_12_with_h.Mpeg.System.Search.{next_start_code_first}
use fenice_1_12_with_h.Mpeg.System.Stamp.{
  time_first, time_rest, read_time-time_rest, shift_in-time_bits,
}

-- A pack header: its time, the bytes of the multiplex rate, those of the system header where it has
-- one, and the number of the code that follows.
pub record Pack : Type 0 where
  pub time : ℕ
  pub rate : List ℕ
  pub system : Option (List ℕ)
  pub code : ℕ

-- The bytes behind its code, before those of the rest of the file.
abbrev pub print_end : ℕ → Option (List ℕ) → List ℕ → List ℕ
print_end code none rest = code ∷ rest
print_end code (some system) rest = 187 ∷ system ++ 0 ∷ 0 ∷ 1 ∷ code ∷ rest

abbrev pub print_pack : Pack → List ℕ → List ℕ
print_pack p rest =
    time_first 2 p.time ∷ time_rest p.time ++ (p.rate ++ 0 ∷ 0 ∷ 1 ∷ print_end p.code p.system rest)

-- The time has 33 bits, no code is within the rate or the system header, and the code is that of a
-- system header only where there is one.
abbrev pub IsEnd : ℕ → Option (List ℕ) → Type 0
IsEnd code none = code ≢ 187
IsEnd code (some system) = IsClear (system ++ 0 ∷ 0 ∷ [])

pub record IsPack (p : Pack) : Type 0 where
  pub time_lt : p.time < 2 ^ 33
  pub rate_clear : IsClear (p.rate ++ 0 ∷ 0 ∷ [])
  pub end_lem : IsEnd p.code p.system

-- What the count has of a system header.
abbrev pub system_size : Option (List ℕ) → ℕ
system_size none = 0
system_size (some system) = length system % 2 ^ 32

-- What a header that is read has to leave.
pub record IsPackRead (p : Pack) (buf rest : List ℕ) (r : PackHead) : Type 0 where
  pub time_read : r.scr ≡ record { msb = p.time / 2 ^ 32; scr = p.time % 2 ^ 32 }
  pub next : r.final_byte ≡ p.code
  pub behind : r.input.unread ≡ rest
  pub copied : r.input.buf ++ rest ≡ buf ++ print_pack p rest
  pub counted : r.count ≡ (length p.rate + system_size p.system + 6) % 2 ^ 32

-- What pack_end leaves.
pub record IsEndRead (count code : ℕ) (rate buf rest : List ℕ) (system : Option (List ℕ))
    (r : ℕ × ℕ × Input) : Type 0 where
  pub next : r.1 ≡ code
  pub behind : r.2.unread ≡ rest
  pub copied : r.2.buf ++ rest ≡ buf ++ (rate ++ 0 ∷ 0 ∷ 1 ∷ print_end code system rest)
  pub counted : r.0 ≡ (count + length rate + system_size system + 1) % 2 ^ 32

is_system : {code : ℕ} → code ≢ 187 → (code == 187) ≡ false
is_system h = ground (arith, h)

pack_end-IsEndRead :
    (old : ℕ → ℕ) (count code : ℕ) (rate buf rest : List ℕ) (system : Option (List ℕ))
    → IsClear (rate ++ 0 ∷ 0 ∷ [])
    → IsEnd code system
    → IsEndRead count code rate buf rest system (
        pack_end old count
          (record { buf = buf; unread = rate ++ 0 ∷ 0 ∷ 1 ∷ print_end code system rest }))
unfolding pack_end
pack_end-IsEndRead old count code rate buf rest none h e =
    rw (next_start_code_first rate buf (code ∷ rest) h, is_system e)
      (record {
        next = refl;
        behind = refl;
        copied = simp (append_assoc) refl;
        counted = omega arith;
      })
pack_end-IsEndRead old count code rate buf rest (some system) h e =
    rw
      (
        next_start_code_first rate buf (187 ∷ system ++ 0 ∷ 0 ∷ 1 ∷ code ∷ rest) h,
        next_start_code_first system ((buf ++ (rate ++ 0 ∷ 0 ∷ 1 ∷ [])) ++ 187 ∷ []) (code ∷ rest)
            e,
      )
      (record {
        next = refl;
        behind = refl;
        copied = simp (append_assoc) refl;
        counted = omega arith;
      })

-- read_pack_head reads back the time of a pack header, whatever the time was before, and stands behind
-- the number of the next code, past a system header where there is one: all bytes it has read are in
-- the buffer. Its count leaves out the three bytes of each code, and the number of the code behind a
-- system header.
pub read_pack_head-IsPackRead :
    (old : ℕ → ℕ) (scr : Scr) (p : Pack) (buf rest : List ℕ)
    → IsPack p
    → IsPackRead p buf rest
        (read_pack_head old scr (record { buf = buf; unread = print_pack p rest }))
unfolding read_pack_head
read_pack_head-IsPackRead old scr p buf rest h =
    let tail = p.rate ++ 0 ∷ 0 ∷ 1 ∷ print_end p.code p.system rest in
    let end =
      pack_end-IsEndRead old 5 p.code p.rate ((buf ++ time_first 2 p.time ∷ []) ++ time_rest p.time)
        rest p.system h.rate_clear h.end_lem in
    rw (read_time-time_rest old 2 p.time (buf ++ time_first 2 p.time ∷ []) tail h.time_lt) (record {
      time_read =
          ap (λ t. record { msb = p.time / 2 ^ 32; scr = t })
            (shift_in-time_bits scr.scr 2 p.time h.time_lt);
      next = end.next;
      behind = end.behind;
      copied =
          end.copied
          ∙ append_assoc (buf ++ time_first 2 p.time ∷ []) (time_rest p.time) tail
          ∙ append_assoc buf (time_first 2 p.time ∷ []) (time_rest p.time ++ tail);
      counted = end.counted ∙ ap (λ n. n % 2 ^ 32) (omega arith);
    })
