-- ===== src/Mpeg.antt =====
-- mediainfo/common_utils.c: the search for a start code, with which the readers of MPEG streams cut a
-- file into pieces.
pub mod Cut
pub mod System
pub mod Video
pub mod Sequence
use fenice_1_12_with_h.Prelude.{
  ℕ, zero, suc, ◌+◌, ◌%◌, ◌^◌, Bool, ◌&&◌, List, [], ◌∷◌, ◌++◌, Option, none, some, ◌==◌,
  if◌then◌else◌,
}

-- What next_start_code returns, `none` for -1, and what it leaves: the bytes `*buf_size` counts in
-- `buf`, which has no bound here as it has none in the code, and the bytes of the file that are
-- not yet read.
pub record Cutting : Type 0 where
  pub result : Option ℕ
  pub buf : List ℕ
  pub unread : List ℕ

-- The test of the loop.
abbrev pub is_start_code : ℕ → ℕ → ℕ → Bool
is_start_code a b c = a == 0 && (b == 0 && c == 1)

-- The loop of next_start_code with the three bytes of `buf_aux`; `count` is unsigned.
unfoldable pub search_code : ℕ → List ℕ → ℕ → ℕ → ℕ → List ℕ → Cutting
search_code count buf a b c [] =
    if is_start_code a b c
    then record { result = some count; buf = buf ++ a ∷ b ∷ c ∷ []; unread = [] }
    else record { result = none; buf = buf ++ a ∷ []; unread = [] }
search_code count buf a b c (d ∷ file) =
    let rest = search_code ((count + 1) % 2 ^ 32) (buf ++ a ∷ []) b c d file in
    if is_start_code a b c
    then record { result = some count; buf = buf ++ a ∷ b ∷ c ∷ []; unread = d ∷ file }
    else rest

-- next_start_code on a file whose bytes are there as soon as they are read.
unfoldable pub next_start_code : List ℕ → List ℕ → Cutting
unfolding search_code
next_start_code buf (a ∷ b ∷ c ∷ file) = search_code 0 buf a b c file
next_start_code buf file = record { result = none; buf = buf; unread = [] }
