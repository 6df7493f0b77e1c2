-- ===== src/H264/Scan.antt =====
-- What the loop of get_one_NALU_payload passes over, and where it stops.
use native.Mathlib.Nat.{zero-add, suc-add}
use mathlib.Core.List.{reverse_aux}
use fenice_1_12_with_h.Prelude.{
  ℕ, suc, ◌+◌, ◌-◌, ◌≡◌, ◌∙◌, ◌≢◌, Bool, true, false, not, ◌&&◌, [], ◌∷◌, ◌++◌, ◌==◌, length, arith,
}
use fenice_1_12_with_h.H264.File.{Bytes, Stream}
use fenice_1_12_with_h.H264.Nalu.{Nalu, Outcome, find_another_start, finish, copy_nalu}

-- No start code ends in `xs`, of which the two bytes before are `a` and `b`, and no byte 0 stands
-- last: what the standard asks of the bytes of a unit.
unfoldable pub is_clean : ℕ → ℕ → Bytes → Bool
is_clean a b [] = not (b == 0)
is_clean a b (x ∷ xs) = not (a == 0 && (b == 0 && x == 1)) && is_clean b x xs

abbrev pub reading : Bytes → Bytes → Stream
reading behind ahead = record { behind = behind; ahead = ahead; ended = false }

abbrev pub start_code : Bool → Bytes
start_code true = 0 ∷ 0 ∷ 0 ∷ 1 ∷ []
start_code false = 0 ∷ 0 ∷ 1 ∷ []

one_byte :
    (a b x room start : ℕ) (buff : Bytes) (nalu : Nalu) (behind ahead : Bytes)
    → not (a == 0 && (b == 0 && x == 1)) ≡ true
    → find_another_start (suc room) start (b ∷ a ∷ buff) nalu (reading behind (x ∷ ahead))
      ≡ find_another_start room start (x ∷ b ∷ a ∷ buff) nalu (reading (x ∷ behind) ahead)
unfolding find_another_start
one_byte a b x room start buff nalu behind ahead h = ground arith

module _ (start k : ℕ) (nalu : Nalu) (ahead : Bytes) (ending : Bytes → Bytes → Outcome)
    (ends : (a b : ℕ) (buff behind : Bytes)
      → b ≢ 0
      → find_another_start k start (b ∷ a ∷ buff) nalu (reading behind ahead)
        ≡ ending (b ∷ a ∷ buff) behind) where
  -- The bytes of a unit are passed over, whatever comes behind them.
  pub find_another_start-append :
      (a b : ℕ) (xs buff behind : Bytes)
      → is_clean a b xs ≡ true
      → find_another_start (length xs + k) start (b ∷ a ∷ buff) nalu (reading behind (xs ++ ahead))
        ≡ ending (reverse_aux xs (b ∷ a ∷ buff)) (reverse_aux xs behind)
  unfolding is_clean
  find_another_start-append a b [] buff behind h =
      rw zero-add (ends a b buff behind (ground (arith, h)))
  find_another_start-append a b (x ∷ xs) buff behind h =
      let first : not (a == 0 && (b == 0 && x == 1)) ≡ true = ground (arith, h) in
      let rest : is_clean b x xs ≡ true = ground (arith, h) in
      rw suc-add (
        one_byte a b x (length xs + k) start buff nalu behind (xs ++ ahead) first
        ∙ find_another_start-append b x xs (a ∷ buff) (x ∷ behind) rest)

pub ends_at_code :
    (long : Bool) (room start : ℕ) (nalu : Nalu) (rest : Bytes) (a b : ℕ) (buff behind : Bytes)
    → b ≢ 0
    → find_another_start
        (suc (suc (suc (suc room))))
        start
        (b ∷ a ∷ buff)
        nalu
        (reading behind (start_code long ++ rest))
      ≡ finish start
          (length (start_code long))
          (reverse_aux (start_code long) (b ∷ a ∷ buff))
          nalu
          (reading (reverse_aux (start_code long) behind) rest)
unfolding find_another_start
ends_at_code true room start nalu rest a b buff behind h = ground arith
ends_at_code false room start nalu rest a b buff behind h = ground arith

abbrev pub at_end : Bytes → Stream
at_end behind = record { behind = behind; ahead = []; ended = true }

-- At the end of the file EOF is stored as a byte.
pub ends_at_eof :
    (room start : ℕ) (nalu : Nalu) (buff behind : Bytes)
    → find_another_start (suc room) start buff nalu (reading behind [])
      ≡ find_another_start room start (255 ∷ buff) nalu (at_end behind)
unfolding find_another_start
ends_at_eof room start nalu buff behind = ground arith

-- Then the start code at the start of the file ends the unit.
pub wraps :
    (long : Bool) (room start : ℕ) (nalu : Nalu) (rest behind buff : Bytes)
    → reverse_aux behind [] ≡ start_code long ++ rest
    → find_another_start (suc (suc (suc (suc room)))) start (255 ∷ buff) nalu (at_end behind)
      ≡ finish start
          (length (start_code long))
          (reverse_aux (start_code long) (255 ∷ buff))
          (copy_nalu start (length (255 ∷ buff) - start - 1) (255 ∷ buff))
          (reading (reverse_aux (start_code long) []) rest)
unfolding find_another_start
wraps true room start nalu rest behind buff e = rw e (ground arith)
wraps false room start nalu rest behind buff e = rw e (ground arith)
