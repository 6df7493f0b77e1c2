-- ===== src/H264/Receive.antt =====
-- A receiver of RFC 6184, which puts the packets of one unit together.
use fenice_1_12_with_h.Prelude.{
  ℕ, ◌+◌, ◌*◌, ◌/◌, ◌%◌, ◌<◌, ◌≡◌, ◌&&◌, List, [], ◌∷◌, ◌++◌, Option, none, some, ◌==◌,
  if◌then◌else◌, length, arith,
}
use fenice_1_12_with_h.H264.File.{Bytes}
use fenice_1_12_with_h.H264.Read.{fu_indicator, fu_header, type_fu_a}

abbrev pub alone : Bytes → List Bytes → Option Bytes
alone xs [] = some xs
alone xs (p ∷ ps) = none

abbrev pub before : Bytes → Option Bytes → Option Bytes
before xs none = none
before xs (some ys) = some (xs ++ ys)

-- The bytes of the unit behind its first packet: each further packet has the same indicator and the
-- same type, and no start bit; the last one, and no other, has the end bit.
abbrev pub receive_rest : ℕ → ℕ → List Bytes → Option Bytes
receive_rest ind type ((a ∷ b ∷ xs) ∷ ps) =
    let rest = receive_rest ind type ps in
    if a == ind && (b % 32 == type && b / 128 % 2 == 0)
    then (if b / 64 % 2 == 1 then alone xs ps else before xs rest)
    else none
receive_rest ind type _ = none

-- RFC 6184: a unit in one packet is the payload itself; the header of a unit in packets of type FU-A
-- is made from the first three bits of the indicator and the type in the second byte.
abbrev pub receive : List Bytes → Option Bytes
receive ((a ∷ b ∷ xs) ∷ ps) =
    if a % 32 == type_fu_a
    then (if b / 128 % 2 == 1 && b / 64 % 2 == 0
        then before ((a / 32 * 32 + b % 32) ∷ xs) (receive_rest a (b % 32) ps)
        else none)
    else alone (a ∷ b ∷ xs) ps
receive _ = none

pub receive-one :
    (a : ℕ) (xs : Bytes) → 0 < length xs → a % 32 < 24 → receive ((a ∷ xs) ∷ []) ≡ some (a ∷ xs)
receive-one a [] h lt = absurd (omega arith)
receive-one a (x ∷ xs) h lt = ground arith

pub receive-many :
    (type nri f : ℕ) (xs ys : Bytes) (ps : List Bytes)
    → type < 24
    → nri < 4
    → f % 2 ≡ 0
    → receive_rest (fu_indicator type_fu_a nri f) type ps ≡ some ys
    → receive ((fu_indicator type_fu_a nri f ∷ fu_header type 0 1 ∷ xs) ∷ ps)
      ≡ some ((nri * 32 + type) ∷ (xs ++ ys))
receive-many type nri f xs ys ps lt le even rest =
    let bits : fu_header type 0 1 % 32 ≡ type = omega arith in
    let head : fu_indicator type_fu_a nri f / 32 * 32 + type ≡ nri * 32 + type = omega arith in
    rw (bits, rest, head) (ground arith)
