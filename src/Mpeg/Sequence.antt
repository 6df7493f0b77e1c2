-- ===== src/Mpeg/Sequence.antt =====
-- mediainfo/read_MPEG_utils.c: the header of a sequence, its bit rate, and the probe of the standard.
pub mod Rate
pub mod Header
use fenice_1_12_with_h.Prelude.{
  ℕ, zero, suc, ◌+◌, ◌-◌, ◌*◌, ◌/◌, ◌%◌, ◌^◌, Bool, true, false, ◌&&◌, ◌||◌, not, List, [], ◌∷◌,
  ◌++◌, ◌==◌, ltb, if◌then◌else◌, get_or,
}
use fenice_1_12_with_h.Mpeg.System.{Input, read_byte, search_code_in}
use fenice_1_12_with_h.Mpeg.Video.{Standard, mpeg_1, mpeg_2, is_mpeg_1, next_code, video_end}

-- The loop over the bits of the rate: `x` and `tmp` are shifted, and a byte is taken when `bitcnt` is 0.
unfoldable pub bit_rate : ℕ → ℕ → ℕ → ℕ → List ℕ → ℕ
bit_rate zero x bitcnt tmp bytes = x
bit_rate (suc n) x zero tmp [] = x
bit_rate (suc n) x zero tmp (b ∷ bytes) =
    bit_rate n ((x * 2) % 2 ^ 32 + b / 2 ^ 7) 7 (b * 2 % 2 ^ 8) bytes
bit_rate (suc n) x (suc bitcnt) tmp bytes =
    bit_rate n ((x * 2) % 2 ^ 32 + tmp / 2 ^ 7) bitcnt (tmp * 2 % 2 ^ 8) bytes

-- A read of `n` bytes, and the last one of the buffer.
unfoldable pub read_bytes : (ℕ → ℕ) → ℕ → ℕ → Input → ℕ × Input
read_bytes old zero last i = (last, i)
read_bytes old (suc n) last i = let (b, i2) = read_byte old i in read_bytes old n b i2

-- What read_seq_head leaves; it always returns 1.
pub record SeqHead : Type 0 where
  pub final_byte : ℕ
  pub bitrate : ℕ
  pub input : Input

-- A quantizer matrix, where the last byte has its bit.
unfoldable pub matrix : (ℕ → ℕ) → ℕ → ℕ → Input → ℕ × Input
matrix old bit last i =
    let (b, i2) = read_bytes old 64 last i in if last / bit % 2 == 1 then (b, i2) else (last, i)

unfoldable pub read_matrices : (ℕ → ℕ) → ℕ → Input → Input
read_matrices old flags i =
    let (last, i2) = matrix old 2 flags i in let (last2, i3) = matrix old 1 last i2 in i3

unfoldable pub read_seq_head : (ℕ → ℕ) → Standard → Input → SeqHead
read_seq_head old std i =
    let (size, i1) = read_bytes old 4 0 i in
    let (b1, i2) = read_byte old i1 in
    let (b2, i3) = read_byte old i2 in
    let (b3, i4) = read_byte old i3 in
    let (b4, i5) = read_byte old i4 in
    let x : ℕ = bit_rate 18 0 0 size (b1 ∷ b2 ∷ b3 ∷ b4 ∷ []) in
    let (count, code, i6) = video_end old std 0 (read_matrices old b4 i5) in
    record { final_byte = code; bitrate = if x == 262143 then 0 else x * 400; input = i6 }

-- probe_standard, with the rate that the medium has: the standard that is found, the rate and the input.
unfoldable pub probe_standard : (ℕ → ℕ) → Standard → ℕ → Input → Standard × ℕ × Input
probe_standard old std bitrate i =
    let (count, code, i2) = next_code old 0 i in
    let s = read_seq_head old std i2 in
    let found = if code == 179 then s.final_byte else code in
    (
      if found == 181 then mpeg_2 else mpeg_1,
      if code == 179 then s.bitrate else bitrate,
      if code == 179 then s.input else i2,
    )
