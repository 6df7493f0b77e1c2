-- ===== src/Mpeg/System/Section.antt =====
-- mediainfo/read_MPEGSYSTEM_utils.c: read_packet, which reads on to the end of a packet.
use fenice_1_12_with_h.Prelude.{
  ℕ, zero, suc, ◌+◌, ◌%◌, ◌^◌, Option, none, some, ◌==◌, ltb, if◌then◌else◌,
}
use fenice_1_12_with_h.Mpeg.System.{Input, read_byte, search_code_in}

-- What read_packet returns and leaves.
pub record PacketEnd : Type 0 where
  pub count : ℕ
  pub final_byte : ℕ
  pub input : Input

-- The body of the loop of read_packet: a code, its number, and two bytes more of a picture.
unfoldable pub read_section : (ℕ → ℕ) → ℕ → Input → PacketEnd
read_section old count i =
    let (n, i2) = search_code_in i in
    let (code, i3) = read_byte old i2 in
    let (b, i4) = read_byte old i3 in
    let (c, i5) = read_byte old i4 in
    if code == 0
    then record { count = (count + n + 2) % 2 ^ 32; final_byte = code; input = i5 }
    else record { count = (count + n) % 2 ^ 32; final_byte = code; input = i3 }

-- read_packet from the count it has; `none` where the fuel, which counts the codes, is at its end.
unfoldable pub read_packet : ℕ → (ℕ → ℕ) → ℕ → Input → Option PacketEnd
read_packet zero old count i = none
read_packet (suc fuel) old count i =
    let s = read_section old count i in
    let rest = read_packet fuel old s.count s.input in if ltb s.final_byte 185 then rest else some s
