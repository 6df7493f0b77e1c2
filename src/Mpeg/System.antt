-- ===== src/Mpeg/System.antt =====
-- mediainfo/read_MPEGSYSTEM_utils.c and include/fenice/mpeg_system.h: the headers of an MPEG system
-- stream, read byte by byte out of the file into the buffer of the packet.
pub mod Head
pub mod Section
pub mod Search
pub mod Stamp
pub mod Pack
pub mod Stamped
pub mod Sections
pub mod Endless
use fenice_1_12_with_h.Prelude.{
  ℕ, zero, suc, ◌+◌, ◌-◌, ◌*◌, ◌/◌, ◌%◌, ◌^◌, Bool, true, false, ◌&&◌, ◌||◌, not, List, [], ◌∷◌,
  ◌++◌, Option, none, some, ◌==◌, ltb, if◌then◌else◌, length,
}
use fenice_1_12_with_h.Mpeg.{next_start_code}

-- A time of 33 bits: the highest one stands alone.
pub record Scr : Type 0 where
  pub msb : ℕ
  pub scr : ℕ

pub record Pts : Type 0 where
  pub msb : ℕ
  pub pts : ℕ

-- The bytes that `*buf_size` counts in `buf`, and the bytes of the file that are not yet read.
pub record Input : Type 0 where
  pub buf : List ℕ
  pub unread : List ℕ

-- The call read(fin, &buf[*buf_size], 1), with the count moved on, whatever read returns: at the end of
-- the file the byte is the one that `buf` already holds there, `old (*buf_size)`. A read of two bytes
-- is two of these.
abbrev pub read_byte_of : (ℕ → ℕ) → List ℕ → List ℕ → ℕ × Input
read_byte_of old buf [] =
    (old (length buf), record { buf = buf ++ old (length buf) ∷ []; unread = [] })
read_byte_of old buf (b ∷ file) = (b, record { buf = buf ++ b ∷ []; unread = file })

abbrev pub read_byte : (ℕ → ℕ) → Input → ℕ × Input
read_byte old i = read_byte_of old i.buf i.unread

-- What a call of next_start_code adds to the `int` count, as a number of 32 bits: -1 where it fails.
abbrev pub code_result : Option ℕ → ℕ
code_result none = 2 ^ 32 - 1
code_result (some n) = n

abbrev pub search_code_in : Input → ℕ × Input
search_code_in i =
    let c = next_start_code i.buf i.unread in
    (code_result c.result, record { buf = c.buf; unread = c.unread })

-- The bits of a byte that a time takes: two of the first one, and eight or seven of the others.
abbrev pub two_bits : ℕ → List ℕ
two_bits b = b / 2 ^ 2 % 2 ∷ b / 2 % 2 ∷ []

abbrev pub seven_bits : ℕ → List ℕ
seven_bits b =
    b / 2 ^ 7 % 2
    ∷ b / 2 ^ 6 % 2
    ∷ b / 2 ^ 5 % 2
    ∷ b / 2 ^ 4 % 2
    ∷ b / 2 ^ 3 % 2
    ∷ b / 2 ^ 2 % 2
    ∷ b / 2 % 2
    ∷ []

abbrev pub eight_bits : ℕ → List ℕ
eight_bits b = seven_bits b ++ b % 2 ∷ []

-- The loop that shifts the 32 bits of vett_scr, vett_pts or vett_dts into a time, which it does not set
-- to 0 first.
unfoldable pub shift_in : ℕ → List ℕ → ℕ
shift_in t [] = t
shift_in t (b ∷ bits) = shift_in ((t * 2 + b) % 2 ^ 32) bits

-- The bit `msb` and the 32 others of a time whose first byte is `b`: four more bytes are read.
pub record Times : Type 0 where
  pub msb : ℕ
  pub vett : List ℕ
  pub input : Input

unfoldable pub read_time : (ℕ → ℕ) → ℕ → Input → Times
read_time old b i =
    let (c, i2) = read_byte old i in
    let (d, i3) = read_byte old i2 in
    let (e, i4) = read_byte old i3 in
    let (f, i5) = read_byte old i4 in
    record {
      msb = b / 2 ^ 3 % 2;
      vett = two_bits b ++ eight_bits c ++ seven_bits d ++ eight_bits e ++ seven_bits f;
      input = i5;
    }

-- What read_pack_head returns and leaves.
pub record PackHead : Type 0 where
  pub count : ℕ
  pub final_byte : ℕ
  pub scr : Scr
  pub input : Input

-- The part behind the time: the search of the next code, and of one more behind a system header; the
-- byte of that second code is not counted.
unfoldable pub pack_end : (ℕ → ℕ) → ℕ → Input → ℕ × ℕ × Input
pack_end old count i =
    let (n, i2) = search_code_in i in
    let (code, i3) = read_byte old i2 in
    let total = (count + n + 1) % 2 ^ 32 in
    let (m, i4) = search_code_in i3 in
    let (next, i5) = read_byte old i4 in
    if code == 187 then ((total + m) % 2 ^ 32, next, i5) else (total, code, i3)

unfoldable pub read_pack_head : (ℕ → ℕ) → Scr → Input → PackHead
read_pack_head old scr i =
    let (b, i2) = read_byte old i in
    let t = read_time old b i2 in
    let (count, code, i3) = pack_end old 5 t.input in
    record {
      count = count;
      final_byte = code;
      scr = record { msb = t.msb; scr = shift_in scr.scr t.vett };
      input = i3;
    }
