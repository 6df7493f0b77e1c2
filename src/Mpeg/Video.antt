-- ===== src/Mpeg/Video.antt =====
-- mediainfo/read_MPEG_utils.c and include/fenice/mpeg.h: the headers of an MPEG video stream.
pub mod Extra
pub mod Time
pub mod Coding
pub mod Extension
use fenice_1_12_with_h.Prelude.{
  ℕ, zero, suc, ◌+◌, ◌-◌, ◌*◌, ◌/◌, ◌%◌, ◌^◌, Bool, true, false, ◌&&◌, ◌||◌, not, List, [], ◌∷◌,
  ◌++◌, ◌==◌, ltb, if◌then◌else◌, get_or,
}
use fenice_1_12_with_h.Mpeg.System.{Input, read_byte, search_code_in}

pub data Standard : Type 0 where
  mpeg_1 mpeg_2 to_probe : Standard

abbrev pub is_mpeg_1 : Standard → Bool
is_mpeg_1 mpeg_1 = true
is_mpeg_1 mpeg_2 = false
is_mpeg_1 to_probe = false

-- The bit fields of video_spec_head1 and video_spec_head2.
pub record Head1 : Type 0 where
  pub mbz : ℕ
  pub t : ℕ
  pub tr : ℕ
  pub an : ℕ
  pub n : ℕ
  pub s : ℕ
  pub b : ℕ
  pub e : ℕ
  pub p : ℕ
  pub fbv : ℕ
  pub bfc : ℕ
  pub ffv : ℕ
  pub ffc : ℕ

pub record Head2 : Type 0 where
  pub x : ℕ
  pub e : ℕ
  pub f00 : ℕ
  pub f01 : ℕ
  pub f10 : ℕ
  pub f11 : ℕ
  pub dc : ℕ
  pub ps : ℕ
  pub t : ℕ
  pub p : ℕ
  pub c : ℕ
  pub q : ℕ
  pub v : ℕ
  pub a : ℕ
  pub r : ℕ
  pub h : ℕ
  pub g : ℕ
  pub d : ℕ

-- The next code and its number: the `int` count, as a number of 32 bits, takes what next_start_code
-- returns and four.
abbrev pub next_code : (ℕ → ℕ) → ℕ → Input → ℕ × ℕ × Input
next_code old count i =
    let (n, i2) = search_code_in i in
    let (code, i3) = read_byte old i2 in ((count + n + 4) % 2 ^ 32, code, i3)

-- The end of three of the functions: the next code, and in MPEG-1 the one behind an extension and the
-- one behind user data.
unfoldable pub after_code : (ℕ → ℕ) → ℕ → ℕ → ℕ → Input → ℕ × ℕ × Input
after_code old wanted count code i =
    let (total, next, i2) = next_code old count i in
    if code == wanted then (total, next, i2) else (count, code, i)

unfoldable pub video_end : (ℕ → ℕ) → Standard → ℕ → Input → ℕ × ℕ × Input
video_end old std count i =
    let (total, code, i2) = next_code old count i in
    let (total2, code2, i3) = after_code old 181 total code i2 in
    let (total3, code3, i4) = after_code old 178 total2 code2 i3 in
    if is_mpeg_1 std then (total3, code3, i4) else (total, code, i2)

-- What read_gop_head returns and leaves.
pub record GopHead : Type 0 where
  pub count : ℕ
  pub final_byte : ℕ
  pub hours : ℕ
  pub minutes : ℕ
  pub seconds : ℕ
  pub picture : ℕ
  pub input : Input

unfoldable pub read_gop_head : (ℕ → ℕ) → Standard → Input → GopHead
read_gop_head old std i =
    let (byte1, i1) = read_byte old i in
    let (byte2, i2) = read_byte old i1 in
    let (byte3, i3) = read_byte old i2 in
    let (byte4, i4) = read_byte old i3 in
    let (count, code, i5) = video_end old std 4 i4 in
    record {
      count = count;
      final_byte = code;
      hours = byte1 / 2 ^ 2 % 2 ^ 5;
      minutes = byte1 % 2 ^ 2 * 2 ^ 4 + byte2 / 2 ^ 4 % 2 ^ 4;
      seconds = byte2 % 2 ^ 3 * 2 ^ 3 + byte3 / 2 ^ 5 % 2 ^ 3;
      picture = byte3 % 2 ^ 5 * 2 + byte4 / 2 ^ 7 % 2;
      input = i5;
    }

-- What read_picture_head returns and leaves.
pub record PictureHead : Type 0 where
  pub count : ℕ
  pub final_byte : ℕ
  pub temp_ref : ℕ
  pub vsh1 : Head1
  pub input : Input

-- A `char`, which is signed, in a bit field of ten bits; it stands here as its eight bits.
abbrev pub char_in_10 : ℕ → ℕ
char_in_10 c = if ltb c 128 then c else c + 768

-- The fields of a picture of type P or B, 2 or 3, whose bytes are read three further.
unfoldable pub motion : (ℕ → ℕ) → ℕ → Head1 → Input → ℕ × Head1 × Input
motion old count vsh1 i =
    let (skipped, i1) = read_byte old i in
    let (byte3, i2) = read_byte old i1 in
    let (byte4, i3) = read_byte old i2 in
    if vsh1.p == 2 || vsh1.p == 3
    then (
      count + 3,
      record vsh1 {
        ffv = byte3 / 2 ^ 2 % 2;
        ffc = byte3 % 2 ^ 2 * 2 + byte4 / 2 ^ 7 % 2;
        fbv = if vsh1.p == 3 then byte4 / 2 ^ 6 % 2 else 0;
        bfc = if vsh1.p == 3 then byte4 / 2 ^ 3 % 2 ^ 3 else 0;
      },
      i3,
    )
    else (count, record vsh1 { ffv = 0; ffc = 0; fbv = 0; bfc = 0 }, i)

unfoldable pub read_picture_head : (ℕ → ℕ) → Standard → Head1 → Input → PictureHead
read_picture_head old std vsh1 i =
    let (byte1, i1) = read_byte old i in
    let (byte2, i2) = read_byte old i1 in
    let temp_ref : ℕ = (byte1 * 4 + byte2 / 2 ^ 6 % 2 ^ 2) % 2 ^ 8 in
    let (count, head, i3) =
      motion old 2 (record vsh1 { p = byte2 / 2 ^ 3 % 2 ^ 3; tr = char_in_10 temp_ref }) i2 in
    let (total, code, i4) = video_end old std count i3 in
    record { count = total; final_byte = code; temp_ref = temp_ref; vsh1 = head; input = i4 }

-- What read_picture_coding_ext returns and leaves.
pub record CodingExt : Type 0 where
  pub count : ℕ
  pub final_byte : ℕ
  pub vsh2 : Head2
  pub input : Input

-- A field that is set to 1 where its bit is, and else left.
abbrev pub set_where : ℕ → ℕ → ℕ
set_where bit field = if bit == 1 then 1 else field

unfoldable pub read_picture_coding_ext : (ℕ → ℕ) → Head2 → Input → CodingExt
read_picture_coding_ext old vsh2 i =
    let (byte1, i1) = read_byte old i in
    let (byte2, i2) = read_byte old i1 in
    let (byte3, i3) = read_byte old i2 in
    let (byte4, i4) = read_byte old i3 in
    let (byte5, i5) = read_byte old i4 in
    let (count, code, i6) = next_code old 5 i5 in
    record {
      count = count;
      final_byte = code;
      vsh2 = record {
        x = 0;
        e = 0;
        f00 = byte1 % 2 ^ 4;
        f01 = byte2 / 2 ^ 4 % 2 ^ 4;
        f10 = byte2 % 2 ^ 4;
        f11 = byte3 / 2 ^ 4 % 2 ^ 4;
        dc = byte3 / 2 ^ 2 % 2 ^ 2;
        ps = byte3 % 2 ^ 2;
        t = set_where (byte4 / 2 ^ 7 % 2) 0;
        p = set_where (byte4 / 2 ^ 6 % 2) vsh2.p;
        c = set_where (byte4 / 2 ^ 5 % 2) vsh2.c;
        q = set_where (byte4 / 2 ^ 4 % 2) 0;
        v = set_where (byte4 / 2 ^ 3 % 2) vsh2.v;
        a = set_where (byte4 / 2 ^ 2 % 2) vsh2.a;
        r = set_where (byte4 / 2 % 2) vsh2.r;
        h = set_where (byte4 % 2) vsh2.h;
        g = set_where (byte5 / 2 ^ 7 % 2) vsh2.g;
        d = 0;
      };
      input = i6;
    }
