-- ===== src/H264/Nalu.antt =====
-- mediainfo/read_h264.c: is_start_code_3bit, is_start_code_4bit and get_one_NALU_payload.
use mathlib.Core.List.{reverse}
use fenice_1_12_with_h.Prelude.{
  ℕ, zero, suc, ◌+◌, ◌-◌, ◌*◌, ◌/◌, ◌%◌, ◌^◌, Bool, not, ◌&&◌, ◌||◌, ◌∷◌, ◌++◌, none, some, ltb,
  ◌==◌, if◌then◌else◌, length, get_or, take, drop,
}
use fenice_1_12_with_h.Prelude.Codes.{Code, err_noerror, err_not_found, err_eof}
use fenice_1_12_with_h.H264.File.{Bytes, Stream, fgetc, fread, rewound, seek_back}

abbrev pub is_start_code_3bit : ℕ → ℕ → ℕ → Bool
is_start_code_3bit a b c = a == 0 && (b == 0 && c == 1)

abbrev pub is_start_code_4bit : ℕ → ℕ → ℕ → ℕ → Bool
is_start_code_4bit a b c d = a == 0 && (b == 0 && (c == 0 && d == 1))

-- NALU_t
pub record Nalu : Type 0 where
  pub len : ℕ
  pub forbidden_bit : ℕ
  pub nal_reference_idc : ℕ
  pub nal_unit_type : ℕ
  pub buf : Bytes

-- MAX_FRAME_ZISE: the size of the local array and of `nalu->buf`
abbrev pub max_frame_size : ℕ
max_frame_size = 100000

-- What a call comes to: a return code, or an access outside the arrays, where C says nothing more.
pub data Outcome : Type 0 where
  overrun : Outcome
  returned : Code → Nalu → Stream → Outcome

-- The fields of the header byte, and `memcpy` of `len` bytes behind it; `buff` holds the bytes
-- read, the last one first.
unfoldable pub copy_nalu : ℕ → ℕ → Bytes → Nalu
copy_nalu start len buff =
    let header = get_or (drop start (reverse buff)) 0 0 in
    record {
      len = len;
      forbidden_bit = header / 128 % 2 * 128;
      nal_reference_idc = header / 32 % 4 * 32;
      nal_unit_type = header % 32;
      buf = take len (drop (start + 1) (reverse buff));
    }

-- From the next start code on: the position goes back over it.
unfoldable pub finish : ℕ → ℕ → Bytes → Nalu → Stream → Outcome
finish start back buff nalu s =
    let len = (length buff + 2 ^ 32 - start - back - 1) % 2 ^ 32 in
    elim (seek_back back s) [
      | none ↦ returned err_eof nalu s
      | some s' ↦
          if ltb max_frame_size (start + 1 + len)
          then overrun
          else returned err_noerror (copy_nalu start len buff) s'
    ]

-- The loop, by the room that is left in the array. At the end of the file the unit is stored as it
-- is and the reading goes on at the start of the file.
unfoldable pub find_another_start : ℕ → ℕ → Bytes → Nalu → Stream → Outcome
find_another_start zero start buff nalu s = overrun
find_another_start (suc room) start buff nalu s =
    let stored = if s.ended then copy_nalu start (length buff - start - 1) buff else nalu in
    let (c, s') = fgetc (if s.ended then rewound s else s) in
    let read = c ∷ buff in
    let at = λ (i : ℕ). get_or read (i - 1) 0 in
    let info4 = is_start_code_4bit (at 4) (at 3) (at 2) (at 1) in
    let info3 = not info4 && is_start_code_3bit (at 3) (at 2) (at 1) in
    let rest = find_another_start room start read stored s' in
    if info3 || info4 then finish start (if info3 then 3 else 4) read stored s' else rest

abbrev pub search_from : ℕ → Bytes → Nalu → Stream → Outcome
search_from start buff nalu s =
    find_another_start (max_frame_size - start) start (reverse buff) nalu s

unfoldable pub get_one_nalu_payload : Nalu → Stream → Outcome
get_one_nalu_payload nalu s =
    let (first, s3) = fread 3 s in
    let (more, s4) = fread 1 s3 in
    let at = λ (i : ℕ). get_or (first ++ more) i 0 in
    if not (length first == 3)
    then returned err_eof nalu s3
    else if is_start_code_3bit (at 0) (at 1) (at 2)
    then search_from 3 first nalu s3
    else if not (length more == 1)
    then returned err_eof nalu s4
    else if is_start_code_4bit (at 0) (at 1) (at 2) (at 3)
    then search_from 4 (first ++ more) nalu s4
    else returned err_not_found nalu s4
