-- ===== src/H264/Read.antt =====
-- mediainfo/read_h264.c: init_static_h264 and read_h264, which makes the payload of one RTP packet.
use fenice_1_12_with_h.Prelude.{
  ℕ, ◌+◌, ◌*◌, ◌/◌, ◌%◌, Bool, true, false, ◌∷◌, Option, none, some, ltb, leb, ◌==◌, if◌then◌else◌,
  take, drop,
}
use fenice_1_12_with_h.Prelude.Codes.{Code, err_noerror, err_eof}
use fenice_1_12_with_h.H264.File.{Bytes, Stream}
use fenice_1_12_with_h.H264.Nalu.{Nalu, Outcome, overrun, returned, get_one_nalu_payload}

-- static_h264; `sharding_packet` is 0 for H264_NOT_SHARDING.
pub record Static : Type 0 where
  pub sharding_packet : ℕ
  pub f : Stream
  pub n : Nalu
  pub packet_num : ℕ
  pub last_packet_byte : ℕ
  pub current_packet : ℕ

-- The media entry: `stat` is `none` as long as ME_FD is not set, and `h264_time` counts the steps of
-- 1000 / frame_rate.
pub record H264Entry : Type 0 where
  pub stat : Option Static
  pub h264_time : ℕ

-- What the system answers when the media is opened: the negative code of mediaopen, or the file and
-- the memory that malloc gives for the static data.
pub data Opening : Type 0 where
  refused : Code → Opening
  opened : Stream → Static → Opening

-- init_static_h264: of the memory only `f` is set.
abbrev pub init_static_h264 : Stream → Static → Static
init_static_h264 f fresh = record fresh { f = f }

-- A call that returned: its code, the entry, and through the pointers the bytes of the packet (as
-- many as `*data_size` says), `*mtime`, `*recallme` and `*marker`.
pub record H264Packet : Type 0 where
  pub payload : Bytes
  pub mtime : ℕ
  pub recallme : Bool
  pub marker : ℕ

pub data ReadResult : Type 0 where
  out_of_bounds : ReadResult
  failed : Code → H264Entry → ReadResult
  packet : H264Packet → H264Entry → ReadResult

-- UDP_MAX_SIZE and TYPE_FU_A
abbrev pub udp_max_size : ℕ
udp_max_size = 1400

abbrev pub type_fu_a : ℕ
type_fu_a = 28

-- The bit fields of FU_indicator and FU_header, the lowest first: type:5, nri:2, f:1 and type:5,
-- r:1, e:1, s:1.
abbrev pub fu_indicator : ℕ → ℕ → ℕ → ℕ
fu_indicator type nri f = type % 32 + nri % 4 * 32 + f % 2 * 128

abbrev pub fu_header : ℕ → ℕ → ℕ → ℕ
fu_header type e s = type % 32 + e % 2 * 64 + s % 2 * 128

-- One packet of type FU-A, with `size` bytes from `from` on.
abbrev pub fragment : Nalu → ℕ → ℕ → ℕ → ℕ → Bytes
fragment n e s from size =
    fu_indicator type_fu_a (n.nal_reference_idc / 32) n.forbidden_bit
    ∷ fu_header n.nal_unit_type e s
    ∷ take size (drop from n.buf)

-- What is done with a unit that was just read.
unfoldable pub first_packet : Static → ℕ → ReadResult
first_packet s time =
    let n = s.n in
    if n.len == 0
    then failed err_eof (record { stat = some s; h264_time = time })
    else if leb n.len udp_max_size
    then packet
        (record {
          payload =
              fu_indicator n.nal_unit_type (n.nal_reference_idc / 32) n.forbidden_bit
              ∷ take n.len n.buf;
          mtime = time + 1;
          recallme = false;
          marker = 1;
        })
        (record { stat = some (record s { sharding_packet = 0 }); h264_time = time + 1 })
    else packet
        (record {
          payload = fragment n 0 1 0 udp_max_size;
          mtime = time + 1;
          recallme = true;
          marker = 0;
        })
        (record {
          stat = some (record s {
            sharding_packet = 1;
            packet_num = n.len / udp_max_size;
            last_packet_byte = n.len % udp_max_size;
            current_packet = 1;
          });
          h264_time = time + 1;
        })

-- A further packet of the unit that was read before.
unfoldable pub next_packet : Static → ℕ → ReadResult
next_packet s time =
    let from = s.current_packet * 1400 in
    if ltb s.current_packet s.packet_num
    then packet
        (record {
          payload = fragment s.n 0 0 from udp_max_size;
          mtime = time;
          recallme = true;
          marker = 0;
        })
        (record {
          stat = some (record s { current_packet = s.current_packet + 1 });
          h264_time = time;
        })
    else if s.current_packet == s.packet_num
    then packet
        (record {
          payload = fragment s.n 1 0 from s.last_packet_byte;
          mtime = time;
          recallme = true;
          marker = 1;
        })
        (record { stat = some (record s { sharding_packet = 0 }); h264_time = time })
    else failed err_eof (record { stat = some s; h264_time = time })

-- `s->f` and `s->n` once get_one_NALU_payload was called.
abbrev pub first_read : Outcome → Static → ℕ → ReadResult
first_read overrun s time = out_of_bounds
first_read (returned err_noerror n f) s time = first_packet (record s { n = n; f = f }) time
first_read (returned code n f) s time =
    failed err_eof (record { stat = some (record s { n = n; f = f }); h264_time = time })

abbrev pub read_from : Static → ℕ → ReadResult
read_from s time =
    if s.sharding_packet == 0
    then first_read (get_one_nalu_payload s.n s.f) s time
    else next_packet s time

abbrev pub read_opened : Opening → Option Static → H264Entry → ReadResult
read_opened answer (some s) e = read_from s e.h264_time
read_opened (refused code) none e = failed code e
read_opened (opened f fresh) none e = read_from (init_static_h264 f fresh) e.h264_time

unfoldable pub read_h264 : Opening → H264Entry → ReadResult
unfolding first_packet next_packet
read_h264 answer e = read_opened answer e.stat e
