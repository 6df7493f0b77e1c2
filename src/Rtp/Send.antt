-- ===== src/Rtp/Send.antt =====
-- rtp/RTP_send_packet.c and mediainfo/msec2tick.c: the packets that wait for a session, and their
-- RTP headers.
pub mod Header
pub mod Burst
pub mod Sent
pub mod Delay
use fenice_1_12_with_h.Prelude.{
  ℕ, zero, suc, ◌+◌, ◌-◌, ◌*◌, ◌/◌, ◌%◌, ◌^◌, Bool, true, false, not, ◌&&◌, List, [], ◌∷◌, ◌++◌,
  Option, none, some, ◌==◌, if◌then◌else◌, length, take,
}
use fenice_1_12_with_h.Prelude.Codes.{Code, err_noerror}
use fenice_1_12_with_h.BufferPool.{Bytes, Slot, Buffer, Consumer, getreader, gotreader, nextts}

-- The fields of the session and of its media that are used. Times are in milliseconds, whole
-- numbers here; `clock_rate` is `none` without MED_CLOCK_RATE.
pub record RtpSession : Type 0 where
  pub start_seq : ℕ
  pub start_rtptime : ℕ
  pub ssrc : ℕ
  pub payload_type : ℕ
  pub clock_rate : Option ℕ
  pub mtime : ℕ
  pub mstart : ℕ
  pub mstart_offset : ℕ
  pub delta_mtime : ℕ
  pub pkt_len : ℕ
  pub pkt_count : ℕ
  pub octet_count : ℕ
  pub cons : Consumer

-- msec2tick, as a number of 32 bits; ERR_GENERIC is -1.
abbrev pub msec2tick : ℕ → Option ℕ → ℕ
msec2tick mtime none = 2 ^ 32 - 1
msec2tick mtime (some rate) = rate * mtime / 1000 % 2 ^ 32

-- `n` bytes in network order, of which the source stores 2 or 4.
abbrev pub net16 : ℕ → Bytes
net16 n = n / 256 % 256 ∷ n % 256 ∷ []

abbrev pub net32 : ℕ → Bytes
net32 n = n / 16777216 % 256 ∷ n / 65536 % 256 ∷ n / 256 % 256 ∷ n % 256 ∷ []

abbrev pub first_time : Consumer → ℕ
first_time c = elim c.firstts [ none ↦ 2 ^ 32 - 1 | some t ↦ t % 2 ^ 32 ]

-- The RTP_header: version 2, the marker and the payload type, and the numbers of the packet. C leaves
-- the conversion of a double to a `uint32` undefined out of range; it is taken modulo 2 ^ 32 here, as
-- compilers for x86-64 have it.
unfoldable pub rtp_header : RtpSession → Slot → Bytes
rtp_header s slot =
    128
    ∷ (s.payload_type % 128 + slot.marker % 2 * 128)
    ∷ (net16 ((slot.slot_seq + s.start_seq + 2 ^ 32 - 1) % 2 ^ 16)
        ++ (net32 (
              (s.start_rtptime + msec2tick slot.timestamp s.clock_rate + 2 ^ 32 - first_time s.cons)
              % 2 ^ 32)
            ++ net32 (s.ssrc % 2 ^ 32)))

abbrev pub rtp_packet : RtpSession → Slot → Bytes
rtp_packet s slot = rtp_header s slot ++ take slot.data_size slot.payload

-- What is handed to RTP_sendto, and the state behind it.
pub record Sending : Type 0 where
  pub packets : List Bytes
  pub session : RtpSession
  pub buffer : Buffer

-- The counters, where RTP_sendto sent the packet.
abbrev pub count_sent : Bool → Slot → RtpSession → RtpSession
count_sent true slot s = record s {
  pkt_count = (s.pkt_count + 1) % 2 ^ 32;
  octet_count = (s.octet_count + slot.data_size) % 2 ^ 32;
}
count_sent false slot s = s

-- OMSbuff_gotreader, whose result is not looked at.
abbrev pub got : Option (Consumer × Buffer) → RtpSession → Buffer → RtpSession × Buffer
got none s b = (s, b)
got (some (c, b')) s b = (record s { cons = c }, b')

-- Whether the next packet goes out in this call: `nextts - firstts` is `s_time`, and is not -1, the
-- value for none. `at` is `s_time + firstts`.
abbrev pub same_time : Option ℕ → Option ℕ → ℕ → Bool
same_time none first at = false
same_time (some t) none at = t == at
same_time (some t) (some f) at = t == at && not (t + 1 == f)

-- Without a further packet at this time the clock of the media goes on.
abbrev pub advance : RtpSession → RtpSession
advance s = record s {
  mtime = s.mtime + (if s.delta_mtime == 0 then s.pkt_len else s.delta_mtime);
  cons = record s.cons { frames = (s.cons.frames + 2 ^ 32 - 1) % 2 ^ 32 };
}

abbrev pub add_packet : Bytes → Option Sending → Option Sending
add_packet p none = none
add_packet p (some r) = some (record r { packets = p ∷ r.packets })

-- The end of a round, where `next` stands for the further rounds.
abbrev pub further_slot :
    (RtpSession → Buffer → ℕ → Option Sending)
    → RtpSession
    → Buffer
    → Option ℕ × Consumer
    → Option Sending
further_slot next s b (none, c) =
    some (record { packets = []; session = record s { cons = c }; buffer = b })
further_slot next s b (some j, c) = next (record s { cons = c }) b j

abbrev pub after_packet :
    (RtpSession → Buffer → ℕ → Option Sending) → ℕ → RtpSession × Buffer → Option Sending
after_packet next at (s, b) =
    if same_time (nextts b s.cons) s.cons.firstts at
    then further_slot next s b (getreader b s.cons)
    else some (record { packets = []; session = advance s; buffer = b })

-- The loop `while (slot)`; `sends` says which packets RTP_sendto sends. `none` when the fuel ends.
unfoldable pub send_slots : ℕ → (Bytes → Bool) → ℕ → RtpSession → Buffer → ℕ → Option Sending
send_slots zero sends at s b i = none
send_slots (suc fuel) sends at s b i =
    let packet = rtp_packet s (b.slots i) in
    let counted = count_sent (sends packet) (b.slots i) s in
    add_packet packet
      (after_packet (send_slots fuel sends at) at (got (gotreader b s.cons) counted b))

-- What get_frame does: an error, or a time and the buffer with the frame stored in it.
pub data GetFrame : Type 0 where
  no_frame : Code → GetFrame
  stored : ℕ → Buffer → GetFrame

pub data SendResult : Type 0 where
  failed : Code → SendResult
  sending : Option Sending → SendResult

abbrev pub start_slots :
    ℕ → (Bytes → Bool) → RtpSession → Buffer → (ℕ → ℕ) → Option ℕ × Consumer → SendResult
start_slots fuel sends s b at (none, c) =
    sending (some (record { packets = []; session = record s { cons = c }; buffer = b }))
start_slots fuel sends s b at (some i, c) =
    sending (send_slots fuel sends (at i) (record s { cons = c }) b i)

abbrev pub time_of : Option ℕ → ℕ
time_of none = 0
time_of (some f) = f

-- The time that get_frame gives is taken from `firstts` on, which OMSbuff_getreader sets.
abbrev pub frame_slots :
    ℕ → (Bytes → Bool) → RtpSession → Buffer → ℕ → Option ℕ × Consumer → SendResult
frame_slots fuel sends s b s_time (slot, c) =
    start_slots fuel sends s b (λ i. s_time + time_of c.firstts) (slot, c)

abbrev pub after_frame : ℕ → (Bytes → Bool) → RtpSession → GetFrame → SendResult
after_frame fuel sends s (no_frame code) = failed code
after_frame fuel sends s (stored s_time b) =
    let c = record s.cons { frames = (s.cons.frames + 1) % 2 ^ 32 } in
    frame_slots fuel sends (record s { cons = c }) b s_time (getreader b c)

abbrev pub from_slot :
    ℕ
    → (Bytes → Bool)
    → (ℕ → Buffer → GetFrame)
    → RtpSession
    → Buffer
    → Option ℕ × Consumer
    → SendResult
from_slot fuel sends get_frame s b (none, c) =
    after_frame fuel sends s (get_frame (s.mtime + s.mstart_offset - s.mstart) b)
from_slot fuel sends get_frame s b (some i, c) =
    start_slots fuel sends s b (λ j. (b.slots j).timestamp) (some i, c)

-- RTP_send_packet: a frame is read only where nothing waits; then the time of the packet that waits
-- is the time of this call.
unfoldable pub rtp_send_packet :
    ℕ → (Bytes → Bool) → (ℕ → Buffer → GetFrame) → RtpSession → Buffer → SendResult
unfolding send_slots
rtp_send_packet fuel sends get_frame s b = from_slot fuel sends get_frame s b (getreader b s.cons)
