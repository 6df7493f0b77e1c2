-- ===== src/Rtsp/Handler.antt =====
-- rtsp/RTSP_handler.c and RTSP_discard_msg.c: the messages of the input, one after the other.
use fenice_1_12_with_h.Prelude.{
  ℕ, zero, suc, ◌+◌, Bool, true, false, ◌&&◌, ◌||◌, List, [], ◌∷◌, Option, none, some, ltb, leb,
  ◌==◌, if◌then◌else◌,
}
use fenice_1_12_with_h.Rtsp.Buffer.{RtspBuffer, buffer_size, bytes_from, rtsp_remove_msg}
use fenice_1_12_with_h.Rtsp.Message.{MsgRcvd, method_rcvd, interlvd_rcvd, full_msg_rcvd}
use fenice_1_12_with_h.Rtsp.Method.{Verdict, is_overflow, c_string, verdict}

-- The channels of a session, `transport.u.tcp.interleaved`.
pub record Channels : Type 0 where
  pub rtp : ℕ
  pub rtcp : ℕ

-- What is done with a message: a text is taken for what its verdict says, and is then answered, given
-- to RTSP_state_machine, or passed over; a packet of RTCP is copied to the session with this index,
-- and given to RTCP_recv_packet.
pub data Event : Type 0 where
  text : Verdict → List ℕ → Event
  unknown_channel : Event
  rtp_packet : ℕ → Event
  rtcp_packet : ℕ → List ℕ → Event
  rtcp_too_big : ℕ → Event

-- RTCP_BUFFERSIZE
abbrev pub rtcp_buffersize : ℕ
rtcp_buffersize = 1024

-- `m`, the byte `m` of the input as a `char`, which is signed: from 128 on it is negative, and no
-- channel.
abbrev pub is_channel : ℕ → ℕ → Bool
is_channel m channel = ltb m 128 && channel == m

-- The loop over the sessions, and what follows for a packet on channel `m`. The copy takes
-- `hlen + blen` bytes from behind the header, of which `blen` count.
unfoldable pub deliver : List Channels → ℕ → ℕ → ℕ → RtspBuffer → ℕ → Event
deliver [] m hlen blen r i = unknown_channel
deliver (c ∷ cs) m hlen blen r i =
    let rest = deliver cs m hlen blen r (i + 1) in
    if is_channel m c.rtp || is_channel m c.rtcp
    then (if is_channel m c.rtcp
        then (if leb (hlen + blen) rtcp_buffersize
            then rtcp_packet i (bytes_from r.in_buffer hlen blen)
            else rtcp_too_big i)
        else rtp_packet i)
    else rest

-- How the handler ends: ERR_NOERROR with an empty input; the value of RTSP_full_msg_rcvd; the removal
-- of more than the input holds, where `in_size` wraps around; or the overflow of `trash`, behind which
-- C leaves everything undefined.
pub data Ending : Type 0 where
  no_error : Ending
  not_whole : MsgRcvd → Ending
  wrapped : Ending
  undefined : Ending

pub record Handled : Type 0 where
  pub ending : Ending
  pub events : List Event
  pub rtsp : RtspBuffer

-- What the handler takes the text at the start of the input for, which sscanf reads up to a NUL; where there is
-- none in the array, the text ends with the array here.
unfoldable pub verdict_of : RtspBuffer → Verdict
unfolding c_string verdict
verdict_of r = verdict (c_string buffer_size r.in_buffer 0)

abbrev pub event_of : List Channels → RtspBuffer → MsgRcvd → Option Event
event_of cs r (method_rcvd hlen blen) =
    some (text (verdict_of r) (bytes_from r.in_buffer 0 (hlen + blen)))
event_of cs r (interlvd_rcvd hlen blen) = some (deliver cs (r.in_buffer 1) hlen blen r 0)
event_of cs r m = none

-- RTSP_discard_msg: `none` where more is removed than there is.
abbrev pub discard_msg : RtspBuffer → MsgRcvd → Option RtspBuffer
discard_msg r (method_rcvd hlen blen) =
    if ltb r.in_size (hlen + blen) then none else some (rtsp_remove_msg (hlen + blen) r)
discard_msg r (interlvd_rcvd hlen blen) =
    if ltb r.in_size (hlen + blen) then none else some (rtsp_remove_msg (hlen + blen) r)
discard_msg r m = some r

abbrev pub cons_event : Event → Option Handled → Option Handled
cons_event e none = none
cons_event e (some h) = some (record h { events = e ∷ h.events })

abbrev pub discarded :
    (RtspBuffer → Option Handled) → Event → RtspBuffer → Option RtspBuffer → Option Handled
discarded next e r none = some (record { ending = wrapped; events = e ∷ []; rtsp = r })
discarded next e r (some r') = cons_event e (next r')

abbrev pub overflows : RtspBuffer → MsgRcvd → Bool
overflows r (method_rcvd hlen blen) = is_overflow (verdict_of r)
overflows r m = false

abbrev pub done_with :
    (RtspBuffer → Option Handled) → Event → RtspBuffer → MsgRcvd → Bool → Option Handled
done_with next e r m true = some (record { ending = undefined; events = e ∷ []; rtsp = r })
done_with next e r m false = discarded next e r (discard_msg r m)

abbrev pub turn :
    (RtspBuffer → Option Handled) → List Channels → RtspBuffer → MsgRcvd → Option Handled
turn next cs r m = elim (event_of cs r m) [
  | none ↦ some (record { ending = not_whole m; events = []; rtsp = r })
  | some e ↦ done_with next e r m (overflows r m)
]

abbrev pub turn_of :
    (RtspBuffer → Option Handled) → List Channels → RtspBuffer → Option MsgRcvd → Option Handled
turn_of next cs r none = none
turn_of next cs r (some m) = turn next cs r m

-- RTSP_handler: `none` when the fuel ends.
unfoldable pub rtsp_handler : ℕ → List Channels → RtspBuffer → Option Handled
rtsp_handler zero cs r = none
rtsp_handler (suc fuel) cs r =
    let rest = turn_of (rtsp_handler fuel cs) cs r (full_msg_rcvd (r.in_size + 2) r) in
    if r.in_size == 0 then some (record { ending = no_error; events = []; rtsp = r }) else rest
