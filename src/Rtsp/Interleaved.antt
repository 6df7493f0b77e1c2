-- ===== src/Rtsp/Interleaved.antt =====
-- Packets that are interleaved with the requests.
use fenice_1_12_with_h.Prelude.{
  ℕ, suc, ◌+◌, ◌*◌, ◌<◌, ◌≤◌, ◌≡◌, refl, ap, ◌∙◌, true, false, List, [], ◌∷◌, none, some, ltb, ◌==◌,
  arith,
}
use fenice_1_12_with_h.Rtsp.Buffer.{RtspBuffer}
use fenice_1_12_with_h.Rtsp.Message.{interlvd_rcvd, full_msg_rcvd}
use fenice_1_12_with_h.Rtsp.Handler.{
  Channels, wrapped, deliver, discard_msg, discarded, turn_of, rtsp_handler,
}

abbrev pub body_length : RtspBuffer → ℕ
body_length r = r.in_buffer 2 * 256 + r.in_buffer 3

full_msg_rcvd-dollar :
    (fuel : ℕ) (r : RtspBuffer)
    → r.in_buffer 0 ≡ b'$'
    → body_length r ≤ r.in_size
    → full_msg_rcvd fuel r ≡ some (interlvd_rcvd 4 (body_length r))
unfolding full_msg_rcvd
full_msg_rcvd-dollar fuel r dollar le = ground (arith, dollar, le)

-- A packet that is interleaved with the requests is taken as complete from the moment on that its
-- body alone would fit the input. While some of its last four bytes are missing, the handler
-- delivers it, with bytes from behind the input, and then removes more than there is, so that the
-- size of the input wraps around.
pub rtsp_handler-wraps :
    (fuel : ℕ) (cs : List Channels) (r : RtspBuffer)
    → 0 < r.in_size
    → r.in_buffer 0 ≡ b'$'
    → body_length r ≤ r.in_size
    → r.in_size < body_length r + 4
    → rtsp_handler (suc fuel) cs r
      ≡ some (record {
        ending = wrapped;
        events = deliver cs (r.in_buffer 1) 4 (body_length r) r 0 ∷ [];
        rtsp = r;
      })
unfolding rtsp_handler
rtsp_handler-wraps fuel cs r pos dollar le lt =
    let busy : (r.in_size == 0) ≡ false = ground (arith, pos) in
    let short : ltb r.in_size (4 + body_length r) ≡ true = ground (arith, lt) in
    let e = deliver cs (r.in_buffer 1) 4 (body_length r) r 0 in
    let gone : discard_msg r (interlvd_rcvd 4 (body_length r)) ≡ none = rw short refl in
    rw busy (
      ap (turn_of (rtsp_handler fuel cs) cs r) (full_msg_rcvd-dollar _ r dollar le)
      ∙ ap (discarded (rtsp_handler fuel cs) e r) gone)
