-- ===== src/Rtsp/Removal.antt =====
-- What RTSP_remove_msg leaves of the bytes behind the message.
use fenice_1_12_with_h.Prelude.{ℕ, ◌+◌, ◌-◌, ◌<◌, ◌≤◌, ◌≡◌, arith}
use fenice_1_12_with_h.Rtsp.Buffer.{RtspBuffer, buffer_size, rtsp_remove_msg}

-- Of the bytes that follow a message of `len` bytes, removing it moves the first `len` to the front and
-- replaces the others by 0.
pub rtsp_remove_msg_lem :
    (len i : ℕ) (r : RtspBuffer)
    → 0 < len
    → len + i < r.in_size
    → r.in_size ≤ buffer_size
    → ((rtsp_remove_msg len r).in_size ≡ r.in_size - len)
      × (i < len → (rtsp_remove_msg len r).in_buffer i ≡ r.in_buffer (i + len))
      × (len ≤ i → (rtsp_remove_msg len r).in_buffer i ≡ 0)
unfolding rtsp_remove_msg
rtsp_remove_msg_lem len i r pos lt small =
    (ground arith, λ l. ground (arith, pos, lt, small, l), λ le. ground (arith, pos, lt, small, le))
