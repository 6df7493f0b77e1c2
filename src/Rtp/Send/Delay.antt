-- ===== src/Rtp/Send/Delay.antt =====
-- RTP_send_packet on a buffer in which nothing waits, where get_frame stores a frame.
use fenice_1_12_with_h.Prelude.{
  ℕ, suc, ◌+◌, ◌-◌, ◌%◌, ◌^◌, ◌<◌, ◌≡◌, refl, ap, ◌∙◌, Bool, false, List, [], ◌∷◌, map, some, ◌==◌,
  length, All, arith,
}
use fenice_1_12_with_h.BufferPool.{Bytes, Slot, Buffer}
use fenice_1_12_with_h.BufferPool.Queue.{item, contents, IsQueue}
use fenice_1_12_with_h.BufferPool.Queue.Read.{read_empty}
use fenice_1_12_with_h.Rtp.Send.{
  RtpSession, Sending, sending, GetFrame, stored, frame_slots, after_frame, from_slot,
  rtp_send_packet,
}
use fenice_1_12_with_h.Rtp.Send.Header.{parse, seen}
use fenice_1_12_with_h.Rtp.Send.Burst.{burst, seen_from, frames-IsQueue}
use fenice_1_12_with_h.Rtp.Send.Sent.{
  first_of, counting, getreader-pending, timed-IsQueue, send_slots-IsBurst,
}

burst-later :
    (f t : ℕ) (slots : ℕ → Slot) (ps : List ℕ)
    → 0 < f
    → All (λ i. (slots i).timestamp ≡ t) ps
    → burst f (t + f) (contents slots ps) ≡ []
burst-later f t slots [] pos ts = refl
burst-later f t slots (p ∷ ps) pos ts =
    let other : ((slots p).timestamp == t + f) ≡ false = ground (arith, ts.0, pos) in rw other refl

-- One frame more is counted.
abbrev pub framed : RtpSession → RtpSession
framed s = record s { cons = record s.cons { frames = (s.cons.frames + 1) % 2 ^ 32 } }

-- Where nothing waits and get_frame stores a frame in several packets, all with the time that it
-- returns, only the first of them is sent if the session counts from a time after 0: the loop takes
-- the times of the others from that time on, and the returned one as it is.
pub rtp_send_packet-delays :
    (fuel : ℕ) (sends : Bytes → Bool) (get_frame : ℕ → Buffer → GetFrame) (s : RtpSession)
    (b b' : Buffer) (none_free free : List ℕ) (p : ℕ) (ps : List ℕ) (t : ℕ)
    → length ps < fuel
    → IsQueue b s.cons none_free []
    → get_frame (s.mtime + s.mstart_offset - s.mstart) b ≡ stored t b'
    → IsQueue b' s.cons free (p ∷ ps)
    → All (λ i. (b'.slots i).timestamp ≡ t) (p ∷ ps)
    → 0 < first_of s.cons.firstts t
    → (out : Sending) × (rtp_send_packet fuel sends get_frame s b ≡ sending (some out))
      × (map parse out.packets
          ≡ some (seen (counting s t) (suc s.cons.last_seq) (item (b'.slots p))) ∷ [])
unfolding rtp_send_packet
rtp_send_packet-delays fuel sends get_frame s b b' none_free free p ps t lt q frame q' ts pos =
    let f = first_of s.cons.firstts t in
    let n = (s.cons.frames + 1) % 2 ^ 32 in
    let queue = frames-IsQueue free (p ∷ ps) n q' in
    let r =
      send_slots-IsBurst sends (t + f) f fuel (counting (framed s) t) b' free p ps lt refl
        (timed-IsQueue free (p ∷ ps) f queue) in
    (
      r.out,
      ap (from_slot fuel sends get_frame s b) (read_empty none_free 0 q).2
          ∙ ap (after_frame fuel sends s) frame
          ∙ ap (frame_slots fuel sends (framed s) b' t) (getreader-pending free p ps queue)
          ∙ ap
              (λ j.
                frame_slots fuel sends (framed s) b' t (
                  some p,
                  record s.cons { frames = n; firstts = some (first_of s.cons.firstts j) },
                ))
              ts.0
          ∙ ap sending r.result,
      r.sent
          ∙ ap
              (λ xs.
                seen_from (counting (framed s) t) (suc s.cons.last_seq) (item (b'.slots p) ∷ xs))
              (burst-later f t b'.slots ps pos ts.1),
    )
