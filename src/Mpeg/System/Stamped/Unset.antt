-- ===== src/Mpeg/System/Stamped/Unset.antt =====
-- read_packet_head on an audio packet without a time.
use fenice_1_12_with_h.Prelude.{
  ℕ, ◌^◌, ◌<◌, ◌≡◌, ◌∙◌, List, [], ◌∷◌, ◌++◌, Option, some, none, false, replicate, arith,
}
use fenice_1_12_with_h.Mpeg.System.Head.{
  Clock, PacketHead, read_fields, read_times, set_times, read_packet_head,
}
use fenice_1_12_with_h.Mpeg.System.Stamp.{time_bits, shift_in-time_bits}
use fenice_1_12_with_h.Mpeg.System.Stamped.{read_stuffing_split}

-- The pts of the audio stream after a header.
abbrev pub audio_pts : Option PacketHead → ℕ
audio_pts none = 0
audio_pts (some h) = h.clock.pts_audio.pts

-- An audio packet, of stream 0xc0, whose header has no time, as its byte 15 says, gets one while
-- `time_set` is 0: the 32 bits that the array vett_pts, which nothing has set, holds. So any time is
-- possible, with what may lie on the stack.
pub read_packet_head_unset :
    (fuel : ℕ) (old : ℕ → ℕ) (stack_dts : List ℕ) (v n high low : ℕ) (k : Clock) (buf rest : List ℕ)
    → n < fuel
    → v < 2 ^ 32
    → audio_pts (
        read_packet_head fuel old
          (time_bits 2 v)
          stack_dts
          192
          (record k { time_set = false })
          (record { buf = buf; unread = high ∷ low ∷ replicate n 255 ++ 15 ∷ rest }))
      ≡ v
unfolding read_packet_head read_fields read_times set_times
read_packet_head_unset fuel old stack_dts v n high low k buf rest enough h =
    rw
      (
        read_stuffing_split n fuel old 2 ((buf ++ high ∷ []) ++ low ∷ []) 15 rest enough
            (λ e. omega (arith, e)),
        read_fields,
      )
      (shift_in-time_bits k.pts_audio.pts 2 v (omega arith) ∙ omega arith)
