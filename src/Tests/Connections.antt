-- ===== src/Tests/Connections.antt =====
-- rtsp/ at concrete inputs.
use fenice_1_12_with_h.Prelude.{◌+◌, ◌<◌, ◌≤◌, ◌≡◌, refl, true, [], ◌∷◌, arith, some, update}
use fenice_1_12_with_h.Rtsp.Buffer.{RtspBuffer, accepted, store, bwrite, rtsp_send, rtsp_remove_msg}
use fenice_1_12_with_h.Rtsp.Stream.{
  Connection, IsStream, Reach, here, next, put, push, Reach-IsStream,
}
use fenice_1_12_with_h.Rtsp.Removal.{rtsp_remove_msg_lem}

-- Ten bytes came in: 10, 11, and so on.
abbrev incoming : RtspBuffer
incoming = record {
  in_buffer = λ i. 10 + i;
  in_size = 10;
  out_buffer = λ i. 0;
  out_size = 0;
  out_sent = 0;
  is_tcp = true;
}

rtsp_remove_msg_lem_example :
    ((rtsp_remove_msg 3 incoming).in_size ≡ 7)
    × (4 < 3 → (rtsp_remove_msg 3 incoming).in_buffer 4 ≡ 17)
    × (3 ≤ 4 → (rtsp_remove_msg 3 incoming).in_buffer 4 ≡ 0)
rtsp_remove_msg_lem_example =
    rtsp_remove_msg_lem 3 4 incoming (omega arith) (omega arith) (omega arith)

abbrev quiet : Connection
quiet = record { buffer = incoming; written = []; delivered = [] }

quiet-IsStream : IsStream quiet
quiet-IsStream = record { sent_le = omega arith; size_le = omega arith; in_order = refl }

abbrev three_in : RtspBuffer
three_in = record incoming {
  out_buffer = update (store (λ i. 0) 0 (1 ∷ 2 ∷ 3 ∷ [])) 3 0;
  out_size = 3;
}

first_put : bwrite (1 ∷ 2 ∷ 3 ∷ []) incoming ≡ some three_in
unfolding bwrite
first_put = refl

abbrev all_waiting : Connection
all_waiting = record { buffer = three_in; written = 1 ∷ 2 ∷ 3 ∷ []; delivered = [] }

abbrev two_gone : Connection
two_gone = record {
  buffer = record three_in { out_sent = 2 };
  written = 1 ∷ 2 ∷ 3 ∷ [];
  delivered = 1 ∷ 2 ∷ [];
}

two_gone-Reach : Reach quiet two_gone
unfolding rtsp_send
two_gone-Reach =
    next {u = all_waiting}
      (next here (put (1 ∷ 2 ∷ 3 ∷ []) three_in (λ e. omega (arith, e)) first_put refl))
      (push (accepted 2) (omega arith) refl)

Reach-IsStream_example : IsStream two_gone
Reach-IsStream_example = Reach-IsStream quiet-IsStream two_gone-Reach
