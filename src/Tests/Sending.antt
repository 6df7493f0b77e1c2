-- ===== src/Tests/Sending.antt =====
-- rtp/RTP_send_packet.c at a concrete buffer.
use fenice_1_12_with_h.Prelude.{ℕ, zero, suc, ◌+◌, refl, inl, Bool, false, [], ◌∷◌, some, arith}
use fenice_1_12_with_h.BufferPool.{Bytes, Slot, Buffer, Consumer, blank}
use fenice_1_12_with_h.BufferPool.Producer.Push.{Closed}
use fenice_1_12_with_h.BufferPool.Queue.{IsQueue}
use fenice_1_12_with_h.Rtp.Send.{RtpSession, GetFrame, stored}

-- Two packets of one frame, with the time 40; `refs` is 1 while they wait.
abbrev frame : ℕ → ℕ → ℕ → Slot
frame refs seq zero = record (blank 1) {
  refs = refs;
  slot_seq = seq;
  timestamp = 40;
  payload = 7 ∷ 8 ∷ [];
  data_size = 2;
}
frame refs seq (suc i) = record (blank 0) {
  refs = refs;
  slot_seq = seq + 1;
  timestamp = 40;
  marker = 1;
  payload = 9 ∷ [];
  data_size = 1;
}

abbrev buffer : ℕ → ℕ → Buffer
buffer refs seq = record {
  slots = frame refs seq;
  nslots = 2;
  known_slots = 2;
  control_refs = 1;
  write_pos = 1;
  valid_read_pos = 0;
}

abbrev consumer : Consumer
consumer = record {
  read_pos = 0;
  last_read_pos = some 1;
  last_seq = 2;
  frames = 0;
  firstts = some 40;
}

abbrev session : RtpSession
session = record {
  start_seq = 65534;
  start_rtptime = 1000;
  ssrc = 17;
  payload_type = 96;
  clock_rate = some 90000;
  mtime = 80;
  mstart = 40;
  mstart_offset = 0;
  delta_mtime = 0;
  pkt_len = 40;
  pkt_count = 0;
  octet_count = 0;
  cons = consumer;
}

frame-Closed : (refs seq : ℕ) → Closed (frame refs seq) 2
frame-Closed refs seq zero lt = omega arith
frame-Closed refs seq (suc i) lt = omega arith

none_waits : IsQueue (buffer 0 1) consumer (0 ∷ 1 ∷ []) []
none_waits = record {
  ring = record {
    linked = (refl, (refl, refl));
    front = refl;
    distinct = (((λ e. ground (arith, e)), tt), (tt, tt));
    in_range = (omega arith, (omega arith, tt));
    closed = frame-Closed 0 1;
    writer_in = omega arith;
    valid_in = omega arith;
    one = refl;
    idle = (refl, (refl, tt));
    due = tt;
    level = refl;
  };
  behind_ok = (omega arith, inl refl);
}

-- RTP_sendto sends nothing, so that no packet is counted.
abbrev lost : Bytes → Bool
lost p = false

abbrev one_frame : ℕ → Buffer → GetFrame
one_frame t b = stored 40 (buffer 1 3)
