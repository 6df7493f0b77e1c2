-- ===== src/Tests/Packets.antt =====
-- bufferpool/ at concrete inputs.
use fenice_1_12_with_h.Prelude.{
  ℕ, zero, suc, ◌+◌, ◌<◌, ◌≡◌, refl, inl, true, false, List, [], ◌∷◌, Option, none, some, arith,
}
use fenice_1_12_with_h.BufferPool.{Slot, Buffer, Consumer, blank, gotreader}
use fenice_1_12_with_h.BufferPool.Producer.{unref, Frame, done, getslot, write, memory, hung}
use fenice_1_12_with_h.BufferPool.Producer.Push.{write-hangs, Closed}
use fenice_1_12_with_h.BufferPool.Queue.Unref.{unref-Idle}
use fenice_1_12_with_h.BufferPool.Queue.{Idle, IsQueue}
use fenice_1_12_with_h.BufferPool.Queue.Run.{session_refines, session, fifo, store, fetch, Op}
use fenice_1_12_with_h.BufferPool.Queue.Stale.{getslot-gotreader}

abbrev frame : ℕ → Frame
frame t = record { payload = t ∷ (t + 1) ∷ []; mtime = t; marker = 1; recallme = false }

abbrev ops : List Op
ops = fetch ∷ store (frame 7) ∷ store (frame 8) ∷ store (frame 9) ∷ fetch ∷ fetch ∷ []

session_refines_example : session 100 2 ops ≡ done (fifo [] ops)
session_refines_example =
    session_refines 2 100 ops (omega arith)
      (tt, (omega arith, (omega arith, (omega arith, (tt, (tt, tt)))))) (omega arith) (omega arith)

-- Two slots: slot 1 was written last, slot 0 before it with sequence number `seq`.
abbrev two : ℕ → ℕ → ℕ → ℕ → Slot
two seq refs_0 refs_1 zero = record (blank 1) {
  refs = refs_0;
  slot_seq = seq;
  timestamp = 7;
  payload = 7 ∷ 8 ∷ [];
  data_size = 2;
}
two seq refs_0 refs_1 (suc i) = record (blank 0) {
  refs = refs_1;
  slot_seq = seq + 1;
  timestamp = 8;
  payload = 8 ∷ 9 ∷ [];
  data_size = 2;
}

abbrev two_slots : ℕ → ℕ → ℕ → Buffer
two_slots seq refs_0 refs_1 = record {
  slots = two seq refs_0 refs_1;
  nslots = 2;
  known_slots = 2;
  control_refs = 1;
  write_pos = 1;
  valid_read_pos = 0;
}

-- A reader that has read up to the sequence number.
abbrev reader : ℕ → Option ℕ → ℕ → Consumer
reader pos last seq = record {
  read_pos = pos;
  last_read_pos = last;
  last_seq = seq;
  frames = 0;
  firstts = none;
}

two-Closed : (seq refs_0 refs_1 : ℕ) → Closed (two seq refs_0 refs_1) 2
two-Closed seq refs_0 refs_1 zero lt = omega arith
two-Closed seq refs_0 refs_1 (suc i) lt = omega arith

-- Slot 0 was read, slot 1 waits.
one_waits : IsQueue (two_slots 1 0 1) (reader 1 (some 0) 1) (0 ∷ []) (1 ∷ [])
one_waits = record {
  ring = record {
    linked = (refl, (refl, refl));
    front = refl;
    distinct = (((λ e. ground (arith, e)), tt), (tt, tt));
    in_range = (omega arith, (omega arith, tt));
    closed = two-Closed 1 0 1;
    writer_in = omega arith;
    valid_in = omega arith;
    one = refl;
    idle = (refl, tt);
    due = (refl, refl, tt);
    level = refl;
  };
  behind_ok = (omega arith, inl refl);
}

-- Both were read.
none_waits : IsQueue (two_slots 1 0 0) (reader 0 (some 1) 2) (0 ∷ 1 ∷ []) []
none_waits = record {
  ring = record {
    linked = (refl, (refl, refl));
    front = refl;
    distinct = (((λ e. ground (arith, e)), tt), (tt, tt));
    in_range = (omega arith, (omega arith, tt));
    closed = two-Closed 1 0 0;
    writer_in = omega arith;
    valid_in = omega arith;
    one = refl;
    idle = (refl, (refl, tt));
    due = tt;
    level = refl;
  };
  behind_ok = (omega arith, inl refl);
}

-- Both wait, and were written again after they had been read.
both_wait : IsQueue (two_slots 3 1 1) (reader 0 (some 1) 2) [] (0 ∷ 1 ∷ [])
both_wait = record {
  ring = record {
    linked = (refl, (refl, refl));
    front = refl;
    distinct = (((λ e. ground (arith, e)), tt), (tt, tt));
    in_range = (omega arith, (omega arith, tt));
    closed = two-Closed 3 1 1;
    writer_in = omega arith;
    valid_in = omega arith;
    one = refl;
    idle = tt;
    due = (refl, refl, (refl, refl, tt));
    level = refl;
  };
  behind_ok = (omega arith, inl refl);
}

getslot-gotreader_example :
    (b' : Buffer) × (c' : Consumer) × (b'' : Buffer) × (getslot true 5 (two_slots 3 1 1)
      ≡ done (2, b'))
    × (gotreader b' (reader 0 (some 1) 2) ≡ some (c', b''))
    × ((b'.slots 2).refs ≡ 0)
    × ((b''.slots 2).refs ≡ 65535)
    × (c'.last_seq ≡ 0)
getslot-gotreader_example = getslot-gotreader 0 (1 ∷ []) 5 both_wait refl

-- Two slots written with one timestamp, as the packets of one video frame are.
abbrev same_time : ℕ → Slot
same_time i = record (two 1 0 0 i) { timestamp = 7 }

same_time-Closed : Closed same_time 2
same_time-Closed = two-Closed 1 0 0

same_time_seen : (i : ℕ) → i < 2 → (0 < (same_time i).slot_seq) × ((same_time i).timestamp ≡ 7)
same_time_seen zero lt = (omega arith, refl)
same_time_seen (suc i) lt = (omega arith, refl)

-- Slot 1 was written last; slot 0 is free, comes next, and is the valid read position.
abbrev same_time_buffer : Buffer
same_time_buffer = record (two_slots 1 0 0) { slots = same_time }

write-hangs_example : write true 1000 same_time_buffer 0 7 1 (memory (5 ∷ [])) 1 ≡ hung
write-hangs_example =
    write-hangs true 1000 same_time_buffer 0 7 1 (5 ∷ []) 1 7 same_time-Closed (omega arith)
      same_time_seen refl refl

unref-Idle_example :
    (b' : Buffer) × (unref 3 (two_slots 3 1 1) (reader 0 (some 1) 2) ≡ some b')
    × (b'.control_refs ≡ 0)
    × Idle b'.slots (0 ∷ 1 ∷ [])
unref-Idle_example = unref-Idle 3 [] (0 ∷ 1 ∷ []) both_wait (omega arith)
