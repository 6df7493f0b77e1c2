-- ===== src/Rtp/Send/Burst.antt =====
-- RTP_send_packet on a buffer with packets that wait for the session.
use fenice_1_12_with_h.Prelude.{
  ℕ, suc, ◌+◌, ◌≡◌, refl, ap, ◌∙◌, Bool, true, false, not, ◌&&◌, List, [], ◌∷◌, map, Option, some,
  ◌==◌, if◌then◌else◌, length, drop, arith,
}
use fenice_1_12_with_h.BufferPool.{Bytes, Buffer, Consumer, pass, getreader, gotreader, nextts}
use fenice_1_12_with_h.BufferPool.Queue.{Item, item, contents, IsQueue}
use fenice_1_12_with_h.BufferPool.Queue.Read.{choose-pending}
use fenice_1_12_with_h.Rtp.Send.{
  RtpSession, Sending, rtp_packet, count_sent, got, same_time, advance, add_packet, after_packet,
  send_slots,
}
use fenice_1_12_with_h.Rtp.Send.Header.{Received, parse, seen}

-- The packets behind the first one that have the time `at` too.
abbrev pub burst : ℕ → ℕ → List Item → List Item
burst f at [] = []
burst f at (x ∷ xs) =
    if x.timestamp == at && not (x.timestamp + 1 == f) then x ∷ burst f at xs else []

-- They are received with sequence numbers that follow on each other.
abbrev pub seen_from : RtpSession → ℕ → List Item → List (Option Received)
seen_from s k [] = []
seen_from s k (x ∷ xs) = some (seen s k x) ∷ seen_from s (suc k) xs

-- `frames` says nothing of the place at which the consumer stands.
pub frames-IsQueue :
    {b : Buffer} {c : Consumer} (free pending : List ℕ) (n : ℕ)
    → IsQueue b c free pending
    → IsQueue b (record c { frames = n }) free pending
frames-IsQueue free pending n q = record {
  ring = record {
    linked = q.linked;
    front = q.front;
    distinct = q.distinct;
    in_range = q.in_range;
    closed = q.closed;
    writer_in = q.writer_in;
    valid_in = q.valid_in;
    one = q.one;
    idle = q.idle;
    due = q.due;
    level = q.level;
  };
  behind_ok = q.behind_ok;
}

-- The state behind a call, where the packets `ps` waited behind the first one, `p`.
pub record IsBurst (s : RtpSession) (b : Buffer) (p : ℕ) (ps : List ℕ) (f at : ℕ)
    (r : Option Sending) : Type 0 where
  pub out : Sending
  pub free : List ℕ
  pub rest : List ℕ
  pub result : r ≡ some out
  pub sent :
      map parse out.packets
      ≡ seen_from s (suc s.cons.last_seq) (item (b.slots p) ∷ burst f at (contents b.slots ps))
  pub queue : IsQueue out.buffer out.session.cons free rest
  pub left :
      contents out.buffer.slots rest
      ≡ drop (length (burst f at (contents b.slots ps))) (contents b.slots ps)

gotreader-pending :
    {b : Buffer} {c : Consumer} (free : List ℕ) (p : ℕ) (ps : List ℕ)
    → IsQueue b c free (p ∷ ps)
    → gotreader b c ≡ some (pass b c p)
unfolding gotreader
gotreader-pending free p ps q = ground (arith, choose-pending free p ps q)

-- The state of the next round.
abbrev pub passed : (Bytes → Bool) → RtpSession → Buffer → ℕ → RtpSession
passed sends s b p = record (count_sent (sends (rtp_packet s (b.slots p))) (b.slots p) s) {
  cons = (pass b s.cons p).0;
}

module _ (fuel : ℕ) (sends : Bytes → Bool) (at : ℕ) (s : RtpSession) (b : Buffer) (free : List ℕ)
    (p : ℕ) (ps : List ℕ) (q : IsQueue b s.cons free (p ∷ ps)) where
  abbrev pub b' : Buffer
  b' = (pass b s.cons p).1

  abbrev pub s' : RtpSession
  s' = passed sends s b p

  one_round :
      send_slots (suc fuel) sends at s b p
      ≡ add_packet (rtp_packet s (b.slots p)) (after_packet (send_slots fuel sends at) at (s', b'))
  unfolding send_slots
  one_round =
      let counted = count_sent (sends (rtp_packet s (b.slots p))) (b.slots p) s in
      ap
        (λ g.
          add_packet (rtp_packet s (b.slots p))
            (after_packet (send_slots fuel sends at) at (got g counted b)))
        (gotreader-pending free p ps q)

  pub last_round :
      same_time (nextts b' s'.cons) s.cons.firstts at ≡ false
      → send_slots (suc fuel) sends at s b p
        ≡ some
            (record { packets = rtp_packet s (b.slots p) ∷ []; session = advance s'; buffer = b' })
  last_round stop = one_round ∙ rw stop refl

  pub more_rounds :
      (n : ℕ)
      → same_time (nextts b' s'.cons) s.cons.firstts at ≡ true
      → getreader b' s'.cons ≡ (some n, s'.cons)
      → send_slots (suc fuel) sends at s b p
        ≡ add_packet (rtp_packet s (b.slots p)) (send_slots fuel sends at s' b' n)
  more_rounds n go next = one_round ∙ rw (go, next) refl
