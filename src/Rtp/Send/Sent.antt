-- ===== src/Rtp/Send/Sent.antt =====
-- The packets that one call of RTP_send_packet sends.
use fenice_1_12_with_h.Prelude.{
  ℕ, zero, suc, ◌+◌, ◌<◌, ◌≡◌, refl, sym, ap, ◌∙◌, inl, inr, Option-cases, Bool-cases, Bool, true,
  false, not, ◌&&◌, List, [], ◌∷◌, ◌++◌, map, Option, none, some, ◌==◌, length, drop, arith,
}
use fenice_1_12_with_h.BufferPool.{Bytes, Slot, Buffer, Consumer, pass, getreader, nextts}
use fenice_1_12_with_h.BufferPool.Queue.{Item, item, contents, IsQueue}
use fenice_1_12_with_h.BufferPool.Queue.Read.{choose-pending, choose-empty, pass-IsQueue}
use fenice_1_12_with_h.Rtp.Send.{
  RtpSession, rtp_packet, count_sent, same_time, advance, add_packet, send_slots,
}
use fenice_1_12_with_h.Rtp.Send.Header.{parse, seen, parse-rtp_packet}
use fenice_1_12_with_h.Rtp.Send.Burst.{
  burst, seen_from, frames-IsQueue, IsBurst, passed, last_round, more_rounds,
}

seen-passed :
    (ok : Bool) (slot : Slot) (s : RtpSession) (b : Buffer) (p k : ℕ) (i : Item)
    → seen (record (count_sent ok slot s) { cons = (pass b s.cons p).0 }) k i ≡ seen s k i
seen-passed true slot s b p k i = refl
seen-passed false slot s b p k i = refl

seen_from-passed :
    (sends : Bytes → Bool) (s : RtpSession) (b : Buffer) (p k : ℕ) (xs : List Item)
    → seen_from (passed sends s b p) k xs ≡ seen_from s k xs
seen_from-passed sends s b p k [] = refl
seen_from-passed sends s b p k (x ∷ xs) =
    let one = seen-passed (sends (rtp_packet s (b.slots p))) (b.slots p) s b p k x in
    let more = seen_from-passed sends s b p (suc k) xs in
    ap (λ y. some y ∷ seen_from (passed sends s b p) (suc k) xs) one
    ∙ ap (λ ys. some (seen s k x) ∷ ys) more

parsed :
    (s : RtpSession) (b : Buffer) (free : List ℕ) (p : ℕ) (ps : List ℕ)
    → IsQueue b s.cons free (p ∷ ps)
    → parse (rtp_packet s (b.slots p)) ≡ some (seen s (suc s.cons.last_seq) (item (b.slots p)))
parsed s b free p ps q =
    parse-rtp_packet s (b.slots p) ∙ ap (λ k. some (seen s k (item (b.slots p)))) q.due.1

module _ (sends : Bytes → Bool) (at f : ℕ) where
  -- Nothing more goes out.
  stopped :
      (fuel : ℕ) (s : RtpSession) (b : Buffer) (free : List ℕ) (p : ℕ) (ps : List ℕ)
      → IsQueue b s.cons free (p ∷ ps)
      → burst f at (contents b.slots ps) ≡ []
      → same_time (nextts (pass b s.cons p).1 (pass b s.cons p).0) s.cons.firstts at ≡ false
      → IsBurst s b p ps f at (send_slots (suc fuel) sends at s b p)
  stopped fuel s b free p ps q none_more stop =
      let (q', same) = pass-IsQueue free p ps q in
      record {
        out = record {
          packets = rtp_packet s (b.slots p) ∷ [];
          session = advance (passed sends s b p);
          buffer = (pass b s.cons p).1;
        };
        free = free ++ (p ∷ []);
        rest = ps;
        result = last_round fuel sends at s b free p ps q stop;
        sent =
            ap (λ x. x ∷ []) (parsed s b free p ps q)
            ∙ ap (λ xs. seen_from s (suc s.cons.last_seq) (item (b.slots p) ∷ xs)) (sym none_more);
        queue = frames-IsQueue (free ++ (p ∷ [])) ps _ q';
        left = same ∙ ap (λ xs. drop (length xs) (contents b.slots ps)) (sym none_more);
      }

  -- One more packet goes out, and what goes out behind it.
  continued :
      (fuel : ℕ) (s : RtpSession) (b : Buffer) (free : List ℕ) (p n : ℕ) (ps : List ℕ)
      → (q : IsQueue b s.cons free (p ∷ n ∷ ps))
      → same_time (nextts (pass b s.cons p).1 (pass b s.cons p).0) s.cons.firstts at ≡ true
      → getreader (pass b s.cons p).1 (pass b s.cons p).0 ≡ (some n, (pass b s.cons p).0)
      → burst f at (contents b.slots (n ∷ ps)) ≡ item (b.slots n) ∷ burst f at (contents b.slots ps)
      → IsBurst
          (passed sends s b p)
          (pass b s.cons p).1
          n
          ps
          f
          at
          (send_slots fuel sends at (passed sends s b p) (pass b s.cons p).1 n)
      → IsBurst s b p (n ∷ ps) f at (send_slots (suc fuel) sends at s b p)
  continued fuel s b free p n ps q go next shape r =
      let same = (pass-IsQueue free p (n ∷ ps) q).1 in
      let t = (pass b s.cons p).1.slots in
      let k = suc (suc s.cons.last_seq) in
      let head : item (t n) ≡ item (b.slots n) = cc same in
      let tail : contents t ps ≡ contents b.slots ps = cc same in
      let others : map parse r.out.packets
          ≡ seen_from s k (burst f at (contents b.slots (n ∷ ps))) =
        r.sent
        ∙ seen_from-passed sends s b p _ (item (t n) ∷ burst f at (contents t ps))
        ∙ ap (λ j. seen_from s (suc j) (item (t n) ∷ burst f at (contents t ps))) q.due.1
        ∙ ap (λ x. seen_from s k (x ∷ burst f at (contents t ps))) head
        ∙ ap (λ xs. seen_from s k (item (b.slots n) ∷ burst f at xs)) tail
        ∙ ap (seen_from s k) (sym shape) in
      record {
        out = record r.out { packets = rtp_packet s (b.slots p) ∷ r.out.packets };
        free = r.free;
        rest = r.rest;
        result =
            more_rounds fuel sends at s b free p (n ∷ ps) q n go next
            ∙ ap (add_packet (rtp_packet s (b.slots p))) r.result;
        sent =
            ap (λ x. x ∷ map parse r.out.packets) (parsed s b free p (n ∷ ps) q)
            ∙ ap (λ xs. some (seen s (suc s.cons.last_seq) (item (b.slots p))) ∷ xs) others;
        queue = r.queue;
        left =
            r.left
            ∙ ap (λ xs. drop (length (burst f at xs)) xs) tail
            ∙ ap (λ ys. drop (length ys) (contents b.slots (n ∷ ps))) (sym shape);
      }

next-pending :
    {b : Buffer} {c : Consumer} (free : List ℕ) (p : ℕ) (ps : List ℕ) (f : ℕ)
    → c.firstts ≡ some f
    → IsQueue b c free (p ∷ ps)
    → (nextts b c ≡ some (b.slots p).timestamp) × (getreader b c ≡ (some p, c))
unfolding nextts getreader
next-pending free p ps f e q =
    let first = choose-pending free p ps q in (ground (arith, first), ground (arith, first, e))

nextts-empty : {b : Buffer} {c : Consumer} (free : List ℕ) → IsQueue b c free [] → nextts b c ≡ none
unfolding nextts
nextts-empty free q = ground (arith, choose-empty free q)

-- The loop of RTP_send_packet sends the first of them and those
-- behind it that have the time `at` too, up to the first one with another time. By RFC 3550 they
-- are received with the payload, marker and time of their slots and with sequence numbers that
-- follow on the last one sent; the others still wait, in order. As many rounds as packets wait are
-- enough. What becomes of a packet in RTP_sendto makes no difference.
pub send_slots-IsBurst :
    (sends : Bytes → Bool) (at f fuel : ℕ) (s : RtpSession) (b : Buffer) (free : List ℕ) (p : ℕ)
    (ps : List ℕ)
    → length ps < fuel
    → s.cons.firstts ≡ some f
    → IsQueue b s.cons free (p ∷ ps)
    → IsBurst s b p ps f at (send_slots fuel sends at s b p)
send_slots-IsBurst sends at f zero s b free p ps lt e q = absurd (omega arith)
send_slots-IsBurst sends at f (suc fuel) s b free p [] lt e q =
    let q' = (pass-IsQueue free p [] q).0 in
    stopped sends at f fuel s b free p [] q refl (rw (nextts-empty (free ++ (p ∷ [])) q') refl)
send_slots-IsBurst sends at f (suc fuel) s b free p (n ∷ ps) lt e q =
    let (q', same) = pass-IsQueue free p (n ∷ ps) q in
    let (time, reader) = next-pending (free ++ (p ∷ [])) n ps f e q' in
    let head : ((pass b s.cons p).1.slots n).timestamp ≡ (b.slots n).timestamp = cc same in
    let test = (b.slots n).timestamp == at && not ((b.slots n).timestamp + 1 == f) in
    let asked : same_time (nextts (pass b s.cons p).1 (pass b s.cons p).0) s.cons.firstts at
        ≡ test =
      rw (time, e, head) refl in
    elim (Bool-cases test) [
      | inl go ↦ continued sends at f fuel s b free p n ps q (asked ∙ go) reader (rw go refl) (
          send_slots-IsBurst sends at f fuel (passed sends s b p) (pass b s.cons p).1
            (free ++ (p ∷ [])) n ps (omega arith) e q')
      | inr no_more ↦
          stopped sends at f fuel s b free p (n ∷ ps) q (rw no_more refl) (asked ∙ no_more)
    ]

pub timed-IsQueue :
    {b : Buffer} {c : Consumer} (free pending : List ℕ) (f : ℕ)
    → IsQueue b c free pending
    → IsQueue b (record c { firstts = some f }) free pending
timed-IsQueue free pending f q = record {
  ring = record {
    linked = q.linked;
    front = q.front;
    distinct = q.distinct;
    in_range = q.in_range;
    closed = q.closed;
    writer_in = q.writer_in;
    valid_in = q.valid_in;
    one = q.one;
    idle = q.idle;
    due = q.due;
    level = q.level;
  };
  behind_ok = q.behind_ok;
}

-- The time from which a session counts: the one that is set, or that of the packet at hand.
abbrev pub first_of : Option ℕ → ℕ → ℕ
first_of none t = t
first_of (some f) t = f

pub getreader-pending :
    {b : Buffer} {c : Consumer} (free : List ℕ) (p : ℕ) (ps : List ℕ)
    → IsQueue b c free (p ∷ ps)
    → getreader b c
      ≡ (some p, record c { firstts = some (first_of c.firstts (b.slots p).timestamp) })
unfolding getreader
getreader-pending {b} {c} free p ps q = elim (Option-cases c.firstts) [
  | inl e ↦ ground (arith, choose-pending free p ps q, e)
  | inr (f, e) ↦ ground (arith, choose-pending free p ps q, e)
]

abbrev pub counting : RtpSession → ℕ → RtpSession
counting s t = record s { cons = record s.cons { firstts = some (first_of s.cons.firstts t) } }
