-- ===== src/BufferPool/Queue/Page.antt =====
-- OMSbuff_getslot on the ring of a queue: a free slot is handed out, or a page is linked in.
use fenice_1_12_with_h.Prelude.{
  ℕ, suc, ◌+◌, ◌-◌, ◌≤◌, ◌<◌, ◌≡◌, ◌≢◌, inl, inr, Bool-cases, Bool, true, List, [], ◌∷◌, update,
  All-append, arith, ltb, ◌==◌, if◌then◌else◌, ltb→lt, not, ◌&&◌,
}
use fenice_1_12_with_h.BufferPool.{Slot, Buffer, Consumer, addpage, mem_page, fresh}
use fenice_1_12_with_h.BufferPool.Producer.{done, next_slot, getslot}
use fenice_1_12_with_h.BufferPool.Producer.Push.{Closed, push_getslot-ends}
use fenice_1_12_with_h.BufferPool.Queue.{contents, IsRing}
use fenice_1_12_with_h.BufferPool.Queue.Chains.{
  All-map, Chain-keep, Chain-range, Same, Due-Same, contents-Same, Distinct-range, range, All-range,
}

-- With a free slot behind the write position OMSbuff_getslot hands it out, and moves at most the
-- valid read position.
pub getslot-free :
    {b : Buffer} {c : Consumer} (mem : Bool) (fuel a : ℕ) (fs pending : List ℕ)
    → IsRing b c (a ∷ fs) pending
    → b.nslots < fuel
    → (v : ℕ) × (getslot mem fuel b ≡ done (a, record b { valid_read_pos = v })) × (v < b.nslots)
unfolding getslot next_slot
getslot-free {b} mem fuel a fs pending q h =
    let v = b.valid_read_pos in
    let (v', ends, lt) =
      push_getslot-ends fuel b.slots b.nslots (b.slots v).timestamp v q.closed q.valid_in h in
    elim (Bool-cases (not ((b.slots v).slot_seq == 0) && v == a)) [
      | inl push ↦ (v', ground (arith, q.linked.0, q.idle.0), lt)
      | inr keep ↦ (v, ground (arith, q.linked.0, q.idle.0), q.valid_in)
    ]

module _ {b : Buffer} {c : Consumer} (p : ℕ) (ps : List ℕ) (q : IsRing b c [] (p ∷ ps)) where
  -- the slots behind the old allocation, linked into the ring behind the write position
  abbrev pub paged : ℕ → Slot
  paged i =
      let last = b.nslots + mem_page - 1 in
      if ltb i b.nslots
      then b.slots i
      else if ltb i last
      then fresh (b.slots i) (i + 1)
      else if i == last
      then fresh (b.slots i) (b.slots b.write_pos).next
      else b.slots i

  abbrev pub grown : ℕ → Slot
  grown = update paged b.write_pos (record (paged b.write_pos) { next = b.nslots })

  abbrev pub bigger : Buffer
  bigger = record b {
    slots = grown;
    nslots = b.nslots + mem_page;
    known_slots = b.nslots + mem_page;
  }

  pub getslot_page : (fuel : ℕ) → getslot true fuel b ≡ done (b.nslots, bigger)
  unfolding getslot next_slot addpage
  getslot_page fuel = ground (arith, q.linked.0, q.due.0)

  old-links : (i : ℕ) → i < b.nslots → i ≢ b.write_pos → (grown i).next ≡ (b.slots i).next
  old-links i lt ne = ground arith

  new-links : (i : ℕ) → b.nslots ≤ i → i < b.nslots + 8 → (grown i).next ≡ suc i
  new-links i le lt = ground (arith, q.writer_in)

  last-link : (grown (b.nslots + 8)).next ≡ p
  last-link = ground (arith, q.writer_in, q.linked.0)

  old-Same : (i : ℕ) → i < b.nslots → Same b.slots grown i
  old-Same i lt = (ground arith, ground arith, ground arith)

  grown-Closed : Closed grown (b.nslots + mem_page)
  grown-Closed i lt = elim (Bool-cases (ltb i b.nslots)) [
    | inl old ↦ ground (arith, q.closed i (ltb→lt i b.nslots old))
    | inr new ↦ ground (arith, q.closed b.write_pos q.writer_in, q.writer_in)
  ]

  pub bigger-IsRing : IsRing bigger c (range b.nslots 9) (p ∷ ps)
  bigger-IsRing = record {
    linked = (
      ground (arith, q.writer_in),
      Chain-range grown b.nslots 8 (p ∷ ps) b.write_pos new-links (
        last-link,
        Chain-keep b.slots grown b.nslots p ps b.write_pos old-links q.in_range q.distinct
            q.linked.1,
      ),
    );
    front = q.front;
    distinct = Distinct-range b.nslots 9 (p ∷ ps) q.in_range q.distinct;
    in_range =
        All-append (λ i. i < b.nslots + mem_page) (range b.nslots 9) (p ∷ ps)
          (All-range (λ i. i < b.nslots + mem_page) b.nslots 9 (λ i le lt. lt))
          (All-map (λ i. i < b.nslots) (λ i. i < b.nslots + mem_page) (p ∷ ps) (λ i h. omega arith)
            q.in_range);
    closed = grown-Closed;
    writer_in = omega (arith, q.writer_in);
    valid_in = omega (arith, q.valid_in);
    one = q.one;
    idle = All-range (λ i. (grown i).refs ≡ 0) b.nslots 9 (λ i le lt. ground (arith, q.writer_in));
    due =
        Due-Same b.slots grown c.last_seq (p ∷ ps)
          (All-map (λ i. i < b.nslots) (Same b.slots grown) (p ∷ ps) old-Same q.in_range) q.due;
    level = ground (arith, q.level, q.writer_in);
  }

  pub grown-contents : contents grown (p ∷ ps) ≡ contents b.slots (p ∷ ps)
  grown-contents =
      contents-Same b.slots grown (p ∷ ps)
        (All-map (λ i. i < b.nslots) (Same b.slots grown) (p ∷ ps) old-Same q.in_range)
