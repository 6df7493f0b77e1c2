-- ===== src/BufferPool/Queue/Produce.antt =====
-- One frame through get_frame's calls OMSbuff_getslot and OMSbuff_write.
use mathlib.Core.Path.{subst}
use fenice_1_12_with_h.Prelude.{
  sym, ◌∙◌, ◌⊎◌, inl, inr, Bool-cases, ◌==◌, Option, none, some, ℕ, suc, ◌+◌, ◌%◌, ◌^◌, ◌≤◌, ◌<◌,
  ◌≡◌, refl, ap, true, List, [], ◌∷◌, ◌++◌, length, arith,
}
use fenice_1_12_with_h.BufferPool.{Slot, Buffer, Consumer, mem_page}
use fenice_1_12_with_h.BufferPool.Producer.{Outcome, done, getslot, produce, Frame}
use fenice_1_12_with_h.BufferPool.Queue.{Behind, IsIn, contents, IsQueue, IsRing}
use fenice_1_12_with_h.BufferPool.Queue.Chains.{range}
use fenice_1_12_with_h.BufferPool.Queue.Write.{item_of, put, produce-done, Between, put-IsQueue}
use fenice_1_12_with_h.BufferPool.Queue.Page.{
  grown, getslot-free, getslot_page, bigger-IsRing, grown-contents, bigger,
}

revalid :
    {b : Buffer} {c : Consumer} (free pending : List ℕ) (v : ℕ)
    → IsRing b c free pending
    → v < b.nslots
    → IsRing (record b { valid_read_pos = v }) c free pending
revalid free pending v q lt = record {
  linked = q.linked;
  front = q.front;
  distinct = q.distinct;
  in_range = q.in_range;
  closed = q.closed;
  writer_in = q.writer_in;
  valid_in = lt;
  one = q.one;
  idle = q.idle;
  due = q.due;
  level = q.level;
}

Behind-Between :
    (s : ℕ → Slot) (n : ℕ) (pending : List ℕ) (r a : ℕ) (l : Option ℕ)
    → Behind s n pending r l
    → Between s n pending r a l
Behind-Between s n pending r a none h = tt
Behind-Between s n pending r a (some l) (lt, inl e) = (lt, inl e)
Behind-Between s n pending r a (some l) (lt, inr m) = (lt, inr (inl m))

-- After a page was linked in, the slot behind the last one read may be its first.
Between-page :
    {b : Buffer} {c : Consumer} (p : ℕ) (ps : List ℕ) (q : IsRing b c [] (p ∷ ps)) (l : Option ℕ)
    → Behind b.slots b.nslots (p ∷ ps) c.read_pos l
    → Between (grown p ps q) (b.nslots + mem_page) (p ∷ ps) c.read_pos b.nslots l
Between-page p ps q none h = tt
Between-page {b} {c} p ps q (some l) (lt, h) = (
  omega arith,
  elim (Bool-cases (l == b.write_pos)) [
    | inl e ↦ inr (inr (ground (arith, q.writer_in)))
    | inr ne ↦ kept h (ground arith)
  ],
)
  where
    kept :
        ((b.slots l).next ≡ c.read_pos) ⊎ IsIn (b.slots l).next (p ∷ ps)
        → (grown p ps q l).next ≡ (b.slots l).next
        → ((grown p ps q l).next ≡ c.read_pos)
          ⊎ IsIn (grown p ps q l).next (p ∷ ps)
          ⊎ ((grown p ps q l).next ≡ b.nslots)
    kept (inl e) same = inl (same ∙ e)
    kept (inr m) same = inr (inl (subst (λ i. IsIn i (p ∷ ps)) (sym same) m))

-- What a stored frame leaves: the queue with one more item, in a ring of at most one more page.
pub record Stored (b : Buffer) (c : Consumer) (pending : List ℕ) (f : Frame) (out : Outcome Buffer)
    : Type 0 where
  pub buffer : Buffer
  pub free : List ℕ
  pub waiting : List ℕ
  pub out_is : out ≡ done buffer
  pub queue : IsQueue buffer c free waiting
  pub items : contents buffer.slots waiting ≡ contents b.slots pending ++ item_of f ∷ []
  pub slots_le : buffer.nslots ≤ b.nslots + mem_page
  pub seq_is : (buffer.slots buffer.write_pos).slot_seq ≡ (b.slots b.write_pos).slot_seq + 1

module _ {b : Buffer} {c : Consumer} (fuel : ℕ) (f : Frame) where
  produce-Stored :
      (b' : Buffer) (a : ℕ) (fs pending : List ℕ)
      → getslot true fuel b ≡ done (a, b')
      → IsRing b' c (a ∷ fs) pending
      → Between b'.slots b'.nslots pending c.read_pos a c.last_read_pos
      → (b'.slots b'.write_pos).slot_seq + 1 < 2 ^ 64
      → 0 < length f.payload
      → (b'.nslots ≤ b.nslots + mem_page)
        × ((b'.slots b'.write_pos).slot_seq ≡ (b.slots b.write_pos).slot_seq)
      → (old : List ℕ) → contents b'.slots pending ≡ contents b.slots old
      → Stored b c old f (produce true fuel b f)
  produce-Stored b' a fs pending e r between small some_bytes same old items =
      let (q, i) = put-IsQueue a fs pending f r between small in
      record {
        buffer = record b' {
          slots =
              put b'.slots a f b'.control_refs (((b'.slots b'.write_pos).slot_seq + 1) % 2 ^ 64);
          write_pos = a;
        };
        free = fs;
        waiting = pending ++ a ∷ [];
        out_is = produce-done true fuel b f a b' e r.linked.0 some_bytes;
        queue = q;
        items = i ∙ ap (λ l. l ++ item_of f ∷ []) items;
        slots_le = same.0;
        seq_is = ground (arith, same.1);
      }

  -- On any queue with one reader, if `realloc` succeeds, the frame has at least one byte and the
  -- sequence number does not wrap, get_frame's two calls return for every fuel above the number of
  -- slots, and the frame waits behind all the packets that waited before, none of them changed.
  pub produce_refines :
      (free pending : List ℕ)
      → IsQueue b c free pending
      → b.nslots < fuel
      → (b.slots b.write_pos).slot_seq + 1 < 2 ^ 64
      → 0 < length f.payload
      → Stored b c pending f (produce true fuel b f)
  produce_refines (a ∷ fs) pending q h small some_bytes =
      let (v, e, lt) = getslot-free true fuel a fs pending q.ring h in
      produce-Stored (record b { valid_read_pos = v }) a fs pending e
        (revalid (a ∷ fs) pending v q.ring lt)
        (Behind-Between b.slots b.nslots pending c.read_pos a c.last_read_pos q.behind_ok) small
        some_bytes (omega arith, refl) pending refl
  produce_refines [] (p ∷ ps) q h small some_bytes =
      produce-Stored (bigger p ps q.ring) b.nslots (range (suc b.nslots) 8) (p ∷ ps)
        (getslot_page p ps q.ring fuel) (bigger-IsRing p ps q.ring)
        (Between-page p ps q.ring c.last_read_pos q.behind_ok) (ground (arith, q.writer_in, small))
        some_bytes (omega arith, ground (arith, q.writer_in)) (p ∷ ps) (grown-contents p ps q.ring)
  produce_refines [] [] q h small some_bytes = absurd q.front
