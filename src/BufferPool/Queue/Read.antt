-- ===== src/BufferPool/Queue/Read.antt =====
-- Reading from a buffer with one consumer: the oldest packet that waits, or nothing.
use mathlib.Core.List.{append_assoc}
use mathlib.Core.Path.{subst}
use fenice_1_12_with_h.Prelude.{
  ℕ, suc, ◌≤◌, ◌<◌, ◌≡◌, ◌≢◌, sym, ◌⊎◌, inl, inr, Option-cases, true, false, List, [], ◌∷◌, ◌++◌,
  none, some, All, All-append, arith,
}
use fenice_1_12_with_h.BufferPool.{
  Slot, Buffer, Consumer, Packet, choose, pass, getreader, gotreader, read, nextts, is_empty,
}
use fenice_1_12_with_h.BufferPool.Queue.{
  Chain, Fresh, Distinct, Front, Due, Idle, Item, item, contents, Behind, IsQueue,
}
use fenice_1_12_with_h.BufferPool.Queue.Chains.{
  All-map, All-right, Distinct-left, Distinct-right, Chain-right, Chain-links, Same, Due-Same,
  Idle-Same, contents-Same, Due-above,
}

-- The slot behind the last one read carries no older packet than the ones that wait.
behind-lt :
    {b : Buffer} {c : Consumer} (free : List ℕ) (p : ℕ) (ps : List ℕ)
    → IsQueue b c free (p ∷ ps)
    → (l : ℕ) → c.last_read_pos ≡ some l
    → c.last_seq < (b.slots (b.slots l).next).slot_seq
behind-lt {b} {c} free p ps q l e =
    go (subst (Behind b.slots b.nslots (p ∷ ps) c.read_pos) e q.behind_ok)
  where
    go :
        Behind b.slots b.nslots (p ∷ ps) c.read_pos (some l)
        → c.last_seq < (b.slots (b.slots l).next).slot_seq
    go (lt, inl n) = rw (n, ← q.front) (omega arith)
    go (lt, inr m) = Due-above b.slots c.last_seq (p ∷ ps) (b.slots l).next q.due m

-- With packets that wait, the slot to read is the first of them.
pub choose-pending :
    {b : Buffer} {c : Consumer} (free : List ℕ) (p : ℕ) (ps : List ℕ)
    → IsQueue b c free (p ∷ ps)
    → choose b c ≡ some p
unfolding choose
choose-pending {b} {c} free p ps q = elim (Option-cases c.last_read_pos) [
  | inl e ↦ rw e (ground arith)
  | inr (l, e) ↦ rw e (ground (arith, behind-lt free p ps q l e, behind-eq l e))
]
  where
    behind-eq :
        (l : ℕ)
        → c.last_read_pos ≡ some l
        → ((b.slots l).next ≡ p) ⊎ (suc c.last_seq ≤ (b.slots (b.slots l).next).slot_seq)
    behind-eq l e = inr (behind-lt free p ps q l e)

-- With none that waits there is no slot to read.
pub choose-empty :
    {b : Buffer} {c : Consumer} (free : List ℕ) → IsQueue b c free [] → choose b c ≡ none
unfolding choose
choose-empty {b} {c} free q = elim (Option-cases c.last_read_pos) [
  | inl e ↦ rw e (ground (arith, still))
  | inr (l, e) ↦ rw e (ground (arith, still, same l e))
]
  where
    first : (xs : List ℕ) → Front xs c.read_pos → Idle b.slots xs → (b.slots c.read_pos).refs ≡ 0
    first [] f i = absurd f
    first (x ∷ xs) f i = rw (← f) i.0

    still : (b.slots c.read_pos).refs ≡ 0
    still = first free q.front q.idle

    at_front :
        (l : ℕ) → Behind b.slots b.nslots [] c.read_pos (some l) → (b.slots l).next ≡ c.read_pos
    at_front l (lt, inl n) = n
    at_front l (lt, inr m) = absurd m

    same : (l : ℕ) → c.last_read_pos ≡ some l → (b.slots l).next ≡ c.read_pos
    same l e = at_front l (subst (Behind b.slots b.nslots [] c.read_pos) e q.behind_ok)

-- Behind slot `p` of a ring comes the next of the slots that wait, or the first free one.
next-Front :
    (s : ℕ → Slot) (a : ℕ) (free : List ℕ) (p : ℕ) (ps : List ℕ)
    → Chain s a (free ++ p ∷ ps) a
    → Front (ps ++ (free ++ p ∷ [])) (s p).next
next-Front s a free p (x ∷ ps) h = sym (Chain-right s a free p (x ∷ ps) a h).0
next-Front s a [] p [] h = cc (h.0, h.1)
next-Front s a (f ∷ fs) p [] h = cc (h.0, Chain-right s a (f ∷ fs) p [] a h)

-- Passing a waiting slot keeps the other packets, and the slot becomes the last of the free ones.
pub pass-IsQueue :
    {b : Buffer} {c : Consumer} (free : List ℕ) (p : ℕ) (ps : List ℕ)
    → IsQueue b c free (p ∷ ps)
    → let (c', b') = pass b c p in
      IsQueue b' c' (free ++ p ∷ []) ps × (contents b'.slots ps ≡ contents b.slots ps)
pass-IsQueue {b} {c} free p ps q = (
  record {
    ring = record {
      linked =
          subst (λ xs. Chain t b.write_pos xs b.write_pos) shift
            (Chain-links b.slots t b.write_pos (free ++ p ∷ ps) b.write_pos links q.linked);
      front = next-Front b.slots b.write_pos free p ps q.linked;
      distinct = subst Distinct shift q.distinct;
      in_range = subst (All (λ i. i < b.nslots)) shift q.in_range;
      closed = λ i h. rw (links i) (q.closed i h);
      writer_in = q.writer_in;
      valid_in = q.valid_in;
      one = q.one;
      idle =
          All-append (λ i. (t i).refs ≡ 0) free (p ∷ [])
            (Idle-Same b.slots t free (apart free (Distinct-left free p ps q.distinct)) q.idle)
            (ground arith, tt);
      due =
          subst (λ k. Due t k ps) (sym q.due.1)
            (Due-Same b.slots t (suc c.last_seq) ps same q.due.2);
      level = ground (arith, q.due, q.level);
    };
    behind_ok = ((All-right (λ i. i < b.nslots) free (p ∷ ps) q.in_range).0, inl (links p));
  },
  contents-Same b.slots t ps same,
)
  where
    t : ℕ → Slot
    t = (pass b c p).1.slots

    shift : free ++ p ∷ ps ≡ (free ++ p ∷ []) ++ ps
    shift = sym (append_assoc free (p ∷ []) ps)

    links : (i : ℕ) → (t i).next ≡ (b.slots i).next
    links i = ground arith

    apart : (xs : List ℕ) → Fresh p xs → All (Same b.slots t) xs
    apart xs f =
        All-map (λ y. p ≢ y) (Same b.slots t) xs (λ y h. (ground arith, ground arith, ground arith))
          f

    same : All (Same b.slots t) ps
    same = apart ps (Distinct-right free (p ∷ ps) q.distinct).0

-- The packet that OMSbuff_read hands over for a slot, if it fits.
abbrev pub packet : Item → Packet
packet i = record { timestamp = i.timestamp; marker = i.marker; payload = i.payload; cut = false }

-- With a packet that waits and room for it, OMSbuff_read hands over the oldest one, whole; then the
-- others wait, in order, and its slot is free. OMSbuff_nextts told its timestamp before.
pub read_refines :
    {b : Buffer} {c : Consumer} (free : List ℕ) (p : ℕ) (ps : List ℕ) (room : ℕ)
    → IsQueue b c free (p ∷ ps)
    → (b.slots p).data_size ≤ room
    → let (c', b') = pass b c p in
      (read b c room ≡ some (packet (item (b.slots p)), c', b'))
      × IsQueue b' c' (free ++ p ∷ []) ps
      × (contents b'.slots ps ≡ contents b.slots ps)
unfolding read
read_refines {b} {c} free p ps room q fits =
    let (q', same) = pass-IsQueue free p ps q in
    (ground (arith, choose-pending free p ps q), q', same)

-- With nothing that waits, every operation of the reader says so and changes nothing.
pub read_empty :
    {b : Buffer} {c : Consumer} (free : List ℕ) (room : ℕ)
    → IsQueue b c free []
    → (read b c room ≡ none)
      × (gotreader b c ≡ none)
      × (getreader b c ≡ (none, c))
      × (nextts b c ≡ none)
      × (is_empty b c ≡ true)
unfolding read gotreader getreader nextts is_empty
read_empty free room q =
    let e = choose-empty free q in
    (ground (arith, e), ground (arith, e), ground (arith, e), ground (arith, e), ground (arith, e))
