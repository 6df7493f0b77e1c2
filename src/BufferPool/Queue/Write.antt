-- ===== src/BufferPool/Queue/Write.antt =====
-- Writing to a buffer with one consumer: the packet on a free slot or on a new
-- page, behind those that wait.
use mathlib.Core.Path.{subst, fun_ext}
use mathlib.Core.List.{append_assoc}
use fenice_1_12_with_h.Prelude.{
  ℕ, suc, ◌+◌, ◌%◌, ◌^◌, ◌<◌, ◌≡◌, ◌≢◌, refl, sym, ap, ◌∙◌, ◌⊎◌, inl, inr, Bool, List, [], ◌∷◌,
  ◌++◌, Option, none, some, take, drop, length, update, All, All-append, arith, length-append,
}
use fenice_1_12_with_h.BufferPool.{Slot, Buffer, Consumer}
use fenice_1_12_with_h.BufferPool.Producer.{done, getslot, fill, commit, write, produce, Frame}
use fenice_1_12_with_h.BufferPool.Queue.{
  Chain, Fresh, Distinct, IsIn, Front, Item, item, contents, Behind, IsQueue, IsRing,
}
use fenice_1_12_with_h.BufferPool.Queue.Chains.{
  All-map, All-left, All-right, Distinct-snoc, Chain-links, Chain-snoc, Same, Due-Same, Due-snoc,
  Idle-Same, contents-Same,
}

-- The slots after packet `f` was put into slot `i`.
abbrev pub put : (ℕ → Slot) → ℕ → Frame → ℕ → ℕ → ℕ → Slot
put s i f refs seq = update s i (record (s i) {
  timestamp = f.mtime;
  marker = f.marker;
  payload = f.payload ++ drop (length f.payload) (s i).payload;
  data_size = length f.payload;
  refs = refs;
  slot_seq = seq;
})

pub take-length_append {ℓ} : {A : Type ℓ} (xs ys : List A) → take (length xs) (xs ++ ys) ≡ xs
take-length_append [] ys = refl
take-length_append (x ∷ xs) ys = ap (◌∷◌ x) (take-length_append xs ys)

abbrev pub item_of : Frame → Item
item_of f = record { timestamp = f.mtime; marker = f.marker; payload = f.payload }

module _ (s : ℕ → Slot) (i : ℕ) (f : Frame) (refs seq : ℕ) where
  put-Same : (xs : List ℕ) → Fresh i xs → All (Same s (put s i f refs seq)) xs
  put-Same xs =
      All-map (λ y. i ≢ y) (Same s (put s i f refs seq)) xs
        (λ y h. (ground arith, ground arith, ground arith))

  item-put : item (put s i f refs seq i) ≡ item_of f
  item-put = ground (arith, take-length_append f.payload (drop (length f.payload) (s i).payload))

  next-put : (j : ℕ) → (put s i f refs seq j).next ≡ (s j).next
  next-put j = ground arith

-- With the slot `a` handed out by OMSbuff_getslot behind the write position, a frame is stored there.
pub produce-done :
    (mem : Bool) (fuel : ℕ) (b : Buffer) (f : Frame) (a : ℕ) (b' : Buffer)
    → getslot mem fuel b ≡ done (a, b')
    → (b'.slots b'.write_pos).next ≡ a
    → 0 < length f.payload
    → produce mem fuel b f
      ≡ done (record b' {
        slots = put b'.slots a f b'.control_refs (((b'.slots b'.write_pos).slot_seq + 1) % 2 ^ 64);
        write_pos = a;
      })
unfolding produce write commit
produce-done mem fuel b f a b' e n h =
    (stored ∙ ap done written)
    ∙ ap (λ t. done (record b' { slots = t; write_pos = a })) (fun_ext merged)
  where
    filled : Buffer
    filled = fill b' a f.payload

    last : ℕ
    last = (filled.slots filled.write_pos).slot_seq

    stored :
        produce mem fuel b f
        ≡ done (commit filled a last 0 f.mtime f.marker (filled.slots a).payload (length f.payload))
    stored = ground (arith, e)

    written :
        commit filled a last 0 f.mtime f.marker (filled.slots a).payload (length f.payload)
        ≡ record b' {
          slots =
              (commit filled a last 0 f.mtime f.marker
                (filled.slots a).payload
                (length f.payload)).slots;
          write_pos = a;
        }
    written = refl

    merged :
        (j : ℕ)
        → (commit filled a last 0 f.mtime f.marker
              (filled.slots a).payload
              (length f.payload)).slots
            j
          ≡ put b'.slots a f b'.control_refs (((b'.slots b'.write_pos).slot_seq + 1) % 2 ^ 64) j
    merged j = ground arith

-- The slot behind the last one read is the next to be read, waits, or is the one handed out.
abbrev pub Between : (ℕ → Slot) → ℕ → List ℕ → ℕ → ℕ → Option ℕ → Type 0
Between s n pending r a none = Unit
Between s n pending r a (some l) =
    (l < n) × (((s l).next ≡ r) ⊎ IsIn (s l).next pending ⊎ ((s l).next ≡ a))

IsIn-left : (a : ℕ) (xs ys : List ℕ) → IsIn a xs → IsIn a (xs ++ ys)
IsIn-left a [] ys m = absurd m
IsIn-left a (x ∷ xs) ys (inl e) = inl e
IsIn-left a (x ∷ xs) ys (inr m) = inr (IsIn-left a xs ys m)

IsIn-last : (a : ℕ) (xs : List ℕ) → IsIn a (xs ++ a ∷ [])
IsIn-last a [] = inl refl
IsIn-last a (x ∷ xs) = inr (IsIn-last a xs)

Between-Behind :
    (s t : ℕ → Slot) (n : ℕ) (pending : List ℕ) (r a : ℕ) (l : Option ℕ)
    → ((i : ℕ) → (t i).next ≡ (s i).next)
    → Between s n pending r a l
    → Behind t n (pending ++ a ∷ []) r l
Between-Behind s t n pending r a none links h = tt
Between-Behind s t n pending r a (some l) links (lt, inl e) = (lt, inl (links l ∙ e))
Between-Behind s t n pending r a (some l) links (lt, inr (inl m)) =
    (lt, inr (rw (links l) (IsIn-left (s l).next pending (a ∷ []) m)))
Between-Behind s t n pending r a (some l) links (lt, inr (inr e)) =
    (lt, inr (rw (links l ∙ e) (IsIn-last a pending)))

contents-snoc :
    (s : ℕ → Slot) (xs : List ℕ) (a : ℕ)
    → contents s (xs ++ a ∷ []) ≡ contents s xs ++ item (s a) ∷ []
contents-snoc s [] a = refl
contents-snoc s (x ∷ xs) a = ap (◌∷◌ (item (s x))) (contents-snoc s xs a)

-- Storing a frame in the first free slot of a ring puts it at the end of the queue.
pub put-IsQueue :
    {b : Buffer} {c : Consumer} (a : ℕ) (fs pending : List ℕ) (f : Frame)
    → IsRing b c (a ∷ fs) pending
    → Between b.slots b.nslots pending c.read_pos a c.last_read_pos
    → (b.slots b.write_pos).slot_seq + 1 < 2 ^ 64
    → let t = put b.slots a f b.control_refs (((b.slots b.write_pos).slot_seq + 1) % 2 ^ 64) in
      IsQueue (record b { slots = t; write_pos = a }) c fs (pending ++ a ∷ [])
      × (contents t (pending ++ a ∷ []) ≡ contents b.slots pending ++ item_of f ∷ [])
put-IsQueue {b} {c} a fs pending f q between small = (
  record {
    ring = record {
      linked =
          subst (λ xs. Chain t a xs a) (append_assoc fs pending (a ∷ []))
            (Chain-snoc t a (fs ++ pending) b.write_pos a
              (Chain-links b.slots t a (fs ++ pending) b.write_pos links q.linked.1)
              (links b.write_pos ∙ q.linked.0));
      front = subst (λ xs. Front xs c.read_pos) (sym (append_assoc pending (a ∷ []) fs)) q.front;
      distinct =
          subst Distinct (append_assoc fs pending (a ∷ []))
            (Distinct-snoc (fs ++ pending) a q.distinct.1 q.distinct.0);
      in_range =
          subst (All (λ i. i < b.nslots)) (append_assoc fs pending (a ∷ [])) (
            All-append (λ i. i < b.nslots) (fs ++ pending) (a ∷ []) q.in_range.1
              (q.in_range.0, tt));
      closed = λ i h. rw (links i) (q.closed i h);
      writer_in = q.in_range.0;
      valid_in = q.valid_in;
      one = q.one;
      idle =
          Idle-Same b.slots t fs (apart fs (All-left (λ y. a ≢ y) fs pending q.distinct.0))
            q.idle.1;
      due =
          Due-snoc t c.last_seq pending a (Due-Same b.slots t c.last_seq pending same q.due)
            (ground (arith, q.one)) seq;
      level = omega (arith, seq, length-append {0} pending (a ∷ []));
    };
    behind_ok =
        Between-Behind b.slots t b.nslots pending c.read_pos a c.last_read_pos links between;
  },
  contents-snoc t pending a
      ∙ cc (contents-Same b.slots t pending same, item-put b.slots a f b.control_refs number),
)
  where
    number : ℕ
    number = ((b.slots b.write_pos).slot_seq + 1) % 2 ^ 64

    t : ℕ → Slot
    t = put b.slots a f b.control_refs number

    links : (i : ℕ) → (t i).next ≡ (b.slots i).next
    links = next-put b.slots a f b.control_refs number

    apart : (xs : List ℕ) → Fresh a xs → All (Same b.slots t) xs
    apart = put-Same b.slots a f b.control_refs number

    same : All (Same b.slots t) pending
    same = apart pending (All-right (λ y. a ≢ y) fs pending q.distinct.0)

    seq : (t a).slot_seq ≡ suc (c.last_seq + length pending)
    seq = ground (arith, q.level)
