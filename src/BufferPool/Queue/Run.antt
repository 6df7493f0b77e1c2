-- ===== src/BufferPool/Queue/Run.antt =====
-- The buffer behind its operations: sequences of frames stored and packets taken, next to an
-- unbounded first-in first-out queue.
use fenice_1_12_with_h.Prelude.{
  ℕ, zero, suc, ◌+◌, ◌-◌, ◌*◌, ◌^◌, ◌<◌, ◌≡◌, refl, ap, ◌∙◌, true, List, [], ◌∷◌, ◌++◌, Option,
  none, some, length, All, All-append, ltb, if◌then◌else◌, Option-cases, arith, inl, inr,
}
use fenice_1_12_with_h.BufferPool.{
  Slot, Buffer, Consumer, mem_page, blank, choose, pass, getreader, gotreader, new, ref,
}
use fenice_1_12_with_h.BufferPool.Producer.{Outcome, hung, no_memory, done, produce, Frame}
use fenice_1_12_with_h.BufferPool.Queue.{Item, item, contents, IsQueue}
use fenice_1_12_with_h.BufferPool.Queue.Chains.{range, Chain-range, Distinct-range, All-range}
use fenice_1_12_with_h.BufferPool.Queue.Read.{choose-pending, choose-empty, pass-IsQueue}
use fenice_1_12_with_h.BufferPool.Queue.Write.{item_of}
use fenice_1_12_with_h.BufferPool.Queue.Produce.{produce_refines}

-- The reader's two calls in RTP_send_packet: OMSbuff_getreader, the use of the slot, and
-- OMSbuff_gotreader.
unfoldable pub consume : Buffer → Consumer → Option (Item × Consumer × Buffer)
consume b c =
    let (slot, c') = getreader b c in
    elim slot [
      | none ↦ none
      | some i ↦ elim (gotreader b c') [
        | none ↦ none
        | some (c'', b') ↦ some (item (b.slots i), c'', b')
      ]
    ]

-- With its first timestamp set, or not, a consumer stands at the same place.
abbrev timed : Consumer → Option ℕ → Consumer
timed c t = record c { firstts = t }

choose-timed : (b : Buffer) (c : Consumer) (t : Option ℕ) → choose b (timed c t) ≡ choose b c
unfolding choose
choose-timed b c t = refl

timed-IsQueue :
    {b : Buffer} {c : Consumer} (free pending : List ℕ) (t : Option ℕ)
    → IsQueue b c free pending
    → IsQueue b (timed c t) free pending
timed-IsQueue free pending t q = record {
  ring = record {
    linked = q.linked;
    front = q.front;
    distinct = q.distinct;
    in_range = q.in_range;
    closed = q.closed;
    writer_in = q.writer_in;
    valid_in = q.valid_in;
    one = q.one;
    idle = q.idle;
    due = q.due;
    level = q.level;
  };
  behind_ok = q.behind_ok;
}

-- What taking the oldest packet leaves.
record Taken (b : Buffer) (c : Consumer) (p : ℕ) (ps : List ℕ) : Type 0 where
  reader : Consumer
  buffer : Buffer
  free : List ℕ
  out_is : consume b c ≡ some (item (b.slots p), reader, buffer)
  queue : IsQueue buffer reader free ps
  items : contents buffer.slots ps ≡ contents b.slots ps
  slots_is : buffer.nslots ≡ b.nslots
  seq_is : (buffer.slots buffer.write_pos).slot_seq ≡ (b.slots b.write_pos).slot_seq

consume-pending :
    {b : Buffer} {c : Consumer} (free : List ℕ) (p : ℕ) (ps : List ℕ)
    → IsQueue b c free (p ∷ ps)
    → Taken b c p ps
consume-pending {b} {c} free p ps q = elim (Option-cases c.firstts) [
  | inl e ↦
      taken (some (b.slots p).timestamp)
        (unfold getreader in ground (arith, choose-pending free p ps q))
  | inr (t, e) ↦ taken c.firstts (unfold getreader in ground (arith, choose-pending free p ps q))
]
  where
    taken : (t : Option ℕ) → getreader b c ≡ (some p, timed c t) → Taken b c p ps
    taken t e =
        let (q', same) = pass-IsQueue free p ps (timed-IsQueue free (p ∷ ps) t q) in
        let (c', b') = pass b (timed c t) p in
        let chosen = choose-pending free p ps (timed-IsQueue free (p ∷ ps) t q) in
        record {
          reader = c';
          buffer = b';
          free = free ++ p ∷ [];
          out_is = unfold consume gotreader in ground (arith, e, chosen);
          queue = q';
          items = same;
          slots_is = refl;
          seq_is = ground arith;
        }

consume-empty :
    {b : Buffer} {c : Consumer} (free : List ℕ) → IsQueue b c free [] → consume b c ≡ none
unfolding consume getreader
consume-empty free q = ground (arith, choose-empty free q)

pub data Op : Type 0 where
  store : Frame → Op
  fetch : Op

-- The replies of a sequence of operations: a packet, or none, for each `fetch`.
abbrev reply {ℓ} : {A : Type ℓ} → A → Outcome (List A) → Outcome (List A)
reply x hung = hung
reply x no_memory = no_memory
reply x (done xs) = done (x ∷ xs)

-- Every `realloc` succeeds.
unfoldable pub run : ℕ → Buffer → Consumer → List Op → Outcome (List (Option Item))
run fuel b c [] = done []
run fuel b c (store f ∷ ops) = elim (produce true fuel b f) [
  | hung ↦ hung
  | no_memory ↦ no_memory
  | done b' ↦ run fuel b' c ops
]
run fuel b c (fetch ∷ ops) = elim (consume b c) [
  | none ↦ reply none (run fuel b c ops)
  | some (i, c', b') ↦ reply (some i) (run fuel b' c' ops)
]

-- The same operations on a plain queue.
abbrev pub fifo : List Item → List Op → List (Option Item)
fifo q [] = []
fifo q (store f ∷ ops) = fifo (q ++ item_of f ∷ []) ops
fifo [] (fetch ∷ ops) = none ∷ fifo [] ops
fifo (x ∷ q) (fetch ∷ ops) = some x ∷ fifo q ops

abbrev pub HasBytes : Op → Type 0
HasBytes (store f) = 0 < length f.payload
HasBytes fetch = Unit

run-fifo :
    (ops : List Op) (fuel : ℕ) (b : Buffer) (c : Consumer) (free pending : List ℕ)
    → IsQueue b c free pending
    → All HasBytes ops
    → b.nslots + mem_page * length ops < fuel
    → (b.slots b.write_pos).slot_seq + length ops < 2 ^ 64
    → run fuel b c ops ≡ done (fifo (contents b.slots pending) ops)
unfolding run
run-fifo [] fuel b c free pending q bytes enough small = refl
run-fifo (store f ∷ ops) fuel b c free pending q bytes enough small =
    let s = produce_refines fuel f free pending q (omega arith) (omega arith) bytes.0 in
    let later =
      run-fifo ops fuel s.buffer c s.free s.waiting s.queue bytes.1 (omega (arith, s.slots_le))
        (omega (arith, s.seq_is)) in
    rw (s.out_is, run) (later ∙ ap (λ l. done (fifo l ops)) s.items)
run-fifo (fetch ∷ ops) fuel b c free [] q bytes enough small =
    let later = run-fifo ops fuel b c free [] q bytes.1 (omega arith) (omega arith) in
    ground (arith, consume-empty free q, later)
run-fifo (fetch ∷ ops) fuel b c free (p ∷ ps) q bytes enough small =
    let t = consume-pending free p ps q in
    let later =
      run-fifo ops fuel t.buffer t.reader t.free ps t.queue bytes.1 (omega (arith, t.slots_is))
        (omega (arith, t.seq_is)) in
    rw (t.out_is, run)
      (ap (reply (some (item (b.slots p)))) (later ∙ ap (λ l. done (fifo l ops)) t.items))

-- A new buffer, one consumer attached to it, and the operations.
unfoldable pub session : ℕ → ℕ → List Op → Outcome (List (Option Item))
session fuel size ops = elim (new size) [
  | none ↦ no_memory
  | some b ↦ elim (ref fuel b) [ none ↦ hung | some (c, b') ↦ run fuel b' c ops ]
]

module _ (k : ℕ) where
  abbrev blank_slots : ℕ → Slot
  blank_slots i = blank (if ltb i (suc k - 1) then i + 1 else 0)

  -- What OMSbuff_new and OMSbuff_ref leave for a size of `k + 1`.
  abbrev first_buffer : Buffer
  first_buffer = record {
    slots = blank_slots;
    nslots = suc k;
    known_slots = suc k;
    control_refs = 1;
    write_pos = suc k - 1;
    valid_read_pos = 0;
  }

  abbrev first_reader : Consumer
  first_reader = record {
    read_pos = 0;
    last_read_pos = none;
    last_seq = 0;
    frames = 0;
    firstts = none;
  }

  first-IsQueue : IsQueue first_buffer first_reader (range 0 (suc k)) []
  first-IsQueue = record {
    ring = record {
      linked = (
        ground arith,
        Chain-range blank_slots 0 k [] (suc k - 1) (λ i le lt. ground arith) (omega arith),
      );
      front = refl;
      distinct = Distinct-range 0 (suc k) [] tt tt;
      in_range =
          All-append (λ i. i < suc k) (range 0 (suc k)) []
            (All-range (λ i. i < suc k) 0 (suc k) (λ i le lt. omega arith)) tt;
      closed = λ i lt. ground arith;
      writer_in = omega arith;
      valid_in = omega arith;
      one = refl;
      idle = All-range (λ i. (blank_slots i).refs ≡ 0) 0 (suc k) (λ i le lt. refl);
      due = tt;
      level = refl;
    };
    behind_ok = tt;
  }

  session-run :
      (fuel : ℕ) (ops : List Op) → session fuel (suc k) ops ≡ run fuel first_buffer first_reader ops
  unfolding session new ref
  session-run fuel ops = ground arith

-- A buffer of any positive size, with one consumer, is a first-in first-out queue of packets: for
-- every sequence of frames stored by get_frame's two calls and packets fetched by the two calls of
-- RTP_send_packet, each fetch hands over what an unbounded queue would, or nothing where that is
-- empty. It is so if each frame has a byte, the frames are fewer than the sequence numbers, every
-- `realloc` succeeds, and for all fuel above the size and nine slots for each operation.
pub session_refines :
    (size fuel : ℕ) (ops : List Op)
    → 0 < size
    → All HasBytes ops
    → size + mem_page * length ops < fuel
    → length ops < 2 ^ 64
    → session fuel size ops ≡ done (fifo [] ops)
session_refines zero fuel ops h bytes enough small = absurd (omega arith)
session_refines (suc k) fuel ops h bytes enough small =
    session-run k fuel ops
    ∙ run-fifo ops fuel (first_buffer k) (first_reader k) (range 0 (suc k)) [] (first-IsQueue k)
        bytes enough (omega arith)
