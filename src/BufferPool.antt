-- ===== src/BufferPool.antt =====
-- The packet buffer of bufferpool/: a circular list of slots linked by index, one producer, and
-- consumers that share it by reference counts. Buffers in shared memory are not modelled: each
-- buffer here has type `buff_local`, for which `OMSbuff_shm_refresh` does nothing.
pub mod Producer
pub mod Queue
use fenice_1_12_with_h.Prelude.{
  ℕ, zero, suc, ◌+◌, ◌-◌, ◌%◌, ◌^◌, Bool, true, false, not, ◌&&◌, ◌||◌, List, [], Option, none,
  some, ltb, ◌==◌, if◌then◌else◌, take, update,
}

abbrev pub Bytes : Type 0
Bytes = List ℕ

-- `OMSSlot`. `timestamp` is a double that is only ever stored from a `uint32`; `sendts` is unused.
pub record Slot : Type 0 where
  pub refs : ℕ
  pub slot_seq : ℕ
  pub timestamp : ℕ
  pub payload : Bytes
  pub data_size : ℕ
  pub marker : ℕ
  pub next : ℕ

-- `OMSBuffer` and its `OMSControl` in one. Indices from `nslots` on are outside the allocation.
pub record Buffer : Type 0 where
  pub slots : ℕ → Slot
  pub nslots : ℕ
  pub known_slots : ℕ
  pub control_refs : ℕ
  pub write_pos : ℕ
  pub valid_read_pos : ℕ

-- `OMSConsumer`. `none` is -1, for `last_read_pos` and for `firstts`.
pub record Consumer : Type 0 where
  pub read_pos : ℕ
  pub last_read_pos : Option ℕ
  pub last_seq : ℕ
  pub frames : ℕ
  pub firstts : Option ℕ

-- OMSBUFF_MEM_PAGE
abbrev pub mem_page : ℕ
mem_page = 9

-- A zeroed slot of `xnew_array`, with its link.
abbrev pub blank : ℕ → Slot
blank link = record {
  refs = 0;
  slot_seq = 0;
  timestamp = 0;
  payload = [];
  data_size = 0;
  marker = 0;
  next = link;
}

-- OMSbuff_new; `none` is NULL.
unfoldable pub new : ℕ → Option Buffer
new size =
    if size == 0
    then none
    else some (record {
      slots = λ i. blank (if ltb i (size - 1) then i + 1 else 0);
      nslots = size;
      known_slots = size;
      control_refs = 0;
      write_pos = size - 1;
      valid_read_pos = 0;
    })

-- A slot of a fresh page: what `realloc` left there, but for these three fields.
abbrev pub fresh : Slot → ℕ → Slot
fresh s link = record s { refs = 0; slot_seq = 0; next = link }

-- OMSbuff_addpage behind slot `prev`; the flag says whether `realloc` succeeds.
unfoldable pub addpage : Bool → Buffer → ℕ → Option (ℕ × Buffer)
addpage mem b prev =
    let last = b.nslots + mem_page - 1 in
    let linked : ℕ → Slot = λ i.
      if ltb i b.nslots
      then b.slots i
      else if ltb i last
      then fresh (b.slots i) (i + 1)
      else if i == last
      then fresh (b.slots i) (b.slots prev).next
      else b.slots i in
    if mem
    then some (
      b.nslots,
      record b {
        slots = update linked prev (record (linked prev) { next = b.nslots });
        nslots = b.nslots + mem_page;
        known_slots = b.nslots + mem_page;
      },
    )
    else none

-- OMSbuff_ref, its loop over the slots from `i` up to the write position: `none` when the fuel ends.
unfoldable pub ref_slots : ℕ → (ℕ → Slot) → ℕ → ℕ → Option (ℕ → Slot)
ref_slots zero slots i stop = none
ref_slots (suc fuel) slots i stop =
    let counted = update slots i (record (slots i) { refs = ((slots i).refs + 1) % 2 ^ 16 }) in
    let rest = ref_slots fuel counted (slots i).next stop in
    if i == stop then some counted else rest

-- OMSbuff_ref
unfoldable pub ref : ℕ → Buffer → Option (Consumer × Buffer)
unfolding ref_slots
ref fuel b =
    let cons : Consumer = record {
      read_pos = b.valid_read_pos;
      last_read_pos = none;
      last_seq = 0;
      frames = 0;
      firstts = none;
    } in
    let b' = record b { control_refs = (b.control_refs + 1) % 2 ^ 16 } in
    let counted = ref_slots fuel b.slots b.valid_read_pos b.write_pos in
    if (b.slots b.valid_read_pos).slot_seq == 0
    then some (cons, b')
    else elim counted [ none ↦ none | some slots ↦ some (cons, record b' { slots = slots }) ]

-- The slot behind the last one read, if there is such a one.
abbrev pub behind : Buffer → Consumer → Option ℕ
behind b c = elim c.last_read_pos [ none ↦ none | some l ↦ some (b.slots l).next ]

-- The choice of the slot to read, which OMSbuff_getreader, OMSbuff_gotreader, OMSbuff_read,
-- OMSbuff_nextts and OMSbuff_isempty all make: `none` when nothing is there to be read.
unfoldable pub choose : Buffer → Consumer → Option ℕ
choose b c =
    let s = b.slots c.read_pos in
    if s.refs == 0 || ltb s.slot_seq c.last_seq
    then elim (behind b c) [
      | none ↦ none
      | some l ↦
          if not ((b.slots l).refs == 0) && ltb c.last_seq (b.slots l).slot_seq
          then some l
          else none
    ]
    else elim (behind b c) [
      | none ↦ some c.read_pos
      | some l ↦ if ltb (b.slots l).slot_seq s.slot_seq then some l else some c.read_pos
    ]

-- OMSbuff_getreader: the slot, and the consumer with its first timestamp.
unfoldable pub getreader : Buffer → Consumer → Option ℕ × Consumer
getreader b c = elim (choose b c) [
  | none ↦ (none, c)
  | some i ↦ (
    some i,
    elim c.firstts [ none ↦ record c { firstts = some (b.slots i).timestamp } | some t ↦ c ],
  )
]

-- The step past slot `i` that OMSbuff_gotreader and OMSbuff_read share.
abbrev pub pass : Buffer → Consumer → ℕ → Consumer × Buffer
pass b c i =
    let s = b.slots i in
    (
      record c { last_seq = s.slot_seq; last_read_pos = some i; read_pos = s.next },
      record b { slots = update b.slots i (record s { refs = (s.refs + 2 ^ 16 - 1) % 2 ^ 16 }) },
    )

-- OMSbuff_gotreader: `none` is its return value 1.
unfoldable pub gotreader : Buffer → Consumer → Option (Consumer × Buffer)
gotreader b c = elim (choose b c) [ none ↦ none | some i ↦ some (pass b c i) ]

-- What OMSbuff_read stores through its pointers, and whether it cut the payload short.
pub record Packet : Type 0 where
  pub timestamp : ℕ
  pub marker : ℕ
  pub payload : Bytes
  pub cut : Bool

-- OMSbuff_read with room for `room` bytes: `none` is its return value -1.
unfoldable pub read : Buffer → Consumer → ℕ → Option (Packet × Consumer × Buffer)
read b c room = elim (choose b c) [
  | none ↦ none
  | some i ↦
      let s = b.slots i in
      let size = if ltb room s.data_size then room else s.data_size in
      let (c', b') = pass b c i in
      some (
        record {
          timestamp = s.timestamp;
          marker = s.marker;
          payload = take size s.payload;
          cut = not (size == s.data_size);
        },
        c',
        b',
      )
]

-- OMSbuff_nextts: `none` is -1.
unfoldable pub nextts : Buffer → Consumer → Option ℕ
nextts b c = elim (choose b c) [ none ↦ none | some i ↦ some (b.slots i).timestamp ]

-- OMSbuff_isempty
unfoldable pub is_empty : Buffer → Consumer → Bool
is_empty b c = elim (choose b c) [ none ↦ true | some i ↦ false ]
