-- ===== src/BufferPool/Producer.antt =====
-- The producer's side: OMSbuff_getslot, OMSbuff_write, the frame loop of mediainfo/get_frame.c that
-- calls them, and OMSbuff_unref.
pub mod Push
use fenice_1_12_with_h.Prelude.{
  ℕ, zero, suc, ◌+◌, ◌-◌, ◌%◌, ◌^◌, Bool, true, false, not, ◌&&◌, List, [], ◌∷◌, ◌++◌, Option, none,
  some, ltb, ◌==◌, if◌then◌else◌, take, drop, update, length,
}
use fenice_1_12_with_h.Prelude.Codes.{Code, err_noerror, err_alloc, err_eof}
use fenice_1_12_with_h.BufferPool.{Bytes, Slot, Buffer, Consumer, addpage, gotreader}

-- The loop of OMSbuff_getslot that pushes the valid read position: `none` when the fuel ends.
unfoldable pub push_getslot : ℕ → (ℕ → Slot) → ℕ → ℕ → Option ℕ
push_getslot zero slots ts v = none
push_getslot (suc fuel) slots ts v =
    let rest = push_getslot fuel slots (slots v).timestamp (slots v).next in
    if ltb (slots v).slot_seq (slots (slots v).next).slot_seq && ts == (slots v).timestamp
    then rest
    else some v

-- The loop of OMSbuff_write, whose test asks only that the next slot was ever written.
unfoldable pub push_write : ℕ → (ℕ → Slot) → ℕ → ℕ → Option ℕ
push_write zero slots ts v = none
push_write (suc fuel) slots ts v =
    let rest = push_write fuel slots (slots v).timestamp (slots v).next in
    if not ((slots (slots v).next).slot_seq == 0) && ts == (slots v).timestamp then rest else some v

-- The valid read position once slot `n` is to be overwritten; `loop` is one of the two above.
abbrev pub push_valid : (ℕ → (ℕ → Slot) → ℕ → ℕ → Option ℕ) → ℕ → Buffer → ℕ → Option Buffer
push_valid loop fuel b n =
    let v = b.valid_read_pos in
    if not ((b.slots v).slot_seq == 0) && v == n
    then elim (loop fuel b.slots (b.slots v).timestamp v) [
      | none ↦ none
      | some v' ↦ some (record b { valid_read_pos = v' })
    ]
    else some b

-- What a call that moves the valid read position comes to.
pub data Outcome {ℓ} (A : Type ℓ) : Type ℓ where
  -- the fuel ended
  hung : Outcome A
  -- `realloc` failed: NULL, or ERR_ALLOC
  no_memory : Outcome A
  done : A → Outcome A

-- The slot to write next: behind the write position, on a new page if that one is still due.
unfoldable pub next_slot :
    (ℕ → (ℕ → Slot) → ℕ → ℕ → Option ℕ) → Bool → ℕ → Buffer → Outcome (ℕ × Buffer)
next_slot loop mem fuel b =
    let n = (b.slots b.write_pos).next in
    if ltb 0 (b.slots n).refs
    then elim (addpage mem b b.write_pos) [ none ↦ no_memory | some r ↦ done r ]
    else elim (push_valid loop fuel b n) [ none ↦ hung | some b' ↦ done (n, b') ]

-- OMSbuff_getslot
unfoldable pub getslot : Bool → ℕ → Buffer → Outcome (ℕ × Buffer)
getslot mem fuel b = next_slot push_getslot mem fuel b

-- The `data` argument of OMSbuff_write: the payload of a slot, or memory of the caller's.
pub data Source : Type 0 where
  slot_data : ℕ → Source
  memory : Bytes → Source

-- `buffer->slots[slot->next].data == data`
abbrev pub in_place : Buffer → Source → Bool
in_place b (slot_data i) = (b.slots b.write_pos).next == i
in_place b (memory xs) = false

abbrev pub source_bytes : Buffer → Source → Bytes
source_bytes b (slot_data i) = (b.slots i).payload
source_bytes b (memory xs) = xs

-- The end of OMSbuff_write: slot `i` becomes the last one written, with `payload` in it.
unfoldable pub commit : Buffer → ℕ → ℕ → ℕ → ℕ → ℕ → Bytes → ℕ → Buffer
commit b i curr_seq seq timestamp marker payload size = record b {
  slots = update b.slots i (record (b.slots i) {
    timestamp = timestamp;
    marker = marker;
    payload = payload;
    data_size = size;
    refs = b.control_refs;
    slot_seq = if seq == 0 then (curr_seq + 1) % 2 ^ 64 else seq;
  });
  write_pos = i;
}

-- OMSbuff_write
unfoldable pub write : Bool → ℕ → Buffer → ℕ → ℕ → ℕ → Source → ℕ → Outcome Buffer
write mem fuel b seq timestamp marker data_from size =
    let curr_seq = (b.slots b.write_pos).slot_seq in
    let n = (b.slots b.write_pos).next in
    if in_place b data_from
    then done (commit b n curr_seq seq timestamp marker (b.slots n).payload size)
    else elim (next_slot push_write mem fuel b) [
      | hung ↦ hung
      | no_memory ↦ no_memory
      | done (i, b') ↦
          let old = (b'.slots i).payload in
          let payload = take size (source_bytes b data_from) ++ drop size old in
          done (commit b' i curr_seq seq timestamp marker payload size)
    ]

-- What `read_media` does with the slot: it stores the payload, its size, the time and the marker,
-- and returns a code and the flag `recallme`.
pub record Frame : Type 0 where
  pub payload : Bytes
  pub mtime : ℕ
  pub marker : ℕ
  pub recallme : Bool

-- `read_media` writing into slot `i`, whose payload array keeps what lies behind.
abbrev pub fill : Buffer → ℕ → Bytes → Buffer
fill b i xs = record b {
  slots = update b.slots i (record (b.slots i) {
    payload = xs ++ drop (length xs) (b.slots i).payload;
    data_size = length xs;
  });
}

-- One round of the loop of get_frame on a frame that was read, sequence number 0 as there.
unfoldable pub produce : Bool → ℕ → Buffer → Frame → Outcome Buffer
produce mem fuel b f = elim (getslot mem fuel b) [
  | hung ↦ hung
  | no_memory ↦ no_memory
  | done (i, b') ↦
      let size = length f.payload in
      let filled = fill b' i f.payload in
      if size == 0 then done filled else write mem fuel filled 0 f.mtime f.marker (slot_data i) size
]

-- OMSbuff_unref, its loop `while (!OMSbuff_gotreader(cons))`.
unfoldable pub drain : ℕ → Buffer → Consumer → Option Buffer
drain zero b c = none
drain (suc fuel) b c = elim (gotreader b c) [ none ↦ some b | some (c', b') ↦ drain fuel b' c' ]

-- OMSbuff_unref
unfoldable pub unref : ℕ → Buffer → Consumer → Option Buffer
unfolding drain
unref fuel b c =
    if ltb 0 b.control_refs
    then drain fuel (record b { control_refs = b.control_refs - 1 }) c
    else some b
