-- ===== src/BufferPool/Producer/Push.antt =====
-- The loops that push the valid read position, in OMSbuff_getslot and OMSbuff_write: when they end.
use mathlib.Core.Path.{subst}
use fenice_1_12_with_h.Prelude.{
  ℕ, zero, suc, ◌+◌, ◌≤◌, ◌<◌, ◌≡◌, refl, ◌&&◌, inl, inr, none, some, ltb, ◌==◌, if◌then◌else◌,
  Bool-cases, arith, Bool, sym, ◌∙◌,
}
use fenice_1_12_with_h.BufferPool.{Slot, Buffer, Bytes}
use fenice_1_12_with_h.BufferPool.Producer.{
  push_getslot, push_write, write, next_slot, memory, hung,
}

-- How many of the first `n` slots have a sequence number above `k`.
above : (ℕ → Slot) → ℕ → ℕ → ℕ
above slots zero k = 0
above slots (suc n) k = (if ltb k (slots n).slot_seq then 1 else 0) + above slots n k

above-le : (slots : ℕ → Slot) (n k : ℕ) → above slots n k ≤ n
unfolding above
above-le slots zero k = omega arith
above-le slots (suc n) k = ground (arith, above-le slots n k)

above_mono : (slots : ℕ → Slot) (n k l : ℕ) → k ≤ l → above slots n l ≤ above slots n k
unfolding above
above_mono slots zero k l h = omega arith
above_mono slots (suc n) k l h = ground (arith, above_mono slots n k l h)

above-lt :
    (slots : ℕ → Slot) (n k i : ℕ)
    → i < n
    → k < (slots i).slot_seq
    → above slots n (slots i).slot_seq < above slots n k
unfolding above
above-lt slots zero k i hi hk = absurd (omega arith)
above-lt slots (suc n) k i hi hk = elim (Bool-cases (i == n)) [
  | inl e ↦ ground (arith, above_mono slots n k (slots i).slot_seq)
  | inr ne ↦ ground (arith, above-lt slots n k i)
]

-- All links stay inside the first `n` slots.
abbrev pub Closed : (ℕ → Slot) → ℕ → Type 0
Closed slots n = (i : ℕ) → i < n → (slots i).next < n

push_getslot-some :
    (fuel : ℕ) (slots : ℕ → Slot) (n ts v : ℕ)
    → Closed slots n
    → v < n
    → above slots n (slots v).slot_seq < fuel
    → (v' : ℕ) × (push_getslot fuel slots ts v ≡ some v') × (v' < n)
unfolding push_getslot
push_getslot-some zero slots n ts v closed hv h = absurd (omega arith)
push_getslot-some (suc fuel) slots n ts v closed hv h =
    let m = (slots v).next in
    elim (Bool-cases (ltb (slots v).slot_seq (slots m).slot_seq && ts == (slots v).timestamp)) [
      | inl more ↦ rw more (
          push_getslot-some fuel slots n (slots v).timestamp m closed (closed v hv)
            (ground (arith, closed v hv, above-lt slots n (slots v).slot_seq m)))
      | inr stop ↦ (v, rw stop, hv)
    ]

-- With fuel for one round more than there are slots the loop of OMSbuff_getslot ends, at a slot of
-- the buffer, if every link stays inside the buffer.
pub push_getslot-ends :
    (fuel : ℕ) (slots : ℕ → Slot) (n ts v : ℕ)
    → Closed slots n
    → v < n
    → n < fuel
    → (v' : ℕ) × (push_getslot fuel slots ts v ≡ some v') × (v' < n)
push_getslot-ends fuel slots n ts v closed hv h =
    push_getslot-some fuel slots n ts v closed hv
      (omega (arith, above-le slots n (slots v).slot_seq))

-- The loop of OMSbuff_write does not end, whatever the fuel, where all links stay inside the buffer
-- and every slot of it was written with one and the same timestamp.
push_write-hangs :
    (fuel : ℕ) (slots : ℕ → Slot) (n ts v : ℕ)
    → Closed slots n
    → v < n
    → ((i : ℕ) → i < n → (0 < (slots i).slot_seq) × ((slots i).timestamp ≡ ts))
    → push_write fuel slots ts v ≡ none
unfolding push_write
push_write-hangs zero slots n ts v closed hv all = refl
push_write-hangs (suc fuel) slots n ts v closed hv all =
    let m = (slots v).next in
    let rest = push_write-hangs fuel slots n ts m closed (closed v hv) all in
    ground (arith, all v hv, all m (closed v hv), rest)

-- OMSbuff_write of a caller's bytes does not return, whatever the fuel, where all links stay inside the
-- buffer, every slot of it was written with one and the same timestamp, the slot behind the last one
-- written is not waited for, and it is the valid read position.
pub write-hangs :
    (mem : Bool) (fuel : ℕ) (b : Buffer) (seq timestamp marker : ℕ) (bytes : Bytes) (size t : ℕ)
    → Closed b.slots b.nslots
    → b.write_pos < b.nslots
    → ((i : ℕ) → i < b.nslots → (0 < (b.slots i).slot_seq) × ((b.slots i).timestamp ≡ t))
    → (b.slots b.valid_read_pos).refs ≡ 0
    → (b.slots b.write_pos).next ≡ b.valid_read_pos
    → write mem fuel b seq timestamp marker (memory bytes) size ≡ hung
unfolding write next_slot
write-hangs mem fuel b seq timestamp marker bytes size t closed lt all free at =
    let v = b.valid_read_pos in
    let inside : v < b.nslots = subst (λ i. i < b.nslots) at (closed b.write_pos lt) in
    let stuck =
      push_write-hangs fuel b.slots b.nslots (b.slots v).timestamp v closed inside
        (λ i h. ((all i h).0, (all i h).1 ∙ sym (all v inside).1)) in
    ground (arith, stuck, free, at, (all v inside).0)
