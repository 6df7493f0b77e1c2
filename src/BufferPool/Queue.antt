-- ===== src/BufferPool/Queue.antt =====
-- A buffer with one consumer as a queue of packets: the invariant that ties the ring of slots to
-- the slots that are free and those that the consumer has still to read.
pub mod Chains
pub mod Read
pub mod Write
pub mod Page
pub mod Produce
pub mod Run
pub mod Stale
pub mod Unref
use fenice_1_12_with_h.Prelude.{
  ℕ, zero, suc, ◌+◌, ◌≤◌, ◌<◌, ◌≡◌, ◌≢◌, ◌⊎◌, List, [], ◌∷◌, ◌++◌, map, Option, none, some, take,
  length, All,
}
use fenice_1_12_with_h.BufferPool.{Bytes, Slot, Buffer, Consumer}
use fenice_1_12_with_h.BufferPool.Producer.Push.{Closed}

-- Following `next` from slot `a` visits `xs` and ends at `z`.
abbrev pub Chain : (ℕ → Slot) → ℕ → List ℕ → ℕ → Type 0
Chain s a [] z = a ≡ z
Chain s a (x ∷ xs) z = ((s a).next ≡ x) × Chain s x xs z

abbrev pub Fresh : ℕ → List ℕ → Type 0
Fresh a xs = All (λ y. a ≢ y) xs

abbrev pub Distinct : List ℕ → Type 0
Distinct [] = Unit
Distinct (x ∷ xs) = Fresh x xs × Distinct xs

abbrev pub IsIn : ℕ → List ℕ → Type 0
IsIn a [] = ⊥
IsIn a (x ∷ xs) = (a ≡ x) ⊎ IsIn a xs

abbrev pub Front : List ℕ → ℕ → Type 0
Front [] r = ⊥
Front (x ∷ xs) r = x ≡ r

-- The slots of `xs` wait for one reader, with the sequence numbers that follow on `k`.
abbrev pub Due : (ℕ → Slot) → ℕ → List ℕ → Type 0
Due s k [] = Unit
Due s k (x ∷ xs) = ((s x).refs ≡ 1) × ((s x).slot_seq ≡ suc k) × Due s (suc k) xs

abbrev pub Idle : (ℕ → Slot) → List ℕ → Type 0
Idle s xs = All (λ i. (s i).refs ≡ 0) xs

-- The slot behind the last one read is the next to be read, or one of those that wait.
abbrev pub Behind : (ℕ → Slot) → ℕ → List ℕ → ℕ → Option ℕ → Type 0
Behind s n pending r none = Unit
Behind s n pending r (some l) = (l < n) × (((s l).next ≡ r) ⊎ IsIn (s l).next pending)

-- What a reader gets of a slot.
pub record Item : Type 0 where
  pub timestamp : ℕ
  pub marker : ℕ
  pub payload : Bytes

abbrev pub item : Slot → Item
item s = record { timestamp = s.timestamp; marker = s.marker; payload = take s.data_size s.payload }

abbrev pub contents : (ℕ → Slot) → List ℕ → List Item
contents s xs = map (λ i. item (s i)) xs

-- The buffer with its one consumer; behind the write position come the free slots, then those that
-- wait to be read, in the order in which they were written.
pub record IsRing (b : Buffer) (c : Consumer) (free pending : List ℕ) : Type 0 where
  pub linked : Chain b.slots b.write_pos (free ++ pending) b.write_pos
  pub front : Front (pending ++ free) c.read_pos
  pub distinct : Distinct (free ++ pending)
  pub in_range : All (λ i. i < b.nslots) (free ++ pending)
  pub closed : Closed b.slots b.nslots
  pub writer_in : b.write_pos < b.nslots
  pub valid_in : b.valid_read_pos < b.nslots
  pub one : b.control_refs ≡ 1
  pub idle : Idle b.slots free
  pub due : Due b.slots c.last_seq pending
  pub level : (b.slots b.write_pos).slot_seq ≡ c.last_seq + length pending

pub record IsQueue (b : Buffer) (c : Consumer) (free pending : List ℕ) : Type 0 where
  pub ring : IsRing b c free pending
  pub open ring use *
  pub behind_ok : Behind b.slots b.nslots pending c.read_pos c.last_read_pos
