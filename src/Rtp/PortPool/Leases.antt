-- ===== src/Rtp/PortPool/Leases.antt =====
-- The pool of RTP_get_port_pair and RTP_release_port_pair with the pairs that are leased: its invariant.
use fenice_1_12_with_h.Prelude.{
  ℕ, zero, suc, ◌+◌, ◌≤◌, ◌<◌, ◌≡◌, refl, sym, ap, inl, inr, List, [], ◌∷◌, none, some, ◌==◌,
  if◌then◌else◌, length, All, arith, Bool-cases,
}
use fenice_1_12_with_h.Rtp.PortPool.{
  Pair, Pool, entries, init, pair_of, port_of, take_first, fill_first,
}

-- How often `v` stands in a list.
abbrev pub count : ℕ → List ℕ → ℕ
count v [] = 0
count v (x ∷ xs) = (if x == v then 1 else 0) + count v xs

-- The pool together with the pairs that were taken from it.
pub record Book : Type 0 where
  pub pool : Pool
  pub leased : List Pair

-- The table entries of pairs.
abbrev pub entries_of : ℕ → List Pair → List ℕ
entries_of start [] = []
entries_of start (p ∷ ps) = port_of start p.rtp ∷ entries_of start ps

-- A pair that the pool made of an entry from `start` on.
abbrev pub IsMade : ℕ → Pair → Type 0
IsMade start p = (start ≤ port_of start p.rtp) × (p ≡ pair_of start (port_of start p.rtp))

-- The entries of the table and of the leased pairs are those of the fresh table, as often; an entry
-- is 0 for each leased pair.
pub record IsBalanced (n start : ℕ) (k : Book) : Type 0 where
  pub start_is : k.pool.start_port ≡ start
  pub conserved :
      (v : ℕ)
      → 0 < v
      → count v k.pool.ports + count v (entries_of start k.leased) ≡ count v (entries start 0 n)
  pub zeros : count 0 k.pool.ports ≡ length k.leased
  pub size : length k.pool.ports ≡ n
  pub made : All (IsMade start) k.leased

-- What taking the first entry that is not 0 does to the counts.
pub record Took (ps : List ℕ) (q : ℕ) (rest : List ℕ) : Type 0 where
  pub found : 0 < q
  pub others : (v : ℕ) → 0 < v → count v rest + (if q == v then 1 else 0) ≡ count v ps
  pub zero_more : count 0 rest ≡ count 0 ps + 1
  pub same_length : length rest ≡ length ps

pub take_first-Took :
    (ps : List ℕ)
    → count 0 ps < length ps
    → (q : ℕ) × (rest : List ℕ) × (take_first ps ≡ some (q, rest)) × Took ps q rest
unfolding take_first
take_first-Took [] h = absurd (omega arith)
take_first-Took (zero ∷ ps) h =
    let (q, rest, e, t) = take_first-Took ps (ground arith) in
    (
      q,
      zero ∷ rest,
      ground (arith, e),
      record {
        found = t.found;
        others = λ v hv. ground (arith, t.others v hv);
        zero_more = ground (arith, t.zero_more);
        same_length = ap suc t.same_length;
      },
    )
take_first-Took (suc p ∷ ps) h = (
  suc p,
  zero ∷ ps,
  ground arith,
  record {
    found = omega arith;
    others = λ v hv. ground arith;
    zero_more = ground arith;
    same_length = refl;
  },
)

pub take_first-none : (ps : List ℕ) → count 0 ps ≡ length ps → take_first ps ≡ none
unfolding take_first
take_first-none [] h = refl
take_first-none (zero ∷ ps) h = ground (arith, take_first-none ps)
take_first-none (suc p ∷ ps) h = absurd (ground (arith, count-le 0 ps))
  where
    count-le : (v : ℕ) (xs : List ℕ) → count v xs ≤ length xs
    count-le v [] = omega arith
    count-le v (x ∷ xs) = ground (arith, count-le v xs)

pub record Filled (w : ℕ) (ps rest : List ℕ) : Type 0 where
  pub others : (v : ℕ) → 0 < v → count v rest ≡ count v ps + (if w == v then 1 else 0)
  pub zero_less : count 0 rest + 1 ≡ count 0 ps
  pub same_length : length rest ≡ length ps

pub fill_first-Filled :
    (w : ℕ) (ps : List ℕ)
    → 0 < count 0 ps
    → 0 < w
    → (rest : List ℕ) × (fill_first w ps ≡ some rest) × Filled w ps rest
unfolding fill_first
fill_first-Filled w [] h hw = absurd (omega arith)
fill_first-Filled w (zero ∷ ps) h hw = (
  w ∷ ps,
  refl,
  record { others = λ v hv. ground arith; zero_less = ground arith; same_length = refl },
)
fill_first-Filled w (suc p ∷ ps) h hw =
    let (rest, e, t) = fill_first-Filled w ps (ground arith) hw in
    (
      suc p ∷ rest,
      ground (arith, e),
      record {
        others = λ v hv. ground (arith, t.others v hv);
        zero_less = ground (arith, t.zero_less);
        same_length = ap suc t.same_length;
      },
    )

pub count-entries-below : (v start i n : ℕ) → v < i + start → count v (entries start i n) ≡ 0
count-entries-below v start i zero h = refl
count-entries-below v start i (suc n) h =
    ground (arith, count-entries-below v start (suc i) n (omega arith))

-- The fresh table holds an entry once at most.
pub count-entries : (v start i n : ℕ) → count v (entries start i n) ≤ 1
count-entries v start i zero = omega arith
count-entries v start i (suc n) = elim (Bool-cases (i + start == v)) [
  | inl e ↦ ground (arith, count-entries-below v start (suc i) n (ground arith))
  | inr ne ↦ ground (arith, count-entries v start (suc i) n)
]

length-entries : (start i n : ℕ) → length (entries start i n) ≡ n
length-entries start i zero = refl
length-entries start i (suc n) = ap suc (length-entries start (suc i) n)

-- The entry of the pair that was made of an entry is that entry.
pub port_of-pair_of : (start p : ℕ) → start ≤ p → port_of start (pair_of start p).rtp ≡ p
port_of-pair_of start p h = ground arith

pub IsMade-pair_of : (start p : ℕ) → start ≤ p → IsMade start (pair_of start p)
IsMade-pair_of start p h = let e = port_of-pair_of start p h in (rw e h, ap (pair_of start) (sym e))

-- The fresh pool, with no pair leased, is balanced.
pub init-IsBalanced :
    (n start : ℕ) → 0 < start → IsBalanced n start (record { pool = init n start; leased = [] })
unfolding init
init-IsBalanced n start h = record {
  start_is = refl;
  conserved = λ v hv. omega arith;
  zeros = count-entries-below 0 start 0 n (omega arith);
  size = length-entries start 0 n;
  made = tt;
}
