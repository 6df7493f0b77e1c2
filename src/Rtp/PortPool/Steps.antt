-- ===== src/Rtp/PortPool/Steps.antt =====
-- Leasing and releasing pairs, one by one: what each call does to a balanced pool, and what holds of
-- every pool that is reached.
use mathlib.Core.Path.{subst}
use fenice_1_12_with_h.Prelude.{
  ℕ, suc, ◌+◌, ◌≤◌, ◌<◌, ◌≡◌, ◌≢◌, refl, ap, inl, inr, List, [], ◌∷◌, ◌++◌, none, some, leb, ltb,
  ltb→lt, ◌==◌, if◌then◌else◌, length, All, arith, Bool-cases,
}
use fenice_1_12_with_h.Rtp.PortPool.{
  Pair, Pool, entries, init, pair_of, port_of, get_port_pair, release_port_pair,
}
use fenice_1_12_with_h.Rtp.PortPool.Leases.{
  count, Book, entries_of, IsMade, IsBalanced, Took, take_first-Took, take_first-none,
  fill_first-Filled, count-entries-below, count-entries, port_of-pair_of, IsMade-pair_of,
  init-IsBalanced,
}

-- While fewer pairs are leased than there are entries, RTP_get_port_pair leases one more, and the
-- pool stays balanced.
pub get-IsBalanced :
    {n start : ℕ} (k : Book)
    → IsBalanced n start k
    → length k.leased < n
    → (pair : Pair) × (pool : Pool) × (get_port_pair k.pool ≡ some (pair, pool))
      × IsBalanced n start (record { pool = pool; leased = pair ∷ k.leased })
unfolding get_port_pair
get-IsBalanced {n} {start} k b h =
    let (q, rest, e, t) = take_first-Took k.pool.ports (omega (arith, b.zeros, b.size)) in
    let above : start ≤ q = from_start q t.found (once q rest t) in
    (
      pair_of start q,
      record k.pool { ports = rest },
      ground (arith, e, b.start_is),
      record {
        start_is = b.start_is;
        conserved =
            λ v hv. ground (arith, t.others v hv, b.conserved v hv, port_of-pair_of start q above);
        zeros = omega (arith, t.zero_more, b.zeros);
        size = omega (arith, t.same_length, b.size);
        made = (IsMade-pair_of start q above, b.made);
      },
    )
  where
    once : (q : ℕ) (rest : List ℕ) → Took k.pool.ports q rest → 0 < count q (entries start 0 n)
    once q rest t = ground (arith, t.others q t.found, b.conserved q t.found)

    from_start : (q : ℕ) → 0 < q → 0 < count q (entries start 0 n) → start ≤ q
    from_start q hq hc = elim (Bool-cases (leb start q)) [
      | inl le ↦ ground arith
      | inr lt ↦ absurd (omega (arith, count-entries-below q start 0 n (ground arith)))
    ]

-- With all pairs leased RTP_get_port_pair fails.
pub get-none :
    {n start : ℕ} (k : Book)
    → IsBalanced n start k
    → length k.leased ≡ n
    → get_port_pair k.pool ≡ none
unfolding get_port_pair
get-none k b h = ground (arith, take_first-none k.pool.ports (omega (arith, b.zeros, b.size)))

count-entries_of :
    (v start : ℕ) (xs : List Pair) (p : Pair) (ys : List Pair)
    → count v (entries_of start (xs ++ p ∷ ys))
      ≡ count v (entries_of start (xs ++ ys)) + (if port_of start p.rtp == v then 1 else 0)
count-entries_of v start [] p ys = omega arith
count-entries_of v start (x ∷ xs) p ys = omega (arith, count-entries_of v start xs p ys)

module _ {ℓ κ} {A : Type ℓ} (P : A → Type κ) where
  All-drop : (xs : List A) (p : A) (ys : List A) → All P (xs ++ p ∷ ys) → All P (xs ++ ys)
  All-drop [] p ys h = h.1
  All-drop (x ∷ xs) p ys h = (h.0, All-drop xs p ys h.1)

  All-behind : (xs : List A) (p : A) (ys : List A) → All P (xs ++ p ∷ ys) → All P ys
  All-behind [] p ys h = h.1
  All-behind (x ∷ xs) p ys h = All-behind xs p ys h.1

  All-at : (xs : List A) (p : A) (ys : List A) → All P (xs ++ p ∷ ys) → P p
  All-at [] p ys h = h.0
  All-at (x ∷ xs) p ys h = All-at xs p ys h.1

-- A pair that is leased can be released, and the pool stays balanced.
pub release-IsBalanced :
    {n start : ℕ} (k : Book) (xs : List Pair) (p : Pair) (ys : List Pair)
    → 0 < start
    → IsBalanced n start k
    → k.leased ≡ xs ++ p ∷ ys
    → (pool : Pool) × (release_port_pair p k.pool ≡ some pool)
      × IsBalanced n start (record { pool = pool; leased = xs ++ ys })
unfolding release_port_pair
release-IsBalanced {n} {start} k xs p ys h b e =
    let made : IsMade start p =
      All-at (IsMade start) xs p ys (subst (All (IsMade start)) e b.made) in
    let room : length (xs ++ p ∷ ys) ≡ suc (length (xs ++ ys)) = longer xs in
    let (rest, f, t) =
      fill_first-Filled (port_of start p.rtp) k.pool.ports
        (omega (arith, b.zeros, ap length e, room)) (omega (arith, made.0)) in
    (
      record k.pool { ports = rest },
      ground (arith, f, b.start_is),
      record {
        start_is = b.start_is;
        conserved = λ v hv. omega (
          arith,
          t.others v hv,
          b.conserved v hv,
          ap (λ l. count v (entries_of start l)) e,
          count-entries_of v start xs p ys,
        );
        zeros = omega (arith, t.zero_less, b.zeros, ap length e, room);
        size = omega (arith, t.same_length, b.size);
        made = All-drop (IsMade start) xs p ys (subst (All (IsMade start)) e b.made);
      },
    )
  where
    longer : (zs : List Pair) → length (zs ++ p ∷ ys) ≡ suc (length (zs ++ ys))
    longer [] = refl
    longer (z ∷ zs) = ap suc (longer zs)

-- One call: a pair is leased, or a leased pair is released.
pub data Step (k u : Book) : Type 0 where
  lease :
      (pair : Pair) (pool : Pool)
      → get_port_pair k.pool ≡ some (pair, pool)
      → u ≡ record { pool = pool; leased = pair ∷ k.leased }
      → Step k u
  release :
      (xs : List Pair) (pair : Pair) (ys : List Pair) (pool : Pool)
      → k.leased ≡ xs ++ pair ∷ ys
      → release_port_pair pair k.pool ≡ some pool
      → u ≡ record { pool = pool; leased = xs ++ ys }
      → Step k u

pub data Reach (k : Book) : Book → Type 0 where
  here : Reach k k
  next : {u w : Book} → Reach k u → Step u w → Reach k w

count-le : (v : ℕ) (xs : List ℕ) → count v xs ≤ length xs
count-le v [] = omega arith
count-le v (x ∷ xs) = ground (arith, count-le v xs)

Step-IsBalanced :
    {n start : ℕ} {k u : Book} → 0 < start → IsBalanced n start k → Step k u → IsBalanced n start u
Step-IsBalanced {n} {start} {k} {u} h b (lease pair pool e made) =
    elim (Bool-cases (ltb (length k.leased) n)) [
      | inl lt ↦
          let (pair', pool', e', b') = get-IsBalanced k b (ltb→lt (length k.leased) n lt) in
          subst (IsBalanced n start) (cc) b'
      | inr ge ↦
          let full : length k.leased ≡ n =
            ground (arith, b.zeros, b.size, count-le 0 k.pool.ports) in
          absurd (cc (get-none k b full))
    ]
Step-IsBalanced {n} {start} {k} {u} h b (release xs pair ys pool e f made) =
    let (pool', f', b') = release-IsBalanced k xs pair ys h b e in
    subst (IsBalanced n start) (cc) b'

-- Every pool that calls lead to from a fresh one is balanced.
pub Reach-IsBalanced :
    {n start : ℕ} {k : Book}
    → 0 < start
    → Reach (record { pool = init n start; leased = [] }) k
    → IsBalanced n start k
Reach-IsBalanced {n} {start} h here = init-IsBalanced n start h
Reach-IsBalanced h (next r s) = Step-IsBalanced h (Reach-IsBalanced h r) s

-- Two pairs that are leased at one time come from two entries of the table.
port_of-ne :
    {n start : ℕ} (k : Book) (xs : List Pair) (p : Pair) (ys : List Pair) (q : Pair)
    (zs : List Pair)
    → 0 < start
    → IsBalanced n start k
    → k.leased ≡ xs ++ p ∷ (ys ++ q ∷ zs)
    → start ≤ port_of start p.rtp
    → port_of start p.rtp ≢ port_of start q.rtp
port_of-ne {n} {start} k xs p ys q zs h b e le same =
    let v = port_of start p.rtp in
    absurd (
      omega (
        arith,
        b.conserved v (omega arith),
        count-entries v start 0 n,
        ap (λ l. count v (entries_of start l)) e,
        count-entries_of v start xs p (ys ++ q ∷ zs),
        twice,
        both,
      ))
  where
    twice :
        (if port_of start p.rtp == port_of start p.rtp then 1 else 0)
          + (if port_of start q.rtp == port_of start p.rtp then 1 else 0)
        ≡ 2
    twice = ground arith

    more :
        (ws : List Pair)
        → (if port_of start q.rtp == port_of start p.rtp then 1 else 0)
          ≤ count (port_of start p.rtp) (entries_of start (ws ++ (ys ++ q ∷ zs)))
    more [] = omega (arith, count-entries_of (port_of start p.rtp) start ys q zs)
    more (w ∷ ws) = omega (arith, more ws)

    both :
        (if port_of start q.rtp == port_of start p.rtp then 1 else 0)
        ≤ count (port_of start p.rtp) (entries_of start (xs ++ (ys ++ q ∷ zs)))
    both = more xs

-- After whatever leases, and releases of pairs that are leased, on a fresh pool with a positive first
-- port, with no release of a pair that is not leased: of two pairs that are leased
-- at one time no port is shared, and a leased pair has two adjacent ports from the first port on.
pub leased_disjoint :
    (n start : ℕ) {k : Book} (xs : List Pair) (p : Pair) (ys : List Pair) (q : Pair)
    (zs : List Pair)
    → 0 < start
    → Reach (record { pool = init n start; leased = [] }) k
    → k.leased ≡ xs ++ p ∷ (ys ++ q ∷ zs)
    → (p.rtp ≢ q.rtp)
      × (p.rtp ≢ q.rtcp)
      × (p.rtcp ≢ q.rtp)
      × (p.rtcp ≢ q.rtcp)
      × (start ≤ p.rtp)
      × (p.rtcp ≡ p.rtp + 1)
leased_disjoint n start {k} xs p ys q zs h r e =
    let b = Reach-IsBalanced h r in
    let all = subst (All (IsMade start)) e b.made in
    let mp : IsMade start p = All-at (IsMade start) xs p (ys ++ q ∷ zs) all in
    let mq : IsMade start q =
      All-at (IsMade start) ys q zs (All-behind (IsMade start) xs p (ys ++ q ∷ zs) all) in
    let ne = port_of-ne k xs p ys q zs h b e mp.0 in
    (
      ground (arith, mp, mq, ne),
      ground (arith, mp, mq, ne),
      ground (arith, mp, mq, ne),
      ground (arith, mp, mq, ne),
      ground (arith, mp),
      ground (arith, mp),
    )
