-- ===== src/BufferPool/Queue/Chains.antt =====
-- Lists of slots without repetition, and chains of links: how they split, turn and grow.
use mathlib.Core.Path.{subst}
use fenice_1_12_with_h.Prelude.{
  ℕ, zero, suc, ◌+◌, ◌≤◌, ◌<◌, ◌≡◌, ◌≢◌, refl, sym, ◌∙◌, inl, inr, List, [], ◌∷◌, ◌++◌, arith,
  length, All, All-append,
}
use fenice_1_12_with_h.BufferPool.{Slot}
use fenice_1_12_with_h.BufferPool.Queue.{Chain, Fresh, Distinct, IsIn, Due, Idle, item, contents}

pub All-map {ℓ κ μ} :
    {A : Type ℓ} (P : A → Type κ) (Q : A → Type μ) (xs : List A)
    → ((x : A) → P x → Q x)
    → All P xs
    → All Q xs
All-map P Q [] f h = tt
All-map P Q (x ∷ xs) f h = (f x h.0, All-map P Q xs f h.1)

module _ {ℓ κ} {A : Type ℓ} (P : A → Type κ) where
  pub All-left : (xs ys : List A) → All P (xs ++ ys) → All P xs
  All-left [] ys h = tt
  All-left (x ∷ xs) ys h = (h.0, All-left xs ys h.1)

  pub All-right : (xs ys : List A) → All P (xs ++ ys) → All P ys
  All-right [] ys h = h
  All-right (x ∷ xs) ys h = All-right xs ys h.1

pub Distinct-snoc : (xs : List ℕ) (a : ℕ) → Distinct xs → Fresh a xs → Distinct (xs ++ a ∷ [])
Distinct-snoc [] a d f = (tt, tt)
Distinct-snoc (x ∷ xs) a d f =
    (All-append (λ y. x ≢ y) xs (a ∷ []) d.0 ((λ e. f.0 (sym e)), tt), Distinct-snoc xs a d.1 f.1)

-- A distinct list that is split at `p` holds `p` nowhere else.
pub Distinct-right : (xs ys : List ℕ) → Distinct (xs ++ ys) → Distinct ys
Distinct-right [] ys d = d
Distinct-right (x ∷ xs) ys d = Distinct-right xs ys d.1

pub Distinct-left : (xs : List ℕ) (p : ℕ) (ys : List ℕ) → Distinct (xs ++ p ∷ ys) → Fresh p xs
Distinct-left [] p ys d = tt
Distinct-left (x ∷ xs) p ys d =
    ((λ e. (All-right (λ y. x ≢ y) xs (p ∷ ys) d.0).0 (sym e)), Distinct-left xs p ys d.1)

module _ (s : ℕ → Slot) where
  pub Chain-right :
      (a : ℕ) (xs : List ℕ) (p : ℕ) (ys : List ℕ) (z : ℕ)
      → Chain s a (xs ++ p ∷ ys) z
      → Chain s p ys z
  Chain-right a [] p ys z h = h.1
  Chain-right a (x ∷ xs) p ys z h = Chain-right x xs p ys z h.1

  pub Chain-snoc :
      (a : ℕ) (xs : List ℕ) (z c : ℕ) → Chain s a xs z → (s z).next ≡ c → Chain s a (xs ++ c ∷ []) c
  Chain-snoc a [] z c h e = (rw h e, refl)
  Chain-snoc a (x ∷ xs) z c h e = (h.0, Chain-snoc x xs z c h.1 e)

  -- The end of a chain is its start or one of its slots.
  pub Chain-end : (a : ℕ) (xs : List ℕ) (z : ℕ) → Chain s a xs z → IsIn z (a ∷ xs)
  Chain-end a [] z h = inl (sym h)
  Chain-end a (x ∷ xs) z h = inr (Chain-end x xs z h.1)

-- A slot that is fresh for a list is no element of it.
pub Fresh-ne : (a z : ℕ) (xs : List ℕ) → Fresh a xs → IsIn z xs → a ≢ z
Fresh-ne a z [] f m = absurd m
Fresh-ne a z (x ∷ xs) f (inl e) = rw e f.0
Fresh-ne a z (x ∷ xs) f (inr m) = Fresh-ne a z xs f.1 m

module _ (s t : ℕ → Slot) where
  -- A chain depends on the links alone.
  pub Chain-links :
      (a : ℕ) (xs : List ℕ) (z : ℕ)
      → ((i : ℕ) → (t i).next ≡ (s i).next)
      → Chain s a xs z
      → Chain t a xs z
  Chain-links a [] z same h = h
  Chain-links a (x ∷ xs) z same h = (same a ∙ h.0, Chain-links x xs z same h.1)

  -- A chain without repetition does not depend on the link of its end.
  pub Chain-keep :
      (n a : ℕ) (xs : List ℕ) (z : ℕ)
      → ((i : ℕ) → i < n → i ≢ z → (t i).next ≡ (s i).next)
      → All (λ i. i < n) (a ∷ xs)
      → Distinct (a ∷ xs)
      → Chain s a xs z
      → Chain t a xs z
  Chain-keep n a [] z same lt d h = h
  Chain-keep n a (x ∷ xs) z same lt d h =
      let ne = Fresh-ne a z (x ∷ xs) d.0 (Chain-end s x xs z h.1) in
      (same a lt.0 ne ∙ h.0, Chain-keep n x xs z same lt.1 d.1 h.1)

  -- The body of a slot: all but its link.
  abbrev pub Same : ℕ → Type 0
  Same i = ((t i).refs ≡ (s i).refs) × ((t i).slot_seq ≡ (s i).slot_seq) × (item (t i) ≡ item (s i))

  pub Due-Same : (k : ℕ) (xs : List ℕ) → All Same xs → Due s k xs → Due t k xs
  Due-Same k [] same h = tt
  Due-Same k (x ∷ xs) same h =
      let (r, q, _) = same.0 in (rw r h.0, rw q h.1, Due-Same (suc k) xs same.1 h.2)

  pub Idle-Same : (xs : List ℕ) → All Same xs → Idle s xs → Idle t xs
  Idle-Same [] same h = tt
  Idle-Same (x ∷ xs) same h = (rw same.0.0 h.0, Idle-Same xs same.1 h.1)

  pub contents-Same : (xs : List ℕ) → All Same xs → contents t xs ≡ contents s xs
  contents-Same [] same = refl
  contents-Same (x ∷ xs) same = cc (same.0.2, contents-Same xs same.1)

pub Due-snoc :
    (s : ℕ → Slot) (k : ℕ) (xs : List ℕ) (a : ℕ)
    → Due s k xs
    → (s a).refs ≡ 1
    → (s a).slot_seq ≡ suc (k + length xs)
    → Due s k (xs ++ a ∷ [])
Due-snoc s k [] a h r q = (r, omega arith, tt)
Due-snoc s k (x ∷ xs) a h r q = (h.0, h.1, Due-snoc s (suc k) xs a h.2 r (omega arith))

-- The sequence numbers of waiting slots lie above `k`.
pub Due-above :
    (s : ℕ → Slot) (k : ℕ) (xs : List ℕ) (i : ℕ) → Due s k xs → IsIn i xs → k < (s i).slot_seq
Due-above s k [] i h m = absurd m
Due-above s k (x ∷ xs) i h (inl e) = rw e (omega arith)
Due-above s k (x ∷ xs) i h (inr m) = omega (arith, Due-above s (suc k) xs i h.2 m)

-- `k` numbers from `a` on.
abbrev pub range : ℕ → ℕ → List ℕ
range a zero = []
range a (suc k) = a ∷ range (suc a) k

pub All-range {κ} :
    (P : ℕ → Type κ) (a k : ℕ) → ((i : ℕ) → a ≤ i → i < a + k → P i) → All P (range a k)
All-range P a zero h = tt
All-range P a (suc k) h = (
  h a (omega arith) (omega arith),
  All-range P (suc a) k (λ i p q. h i (omega arith) (omega arith)),
)

pub Distinct-range :
    (a k : ℕ) (ys : List ℕ) → All (λ y. y < a) ys → Distinct ys → Distinct (range a k ++ ys)
Distinct-range a zero ys lt d = d
Distinct-range a (suc k) ys lt d = (
  All-append (λ y. a ≢ y) (range (suc a) k) ys
      (All-range (λ y. a ≢ y) (suc a) k (λ i p q. omega arith))
      (All-map (λ y. y < a) (λ y. a ≢ y) ys (λ y h. omega arith) lt),
  Distinct-range (suc a) k ys (All-map (λ y. y < a) (λ y. y < suc a) ys (λ y h. omega arith) lt) d,
)

pub Chain-range :
    (s : ℕ → Slot) (a k : ℕ) (ys : List ℕ) (z : ℕ)
    → ((i : ℕ) → a ≤ i → i < a + k → (s i).next ≡ suc i)
    → Chain s (a + k) ys z
    → Chain s a (range (suc a) k ++ ys) z
Chain-range s a zero ys z h c = subst (λ m. Chain s m ys z) (omega arith) c
Chain-range s a (suc k) ys z h c = (
  h a (omega arith) (omega arith),
  Chain-range s (suc a) k ys z (λ i p q. h i (omega arith) (omega arith))
      (subst (λ m. Chain s m ys z) (omega arith) c),
)
