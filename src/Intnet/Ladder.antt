-- ===== src/Intnet/Ladder.antt =====
-- The bitrates of an encoding as a ladder, and the `switch` statements that walk down or up it, each
-- case falling through to the next where no medium of its rate is found.
use mathlib.Core.Path.{subst}
use fenice_1_12_with_h.Prelude.{
  ◌⊎◌, ==_iff, sym, ℕ, ◌≡◌, refl, List, [], ◌∷◌, Option, none, some, ◌==◌, if◌then◌else◌, All,
  arith, Bool-cases, Option-cases, inl, inr,
}

module _ {ℓ} {A : Type ℓ} (find : ℕ → Option A) where
  -- The rates from here on, one after the other, until one is found.
  pub try : List ℕ → Option A
  try [] = none
  try (t ∷ ts) = elim (find t) [ none ↦ try ts | some a ↦ some a ]

  -- `case c: speed = t; …` with the next rung `t` below each case `c`
  pub step_from : ℕ → List ℕ → Option A
  step_from speed [] = none
  step_from speed (c ∷ ts) = if speed == c then try ts else step_from speed ts

  -- `case c: …; speed = t;`: the case's own rate first
  pub start_at : ℕ → List ℕ → Option A
  start_at speed [] = none
  start_at speed (c ∷ ts) = if speed == c then try (c ∷ ts) else start_at speed ts

-- A ladder is sorted by `R`, each rung before all that follow.
abbrev pub Sorted {ℓ} : (ℕ → ℕ → Type ℓ) → List ℕ → Type ℓ
Sorted R [] = Unit
Sorted R (x ∷ xs) = All (R x) xs × Sorted R xs

abbrev pub IsIn : ℕ → List ℕ → Type 0
IsIn a [] = ⊥
IsIn a (x ∷ xs) = (a ≡ x) ⊎ IsIn a xs

All-IsIn {κ} : (P : ℕ → Type κ) (xs : List ℕ) (r : ℕ) → All P xs → IsIn r xs → P r
All-IsIn P [] r h m = absurd m
All-IsIn P (x ∷ xs) r h (inl e) = subst P (sym e) h.0
All-IsIn P (x ∷ xs) r h (inr m) = All-IsIn P xs r h.1 m

-- `R x y` says that `x` stands before `y` on a ladder; the walks go from front to back.
module _ {ℓ} {A : Type ℓ} (find : ℕ → Option A) (R : ℕ → ℕ → Type 0)
    (asym : (x y : ℕ) → R x y → R y x → ⊥) where
  -- `t` is the first of the rates `ts` at which something is found, and that is `a`.
  pub record IsBest (a : A) (t : ℕ) (ts : List ℕ) : Type ℓ where
    pub found : find t ≡ some a
    pub on_ladder : IsIn t ts
    pub others : (r : ℕ) → IsIn r ts → R r t → find r ≡ none

  pub try-IsBest :
      (ts : List ℕ) {a : A} → Sorted R ts → try find ts ≡ some a → (t : ℕ) × IsBest a t ts
  unfolding try
  try-IsBest [] sorted e = absurd (cc)
  try-IsBest (x ∷ xs) {a} sorted e = elim (Option-cases (find x)) [
    | inr (b, f) ↦ (
      x,
      record { found = ground arith; on_ladder = inl refl; others = λ r m h. absurd (here r m h) },
    )
    | inl n ↦
        let (t, best) = try-IsBest xs sorted.1 (ground arith) in
        (
          t,
          record {
            found = best.found;
            on_ladder = inr best.on_ladder;
            others = λ r m h. rest t best r m h n;
          },
        )
  ]
    where
      here : (r : ℕ) → IsIn r (x ∷ xs) → R r x → ⊥
      here r (inl q) h = asym x x (subst (λ y. R y x) q h) (subst (λ y. R y x) q h)
      here r (inr m) h = asym r x h (All-IsIn (R x) xs r sorted.0 m)

      rest :
          (t : ℕ)
          → IsBest a t xs
          → (r : ℕ) → IsIn r (x ∷ xs)
          → R r t
          → find x ≡ none
          → find r ≡ none
      rest t best r (inl q) h n = rw q n
      rest t best r (inr m) h n = best.others r m h

  pub try-none : (ts : List ℕ) → try find ts ≡ none → All (λ r. find r ≡ none) ts
  unfolding try
  try-none [] e = tt
  try-none (x ∷ xs) e = elim (Option-cases (find x)) [
    | inl n ↦ (n, try-none xs (ground arith))
    | inr (b, f) ↦ absurd (ground arith)
  ]

  -- What the walk from a case of the `switch` finds lies behind `speed`, and nothing was found at a
  -- rung between.
  pub record IsNext (a : A) (speed : ℕ) (ts : List ℕ) : Type ℓ where
    pub rate : ℕ
    pub on_ladder : IsIn speed ts
    pub found : find rate ≡ some a
    pub behind : R speed rate
    pub between : (r : ℕ) → IsIn r ts → R speed r → R r rate → find r ≡ none

  pub step_from-IsNext :
      (ts : List ℕ) (speed : ℕ) {a : A}
      → Sorted R ts
      → step_from find speed ts ≡ some a
      → IsNext a speed ts
  unfolding step_from
  step_from-IsNext [] speed sorted e = absurd (cc)
  step_from-IsNext (c ∷ ts) speed {a} sorted e = elim (Bool-cases (speed == c)) [
    | inl q ↦
        let same : speed ≡ c = (==_iff speed c).0 q in
        let (t, best) = try-IsBest ts sorted.1 (ground arith) in
        record {
          rate = t;
          on_ladder = inl same;
          found = best.found;
          behind = subst (λ x. R x t) (sym same) (All-IsIn (R c) ts t sorted.0 best.on_ladder);
          between = λ r m after before. at_case t best r m after before same;
        }
    | inr q ↦
        let n = step_from-IsNext ts speed sorted.1 (ground arith) in
        record {
          rate = n.rate;
          on_ladder = inr n.on_ladder;
          found = n.found;
          behind = n.behind;
          between = λ r m after before. past n r m after before;
        }
  ]
    where
      at_case :
          (t : ℕ)
          → IsBest a t ts
          → (r : ℕ) → IsIn r (c ∷ ts)
          → R speed r
          → R r t
          → speed ≡ c
          → find r ≡ none
      at_case t best r (inl q) after before same = absurd (
          asym c c (subst (R c) q (subst (λ x. R x r) same after))
            (subst (R c) q (subst (λ x. R x r) same after)))
      at_case t best r (inr m) after before same = best.others r m before

      past :
          (n : IsNext a speed ts) (r : ℕ) → IsIn r (c ∷ ts) → R speed r → R r n.rate → find r ≡ none
      past n r (inl q) after before =
          absurd
            (asym speed c (subst (R speed) q after) (All-IsIn (R c) ts speed sorted.0 n.on_ladder))
      past n r (inr m) after before = n.between r m after before

  -- Where the walk from a rung of the ladder finds nothing, there is nothing at any rung behind it.
  pub step_from-none :
      (ts : List ℕ) (speed : ℕ)
      → Sorted R ts
      → IsIn speed ts
      → step_from find speed ts ≡ none
      → (r : ℕ) → IsIn r ts
      → R speed r
      → find r ≡ none
  unfolding step_from
  step_from-none [] speed sorted on e r m after = absurd m
  step_from-none (c ∷ ts) speed sorted on e r m after = elim (Bool-cases (speed == c)) [
    | inl q ↦ here m ((==_iff speed c).0 q) (try-none ts (ground arith))
    | inr q ↦
        there m (below on (λ same. ground (arith, same)))
          (λ o mr. step_from-none ts speed sorted.1 o (ground arith) r mr after)
  ]
    where
      here : IsIn r (c ∷ ts) → speed ≡ c → All (λ x. find x ≡ none) ts → find r ≡ none
      here (inl p) same all = absurd (
          asym c c (subst (R c) p (subst (λ x. R x r) same after))
            (subst (R c) p (subst (λ x. R x r) same after)))
      here (inr k) same all = All-IsIn (λ x. find x ≡ none) ts r all k

      below : IsIn speed (c ∷ ts) → (speed ≡ c → ⊥) → IsIn speed ts
      below (inl p) ne = absurd (ne p)
      below (inr k) ne = k

      there :
          IsIn r (c ∷ ts)
          → IsIn speed ts
          → (IsIn speed ts → IsIn r ts → find r ≡ none)
          → find r ≡ none
      there (inl p) o rec =
          absurd (asym speed c (subst (R speed) p after) (All-IsIn (R c) ts speed sorted.0 o))
      there (inr k) o rec = rec o k

  -- A walk that begins with the rate `speed` itself finds a rate of the ladder, at `speed` or behind.
  pub start_at-behind :
      (ts : List ℕ) (speed : ℕ) {a : A}
      → Sorted R ts
      → start_at find speed ts ≡ some a
      → (t : ℕ) × (find t ≡ some a) × ((t ≡ speed) ⊎ R speed t) × IsIn t ts
  unfolding start_at
  start_at-behind [] speed sorted e = absurd (cc)
  start_at-behind (c ∷ ts) speed {a} sorted e = elim (Bool-cases (speed == c)) [
    | inl q ↦
        let (t, best) = try-IsBest (c ∷ ts) sorted (ground arith) in
        (t, best.found, order t best.on_ladder ((==_iff speed c).0 q), best.on_ladder)
    | inr q ↦
        let (t, f, o, m) = start_at-behind ts speed sorted.1 (ground arith) in (t, f, o, inr m)
  ]
    where
      order : (t : ℕ) → IsIn t (c ∷ ts) → speed ≡ c → (t ≡ speed) ⊎ R speed t
      order t (inl p) same = inl (cc)
      order t (inr m) same = inr (subst (λ x. R x t) (sym same) (All-IsIn (R c) ts t sorted.0 m))
