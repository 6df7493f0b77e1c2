-- ===== src/Schedule/Count.antt =====
-- The count of clients and the valid entries, and what schedule_add does to the table.
use mathlib.Core.Path.{subst}
use fenice_1_12_with_h.Prelude.{
  ℕ, zero, suc, ◌+◌, ◌%◌, ◌^◌, ◌≤◌, ◌<◌, ◌≡◌, refl, sym, ap, ◌⊎◌, inl, inr, Bool, true, false, ◌||◌,
  List, [], ◌∷◌, ◌++◌, none, some, if◌then◌else◌, replicate, length, length-replicate, length-set,
  length-append, get_or, set, All, arith, Bool-cases, Option-cases,
}
use fenice_1_12_with_h.Schedule.{
  Entry, Sched, empty, schedule_init, add_entry, schedule_add, schedule_remove, release,
  release_all,
}

abbrev pub valid_count : List Entry → ℕ
valid_count [] = 0
valid_count (e ∷ es) = (if e.valid then 1 else 0) + valid_count es

pub valid_count-le : (es : List Entry) → valid_count es ≤ length es
valid_count-le [] = omega arith
valid_count-le (e ∷ es) = ground (arith, valid_count-le es)

-- A table of `n` entries with their count.
pub record IsCounted (n : ℕ) (k : Sched) : Type 0 where
  pub size : length k.table ≡ n
  pub counted : k.client_count ≡ valid_count k.table

-- The entry that was added stands behind valid ones, in the place of one that was not.
pub record Added (s : ℕ) (es : List Entry) (i : ℕ) (es' : List Entry) : Type 0 where
  pub before : List Entry
  pub old : Entry
  pub new_entry : Entry
  pub behind : List Entry
  pub at : length before ≡ i
  pub was : es ≡ before ++ old ∷ behind
  pub becomes : es' ≡ before ++ new_entry ∷ behind
  pub was_invalid : old.valid ≡ false
  pub all_valid : All (λ e. e.valid ≡ true) before
  pub holds : (new_entry.valid ≡ true) × (new_entry.rtp_session ≡ some s)

pub add_entry-Added :
    (dad : Bool) (s : ℕ) (es : List Entry) {i : ℕ} {es' : List Entry}
    → add_entry dad s es ≡ some (i, es')
    → Added s es i es'
unfolding add_entry
add_entry-Added dad s [] e = absurd (cc)
add_entry-Added dad s (x ∷ xs) {i} {es'} e = elim (Bool-cases x.valid) [
  | inl v ↦ elim (Option-cases (add_entry dad s xs)) [
    | inl n ↦ absurd (ground arith)
    | inr ((j, rest), f) ↦
        let a = add_entry-Added dad s xs f in
        record {
          before = x ∷ a.before;
          old = a.old;
          new_entry = a.new_entry;
          behind = a.behind;
          at = ground (arith, a.at);
          was = ap (◌∷◌ x) a.was;
          becomes = ground (arith, a.becomes);
          was_invalid = a.was_invalid;
          all_valid = (v, a.all_valid);
          holds = a.holds;
        }
  ]
  | inr v ↦ record {
    before = [];
    old = x;
    new_entry = record { valid = true; rtp_session = some s; plays = dad || x.plays };
    behind = xs;
    at = ground arith;
    was = refl;
    becomes = ground arith;
    was_invalid = v;
    all_valid = tt;
    holds = (refl, refl);
  }
]

pub add_entry-none :
    (dad : Bool) (s : ℕ) (es : List Entry)
    → add_entry dad s es ≡ none
    → All (λ e. e.valid ≡ true) es
unfolding add_entry
add_entry-none dad s [] e = tt
add_entry-none dad s (x ∷ xs) e = elim (Bool-cases x.valid) [
  | inl v ↦ (v, add_entry-none dad s xs (ground arith))
  | inr v ↦ absurd (ground arith)
]

valid_count-append : (xs ys : List Entry) → valid_count (xs ++ ys) ≡ valid_count xs + valid_count ys
valid_count-append [] ys = omega arith
valid_count-append (x ∷ xs) ys = omega (arith, valid_count-append xs ys)

valid_count-Added :
    {s : ℕ} {es : List Entry} {i : ℕ} {es' : List Entry}
    → Added s es i es'
    → (valid_count es' ≡ valid_count es + 1) × (length es' ≡ length es)
valid_count-Added {s} {es} {i} {es'} a = (
  ground (
    arith,
    ap valid_count a.was,
    ap valid_count a.becomes,
    valid_count-append a.before (a.old ∷ a.behind),
    valid_count-append a.before (a.new_entry ∷ a.behind),
    a.holds,
    a.was_invalid,
  ),
  omega (
    arith,
    ap length a.was,
    ap length a.becomes,
    length-append a.before (a.old ∷ a.behind),
    length-append a.before (a.new_entry ∷ a.behind),
  ),
)

valid_count-set :
    (es : List Entry) (i : ℕ)
    → i < length es
    → (get_or es i empty).valid ≡ true
    → valid_count (set es i (record (get_or es i empty) { valid = false })) + 1 ≡ valid_count es
valid_count-set [] i lt v = absurd (omega arith)
valid_count-set (x ∷ xs) zero lt v = ground arith
valid_count-set (x ∷ xs) (suc i) lt v = omega (arith, valid_count-set xs i (omega arith) v)

valid_count-release :
    (dad : ℕ → Bool) (es : List Entry)
    → (valid_count (release dad es).1 ≡ valid_count es) × (length (release dad es).1 ≡ length es)
unfolding release
valid_count-release dad [] = (refl, refl)
valid_count-release dad (e ∷ es) =
    let (c, l) = valid_count-release dad es in (ground (arith, c), ground (arith, l))

valid_count-blank : (n : ℕ) → valid_count (replicate n empty) ≡ 0
valid_count-blank zero = refl
valid_count-blank (suc n) = omega (arith, valid_count-blank n)

pub schedule_init-IsCounted : (n : ℕ) → IsCounted n (schedule_init n)
unfolding schedule_init
schedule_init-IsCounted n = record {
  size = length-replicate n empty;
  counted = sym (valid_count-blank n);
}

-- The calls that change the table.
pub data Step (n : ℕ) (k u : Sched) : Type 0 where
  add : (dad : Bool) (s i : ℕ) → schedule_add dad s k ≡ some (i, u) → Step n k u
  remove :
      (id : ℕ)
      → id < n
      → (get_or k.table id empty).valid ≡ true
      → u ≡ schedule_remove id k
      → Step n k u
  sweep : (dad : ℕ → Bool) → u ≡ (release_all dad k).1 → Step n k u

pub data Reach (n : ℕ) : Sched → Type 0 where
  start : Reach n (schedule_init n)
  next : {k u : Sched} → Reach n k → Step n k u → Reach n u

valid_count_full : (es : List Entry) → All (λ e. e.valid ≡ true) es → valid_count es ≡ length es
valid_count_full [] h = refl
valid_count_full (e ∷ es) h = ground (arith, h.0, valid_count_full es h.1)

-- With a count that is right, schedule_add fails exactly where all entries are valid; otherwise it
-- puts the session into the first entry that is not valid, changes no other, and counts one client
-- more.
pub schedule_add_lem :
    (n : ℕ) (dad : Bool) (s : ℕ) (k : Sched)
    → n < 2 ^ 64
    → IsCounted n k
    → ((k.client_count ≡ n) × (schedule_add dad s k ≡ none))
      ⊎ ((i : ℕ) × (k' : Sched) × (schedule_add dad s k ≡ some (i, k'))
          × Added s k.table i k'.table
          × (k'.client_count ≡ k.client_count + 1)
          × IsCounted n k')
unfolding schedule_add
schedule_add_lem n dad s k small c = elim (Option-cases (add_entry dad s k.table)) [
  | inl e ↦ inl (
    omega (arith, c.size, c.counted, valid_count_full k.table (add_entry-none dad s k.table e)),
    ground (arith, e),
  )
  | inr ((i, table), e) ↦
      let a = add_entry-Added dad s k.table e in
      let (more, same) = valid_count-Added a in
      let room : (k.client_count + 1) % 2 ^ 64 ≡ k.client_count + 1 =
        omega (arith, c.size, c.counted, more, same, valid_count-le table) in
      inr (
        i,
        record { table = table; client_count = (k.client_count + 1) % 2 ^ 64 },
        ground (arith, e),
        a,
        room,
        record {
          size = omega (arith, same, c.size);
          counted = omega (arith, room, c.counted, more);
        },
      )
]

pub Step-IsCounted : {n : ℕ} {k u : Sched} → n < 2 ^ 64 → IsCounted n k → Step n k u → IsCounted n u
unfolding schedule_remove
Step-IsCounted {n} {k} {u} small c (add dad s i e) = elim (schedule_add_lem n dad s k small c) [
  | inl (full, none_is) ↦ absurd (cc)
  | inr (j, k', some_is, a, more, c') ↦ subst (IsCounted n) (cc) c'
]
Step-IsCounted {n} {k} {u} small c (remove id lt v e) = subst (IsCounted n) (sym e) (
    let less = valid_count-set k.table id (omega (arith, c.size)) v in
    record {
      size = omega (
        arith,
        c.size,
        length-set k.table id (record (get_or k.table id empty) { valid = false }),
      );
      counted = omega (arith, c.size, c.counted, less, valid_count-le k.table);
    })
Step-IsCounted {n} {k} {u} small c (sweep dad e) =
    let (same, size) = valid_count-release dad k.table in
    subst (IsCounted n) (sym e)
      (record { size = omega (arith, size, c.size); counted = omega (arith, same, c.counted) })

-- From the table that schedule_init makes, whatever sessions are added, whatever valid entries are
-- removed and whenever schedule_do passes over the entries: the count of clients is the number of
-- valid entries, and the table keeps its size.
pub Reach-IsCounted : {n : ℕ} {k : Sched} → n < 2 ^ 64 → Reach n k → IsCounted n k
Reach-IsCounted {n} small start = schedule_init-IsCounted n
Reach-IsCounted {n} small (next r s) = Step-IsCounted small (Reach-IsCounted small r) s
