-- ===== src/Schedule/Release.antt =====
-- What becomes of a session that schedule_remove took out of service.
use fenice_1_12_with_h.Prelude.{
  ℕ, ◌+◌, ◌%◌, ◌^◌, ◌<◌, ◌≡◌, ◌≢◌, refl, ap, ◌∙◌, Bool, true, false, ◌||◌, List, [], ◌∷◌, ◌++◌,
  none, some, ◌==◌, if◌then◌else◌, length, get_or, set, All, arith,
}
use fenice_1_12_with_h.Schedule.{
  Entry, Sched, empty, schedule_add, add_entry, schedule_remove, release, release_all,
}

-- How often the session stands in the table.
abbrev pub held : ℕ → List Entry → ℕ
held s [] = 0
held s (e ∷ es) = (elim e.rtp_session [ none ↦ 0 | some t ↦ if t == s then 1 else 0 ]) + held s es

abbrev pub destroyed : ℕ → List ℕ → ℕ
destroyed s [] = 0
destroyed s (t ∷ ts) = (if t == s then 1 else 0) + destroyed s ts

-- A pass destroys a session as often as it takes it out of the table.
pub release-held :
    (dad : ℕ → Bool) (s : ℕ) (es : List Entry)
    → destroyed s (release dad es).0 + held s (release dad es).1 ≡ held s es
unfolding release
release-held dad s [] = refl
release-held dad s (e ∷ es) = ground (arith, release-held dad s es)

held-append : (s : ℕ) (xs ys : List Entry) → held s (xs ++ ys) ≡ held s xs + held s ys
held-append s [] ys = omega arith
held-append s (x ∷ xs) ys = omega (arith, held-append s xs ys)

destroyed-append :
    (dad : ℕ → Bool) (s : ℕ) (xs ys : List Entry)
    → destroyed s (release dad (xs ++ ys)).0
      ≡ destroyed s (release dad xs).0 + destroyed s (release dad ys).0
unfolding release
destroyed-append dad s [] ys = omega arith
destroyed-append dad s (x ∷ xs) ys = ground (arith, destroyed-append dad s xs ys)

module _ {ℓ} {A : Type ℓ} where
  get_or-middle :
      (xs : List A) (y : A) (zs : List A) (d : A) → get_or (xs ++ y ∷ zs) (length xs) d ≡ y
  get_or-middle [] y zs d = refl
  get_or-middle (x ∷ xs) y zs d = get_or-middle xs y zs d

  set-middle :
      (xs : List A) (y : A) (zs : List A) (v : A) → set (xs ++ y ∷ zs) (length xs) v ≡ xs ++ v ∷ zs
  set-middle [] y zs v = refl
  set-middle (x ∷ xs) y zs v = ap (◌∷◌ x) (set-middle xs y zs v)

-- The table with session `s` in one entry, at place `id`.
pub record HoldsAt (s id : ℕ) (table : List Entry) : Type 0 where
  pub before : List Entry
  pub entry : Entry
  pub behind : List Entry
  pub splits : table ≡ before ++ entry ∷ behind
  pub place : length before ≡ id
  pub session_is : entry.rtp_session ≡ some s
  pub nowhere_else : (held s before ≡ 0) × (held s behind ≡ 0)

removed-table :
    {s id : ℕ} (k : Sched) (h : HoldsAt s id k.table)
    → (schedule_remove id k).table ≡ h.before ++ record (h.entry) { valid = false } ∷ h.behind
unfolding schedule_remove
removed-table k h = ground (
  arith,
  h.splits,
  h.place,
  get_or-middle h.before h.entry h.behind empty,
  set-middle h.before h.entry h.behind (record (h.entry) { valid = false }),
)

release-front :
    (dad : ℕ → Bool) (s : ℕ) (e : Entry) (es : List Entry)
    → dad s ≡ true
    → e.valid ≡ false
    → e.rtp_session ≡ some s
    → destroyed s (release dad (e ∷ es)).0 ≡ destroyed s (release dad es).0 + 1
unfolding release
release-front dad s e es d v h = ground (arith, d, v, h)

-- A session with `is_multicast_dad` that stands in one entry of the table, after schedule_remove of
-- that entry: the next pass of schedule_do destroys it, exactly once, and it is then in no entry.
pub release-schedule_remove :
    {s id : ℕ} (dad : ℕ → Bool) (k : Sched)
    → HoldsAt s id k.table
    → dad s ≡ true
    → let (gone, k') = release_all dad (schedule_remove id k) in
      (destroyed s gone ≡ 1) × (held s k'.table ≡ 0)
release-schedule_remove {s} {id} dad k h d =
    let table = (schedule_remove id k).table in
    let e : Entry = record (h.entry) { valid = false } in
    let sum = release-held dad s table in
    let one : held s table ≡ 1 = ground (
      arith,
      ap (held s) (removed-table k h),
      held-append s h.before (e ∷ h.behind),
      h.session_is,
      h.nowhere_else,
    ) in
    let some_gone : 0 < destroyed s (release dad table).0 = omega (
      arith,
      ap (λ t. destroyed s (release dad t).0) (removed-table k h),
      destroyed-append dad s h.before (e ∷ h.behind),
      release-front dad s e h.behind d refl h.session_is,
    ) in
    (omega (arith, sum, one, some_gone), omega (arith, sum, one, some_gone))

add_entry-behind :
    (b : Bool) (s : ℕ) (before : List Entry) (e : Entry) (behind : List Entry)
    → All (λ x. x.valid ≡ true) before
    → e.valid ≡ false
    → add_entry b s (before ++ e ∷ behind)
      ≡ some (
        length before,
        before ++ record { valid = true; rtp_session = some s; plays = b || e.plays } ∷ behind,
      )
unfolding add_entry
add_entry-behind b s [] e behind all v = ground (arith, v)
add_entry-behind b s (x ∷ xs) e behind all v =
    ground (arith, all, add_entry-behind b s xs e behind all.1 v)

-- A session that schedule_remove took out of service, in the first entry that is then not valid, and
-- another session that schedule_add gets before schedule_do passes over that entry: the new session
-- takes the entry, the old one stands in no entry, and no pass over the table destroys it.
pub schedule_add-schedule_remove :
    {s id : ℕ} (dad : ℕ → Bool) (b : Bool) (t : ℕ) (k : Sched) (h : HoldsAt s id k.table)
    → All (λ e. e.valid ≡ true) h.before
    → s ≢ t
    → (k' : Sched) × (schedule_add b t (schedule_remove id k) ≡ some (id, k'))
      × (held s k'.table ≡ 0)
      × (destroyed s (release_all dad k').0 ≡ 0)
unfolding schedule_add
schedule_add-schedule_remove {s} {id} dad b t k h all ne =
    let e : Entry = record (h.entry) { valid = false } in
    let e' : Entry = record { valid = true; rtp_session = some t; plays = b || e.plays } in
    let table = h.before ++ e' ∷ h.behind in
    let added =
      ap (add_entry b t) (removed-table k h) ∙ add_entry-behind b t h.before e h.behind all refl in
    let none_left : held s table ≡ 0 =
      ground (arith, held-append s h.before (e' ∷ h.behind), h.nowhere_else, ne) in
    (
      record { table = table; client_count = ((schedule_remove id k).client_count + 1) % 2 ^ 64 },
      ground (arith, added, h.place),
      none_left,
      omega (arith, release-held dad s table, none_left),
    )
