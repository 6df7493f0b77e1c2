-- ===== src/Schedule.antt =====
-- schedule/: the table of the sessions that are served. schedule_add, schedule_remove and
-- schedule_init, and of schedule_do the branch for the entries that are not valid. The table has
-- ONE_FORK_MAX_CONNECTION entries, here a parameter `n`.
pub mod Count
pub mod Release
pub mod Timing
pub mod Pace
pub mod CatchUp
pub mod Others
use fenice_1_12_with_h.Prelude.{
  ℕ, suc, ◌+◌, ◌-◌, ◌%◌, ◌^◌, Bool, true, false, not, ◌||◌, List, [], ◌∷◌, Option, none, some,
  if◌then◌else◌, replicate, get_or, set,
}

-- `schedule_list`; `plays` says that `play_action` is RTP_send_packet and not NULL.
pub record Entry : Type 0 where
  pub valid : Bool
  pub rtp_session : Option ℕ
  pub plays : Bool

-- `sched` and `sched_control`, whose lock and condition are left out: each function here runs with the
-- lock, but for the loop of schedule_do.
pub record Sched : Type 0 where
  pub table : List Entry
  pub client_count : ℕ

abbrev pub empty : Entry
empty = record { valid = false; rtp_session = none; plays = false }

-- schedule_init
unfoldable pub schedule_init : ℕ → Sched
schedule_init n = record { table = replicate n empty; client_count = 0 }

-- The loop of schedule_add for session `s`; `dad` is its field `is_multicast_dad`.
unfoldable pub add_entry : Bool → ℕ → List Entry → Option (ℕ × List Entry)
add_entry dad s [] = none
add_entry dad s (e ∷ es) =
    if not e.valid
    then some (0, record { valid = true; rtp_session = some s; plays = dad || e.plays } ∷ es)
    else elim (add_entry dad s es) [ none ↦ none | some (i, rest) ↦ some (suc i, e ∷ rest) ]

-- schedule_add: `none` is ERR_GENERIC.
unfoldable pub schedule_add : Bool → ℕ → Sched → Option (ℕ × Sched)
schedule_add dad s k = elim (add_entry dad s k.table) [
  | none ↦ none
  | some (i, table) ↦
      some (i, record { table = table; client_count = (k.client_count + 1) % 2 ^ 64 })
]

-- schedule_remove; `client_count` is a `size_t`.
unfoldable pub schedule_remove : ℕ → Sched → Sched
schedule_remove id k = record {
  table = set k.table id (record (get_or k.table id empty) { valid = false });
  client_count = (k.client_count + 2 ^ 64 - 1) % 2 ^ 64;
}

-- What one pass of schedule_do does with the entries that are not valid: the sessions it destroys, and
-- the table. `dad` says which sessions have `is_multicast_dad`.
unfoldable pub release : (ℕ → Bool) → List Entry → List ℕ × List Entry
release dad [] = ([], [])
release dad (e ∷ es) =
    let (gone, rest) = release dad es in
    elim e.rtp_session [
      | none ↦ (gone, e ∷ rest)
      | some s ↦
          if not e.valid
          then (if dad s
              then (s ∷ gone, record e { rtp_session = none } ∷ rest)
              else (gone, e ∷ rest))
          else (gone, e ∷ rest)
    ]

abbrev pub release_all : (ℕ → Bool) → Sched → List ℕ × Sched
release_all dad k = let (gone, table) = release dad k.table in (gone, record k { table = table })
