-- ===== src/EventLoop.antt =====
-- eventloop/schedule_connections.c: one pass over the list of connections.
pub mod Kept
use fenice_1_12_with_h.Prelude.{
  ℕ, zero, suc, ◌+◌, Bool, true, false, not, List, [], ◌∷◌, ◌++◌, Option, none, some, ltb,
  if◌then◌else◌,
}
use fenice_1_12_with_h.Prelude.Codes.{Code, err_noerror, err_generic, err_connection_close}
use fenice_1_12_with_h.Schedule.{Sched, schedule_remove}

-- An `RTSP_buffer` of the list: its descriptor, what rtsp_server returns for it, the `sched_id`s of the
-- sessions of its session list, or `none` where that is NULL, and the descriptors of its interleaved
-- channels.
pub record Client : Type 0 where
  pub fd : ℕ
  pub result : Code
  pub sessions : Option (List ℕ)
  pub interleaved : List (ℕ × ℕ)

-- The list that is left, the scheduler's table, the descriptors closed, in order, and by how much
-- `*conn_count` and `num_conn` were lowered.
pub record Pass : Type 0 where
  pub list : List Client
  pub sched : Sched
  pub closed : List ℕ
  pub lowered : ℕ

abbrev pub remove_all : List ℕ → Sched → Sched
remove_all [] k = k
remove_all (id ∷ ids) k = remove_all ids (schedule_remove id k)

abbrev pub local_fds : List (ℕ × ℕ) → List ℕ
local_fds [] = []
local_fds ((rtp, rtcp) ∷ rest) = rtp ∷ rtcp ∷ local_fds rest

abbrev pub fds : Client → List ℕ
fds p = local_fds p.interleaved ++ p.fd ∷ []

-- The sessions of a connection leave the scheduler.
abbrev pub leave : Client → Sched → Sched
leave p k = elim p.sessions [ none ↦ k | some ids ↦ remove_all ids k ]

-- `res == ERR_CONNECTION_CLOSE || res == ERR_GENERIC`
abbrev pub is_closed : Code → Bool
is_closed err_connection_close = true
is_closed err_generic = true
is_closed _ = false

abbrev pub is_fine : Code → Bool
is_fine err_noerror = true
is_fine _ = false

-- The loop at `p`: the list is `upto` up to `pp` and with it, then `passed`, then the rest from `p` on.
-- `none` where `pp` is NULL and its `next` is set.
unfoldable pub pass_from : List Client → List Client → List Client → Sched → Option Pass
pass_from upto passed [] k =
    some (record { list = upto ++ passed; sched = k; closed = []; lowered = 0 })
pass_from upto passed (p ∷ rest) k =
    let fine = pass_from (upto ++ (passed ++ p ∷ [])) [] rest k in
    let first = pass_from [] [] rest (leave p k) in
    let inner = pass_from upto [] rest (leave p k) in
    let other = pass_from upto (passed ++ p ∷ []) rest k in
    let note : Option Pass → Option Pass = λ o. elim o [
      | none ↦ none
      | some r ↦ some (record r { closed = fds p ++ r.closed; lowered = suc r.lowered })
    ] in
    if is_fine p.result
    then fine
    else if is_closed p.result
    then elim upto [ [] ↦ elim passed [ [] ↦ note first | q ∷ qs ↦ none ] | q ∷ qs ↦ note inner ]
    else other

-- schedule_connections. `stop_schedule` is left out: it is set only where `*conn_count` falls below 0.
unfoldable pub schedule_connections : List Client → Sched → Option Pass
schedule_connections list k = pass_from [] [] list k
