-- ===== src/EventLoop/Kept.antt =====
-- What a pass of schedule_connections leaves of the list, as rtsp_server returns only ERR_NOERROR,
-- ERR_GENERIC and ERR_CONNECTION_CLOSE.
use mathlib.Core.List.{append_assoc}
use fenice_1_12_with_h.Prelude.{
  ℕ, suc, ◌≡◌, ◌⊎◌, refl, ap, ◌∙◌, inl, inr, true, false, List, [], ◌∷◌, ◌++◌, some, if◌then◌else◌,
  All,
}
use fenice_1_12_with_h.Schedule.{Sched}
use fenice_1_12_with_h.EventLoop.{
  Client, Pass, fds, leave, is_closed, is_fine, pass_from, schedule_connections,
}

-- The connections that stay, and what the others do, in the order of the list.
abbrev pub kept : List Client → List Client
kept [] = []
kept (p ∷ ps) = if is_fine p.result then p ∷ kept ps else kept ps

abbrev pub left_by : List Client → Sched → Sched
left_by [] k = k
left_by (p ∷ ps) k = if is_fine p.result then left_by ps k else left_by ps (leave p k)

abbrev pub closed_by : List Client → List ℕ
closed_by [] = []
closed_by (p ∷ ps) = if is_fine p.result then closed_by ps else fds p ++ closed_by ps

abbrev pub gone : List Client → ℕ
gone [] = 0
gone (p ∷ ps) = if is_fine p.result then gone ps else suc (gone ps)

abbrev pub IsKnown : Client → Type 0
IsKnown p = (is_fine p.result ≡ true) ⊎ ((is_fine p.result ≡ false) × (is_closed p.result ≡ true))

abbrev outcome : List Client → List Client → Sched → Pass
outcome upto list k = record {
  list = upto ++ kept list;
  sched = left_by list k;
  closed = closed_by list;
  lowered = gone list;
}

pass_from_lem :
    (upto list : List Client) (k : Sched)
    → All IsKnown list
    → pass_from upto [] list k ≡ some (outcome upto list k)
unfolding pass_from
pass_from_lem upto [] k known = refl
pass_from_lem [] (p ∷ rest) k known = elim known.0 [
  | inl f ↦ let later = pass_from_lem (p ∷ []) rest k known.1 in rw f later
  | inr (nf, c) ↦ let later = pass_from_lem [] rest (leave p k) known.1 in rw (nf, c, later) refl
]
pass_from_lem (q ∷ qs) (p ∷ rest) k known = elim known.0 [
  | inl f ↦
      let later = pass_from_lem ((q ∷ qs) ++ p ∷ []) rest k known.1 in
      let same : outcome ((q ∷ qs) ++ p ∷ []) rest k
          ≡ record (outcome [] rest k) { list = (q ∷ qs) ++ p ∷ kept rest } =
        ap (λ xs. record (outcome [] rest k) { list = q ∷ xs })
          (append_assoc qs (p ∷ []) (kept rest)) in
      rw f (later ∙ ap some same)
  | inr (nf, c) ↦
      let later = pass_from_lem (q ∷ qs) rest (leave p k) known.1 in rw (nf, c, later) refl
]

-- If each call of rtsp_server returns ERR_NOERROR, ERR_GENERIC or ERR_CONNECTION_CLOSE, the pass ends
-- with exactly the connections for which it returned ERR_NOERROR, in their order; of each other one,
-- in order, all sessions leave the scheduler, its descriptors are closed, and it is counted off once.
pub schedule_connections_lem :
    (list : List Client) (k : Sched)
    → All IsKnown list
    → schedule_connections list k
      ≡ some (record {
        list = kept list;
        sched = left_by list k;
        closed = closed_by list;
        lowered = gone list;
      })
unfolding schedule_connections
schedule_connections_lem list k known = pass_from_lem [] list k known
