-- ===== src/Rtsp/Logged.antt =====
-- rtsp/: what the block for HDR_USER_AGENT, behind the reply of a success, makes of a handler.
use fenice_1_12_with_h.Prelude.{
  ◌≡◌, refl, inl, inr, false, ℕ, ◌&&◌, List, Option, none, some, Bool-cases, arith,
}
use fenice_1_12_with_h.Rtsp.Sessions.{Outcome, has_agent, is_success, logged}

-- What a handler leaves, it leaves without the block too.
pub logged-some :
    (input : List ℕ) (o : Option Outcome) {out : Outcome} → logged input o ≡ some out → o ≡ some out
unfolding logged
logged-some input none e = cc
logged-some input (some out) e = elim (Bool-cases (has_agent input && is_success out.replies)) [
  | inl b ↦ absurd (ground (arith, b, e))
  | inr b ↦ ground (arith, b, e)
]

-- A request without the header is not touched by it.
pub logged_same :
    (input : List ℕ) (o : Option Outcome) → has_agent input ≡ false → logged input o ≡ o
unfolding logged
logged_same input none h = refl
logged_same input (some out) h = rw h refl
