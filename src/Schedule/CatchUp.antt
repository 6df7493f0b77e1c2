-- ===== src/Schedule/CatchUp.antt =====
-- schedule/schedule_do.c: that it catches up with a session that is late.
use mathlib.Core.Path.{subst}
use fenice_1_12_with_h.Prelude.{
  ℕ, zero, suc, ◌+◌, ◌<◌, ◌≤◌, ◌≡◌, refl, sym, ap, ◌∙◌, ◌⊎◌, inl, inr, Bool-cases, true, false,
  List, [], ◌∷◌, ◌++◌, replicate, arith,
}
use fenice_1_12_with_h.Prelude.Codes.{Code, err_noerror}
use fenice_1_12_with_h.Schedule.Timing.{Timed, Action, adapt, rtcp, play, after_play, is_due, serve}
use fenice_1_12_with_h.Schedule.Pace.{passes, plays, IsSteady, serve_idle, serve_due}

-- `act` is steady, succeeds, and lets the session play on.
abbrev pub PlaysOn : (Timed → Code × Timed) → Type 0
PlaysOn act =
    (s : Timed)
    → ((act s).0 ≡ err_noerror) × ((act s).1.pause ≡ s.pause) × ((act s).1.mstart ≡ s.mstart)

passes_idle :
    (act : Timed → Code × Timed) (now n : ℕ) (s : Timed)
    → is_due now s ≡ false
    → passes act (replicate n now) s ≡ ([], s)
passes_idle act now zero s d = refl
passes_idle act now (suc n) s d = rw (serve_idle act now s d, passes_idle act now n s d) refl

not_due_time :
    (now : ℕ) (s : Timed)
    → is_due now s ≡ false
    → s.pause ≡ false
    → s.mstart ≤ now
    → now < s.mprev_tx_time + s.pkt_len
not_due_time now s d p b = ground arith

-- `n` packets are sent, or no more are due at the time `now`.
abbrev pub Caught : ℕ → ℕ → Timed → List Action × Timed → Type 0
Caught now n s (actions, s') = (plays actions ≡ n) ⊎ (now < s'.mprev_tx_time + s.pkt_len)

-- The session behind a packet that was sent.
abbrev pub next : (Timed → Code × Timed) → Timed → Timed
next act s = record (act s).1 { mprev_tx_time = (act s).1.mprev_tx_time + (act s).1.pkt_len }

serve-PlaysOn :
    (act : Timed → Code × Timed)
    → PlaysOn act
    → (now : ℕ) (s : Timed) → is_due now s ≡ true
    → serve act now s ≡ (adapt ∷ rtcp ∷ play ∷ [], next act s)
unfolding after_play
serve-PlaysOn act on now s d = serve_due act now s d ∙ rw (on s).0 refl

Caught-step :
    (act : Timed → Code × Timed)
    → IsSteady act
    → PlaysOn act
    → (now n : ℕ) (s : Timed) → is_due now s ≡ true
    → Caught now n (next act s) (passes act (replicate n now) (next act s))
    → Caught now (suc n) s (passes act (replicate (suc n) now) s)
Caught-step act steady on now n s d h =
    let e =
      ap (λ r. (r.0 ++ (passes act (replicate n now) r.1).0, (passes act (replicate n now) r.1).1))
        (serve-PlaysOn act on now s d) in
    subst (Caught now (suc n) s) (sym e)
      (elim h [ inl k ↦ inl (ap suc k) | inr l ↦ let k = (steady s).1 in inr (omega arith) ])

-- schedule_do catches up. Let stream_change, RTCP_handler and `play_action` keep the session's last
-- time, its period, `pause` and `mstart`, and let `play_action` succeed: then `n` passes at one time,
-- at which the medium has begun, call `play_action` `n` times for a session that does not pause, unless
-- after them its next call is not due yet.
pub passes_catch_up :
    (act : Timed → Code × Timed)
    → IsSteady act
    → PlaysOn act
    → (now n : ℕ) (s : Timed) → s.pause ≡ false
    → s.mstart ≤ now
    → Caught now n s (passes act (replicate n now) s)
passes_catch_up act steady on now zero s p b = inl refl
passes_catch_up act steady on now (suc n) s p b = elim (Bool-cases (is_due now s)) [
  | inl d ↦
      Caught-step act steady on now n s d
        (passes_catch_up act steady on now n (next act s) ((on s).1 ∙ p) (rw (on s).2 b))
  | inr d ↦
      subst (Caught now (suc n) s) (sym (passes_idle act now (suc n) s d))
        (inr (not_due_time now s d p b))
]
