-- ===== src/Rtsp/Transitions.antt =====
-- The states that a session goes through, and the requests that are not answered.
use mathlib.Core.Path.{subst}
use fenice_1_12_with_h.Prelude.{
  ℕ, ◌≡◌, ◌≢◌, ◌↔◌, ◌⊎◌, ◌≤◌, refl, sym, inl, inr, true, Option, none, some, arith, Bool-cases,
}
use fenice_1_12_with_h.Prelude.Codes.{Code, err_noerror}
use fenice_1_12_with_h.Rtsp.Machine.{
  id_describe, id_options, id_pause, id_play, id_setup, id_teardown, Call, setup, play, pause,
  teardown, describe, options, reply, nothing, dispatch, Header, malformed, absent, numbered,
  Answer, on_success, state_after, rtsp_state_machine,
}

-- The transitions of a session that a request may cause.
pub data Allowed (answer : Call → Answer) (method : ℕ) : ℕ → Option ℕ → Type 0 where
  stays : {state : ℕ} → Allowed answer method state (some state)
  sets_up :
      {state : ℕ}
      → state ≤ 1
      → method ≡ id_setup
      → (answer setup).code ≡ err_noerror
      → Allowed answer method state (some 1)
  plays : method ≡ id_play → (answer play).code ≡ err_noerror → Allowed answer method 1 (some 2)
  pauses : method ≡ id_pause → (answer pause).code ≡ err_noerror → Allowed answer method 2 (some 1)
  ends :
      {state : ℕ}
      → method ≡ id_teardown
      → (answer teardown).freed ≡ true
      → Allowed answer method state none

-- In which state a session may be a call comes from which method.
dispatch-setup :
    (state method : ℕ) → dispatch state method ≡ setup → (state ≤ 1) × (method ≡ id_setup)
unfolding dispatch
dispatch-setup state method e = ground (arith, e)

dispatch-play : (state method : ℕ) → dispatch state method ≡ play → (state ≡ 1) × (method ≡ id_play)
unfolding dispatch
dispatch-play state method e = ground (arith, e)

dispatch-pause :
    (state method : ℕ) → dispatch state method ≡ pause → (state ≡ 2) × (method ≡ id_pause)
unfolding dispatch
dispatch-pause state method e = ground (arith, e)

dispatch-teardown : (state method : ℕ) → dispatch state method ≡ teardown → method ≡ id_teardown
unfolding dispatch
dispatch-teardown state method e = ground (arith, e)

dispatch-options : (state method : ℕ) → dispatch state method ≡ options → state ≡ 0
unfolding dispatch
dispatch-options state method e = ground (arith, e)

on_success-cases :
    (c : Code) (next state : ℕ)
    → ((c ≡ err_noerror) × (on_success c next state ≡ next)) ⊎ (on_success c next state ≡ state)
on_success-cases err_noerror next state = inl (refl, refl)
on_success-cases _ next state = inr refl

-- Behind a handler that sets the state if it returns ERR_NOERROR.
moved :
    {answer : Call → Answer} {method state : ℕ} (c : Code) (next : ℕ)
    → (c ≡ err_noerror → Allowed answer method state (some next))
    → Allowed answer method state (some (on_success c next state))
moved {answer} {method} {state} c next h = elim (on_success-cases c next state) [
  | inl (ok, e) ↦ subst (λ s. Allowed answer method state (some s)) (sym e) (h ok)
  | inr e ↦ subst (λ s. Allowed answer method state (some s)) (sym e) stays
]

called :
    (answer : Call → Answer) (state method : ℕ) (call : Call)
    → dispatch state method ≡ call
    → Allowed answer method state (state_after call (answer call) state)
unfolding state_after
called answer state method describe e = stays
called answer state method (reply n) e = stays
called answer state method nothing e = stays
called answer state method setup e =
    let (le, is) = dispatch-setup state method e in
    moved (answer setup).code 1 (λ ok. sets_up le is ok)
called answer state method play e =
    let (at, is) = dispatch-play state method e in
    moved (answer play).code 2
      (λ ok. subst (λ s. Allowed answer method s (some 2)) (sym at) (plays is ok))
called answer state method pause e =
    let (at, is) = dispatch-pause state method e in
    moved (answer pause).code 1
      (λ ok. subst (λ s. Allowed answer method s (some 1)) (sym at) (pauses is ok))
called answer state method options e = moved (answer options).code 0 (λ ok.
    subst (λ s. Allowed answer method s (some 0)) (sym (dispatch-options state method e)) stays)
called answer state method teardown e = elim (Bool-cases (answer teardown).freed) [
  | inl f ↦ rw f (ends (dispatch-teardown state method e) f)
  | inr f ↦ rw f stays
]

-- Whatever request comes in whatever state, and whatever the handlers do: the state changes only to
-- READY by a SETUP outside PLAY, to PLAY by a PLAY in READY, back to READY by a PAUSE in PLAY, each
-- where its handler returns ERR_NOERROR, and the session ends only by a TEARDOWN. The handlers return
-- ERR_NOERROR also behind some of their refusals, and so a request that is refused may change the
-- state.
pub rtsp_state_machine-Allowed :
    (header : Header) (state method : ℕ) (answer : Call → Answer)
    → Allowed answer method state (rtsp_state_machine header (some state) method answer).1
unfolding rtsp_state_machine
rtsp_state_machine-Allowed malformed state method answer = stays
rtsp_state_machine-Allowed absent state method answer =
    called answer state method (dispatch state method) refl
rtsp_state_machine-Allowed numbered state method answer =
    called answer state method (dispatch state method) refl

-- With a session in one of the three states and no malformed Session header, a request is passed
-- over, without a reply and without a handler, exactly if it is OPTIONS in READY, or in PLAY anything
-- but PLAY, PAUSE, TEARDOWN and DESCRIBE.
pub rtsp_state_machine-nothing :
    (header : Header) (state method : ℕ) (answer : Call → Answer)
    → header ≢ malformed
    → state ≤ 2
    → ((rtsp_state_machine header (some state) method answer).0 ≡ nothing) ↔ (
        ((state ≡ 1) × (method ≡ id_options))
        ⊎ ((state ≡ 2)
            × (method ≢ id_play)
            × (method ≢ id_pause)
            × (method ≢ id_teardown)
            × (method ≢ id_describe)))
unfolding rtsp_state_machine dispatch
rtsp_state_machine-nothing malformed state method answer ne le = absurd (ne refl)
rtsp_state_machine-nothing absent state method answer ne le = ground (arith, le)
rtsp_state_machine-nothing numbered state method answer ne le = ground (arith, le)
