-- ===== src/Rtsp/Serves.antt =====
-- rtsp/RTSP_pause.c and RTSP_teardown.c: that the table of the scheduler goes on to serve the streams of
-- the session.
pub mod Requests
use mathlib.Core.Path.{subst}
use fenice_1_12_with_h.Prelude.{
  ℕ, ◌^◌, ◌<◌, ◌≡◌, refl, sym, ap, ◌∙◌, ◌⊎◌, inl, inr, Bool, true, false, List, [], ◌∷◌, Option,
  none, some, Bool-cases, Option-cases, ◌==◌, if◌then◌else◌, get_or, update, arith,
}
use fenice_1_12_with_h.Prelude.Codes.{Code, err_noerror, err_generic, err_parse}
use fenice_1_12_with_h.Schedule.{Entry, Sched, empty}
use fenice_1_12_with_h.Schedule.Count.{IsCounted}
use fenice_1_12_with_h.Schedule.Timing.{Timed, PlayArgs}
use fenice_1_12_with_h.Rtsp.Text.{has, same, Token, strrchr, strchr, behind_first, strtok}
use fenice_1_12_with_h.Rtsp.Check.{
  Check, pass, refuse, undefined, ◌>>=◌, cseq_of, require, or_refuse, requested_file, session_of,
  no_session, request_url, checked_url, checked_path, checked_extension,
}
use fenice_1_12_with_h.Rtsp.Sessions.{
  Stream, Session, Server, Outcome, answer, settle, set_pause, pause_all, first_token, remove_named,
  shrink, torn_down, checked_session, pause_checks, teardown_checks, pause_request,
  teardown_request,
}
use fenice_1_12_with_h.Rtsp.Play.{
  Played, presentation, aggregate, stream, Moment, starts, at_entry, play_one, then_play,
  named_stream, play_all, play_checks, play_reply, play_found, play_request,
}
use fenice_1_12_with_h.Rtsp.Describe.{describe_checks, options_request, describe_request}
use fenice_1_12_with_h.Rtsp.Replies.{Handles, options, describe, play, pause, teardown}
use fenice_1_12_with_h.Rtsp.Paths.{Lets, Lets-bind}
use fenice_1_12_with_h.Rtsp.Served.{IsServed, IsServed-keep}
use fenice_1_12_with_h.Rtsp.Teardown.{remove_named-IsTorn}
use fenice_1_12_with_h.Rtsp.Pausing.{changed, pause_all_lem, update_self, update_other, cases_eq}
use fenice_1_12_with_h.Rtsp.Playing.{choose_keep}

-- The count of clients is right, and the streams of the session, if there is one, have valid entries.
abbrev pub ServesSession : ℕ → Option Session → (ℕ → Stream) → Sched → Type 0
ServesSession n none memory k = IsCounted n k
ServesSession n (some ses) memory k = IsServed n memory ses.streams k

abbrev pub Serves : ℕ → Server → Type 0
Serves n s = ServesSession n s.session s.memory s.sched

abbrev pub AllServe : ℕ → Option Outcome → Type 0
AllServe n none = Unit
AllServe n (some out) = Serves n out.server

pub settle-Serves {ℓ κ} :
    {A : Type ℓ} (Q : A → Type κ) (n : ℕ) (s : Server) (c : Check A) (k : A → Option Outcome)
    → Serves n s
    → Lets Q c
    → ((a : A) → Q a → AllServe n (k a))
    → AllServe n (settle s c k)
settle-Serves Q n s (pass a) k served h f = f a h
settle-Serves Q n s (refuse status code) k served h f = served
settle-Serves Q n s undefined k served h f = tt

checked_session_lem :
    (code : Code) (id : ℕ) (session : Option Session)
    → Lets (λ ses. session ≡ some ses) (checked_session code id session)
unfolding checked_session
checked_session_lem code id none = tt
checked_session_lem code id (some ses) = elim (Bool-cases (ses.session_id == id)) [
  | inl e ↦ rw e refl
  | inr e ↦ rw e tt
]

teardown_checks_lem :
    (input : List ℕ) (session : Option Session)
    → Lets (λ found. session ≡ some found.1) (teardown_checks input session)
unfolding teardown_checks
teardown_checks_lem input session =
    let P = λ (found : List ℕ × Session). session ≡ some found.1 in
    Lets-bind P (requested_file err_parse input) _ (λ object e1.
      Lets-bind P (session_of err_parse (pass no_session) input) _ (λ id e2.
        Lets-bind P (checked_session err_parse id session) _ (λ ses e3.
          subst (Lets (λ ses. session ≡ some ses)) e3 (checked_session_lem err_parse id session))))

pub Lets-trivial {ℓ} : {A : Type ℓ} (c : Check A) → Lets (λ a. Unit {0}) c
Lets-trivial (pass a) = tt
Lets-trivial (refuse status code) = tt
Lets-trivial undefined = tt

-- A change of the times of streams.
pub ServesSession-keep :
    (n : ℕ) (session : Option Session) (memory memory' : ℕ → Stream) (k : Sched)
    → ((j : ℕ) → (memory' j).sched_id ≡ (memory j).sched_id)
    → ServesSession n session memory k
    → ServesSession n session memory' k
ServesSession-keep n none memory memory' k same h = h
ServesSession-keep n (some ses) memory memory' k same h =
    IsServed-keep n memory memory' ses.streams k same h

changed-sched_id :
    (is : List ℕ) (memory : ℕ → Stream) (j : ℕ)
    → (pause_all is memory j).sched_id ≡ (memory j).sched_id
changed-sched_id is memory j =
    ap (λ (r : Stream). r.sched_id) (pause_all_lem is memory j) ∙ kept (has j is)
  where
    kept :
        (b : Bool) → (if b then set_pause (memory j) else memory j).sched_id ≡ (memory j).sched_id
    kept true = refl
    kept false = refl

pub pause_request-AllServe :
    (n : ℕ) (hostname input : List ℕ) (s : Server)
    → Serves n s
    → AllServe n (pause_request hostname input s)
unfolding pause_request
pause_request-AllServe n hostname input s served = elim (Option-cases (cseq_of input)) [
  | inl e ↦ rw (e, pause_request) served
  | inr (c, e) ↦
      rw (e, pause_request)
        (settle-Serves (λ ses. Unit {0}) n (record s { cseq = c })
          (pause_checks hostname input s.session) _ served (Lets-trivial _)
          (λ ses h.
            ServesSession-keep n s.session s.memory (pause_all ses.streams s.memory) s.sched
              (changed-sched_id ses.streams s.memory) served))
]

shrink-Serves :
    (n : ℕ) (ses : Session) (memory : ℕ → Stream) (kept : List ℕ) (k : Sched)
    → IsServed n memory kept k
    → ServesSession n (shrink ses kept) memory k
shrink-Serves n ses memory [] k h = h.counted
shrink-Serves n ses memory (i ∷ is) k h = h

pub teardown_request-AllServe :
    (n : ℕ) (input : List ℕ) (s : Server)
    → n < 2 ^ 64
    → Serves n s
    → AllServe n (teardown_request input s)
unfolding teardown_request
teardown_request-AllServe n input s small served = elim (Option-cases (cseq_of input)) [
  | inl e ↦ rw (e, teardown_request) served
  | inr (c, e) ↦
      rw (e, teardown_request)
        (settle-Serves (λ found. s.session ≡ some found.1) n (record s { cseq = c })
          (teardown_checks input s.session) _ served (teardown_checks_lem input s.session)
          (λ found h.
            let served' = subst (λ o. ServesSession n o s.memory s.sched) h served in
            shrink-Serves n found.1 s.memory _ _
              (remove_named-IsTorn found.0 s.memory n found.1.streams s.sched small
                served').served))
]
