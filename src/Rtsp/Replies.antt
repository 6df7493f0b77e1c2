-- ===== src/Rtsp/Replies.antt =====
-- rtsp/: that each request is replied to once, and that a refused one changes no stream.
use mathlib.Core.Path.{subst}
use fenice_1_12_with_h.Prelude.{
  ℕ, ◌≡◌, refl, ◌⊎◌, inl, inr, Bool, List, [], ◌∷◌, Option, none, some, Option-cases,
}
use fenice_1_12_with_h.Prelude.Codes.{Code, err_noerror, err_parse}
use fenice_1_12_with_h.Schedule.Timing.{PlayArgs}
use fenice_1_12_with_h.Rtsp.Check.{Check, pass, refuse, undefined, cseq_of}
use fenice_1_12_with_h.Rtsp.Sessions.{
  Stream, Session, Server, Outcome, answer, settle, pause_request, teardown_request, pause_checks,
  teardown_checks, rtsp_pause, rtsp_teardown,
}
use fenice_1_12_with_h.Rtsp.Play.{
  Played, presentation, aggregate, stream, Moment, play_checks, play_reply, named_stream,
  play_found, play_request, rtsp_play,
}
use fenice_1_12_with_h.Rtsp.Describe.{
  describe_checks, options_request, describe_request, rtsp_options, rtsp_describe,
}
use fenice_1_12_with_h.Rtsp.Logged.{logged-some}

-- All but the number of the request.
abbrev pub IsUnchanged : Server → Server → Type 0
IsUnchanged s s' = (s'.session ≡ s.session) × (s'.memory ≡ s.memory) × (s'.sched ≡ s.sched)

-- One reply was sent, and unless it is a success, nothing was changed.
pub record IsAnswered (s : Server) (out : Outcome) : Type 0 where
  pub status : ℕ
  pub once : out.replies ≡ status ∷ []
  pub kept : (status ≡ 200) ⊎ IsUnchanged s out.server

-- What holds of a handler that C says what it does of.
abbrev pub Ends : Server → Option Outcome → Type 0
Ends s none = Unit
Ends s (some out) = IsAnswered s out

refused :
    {s : Server} (s' : Server) (status : ℕ) (code : Code)
    → IsUnchanged s s'
    → IsAnswered s (answer status code s')
refused s' status code u = record { status = status; once = refl; kept = inr u }

succeeded : {s : Server} (s' : Server) (code : Code) → IsAnswered s (answer 200 code s')
succeeded s' code = record { status = 200; once = refl; kept = inl refl }

module _ {ℓ} {A : Type ℓ} where
  settle-Ends :
      (s s' : Server) (c : Check A) (k : A → Option Outcome)
      → IsUnchanged s s'
      → ((a : A) → Ends s (k a))
      → Ends s (settle s' c k)
  settle-Ends s s' (pass a) k u h = h a
  settle-Ends s s' (refuse status code) k u h = refused s' status code u
  settle-Ends s s' undefined k u h = tt

pause_request-Ends :
    (hostname input : List ℕ) (s : Server) → Ends s (pause_request hostname input s)
unfolding pause_request
pause_request-Ends hostname input s = elim (Option-cases (cseq_of input)) [
  | inl e ↦ rw (e, pause_request) (refused s 400 err_noerror (refl, refl, refl))
  | inr (n, e) ↦
      rw (e, pause_request)
        (settle-Ends s (record s { cseq = n }) (pause_checks hostname input s.session) _
          (refl, refl, refl) (λ ses. succeeded _ err_noerror))
]

teardown_request-Ends : (input : List ℕ) (s : Server) → Ends s (teardown_request input s)
unfolding teardown_request
teardown_request-Ends input s = elim (Option-cases (cseq_of input)) [
  | inl e ↦ rw (e, teardown_request) (refused s 400 err_parse (refl, refl, refl))
  | inr (n, e) ↦
      rw (e, teardown_request)
        (settle-Ends s (record s { cseq = n }) (teardown_checks input s.session) _
          (refl, refl, refl) (λ found. succeeded _ err_noerror))
]

play_reply-Ends :
    (s0 s : Server) (ses : Session) (o : Option (ℕ → Stream)) → Ends s0 (play_reply s ses o)
play_reply-Ends s0 s ses none = tt
play_reply-Ends s0 s ses (some memory) = go ses.streams
  where
    go :
        (is : List ℕ)
        → Ends s0 (elim is [
          | [] ↦ none
          | i ∷ is ↦ some (answer 200 err_noerror (record s { memory = memory }))
        ])
    go [] = tt
    go (i ∷ is) = succeeded _ err_noerror

play_found-Ends :
    (m : Moment) (s0 s : Server) (args : PlayArgs) (p : Played) (ses : Session)
    → IsUnchanged s0 s
    → Ends s0 (play_found m s args p ses)
unfolding play_found
play_found-Ends m s0 s args presentation ses u = play_reply-Ends s0 s ses _
play_found-Ends m s0 s args aggregate ses u = play_reply-Ends s0 s ses _
play_found-Ends m s0 s args (stream name) ses u =
    elim (Option-cases (named_stream name s.memory ses.streams)) [
      | inl e ↦ rw (e, play_found) (refused s 454 err_noerror u)
      | inr (i, e) ↦ rw (e, play_found) (play_reply-Ends s0 s ses _)
    ]

play_request-Ends :
    (m : Moment) (range : Option PlayArgs) (input : List ℕ) (s : Server)
    → Ends s (play_request m range input s)
unfolding play_request
play_request-Ends m range input s = elim (Option-cases (cseq_of input)) [
  | inl e ↦ rw (e, play_request) (refused s 400 err_noerror (refl, refl, refl))
  | inr (n, e) ↦
      rw (e, play_request)
        (settle-Ends s (record s { cseq = n }) (play_checks range input s.session) _
          (refl, refl, refl)
          (λ found. play_found-Ends m s _ found.0 found.1 found.2 (refl, refl, refl)))
]

options_request-Ends : (input : List ℕ) (s : Server) → IsAnswered s (options_request input s)
unfolding options_request
options_request-Ends input s = elim (Option-cases (cseq_of input)) [
  | inl e ↦ rw (e, options_request) (refused s 400 err_noerror (refl, refl, refl))
  | inr (n, e) ↦ rw (e, options_request) (succeeded _ err_noerror)
]

describe_request-Ends :
    (descr : List ℕ → Code) (twin : List ℕ → Option Bool) (n max : ℕ) (input : List ℕ) (s : Server)
    → Ends s (describe_request descr twin n max input s)
unfolding describe_request
describe_request-Ends descr twin n max input s =
    settle-Ends s s (describe_checks input) _ (refl, refl, refl)
      (λ found. refused (record s { cseq = found.1 }) _ err_noerror (refl, refl, refl))

-- The handlers, and what they make of a request.
pub data Handles (input : List ℕ) (s : Server) (out : Outcome) : Type 0 where
  options : rtsp_options input s ≡ some out → Handles input s out
  describe :
      (descr : List ℕ → Code) (twin : List ℕ → Option Bool) (n max : ℕ)
      → rtsp_describe descr twin n max input s ≡ some out
      → Handles input s out
  play :
      (m : Moment) (range : Option PlayArgs)
      → rtsp_play m range input s ≡ some out
      → Handles input s out
  pause : (hostname : List ℕ) → rtsp_pause hostname input s ≡ some out → Handles input s out
  teardown : rtsp_teardown input s ≡ some out → Handles input s out

-- RTSP_options, RTSP_describe, RTSP_play, RTSP_pause and RTSP_teardown, whatever the request and
-- wherever C defines what they do, send one reply, and unless its status is 200 they leave the session,
-- all streams and the table of the scheduler as they were.
pub Handles-IsAnswered :
    {input : List ℕ} {s : Server} {out : Outcome} → Handles input s out → IsAnswered s out
unfolding rtsp_options rtsp_describe rtsp_play rtsp_pause rtsp_teardown
Handles-IsAnswered {input} {s} (options e) =
    subst (Ends s) (logged-some input _ (e)) (options_request-Ends input s)
Handles-IsAnswered {input} {s} (describe descr twin n max e) =
    subst (Ends s) (logged-some input _ e) (describe_request-Ends descr twin n max input s)
Handles-IsAnswered {input} {s} (play m range e) =
    subst (Ends s) (logged-some input _ e) (play_request-Ends m range input s)
Handles-IsAnswered {input} {s} (pause hostname e) =
    subst (Ends s) (logged-some input _ e) (pause_request-Ends hostname input s)
Handles-IsAnswered {input} {s} (teardown e) =
    subst (Ends s) (logged-some input _ e) (teardown_request-Ends input s)
