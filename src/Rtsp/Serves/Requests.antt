-- ===== src/Rtsp/Serves/Requests.antt =====
-- rtsp/: that whatever the requests, the table of the scheduler serves the streams of the session.
use mathlib.Core.Path.{subst}
use fenice_1_12_with_h.Prelude.{
  ℕ, ◌^◌, ◌<◌, ◌≡◌, refl, ap, ◌∙◌, inl, inr, Bool, true, false, List, [], ◌∷◌, Option, none, some,
  Option-cases, ◌==◌, if◌then◌else◌, get_or, update,
}
use fenice_1_12_with_h.Prelude.Codes.{Code, err_noerror}
use fenice_1_12_with_h.Schedule.{Entry, empty}
use fenice_1_12_with_h.Schedule.Timing.{Timed, PlayArgs}
use fenice_1_12_with_h.Rtsp.Check.{cseq_of}
use fenice_1_12_with_h.Rtsp.Sessions.{
  Stream, Session, Server, Outcome, answer, rtsp_pause, rtsp_teardown,
}
use fenice_1_12_with_h.Rtsp.Play.{
  Played, presentation, aggregate, stream, Moment, starts, at_entry, play_one, then_play,
  named_stream, play_all, play_checks, play_reply, play_found, play_request, rtsp_play,
}
use fenice_1_12_with_h.Rtsp.Describe.{
  describe_checks, options_request, describe_request, rtsp_options, rtsp_describe,
}
use fenice_1_12_with_h.Rtsp.Logged.{logged-some}
use fenice_1_12_with_h.Rtsp.Replies.{Handles, options, describe, play, pause, teardown}
use fenice_1_12_with_h.Rtsp.Pausing.{update_self, update_other, cases_eq}
use fenice_1_12_with_h.Rtsp.Playing.{choose_keep}
use fenice_1_12_with_h.Rtsp.Serves.{
  Serves, AllServe, settle-Serves, ServesSession-keep, Lets-trivial, pause_request-AllServe,
  teardown_request-AllServe,
}

-- What a play of streams leaves has their numbers as they were.
abbrev Keeps : (ℕ → Stream) → Option (ℕ → Stream) → Type 0
Keeps memory none = Unit
Keeps memory (some memory') = (j : ℕ) → (memory' j).sched_id ≡ (memory j).sched_id

update-sched_id :
    (memory : ℕ → Stream) (i : ℕ) (t : Timed) (j : ℕ)
    → (update memory i (record (memory i) { timed = t }) j).sched_id ≡ (memory j).sched_id
update-sched_id memory i t j = elim (cases_eq i j) [
  | inl e ↦
      subst
        (λ k. (update memory i (record (memory i) { timed = t }) k).sched_id ≡ (memory k).sched_id)
        e (ap (λ (r : Stream). r.sched_id) (update_self memory i (record (memory i) { timed = t })))
  | inr ne ↦
      ap (λ (r : Stream). r.sched_id) (update_other memory i (record (memory i) { timed = t }) j ne)
]

at_entry-Keeps :
    (table : List Entry) (id : ℕ) (change : ℕ → Timed → Timed) (memory : ℕ → Stream)
    → Keeps memory (at_entry table id change memory)
unfolding at_entry
at_entry-Keeps table id change memory = elim (Option-cases ((get_or table id empty).rtp_session)) [
  | inl e ↦ rw (e, at_entry) tt
  | inr (i, e) ↦ rw (e, at_entry) (update-sched_id memory i (change i (memory i).timed))
]

module _ (args : PlayArgs) (m : Moment) (chosen : Stream → Bool) (table : List Entry) where
  play_one-Keeps :
      (r : Stream) (memory : ℕ → Stream) → Keeps memory (play_one args m table r memory)
  unfolding play_one
  play_one-Keeps r memory =
      choose_keep args m (Keeps memory) r.timed.started r.timed.pause
        (at_entry-Keeps table r.sched_id _ memory) (λ j. refl)
        (at_entry-Keeps table r.sched_id _ memory)

  then_play-Keeps :
      (memory : ℕ → Stream) (o : Option (ℕ → Stream)) (k : (ℕ → Stream) → Option (ℕ → Stream))
      → Keeps memory o
      → ((memory' : ℕ → Stream) → Keeps memory' (k memory'))
      → Keeps memory (then_play o k)
  then_play-Keeps memory none k h f = tt
  then_play-Keeps memory (some memory') k h f = Keeps-trans (k memory') (f memory')
    where
      Keeps-trans : (o : Option (ℕ → Stream)) → Keeps memory' o → Keeps memory o
      Keeps-trans none g = tt
      Keeps-trans (some memory'') g = λ j. g j ∙ h j

  if-Keeps :
      (b : Bool) (memory : ℕ → Stream) (o : Option (ℕ → Stream))
      → Keeps memory o
      → Keeps memory (if b then o else some memory)
  if-Keeps true memory o h = h
  if-Keeps false memory o h = λ j. refl

  play_all-Keeps :
      (is : List ℕ) (memory : ℕ → Stream) → Keeps memory (play_all chosen args m table is memory)
  unfolding play_all
  play_all-Keeps [] memory = λ j. refl
  play_all-Keeps (i ∷ is) memory =
      then_play-Keeps memory _ (play_all chosen args m table is)
        (if-Keeps (chosen (memory i)) memory _ (play_one-Keeps (memory i) memory))
        (play_all-Keeps is)

play_reply-AllServe :
    (n : ℕ) (s : Server) (ses : Session) (o : Option (ℕ → Stream))
    → Serves n s
    → Keeps s.memory o
    → AllServe n (play_reply s ses o)
play_reply-AllServe n s ses none served h = tt
play_reply-AllServe n s ses (some memory) served h = go ses.streams
  where
    go :
        (is : List ℕ)
        → AllServe n (elim is [
          | [] ↦ none
          | i ∷ is ↦ some (answer 200 err_noerror (record s { memory = memory }))
        ])
    go [] = tt
    go (i ∷ is) = ServesSession-keep n s.session s.memory memory s.sched h served

play_found-AllServe :
    (n : ℕ) (m : Moment) (s : Server) (args : PlayArgs) (p : Played) (ses : Session)
    → Serves n s
    → AllServe n (play_found m s args p ses)
unfolding play_found
play_found-AllServe n m s args presentation ses served =
    play_reply-AllServe n s ses _ served
      (play_all-Keeps args m (λ r. r.priority == 1) s.sched.table ses.streams s.memory)
play_found-AllServe n m s args aggregate ses served =
    play_reply-AllServe n s ses _ served
      (play_all-Keeps args m (λ r. true) s.sched.table ses.streams s.memory)
play_found-AllServe n m s args (stream name) ses served =
    elim (Option-cases (named_stream name s.memory ses.streams)) [
      | inl e ↦ rw (e, play_found) served
      | inr (i, e) ↦
          rw (e, play_found)
            (play_reply-AllServe n s ses _ served
              (at_entry-Keeps s.sched.table (s.memory i).sched_id (starts args m) s.memory))
    ]

play_request-AllServe :
    (n : ℕ) (m : Moment) (range : Option PlayArgs) (input : List ℕ) (s : Server)
    → Serves n s
    → AllServe n (play_request m range input s)
unfolding play_request
play_request-AllServe n m range input s served = elim (Option-cases (cseq_of input)) [
  | inl e ↦ rw (e, play_request) served
  | inr (c, e) ↦
      rw (e, play_request)
        (settle-Serves (λ found. Unit {0}) n (record s { cseq = c })
          (play_checks range input s.session) _ served (Lets-trivial _)
          (λ found h.
            play_found-AllServe n m (record s { cseq = c }) found.0 found.1 found.2 served))
]

options_request-Serves :
    (n : ℕ) (input : List ℕ) (s : Server) → Serves n s → AllServe n (some (options_request input s))
unfolding options_request
options_request-Serves n input s served = elim (Option-cases (cseq_of input)) [
  | inl e ↦ rw (e, options_request) served
  | inr (c, e) ↦ rw (e, options_request) served
]

describe_request-AllServe :
    (k : ℕ) (descr : List ℕ → Code) (twin : List ℕ → Option Bool) (n max : ℕ) (input : List ℕ)
    (s : Server)
    → Serves k s
    → AllServe k (describe_request descr twin n max input s)
unfolding describe_request
describe_request-AllServe k descr twin n max input s served =
    settle-Serves (λ found. Unit {0}) k s (describe_checks input) _ served (Lets-trivial _)
      (λ found h. served)

-- Where the count of clients is right, and the streams of the session are different and have valid entries
-- in a table of `n` entries that hold them, this is so after any of the requests OPTIONS, DESCRIBE,
-- PLAY, PAUSE and TEARDOWN, whatever it says and whether it is refused or not.
pub Handles-Serves :
    {n : ℕ} {input : List ℕ} {s : Server} {out : Outcome}
    → n < 2 ^ 64
    → Handles input s out
    → Serves n s
    → Serves n out.server
unfolding rtsp_options rtsp_describe rtsp_play rtsp_pause rtsp_teardown
Handles-Serves {n} {input} {s} small (options e) served =
    subst (AllServe n) (logged-some input _ e) (options_request-Serves n input s served)
Handles-Serves {n} {input} {s} small (describe descr twin k max e) served =
    subst (AllServe n) (logged-some input _ e)
      (describe_request-AllServe n descr twin k max input s served)
Handles-Serves {n} {input} {s} small (play m range e) served =
    subst (AllServe n) (logged-some input _ e) (play_request-AllServe n m range input s served)
Handles-Serves {n} {input} {s} small (pause hostname e) served =
    subst (AllServe n) (logged-some input _ e) (pause_request-AllServe n hostname input s served)
Handles-Serves {n} {input} {s} small (teardown e) served =
    subst (AllServe n) (logged-some input _ e) (teardown_request-AllServe n input s small served)
