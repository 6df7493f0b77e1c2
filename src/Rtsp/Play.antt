-- ===== src/Rtsp/Play.antt =====
-- rtsp/RTSP_play.c: its checks, and which streams it starts or resumes.
use Prim.Native.String.{[], ◌∷◌}
use fenice_1_12_with_h.Prelude.{
  ℕ, Bool, true, not, List, [], ◌∷◌, Option, none, some, get_or, update, ◌==◌, if◌then◌else◌,
}
use fenice_1_12_with_h.Prelude.Codes.{err_noerror}
use fenice_1_12_with_h.Schedule.{Entry, empty}
use fenice_1_12_with_h.Schedule.Timing.{Timed, PlayArgs, schedule_start, schedule_resume}
use fenice_1_12_with_h.Rtsp.Text.{same, strchr, strrchr, behind_first}
use fenice_1_12_with_h.Rtsp.Url.{is_supported_url}
use fenice_1_12_with_h.Rtsp.Check.{
  Check, pass, refuse, ◌>>=◌, or_refuse, cseq_of, request_url, checked_url, checked_path,
  session_of,
}
use fenice_1_12_with_h.Rtsp.Sessions.{
  Stream, Session, Server, Outcome, answer, settle, logged, checked_session,
}

-- What RTSP_play plays: a presentation, one stream of it, or an aggregate.
pub data Played : Type 0 where
  presentation aggregate : Played
  stream : List ℕ → Played

abbrev pub played_of : List ℕ → List ℕ → Played
played_of object p = elim (strchr b'!' object) [
  | none ↦ presentation
  | some q ↦ if is_supported_url p then stream (behind_first q) else aggregate
]

-- The checks of RTSP_play, where `range` is what it makes of HDR_RANGE: `none` is a bad request.
unfoldable pub play_checks :
    Option PlayArgs → List ℕ → Option Session → Check (PlayArgs × Played × Session)
play_checks range input session = do
  args ← or_refuse range 400 err_noerror
  id ← session_of err_noerror (refuse 400 err_noerror) input
  url ← request_url input
  u ← checked_url err_noerror url
  _ ← checked_path err_noerror u.file_name
  p ← or_refuse (strrchr b'.' u.file_name) 415 err_noerror
  ses ← checked_session err_noerror id session
  pass (args, played_of u.file_name p, ses)

-- The time of the call, and for each stream the consumers that its buffer has once it is started.
pub record Moment : Type 0 where
  pub now : ℕ
  pub refs : ℕ → ℕ

-- `change` on the session that the table holds at `id`; `none` where it holds none.
unfoldable pub at_entry : List Entry → ℕ → (ℕ → Timed → Timed) → (ℕ → Stream) → Option (ℕ → Stream)
at_entry table id change memory = elim ((get_or table id empty).rtp_session) [
  | none ↦ none
  | some i ↦ some (update memory i (record (memory i) { timed = change i (memory i).timed }))
]

abbrev pub starts : PlayArgs → Moment → ℕ → Timed → Timed
starts args m i s = schedule_start args m.now (m.refs i) s

-- A stream is started, resumed, or left to play on.
unfoldable pub play_one :
    PlayArgs → Moment → List Entry → Stream → (ℕ → Stream) → Option (ℕ → Stream)
play_one args m table r memory =
    if not r.timed.started
    then at_entry table r.sched_id (starts args m) memory
    else if not r.timed.pause
    then some memory
    else at_entry table r.sched_id (λ i. schedule_resume args m.now) memory

abbrev pub then_play {ℓ} : {A : Type ℓ} → Option A → (A → Option A) → Option A
then_play none k = none
then_play (some a) k = k a

-- The loops over the streams: those of a presentation with priority 1, or all of an aggregate.
unfoldable pub play_all :
    (Stream → Bool) → PlayArgs → Moment → List Entry → List ℕ → (ℕ → Stream) → Option (ℕ → Stream)
play_all chosen args m table [] memory = some memory
play_all chosen args m table (i ∷ is) memory =
    then_play (if chosen (memory i) then play_one args m table (memory i) memory else some memory)
      (play_all chosen args m table is)

-- The search for a stream by its file name.
unfoldable pub named_stream : List ℕ → (ℕ → Stream) → List ℕ → Option ℕ
named_stream name memory [] = none
named_stream name memory (i ∷ is) =
    let rest = named_stream name memory is in if same (memory i).filename name then some i else rest

-- The reply to a request that played; send_play_reply reads a first stream of the list.
abbrev pub play_reply : Server → Session → Option (ℕ → Stream) → Option Outcome
play_reply s ses none = none
play_reply s ses (some memory) = elim ses.streams [
  | [] ↦ none
  | i ∷ is ↦ some (answer 200 err_noerror (record s { memory = memory }))
]

unfoldable pub play_found : Moment → Server → PlayArgs → Played → Session → Option Outcome
play_found m s args presentation ses =
    play_reply s ses (play_all (λ r. r.priority == 1) args m s.sched.table ses.streams s.memory)
play_found m s args aggregate ses =
    play_reply s ses (play_all (λ r. true) args m s.sched.table ses.streams s.memory)
play_found m s args (stream name) ses = elim (named_stream name s.memory ses.streams) [
  | none ↦ some (answer 454 err_noerror s)
  | some i ↦
      play_reply s ses (at_entry s.sched.table (s.memory i).sched_id (starts args m) s.memory)
]

-- RTSP_play but for the block behind its reply.
unfoldable pub play_request : Moment → Option PlayArgs → List ℕ → Server → Option Outcome
play_request m range input s = elim (cseq_of input) [
  | none ↦ some (answer 400 err_noerror s)
  | some n ↦
      let s' = record s { cseq = n } in
      settle s' (play_checks range input s.session)
        (λ found. play_found m s' found.0 found.1 found.2)
]

unfoldable pub rtsp_play : Moment → Option PlayArgs → List ℕ → Server → Option Outcome
rtsp_play m range input s = logged input (play_request m range input s)
