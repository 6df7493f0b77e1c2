-- ===== src/Rtsp/Sessions.antt =====
-- rtsp/RTSP_pause.c and RTSP_teardown.c, and the state that the handlers of requests share.
-- What is logged, and the texts of the replies, are left out.
use Prim.Native.String.{[], ◌∷◌}
use fenice_1_12_with_h.Prelude.{
  ℕ, Bool, true, false, not, ◌&&◌, ◌||◌, List, [], ◌∷◌, Option, none, some, update, ◌==◌,
  if◌then◌else◌,
}
use fenice_1_12_with_h.Prelude.Codes.{Code, err_noerror, err_generic, err_parse}
use fenice_1_12_with_h.Schedule.{Sched, schedule_remove}
use fenice_1_12_with_h.Schedule.Timing.{Timed}
use fenice_1_12_with_h.Rtsp.Text.{text, same, strstr, strchr, behind_first, Token, strtok}
use fenice_1_12_with_h.Rtsp.Check.{
  Check, is_none, pass, refuse, undefined, ◌>>=◌, require, or_refuse, cseq_of, request_url,
  checked_url, checked_path, checked_extension, requested_file, session_of, no_session,
}

-- RTP_session, with the fields of its medium that requests name it by.
pub record Stream : Type 0 where
  pub timed : Timed
  pub sched_id : ℕ
  pub filename : List ℕ
  pub aggregate : List ℕ
  pub priority : ℕ

-- RTSP_session: its number, as 64 bits, and the addresses of the sessions in its list.
pub record Session : Type 0 where
  pub session_id : ℕ
  pub streams : List ℕ

-- The fields of the connection that the handlers use, the RTP sessions in memory, and the table of the
-- scheduler.
pub record Server : Type 0 where
  pub cseq : ℕ
  pub session : Option Session
  pub memory : ℕ → Stream
  pub sched : Sched

-- What a handler leaves: the status of each reply that it sent, 200 for those that succeed, and the
-- code that it returns.
pub record Outcome : Type 0 where
  pub code : Code
  pub replies : List ℕ
  pub server : Server

abbrev pub answer : ℕ → Code → Server → Outcome
answer status code s = record { code = code; replies = status ∷ []; server = s }

-- A handler behind its checks; `none` where C says nothing of what it does.
abbrev pub settle {ℓ} : {A : Type ℓ} → Server → Check A → (A → Option Outcome) → Option Outcome
settle s (pass a) k = k a
settle s (refuse status code) k = some (answer status code s)
settle s undefined k = none

-- The block for HDR_USER_AGENT that in each handler follows the reply of a success. Where the header is
-- present, it copies the text from there on with its NUL into an array that is one byte shorter, behind
-- whose end C says nothing of what it does.
abbrev pub has_agent : List ℕ → Bool
has_agent input = not (is_none (strstr (text "User-Agent") input))

abbrev pub is_success : List ℕ → Bool
is_success [] = false
is_success (status ∷ _) = status == 200

unfoldable pub logged : List ℕ → Option Outcome → Option Outcome
logged input none = none
logged input (some out) = if has_agent input && is_success out.replies then none else some out

-- The session of the connection, which must have the number `id`.
unfoldable pub checked_session : Code → ℕ → Option Session → Check Session
checked_session code id session = do
  ses ← or_refuse session 415 err_generic
  _ ← require (ses.session_id == id) 454 code
  pass ses

-- `strtok(object, "!")`, which strrchr reads even where it is NULL
abbrev pub first_token : List ℕ → Check Token
first_token object = elim (strtok (text "!") object) [ none ↦ undefined | some t ↦ pass t ]

-- RTSP_pause: its checks, and its loop.
unfoldable pub pause_checks : List ℕ → List ℕ → Option Session → Check Session
pause_checks hostname input session = do
  url ← request_url input
  u ← checked_url err_noerror url
  _ ← require (same u.server hostname) 404 err_noerror
  _ ← checked_path err_noerror u.file_name
  t ← first_token u.file_name
  _ ← checked_extension err_noerror t.token
  id ← session_of err_noerror (pass no_session) input
  checked_session err_noerror id session

abbrev pub set_pause : Stream → Stream
set_pause r = record r { timed = record r.timed { pause = true } }

unfoldable pub pause_all : List ℕ → (ℕ → Stream) → ℕ → Stream
pause_all [] memory = memory
pause_all (i ∷ is) memory = pause_all is (update memory i (set_pause (memory i)))

-- RTSP_pause but for the block behind its reply.
unfoldable pub pause_request : List ℕ → List ℕ → Server → Option Outcome
pause_request hostname input s = elim (cseq_of input) [
  | none ↦ some (answer 400 err_noerror s)
  | some n ↦
      let s' = record s { cseq = n } in
      settle s' (pause_checks hostname input s.session) (λ ses.
        some (answer 200 err_noerror (record s' { memory = pause_all ses.streams s.memory })))
]

unfoldable pub rtsp_pause : List ℕ → List ℕ → Server → Option Outcome
rtsp_pause hostname input s = logged input (pause_request hostname input s)

-- RTSP_teardown: its checks, with the name of what is to be torn down.
unfoldable pub teardown_checks : List ℕ → Option Session → Check (List ℕ × Session)
teardown_checks input session = do
  object ← requested_file err_parse input
  id ← session_of err_parse (pass no_session) input
  ses ← checked_session err_parse id session
  pass (elim (strchr b'!' object) [ none ↦ object | some p ↦ behind_first p ], ses)

abbrev pub is_named : List ℕ → Stream → Bool
is_named name r = same r.filename name || same r.aggregate name

-- The loop over the streams: those that stay in the list, and the table without the others.
unfoldable pub remove_named : List ℕ → (ℕ → Stream) → List ℕ → Sched → List ℕ × Sched
remove_named name memory [] k = ([], k)
remove_named name memory (i ∷ is) k =
    let gone = is_named name (memory i) in
    let (kept, k') =
      remove_named name memory is (if gone then schedule_remove (memory i).sched_id k else k) in
    (if gone then kept else i ∷ kept, k')

-- The session with the streams that stay; without any it is freed.
abbrev pub shrink : Session → List ℕ → Option Session
shrink ses [] = none
shrink ses (i ∷ is) = some (record ses { streams = i ∷ is })

abbrev pub torn_down : Server → List ℕ × Session → Server
torn_down s (name, ses) =
    let (kept, k) = remove_named name s.memory ses.streams s.sched in
    record s { session = shrink ses kept; sched = k }

-- RTSP_teardown but for that block, which stands before the loop.
unfoldable pub teardown_request : List ℕ → Server → Option Outcome
teardown_request input s = elim (cseq_of input) [
  | none ↦ some (answer 400 err_parse s)
  | some n ↦
      let s' = record s { cseq = n } in
      settle s' (teardown_checks input s.session)
        (λ found. some (answer 200 err_noerror (torn_down s' found)))
]

unfoldable pub rtsp_teardown : List ℕ → Server → Option Outcome
rtsp_teardown input s = logged input (teardown_request input s)
