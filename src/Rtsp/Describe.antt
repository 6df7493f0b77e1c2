-- ===== src/Rtsp/Describe.antt =====
-- rtsp/RTSP_options.c, RTSP_describe.c, send_redirect_3xx.c and max_connection.c: the requests that
-- change no stream.
use fenice_1_12_with_h.Prelude.{
  ℕ, Bool, true, false, not, ◌||◌, List, Option, none, some, leb, if◌then◌else◌,
}
use fenice_1_12_with_h.Prelude.Codes.{
  Code, err_noerror, err_generic, err_parse, err_not_found, err_alloc,
}
use fenice_1_12_with_h.Rtsp.Text.{text, strstr}
use fenice_1_12_with_h.Rtsp.Check.{
  Check, pass, ◌>>=◌, require, or_refuse, is_none, cseq_of, requested_file,
}
use fenice_1_12_with_h.Rtsp.Sessions.{Server, Outcome, answer, settle, logged}

-- RTSP_options but for the block behind its reply, and with it.
unfoldable pub options_request : List ℕ → Server → Outcome
options_request input s = elim (cseq_of input) [
  | none ↦ answer 400 err_noerror s
  | some n ↦ answer 200 err_noerror (record s { cseq = n })
]

unfoldable pub rtsp_options : List ℕ → Server → Option Outcome
rtsp_options input s = logged input (some (options_request input s))

-- RTSP_describe: its checks of the headers, with the CSeq.
unfoldable pub describe_headers : List ℕ → Check ℕ
describe_headers input = do
  _ ← require (is_none (strstr (text "Require") input)) 551 err_noerror
  _ ←
      require
        (is_none (strstr (text "Accept") input)
          || not (is_none (strstr (text "application/sdp") input)))
        551 err_noerror
  or_refuse (cseq_of input) 400 err_noerror

-- All of its checks, with the path that it passes to get_media_descr.
unfoldable pub describe_checks : List ℕ → Check (List ℕ × ℕ)
describe_checks input = do
  object ← requested_file err_noerror input
  n ← describe_headers input
  pass (object, n)

-- The status that send_redirect_3xx sends: `twin` is `none` where enum_media fails, and else says whether
-- the presentation has a twin.
unfoldable pub send_redirect_3xx : Option Bool → ℕ
send_redirect_3xx none = 500
send_redirect_3xx (some false) = 453
send_redirect_3xx (some true) = 302

-- max_connection, for the limit of the configuration
unfoldable pub max_connection : ℕ → ℕ → Code
max_connection num_conn max_session = if leb num_conn max_session then err_noerror else err_generic

-- The status of the reply to what get_media_descr returned, where max_connection returned `room`.
unfoldable pub described : Code → Code → Option Bool → ℕ
described err_not_found room twin = 404
described err_parse room twin = 500
described err_generic room twin = 500
described err_alloc room twin = 500
described code err_generic twin = send_redirect_3xx twin
described code room twin = 200

-- RTSP_describe but for that block; what get_media_descr and enum_media find at a path are arguments, and `num_conn` is the
-- number of connections.
unfoldable pub describe_request :
    (List ℕ → Code) → (List ℕ → Option Bool) → ℕ → ℕ → List ℕ → Server → Option Outcome
describe_request get_media_descr twin num_conn max_session input s =
    settle s (describe_checks input) (λ found.
      let room = max_connection num_conn max_session in
      let status = described (get_media_descr found.0) room (twin found.0) in
      some (answer status err_noerror (record s { cseq = found.1 })))

unfoldable pub rtsp_describe :
    (List ℕ → Code) → (List ℕ → Option Bool) → ℕ → ℕ → List ℕ → Server → Option Outcome
rtsp_describe get_media_descr twin num_conn max_session input s =
    logged input (describe_request get_media_descr twin num_conn max_session input s)
