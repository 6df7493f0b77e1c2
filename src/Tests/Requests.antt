-- ===== src/Tests/Requests.antt =====
-- The requests of rtsp/ at concrete inputs.
use Prim.Native.String.{String, [], ◌∷◌}
use fenice_1_12_with_h.Prelude.{
  List, Option, Bool, ℕ, ◌≡◌, ◌≢◌, refl, true, false, [], ◌∷◌, some, none, if◌then◌else◌, ◌==◌,
  arith,
}
use fenice_1_12_with_h.Prelude.Codes.{Code, err_noerror, err_not_found}
use fenice_1_12_with_h.Schedule.{Entry, empty, schedule_remove}
use fenice_1_12_with_h.Schedule.Timing.{Timed, PlayArgs}
use fenice_1_12_with_h.Schedule.Pace.{passes}
use fenice_1_12_with_h.Rtsp.Text.{
  text, has, strstr, strchr, strrchr, span, skip, strtok, scan_word, digits, atol, scan_number,
}
use fenice_1_12_with_h.Rtsp.Url.{
  url_error, url_ok, has_port, behind_server, with_file, with_port, parse_server, parse_url,
  is_supported_url,
}
use fenice_1_12_with_h.Rtsp.Url.Printed.{print_url, port_value, parse_url-print}
use fenice_1_12_with_h.Rtsp.Url.Fits.{parse_url-ne-url_error}
use fenice_1_12_with_h.Rtsp.Check.{
  pass, header_number, cseq_of, request_url, checked_url, checked_path, checked_extension,
  requested_file, session_of,
}
use fenice_1_12_with_h.Rtsp.Sessions.{
  Stream, Session, Server, Outcome, checked_session, set_pause, pause_checks, rtsp_pause,
  remove_named, teardown_checks, teardown_request, rtsp_teardown, has_agent, logged,
}
use fenice_1_12_with_h.Rtsp.Play.{aggregate, Moment}
use fenice_1_12_with_h.Rtsp.Describe.{rtsp_describe, options_request, rtsp_options}
use fenice_1_12_with_h.Rtsp.Replies.{teardown, IsAnswered, Handles-IsAnswered}
use fenice_1_12_with_h.Rtsp.Paths.{IsSafe, rtsp_describe-IsSafe}
use fenice_1_12_with_h.Rtsp.Served.{IsServed}
use fenice_1_12_with_h.Rtsp.Teardown.{IsTorn, streams_of, rtsp_teardown-IsTorn}
use fenice_1_12_with_h.Rtsp.Pausing.{changed, rtsp_pause-silent}
use fenice_1_12_with_h.Rtsp.Playing.Runs.{Runs}
use fenice_1_12_with_h.Rtsp.Serves.{Serves}
use fenice_1_12_with_h.Rtsp.Serves.Requests.{Handles-Serves}

parse_url-print_example :
    parse_url 255 255 (print_url (text "host") (some (text "8554")) (text "a.sd"))
    ≡ url_ok (record {
      server = text "host";
      port = some (port_value (some (text "8554")));
      file_name = text "a.sd";
    })
unfolding digits
parse_url-print_example =
    parse_url-print 255 255 (text "host") (some (text "8554")) (text "a.sd")
      ((refl, (refl, (refl, (refl, tt)))), omega arith) (refl, (refl, (refl, (refl, tt))))
      ((refl, (refl, (refl, (refl, tt)))), omega arith)

parse_url-ne-url_error_example : parse_url 255 255 (text "rtsp://host/a.sd") ≢ url_error
parse_url-ne-url_error_example =
    parse_url-ne-url_error 255 255 (text "rtsp://host/a.sd") (omega arith) (omega arith)

-- Without digits between the colon and the slash, the file name is taken for the port.
no_digits :
    parse_url 255 255 (text "rtsp://host:/a.sd")
    ≡ url_ok (record { server = text "host"; port = some 0; file_name = [] })
unfolding parse_url parse_server has_port behind_server with_port with_file strtok skip span atol
    digits
no_digits = refl

abbrev idle : Timed
idle = record {
  pause = true;
  started = false;
  mprev_tx_time = 0;
  minimum_reached = 0;
  maximum_reached = 0;
  previous_count = 0;
  rr_received = 0;
  sr_received = 0;
  mstart = 0;
  mtime = 0;
  mstart_offset = 0;
  play_offset = 0;
  pkt_len = 20;
  live = false;
}

abbrev song : ℕ → Stream
song i = record {
  timed = idle;
  sched_id = if i == 7 then 0 else 1;
  filename = if i == 7 then text "a.mp3" else text "b.mp3";
  aggregate = text "two.sd";
  priority = 1;
}

abbrev entry : ℕ → Entry
entry i = record { valid = true; rtp_session = some i; plays = true }

abbrev two_songs : Session
two_songs = record { session_id = 5; streams = 7 ∷ 8 ∷ [] }

abbrev jukebox : Server
jukebox = record {
  cseq = 0;
  session = some two_songs;
  memory = song;
  sched = record { table = entry 7 ∷ entry 8 ∷ empty ∷ []; client_count = 2 };
}

two_songs-IsServed : IsServed 3 song (7 ∷ 8 ∷ []) jukebox.sched
two_songs-IsServed = record {
  counted = record { size = refl; counted = refl };
  entries = (
    record { in_range = omega arith; valid_is = refl; holds = refl },
    (record { in_range = omega arith; valid_is = refl; holds = refl }, tt),
  );
  distinct = (((λ e. ground (arith, e)), tt), (tt, tt));
}

abbrev ask : String → List ℕ
ask s = text s

abbrev end_of_a : List ℕ
end_of_a = ask "TEARDOWN rtsp://host/two.sd!a.mp3 RTSP/1.0\r\nCSeq: 9\r\nSession: 5\r\n\r\n"

end_of_a_plain : has_agent end_of_a ≡ false
unfolding strstr
end_of_a_plain = refl

nine : cseq_of end_of_a ≡ some 9
unfolding cseq_of header_number strstr scan_word scan_number span skip digits
nine = refl

end_of_a_checks : teardown_checks end_of_a (some two_songs) ≡ pass (text "a.mp3", two_songs)
unfolding teardown_checks requested_file request_url checked_url checked_path checked_extension
    session_of checked_session header_number strstr strchr strrchr scan_word scan_number span skip
    digits parse_url parse_server has_port behind_server with_port with_file strtok is_supported_url
end_of_a_checks = refl

rtsp_teardown-IsTorn_example :
    (out : Outcome) × (rtsp_teardown end_of_a jukebox ≡ some out)
    × (out.replies ≡ 200 ∷ [])
    × IsTorn 3 (text "a.mp3") song (7 ∷ 8 ∷ []) (streams_of out.server.session) out.server.sched
    × (out.server.memory ≡ song)
rtsp_teardown-IsTorn_example =
    rtsp_teardown-IsTorn 3 9 end_of_a (text "a.mp3") two_songs jukebox (omega arith) end_of_a_plain
      nine end_of_a_checks two_songs-IsServed

abbrev torn : Outcome
torn = record {
  code = err_noerror;
  replies = 200 ∷ [];
  server = record jukebox {
    cseq = 9;
    session = some (record { session_id = 5; streams = 8 ∷ [] });
    sched = record {
      table = record (entry 7) { valid = false } ∷ entry 8 ∷ empty ∷ [];
      client_count = 1;
    };
  };
}

tears : rtsp_teardown end_of_a jukebox ≡ some torn
unfolding rtsp_teardown logged teardown_request cseq_of teardown_checks requested_file request_url
    checked_url checked_path checked_extension session_of checked_session header_number strstr
    strchr strrchr scan_word scan_number span skip digits parse_url parse_server has_port
    behind_server with_port with_file strtok is_supported_url remove_named schedule_remove
tears = refl

-- With the header, C says nothing of what becomes of the request.
with_agent :
    rtsp_options (ask "OPTIONS * RTSP/1.0\r\nCSeq: 9\r\nUser-Agent: a\r\n\r\n") jukebox ≡ none
unfolding rtsp_options options_request logged cseq_of header_number strstr scan_word scan_number
    span skip digits
with_agent = refl

Handles-IsAnswered_example : IsAnswered jukebox torn
Handles-IsAnswered_example = Handles-IsAnswered (teardown tears)

Handles-Serves_example : Serves 3 torn.server
Handles-Serves_example =
    Handles-Serves {n = 3} {input = end_of_a} {s = jukebox} {out = torn} (omega arith)
      (teardown tears) two_songs-IsServed

abbrev pause_both : List ℕ
pause_both = ask "PAUSE rtsp://host/two.sd RTSP/1.0\r\nCSeq: 9\r\nSession: 5\r\n\r\n"

pause_both_plain : has_agent pause_both ≡ false
unfolding strstr
pause_both_plain = refl

nine_again : cseq_of pause_both ≡ some 9
unfolding cseq_of header_number strstr scan_word scan_number span skip digits
nine_again = refl

pause_both_checks : pause_checks (text "host") pause_both (some two_songs) ≡ pass two_songs
unfolding pause_checks request_url checked_url checked_path checked_extension session_of
    checked_session header_number strstr strchr strrchr scan_word scan_number span skip digits
    parse_url parse_server has_port behind_server with_port with_file strtok is_supported_url
pause_both_checks = refl

rtsp_pause-silent_example :
    (out : Outcome) × (rtsp_pause (text "host") pause_both jukebox ≡ some out)
    × (out.replies ≡ 200 ∷ [])
    × ((j : ℕ) → out.server.memory j ≡ changed set_pause (7 ∷ 8 ∷ []) song j)
    × ((j : ℕ) (act : Timed → Code × Timed) (ts : List ℕ)
        → has j (7 ∷ 8 ∷ []) ≡ true
        → (passes act ts (out.server.memory j).timed).0 ≡ [])
rtsp_pause-silent_example =
    rtsp_pause-silent 9 (text "host") pause_both two_songs jukebox pause_both_plain nine_again
      pause_both_checks

-- `two.sd!two` is an aggregate, since ".sd!two" is no extension that is supported.
abbrev play_both : List ℕ
play_both = ask "PLAY rtsp://host/two.sd!two RTSP/1.0\r\nCSeq: 9\r\nSession: 5\r\n\r\n"

abbrev from_start : PlayArgs
from_start = record { start_time = 0; start_time_valid = false; playback_time = none }

abbrev noon : Moment
noon = record { now = 43200000; refs = λ i. 1 }

-- Two file systems that differ only at paths without an extension.
abbrev secrets : Code → List ℕ → Code
secrets code object = elim (strrchr b'.' object) [ none ↦ code | some p ↦ err_noerror ]

abbrev twin : List ℕ → Option Bool
twin object = none

same_inside :
    (object : List ℕ) → IsSafe object → secrets err_noerror object ≡ secrets err_not_found object
same_inside object safe = rw (safe.ends, secrets) refl

rtsp_describe-IsSafe_example :
    rtsp_describe (secrets err_noerror) twin 1 9 end_of_a jukebox
    ≡ rtsp_describe (secrets err_not_found) twin 1 9 end_of_a jukebox
rtsp_describe-IsSafe_example =
    rtsp_describe-IsSafe (secrets err_noerror) (secrets err_not_found) twin twin 1 9 end_of_a
      jukebox same_inside (λ object safe. refl)
