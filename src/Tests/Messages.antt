-- ===== src/Tests/Messages.antt =====
-- The input of a connection at concrete requests.
use Prim.Native.Char.{code}
use Prim.Native.String.{String}
use fenice_1_12_with_h.Prelude.{ℕ, ◌≡◌, refl, true, List, [], ◌∷◌, ◌++◌, some, map, length, get_or}
use fenice_1_12_with_h.Rtsp.Buffer.{RtspBuffer}
use fenice_1_12_with_h.Rtsp.Message.{
  method_rcvd, not_full, strcspn, terminators, starts_with, skip_colons, scan_int, trailing_nuls,
  line_end, lines, full_msg_rcvd,
}
use fenice_1_12_with_h.Rtsp.Request.{print}
use fenice_1_12_with_h.Rtsp.Method.{
  Verdict, request, response, overflow, malformed, unknown_method, verdict, rtsp_valid_response_msg,
  rtsp_validate_method, response_from, verdict_from, request_of, five, with_method, with_object,
  with_version, with_header, digits_rest, scan_unsigned,
}
use fenice_1_12_with_h.Rtsp.Text.{skip, span, scan_word, strstr}
use fenice_1_12_with_h.Rtsp.Waiting.{Request}

abbrev codes : String → List ℕ
codes String.[] = []
codes (String.◌∷◌ c s) = code c ∷ codes s

abbrev input : List ℕ → RtspBuffer
input xs = record {
  in_buffer = λ i. get_or xs i 0;
  in_size = length xs;
  out_buffer = λ i. 0;
  out_size = 0;
  out_sent = 0;
  is_tcp = true;
}

abbrev play : Request
play = record {
  command = record {
    method = codes "PLAY";
    object = codes "a";
    version = codes "RTSP/1.0";
    cseq = codes "3";
  };
  others = codes "Session: 17" ∷ [];
}

-- A method that there is not.
abbrev get : Request
get = record {
  command = record {
    method = codes "GET";
    object = codes "a";
    version = codes "RTSP/1.0";
    cseq = codes "41";
  };
  others = [];
}

-- PLAY is longer than what waits behind it, and so is GET.
abbrev both : List Request
both = play ∷ get ∷ []

half : full_msg_rcvd 11 (input (codes "PLAY a RT")) ≡ some not_full
unfolding full_msg_rcvd lines line_end strcspn terminators
half = refl

-- A request with a body, and one whose last byte is still missing.
with_body :
    full_msg_rcvd 9
      (input (print (codes "SET_PARAMETER a" ∷ codes "Content-Length: 3" ∷ []) ++ codes "abc"))
    ≡ some (method_rcvd 38 3)
unfolding full_msg_rcvd lines line_end strcspn terminators starts_with skip_colons scan_int
    trailing_nuls
with_body = refl

last_byte_missing :
    full_msg_rcvd 9 (input (codes "PLAY a RTSP/1.0" ++ (13 ∷ 10 ∷ 13 ∷ [])))
    ≡ some (method_rcvd 18 0)
unfolding full_msg_rcvd lines line_end strcspn terminators trailing_nuls
last_byte_missing = refl

-- A packet of six bytes, of which the header and four are there.
abbrev packet : List ℕ
packet = b'$' ∷ 1 ∷ 0 ∷ 6 ∷ 128 ∷ 200 ∷ 0 ∷ 0 ∷ []

-- What texts are taken for: a request, a method that there is not, no request, and a reply, of "RTCP"
-- only. A third word of 15 bytes behind a number overflows `trash`.
abbrev verdicts : List (List ℕ)
verdicts =
    print (codes "PLAY a RTSP/1.0" ∷ codes "CSeq: 3" ∷ [])
    ∷ print (codes "GET a RTSP/1.0" ∷ codes "CSeq: 3" ∷ [])
    ∷ print (codes "PLAY a RTSP/1.0" ∷ codes "Session: 3" ∷ [])
    ∷ print (codes "RTSP/1.0 200 OK" ∷ codes "CSeq: 3" ∷ [])
    ∷ print (codes "RTCP/1.0 200 OK" ∷ codes "CSeq: 3" ∷ [])
    ∷ print (codes "PLAY 1 abcdefghijklmno" ∷ codes "CSeq: 3" ∷ [])
    ∷ []

verdicts_lem :
    map verdict verdicts
    ≡ request 5 3 ∷ unknown_method 3 ∷ malformed ∷ unknown_method 3 ∷ response ∷ overflow ∷ []
unfolding verdict verdict_from rtsp_valid_response_msg response_from rtsp_validate_method request_of
    five with_method with_object with_version with_header digits_rest scan_unsigned skip span
    scan_word strstr
verdicts_lem = refl

-- Each method of utils.h goes to the state machine with its RTSP_ID_.
abbrev with_method_name : List ℕ → Verdict
unfolding verdict
with_method_name name = verdict (name ++ print (codes " a RTSP/1.0" ∷ codes "CSeq: 9" ∷ []))

methods_lem :
    map with_method_name (
      codes "DESCRIBE"
      ∷ codes "ANNOUNCE"
      ∷ codes "GET_PARAMETERS"
      ∷ codes "OPTIONS"
      ∷ codes "PAUSE"
      ∷ codes "PLAY"
      ∷ codes "RECORD"
      ∷ codes "REDIRECT"
      ∷ codes "SETUP"
      ∷ codes "SET_PARAMETER"
      ∷ codes "TEARDOWN"
      ∷ [])
    ≡ map (λ i. request i 9) (0 ∷ 1 ∷ 2 ∷ 3 ∷ 4 ∷ 5 ∷ 6 ∷ 7 ∷ 8 ∷ 9 ∷ 10 ∷ [])
unfolding with_method_name verdict verdict_from rtsp_valid_response_msg response_from
    rtsp_validate_method request_of five with_method with_object with_version with_header
    digits_rest scan_unsigned skip span scan_word strstr
methods_lem = refl
