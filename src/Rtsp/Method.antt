-- ===== src/Rtsp/Method.antt =====
-- rtsp/RTSP_valid_response_msg.c and RTSP_validate_method.c: what RTSP_handler takes a text for, before
-- it gives it to RTSP_state_machine.
use Prim.Native.Nat.{min}
use fenice_1_12_with_h.Prelude.{
  ℕ, zero, suc, ◌+◌, ◌-◌, ◌*◌, ◌%◌, ◌^◌, Bool, true, false, List, [], ◌∷◌, Option, none, some, take,
  ltb, ◌&&◌, ◌==◌, length, if◌then◌else◌,
}
use fenice_1_12_with_h.Rtsp.Text.{
  text, same, same_letters, strstr, skip, spaces, scan_word, is_digit, is_number,
}

-- A text is taken for the reply to a request of the server; or it is a request with a method of
-- utils.h and a CSeq, which goes to the state machine; or it gets the reply 400: with the CSeq of the
-- text if it is a request with another method, and with the one before if it is none. `overflow`
-- stands for undefined behaviour: a word that does not fit `trash`.
pub data Verdict : Type 0 where
  response : Verdict
  request : ℕ → ℕ → Verdict
  unknown_method : ℕ → Verdict
  malformed : Verdict
  overflow : Verdict

abbrev pub is_overflow : Verdict → Bool
is_overflow overflow = true
is_overflow _ = false

-- The text in the first `n` bytes, up to a NUL.
unfoldable pub c_string : ℕ → (ℕ → ℕ) → ℕ → List ℕ
c_string zero buf at = []
c_string (suc n) buf at =
    let rest = c_string n buf (at + 1) in if buf at == 0 then [] else buf at ∷ rest

-- The value of the digits at the start, and what follows them.
unfoldable pub digits_rest : ℕ → List ℕ → ℕ × List ℕ
digits_rest n [] = (n, [])
digits_rest n (x ∷ xs) = elim (is_digit x) [
  | true ↦ digits_rest (n * 10 + (x - 48)) xs
  | false ↦ (n, x ∷ xs)
]

-- The value as strtoul of glibc has it, which stops at the end of an `unsigned long` of 64 bits and
-- negates it behind a minus, cut to 32 bits.
abbrev pub unsigned : Bool → ℕ × List ℕ → ℕ × List ℕ
unsigned minus (value, rest) =
    let cut = min value (2 ^ 64 - 1) % 2 ^ 32 in
    (if minus && ltb value (2 ^ 64) then (2 ^ 32 - cut) % 2 ^ 32 else cut, rest)

abbrev pub unsigned_of : List ℕ → ℕ × List ℕ
unsigned_of [] = (0, [])
unsigned_of (x ∷ xs) =
    if x == 45
    then unsigned true (digits_rest 0 xs)
    else if x == 43
    then unsigned false (digits_rest 0 xs)
    else unsigned false (digits_rest 0 (x ∷ xs))

abbrev pub unsigned_in : List ℕ → Option (ℕ × List ℕ)
unsigned_in found = if is_number found then some (unsigned_of found) else none

-- sscanf with "%u"
unfoldable pub scan_unsigned : List ℕ → Option (ℕ × List ℕ)
unfolding skip digits_rest
scan_unsigned s = unsigned_in (skip spaces s).1

-- sscanf with "%s" into `trash[15]`: whether the word fits with its NUL, and what follows it.
abbrev pub fits_trash : List ℕ → Bool × List ℕ
unfolding scan_word
fits_trash s = elim (scan_word (length s) s) [
  | none ↦ (true, [])
  | some (word, rest) ↦ (ltb (length word) 15, rest)
]

-- `op` of RTSP_valid_response_msg, less its test of the CSeq, which the handler makes nothing of: 0 for
-- `some false`, and `none` where a word overflows `trash`. A version and a number are what `pcnt < 3`
-- and `stat == 0` ask for besides one more word.
abbrev pub is_response : List ℕ → List ℕ → Bool
unfolding skip
is_response version behind_stat =
    same_letters (take 5 version) (text "RTCP/") && ltb 0 (length (skip spaces behind_stat).1)

abbrev pub response_of : List ℕ → Option (ℕ × List ℕ) → Option Bool
response_of version none = some false
response_of version (some (stat, rest)) =
    let (first, behind) = fits_trash rest in
    let (second, _) = fits_trash behind in
    if first && second then some (ltb 0 stat && is_response version rest) else none

unfoldable pub response_from : Option (List ℕ × List ℕ) → Option Bool
unfolding scan_unsigned
response_from none = some false
response_from (some (version, rest)) = response_of version (scan_unsigned rest)

unfoldable pub rtsp_valid_response_msg : List ℕ → Option Bool
unfolding scan_word response_from
rtsp_valid_response_msg s = response_from (scan_word 31 s)

-- The methods of utils.h, at the place of their RTSP_ID_.
abbrev pub methods : List (List ℕ)
methods =
    text "DESCRIBE"
    ∷ text "ANNOUNCE"
    ∷ text "GET_PARAMETERS"
    ∷ text "OPTIONS"
    ∷ text "PAUSE"
    ∷ text "PLAY"
    ∷ text "RECORD"
    ∷ text "REDIRECT"
    ∷ text "SETUP"
    ∷ text "SET_PARAMETER"
    ∷ text "TEARDOWN"
    ∷ []

abbrev pub method_id : List (List ℕ) → ℕ → List ℕ → ℕ → Verdict
method_id [] i method seq = unknown_method seq
method_id (m ∷ ms) i method seq =
    let rest = method_id ms (suc i) method seq in if same method m then request i seq else rest

-- The words of the first line and the one behind it, and its number.
abbrev pub with_number : List ℕ → List ℕ → Option (ℕ × List ℕ) → Option (List ℕ × List ℕ × ℕ)
with_number method hdr none = none
with_number method hdr (some (seq, rest)) = some (method, hdr, seq)

unfoldable pub with_header : List ℕ → Option (List ℕ × List ℕ) → Option (List ℕ × List ℕ × ℕ)
unfolding scan_unsigned
with_header method none = none
with_header method (some (hdr, rest)) = with_number method hdr (scan_unsigned rest)

unfoldable pub with_version : List ℕ → Option (List ℕ × List ℕ) → Option (List ℕ × List ℕ × ℕ)
unfolding scan_word with_header
with_version method none = none
with_version method (some (version, rest)) = with_header method (scan_word 15 rest)

unfoldable pub with_object : List ℕ → Option (List ℕ × List ℕ) → Option (List ℕ × List ℕ × ℕ)
unfolding scan_word with_version
with_object method none = none
with_object method (some (object, rest)) = with_version method (scan_word 31 rest)

unfoldable pub with_method : Option (List ℕ × List ℕ) → Option (List ℕ × List ℕ × ℕ)
unfolding scan_word with_object
with_method none = none
with_method (some (method, rest)) = with_object method (scan_word 255 rest)

unfoldable pub five : List ℕ → Option (List ℕ × List ℕ × ℕ)
unfolding scan_word with_method
five s = with_method (scan_word 31 s)

unfoldable pub request_of : Option (List ℕ × List ℕ × ℕ) → Verdict
unfolding strstr
request_of none = malformed
request_of (some (method, hdr, seq)) = elim (strstr (text "CSeq") hdr) [
  | none ↦ malformed
  | some _ ↦ method_id methods 0 method seq
]

-- RTSP_validate_method: the id of the method and the CSeq.
unfoldable pub rtsp_validate_method : List ℕ → Verdict
unfolding five request_of
rtsp_validate_method s = request_of (five s)

unfoldable pub verdict_from : List ℕ → Option Bool → Verdict
unfolding rtsp_validate_method
verdict_from s none = overflow
verdict_from s (some true) = response
verdict_from s (some false) = rtsp_validate_method s

-- The case of RTSP_handler for a text.
unfoldable pub verdict : List ℕ → Verdict
unfolding rtsp_valid_response_msg verdict_from
verdict s = verdict_from s (rtsp_valid_response_msg s)
