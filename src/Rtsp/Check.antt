-- ===== src/Rtsp/Check.antt =====
-- What the handlers of requests in rtsp/ check before they act, in the order in which they do it.
use fenice_1_12_with_h.Prelude.{ℕ, ◌-◌, ◌^◌, Bool, true, false, List, Option, none, some, length}
use fenice_1_12_with_h.Prelude.Codes.{Code}
use fenice_1_12_with_h.Rtsp.Text.{text, strstr, strrchr, scan_word, scan_number}
use fenice_1_12_with_h.Rtsp.Url.{Url, url_bad, url_error, url_ok, parse_url, is_supported_url}

-- A handler goes on with a value; or it has send_reply send a status, and returns a code; or C says
-- nothing of what it does.
pub data Check {ℓ} (A : Type ℓ) : Type ℓ where
  pass : A → Check A
  refuse : ℕ → Code → Check A
  undefined : Check A

infixl 5 ◌>>=◌
abbrev pub ◌>>=◌ {ℓ κ} : {A : Type ℓ} {B : Type κ} → Check A → (A → Check B) → Check B
pass a >>= k = k a
refuse status code >>= k = refuse status code
undefined >>= k = undefined

abbrev pub require : Bool → ℕ → Code → Check (Unit {0})
require true status code = pass tt
require false status code = refuse status code

abbrev pub or_refuse {ℓ} : {A : Type ℓ} → Option A → ℕ → Code → Check A
or_refuse none status code = refuse status code
or_refuse (some a) status code = pass a

abbrev pub is_none {ℓ} : {A : Type ℓ} → Option A → Bool
is_none none = true
is_none (some a) = false

-- `sscanf(p, "%254s %ld", trash, &n)` at the first place where `name` stands, for a number of `width`
-- bits; the first is `none` where the name stands nowhere, the second where there is no number.
unfoldable pub header_number : ℕ → List ℕ → List ℕ → Option (Option ℕ)
header_number width name input = elim (strstr name input) [
  | none ↦ none
  | some p ↦ elim (scan_word 254 p) [
    | none ↦ some none
    | some (word, rest) ↦ some (scan_number width rest)
  ]
]

-- The number behind HDR_CSEQ; without it every handler replies 400.
unfoldable pub cseq_of : List ℕ → Option ℕ
unfolding header_number
cseq_of input = elim (header_number 32 (text "CSeq") input) [ some (some n) ↦ some n | _ ↦ none ]

-- `sscanf(rtsp->in_buffer, " %*s %254s ", url)`. Where the text has no second word it returns EOF, which
-- is not 0, so that the handler goes on with an array that nothing was stored in.
unfoldable pub request_url : List ℕ → Check (List ℕ)
request_url input = elim (scan_word (length input) input) [
  | none ↦ undefined
  | some (method, rest) ↦ elim (scan_word 254 rest) [ none ↦ undefined | some (url, _) ↦ pass url ]
]

-- parse_url, with the replies to what it returns.
unfoldable pub checked_url : Code → List ℕ → Check Url
checked_url code url = elim (parse_url 255 255 url) [
  | url_bad ↦ refuse 400 code
  | url_error ↦ refuse 500 code
  | url_ok u ↦ pass u
]

-- The tests against paths that lead out of the directory.
unfoldable pub checked_path : Code → List ℕ → Check (Unit {0})
checked_path code object = do
  _ ← require (is_none (strstr (text "../") object)) 403 code
  require (is_none (strstr (text "./") object)) 403 code

-- The extension of the file name, which must be there and be supported.
unfoldable pub checked_extension : Code → List ℕ → Check (Unit {0})
checked_extension code object = do
  p ← or_refuse (strrchr b'.' object) 415 code
  require (is_supported_url p) 415 code

-- The file that a request names, where its path and its extension are allowed.
unfoldable pub requested_file : Code → List ℕ → Check (List ℕ)
requested_file code input = do
  url ← request_url input
  u ← checked_url code url
  _ ← checked_path code u.file_name
  _ ← checked_extension code u.file_name
  pass u.file_name

-- The number behind HDR_SESSION in 64 bits; `missing` is what follows without the header.
unfoldable pub session_of : Code → Check ℕ → List ℕ → Check ℕ
session_of code missing input = elim (header_number 64 (text "Session") input) [
  | none ↦ missing
  | some found ↦ or_refuse found 454 code
]

-- -1 as a number of 64 bits
abbrev pub no_session : ℕ
no_session = 2 ^ 64 - 1
