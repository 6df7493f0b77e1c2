-- ===== src/Rtsp/Url.antt =====
-- rtsp/parse_url.c and src/is_supported_url.c.
pub mod Tokens
pub mod Printed
pub mod Fits
use Prim.Native.String.{String, [], ◌∷◌}
use fenice_1_12_with_h.Prelude.{
  ℕ, suc, ◌+◌, ◌%◌, ◌^◌, Bool, true, false, ◌||◌, List, [], ◌∷◌, ◌++◌, Option, none, some, length,
  drop, leb, if◌then◌else◌,
}
use fenice_1_12_with_h.Rtsp.Text.{
  text, has, same_letters, begins, span, skip, Token, strtok, digits, atol,
}

-- `port` is `none` where parse_url leaves `*port` as it was.
pub record Url : Type 0 where
  pub server : List ℕ
  pub port : Option ℕ
  pub file_name : List ℕ

-- URL_BAD, URL_ERROR, and URL_OK with what it stores
pub data Parsed : Type 0 where
  url_bad url_error : Parsed
  url_ok : Url → Parsed

abbrev pub scheme : List ℕ
scheme = text "rtsp://"

abbrev pub default_port : ℕ
default_port = 554

-- Whether a colon stands before the first slash behind the scheme.
unfoldable pub has_port : List ℕ → Bool
unfolding span
has_port s = has b':' (span (b'/' ∷ []) s).0

-- The text at `&full[strlen(server) + 7 + 1]` after strtok found the server.
unfoldable pub behind_server : Token → List ℕ
behind_server t = elim t.passed [
  | [] ↦ t.rest
  | x ∷ xs ↦ drop (suc (length t.token)) (t.passed ++ t.token)
]

-- The file name, for the server and the port that stand before `rest`.
unfoldable pub with_file : ℕ → List ℕ → Option ℕ → List ℕ → Parsed
with_file file_name_len server port rest = elim (strtok (b' ' ∷ []) rest) [
  | none ↦ url_ok (record { server = server; port = port; file_name = [] })
  | some t ↦
      if leb file_name_len (length t.token)
      then url_error
      else url_ok (record { server = server; port = port; file_name = t.token })
]

-- The port at the start of `s`, and the file name behind it.
unfoldable pub with_port : ℕ → List ℕ → List ℕ → Parsed
with_port file_name_len server s = elim (strtok (text " /\t\n") s) [
  | none ↦ with_file file_name_len server (some default_port) []
  | some p ↦ with_file file_name_len server (some (atol 16 p.token)) p.rest
]

-- The branch for a text with a scheme, for what stands behind it.
unfoldable pub parse_server : ℕ → ℕ → List ℕ → Parsed
parse_server server_len file_name_len s = elim (strtok (text " :/\t\n") s) [
  | none ↦ url_bad
  | some t ↦
      if leb server_len (length t.token)
      then url_error
      else if has_port s
      then with_port file_name_len t.token (behind_server t)
      else with_file file_name_len t.token (some default_port) t.rest
]

-- The branch for a text without one.
unfoldable pub parse_file : ℕ → List ℕ → Parsed
parse_file file_name_len url = elim (strtok (text " \t\n") url) [
  | none ↦ url_bad
  | some t ↦
      if leb file_name_len (length t.token)
      then url_error
      else url_ok (record { server = []; port = none; file_name = t.token })
]

-- parse_url, where `server` and `file_name` have the sizes `server_len` and `file_name_len`.
unfoldable pub parse_url : ℕ → ℕ → List ℕ → Parsed
parse_url server_len file_name_len url =
    if begins scheme url
    then parse_server server_len file_name_len (drop 7 url)
    else parse_file file_name_len url

abbrev pub supported : List (List ℕ)
supported =
    text ".SD"
    ∷ text ".WAV"
    ∷ text ".MP3"
    ∷ text ".GSM"
    ∷ text ".GSM-FLO"
    ∷ text ".L16M8K"
    ∷ text ".26l"
    ∷ text ".mpg"
    ∷ text ".mpeg"
    ∷ text ".m1v"
    ∷ text ".m2v"
    ∷ text ".m4v"
    ∷ text ".mp4"
    ∷ text ".xvid"
    ∷ text ".rtp"
    ∷ text ".264"
    ∷ []

abbrev pub is_one_of : List ℕ → List (List ℕ) → Bool
is_one_of p [] = false
is_one_of p (x ∷ xs) = same_letters p x || is_one_of p xs

unfoldable pub is_supported_url : List ℕ → Bool
is_supported_url p = is_one_of p supported
