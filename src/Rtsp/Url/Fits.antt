-- ===== src/Rtsp/Url/Fits.antt =====
-- rtsp/parse_url.c: texts that fit the arrays.
use mathlib.Core.Path.{subst}
use fenice_1_12_with_h.Prelude.{
  ℕ, suc, ◌+◌, ◌≤◌, ◌<◌, ◌≡◌, ◌≢◌, inl, inr, Bool-cases, Option-cases, false, List, [], ◌∷◌, ◌++◌,
  Option, some, length, drop, length-drop, length-append, leb, arith,
}
use fenice_1_12_with_h.Rtsp.Text.{text, begins, strtok, atol}
use fenice_1_12_with_h.Rtsp.Url.{
  Parsed, url_bad, url_error, url_ok, scheme, default_port, has_port, behind_server, with_file,
  with_port, parse_server, parse_file, parse_url,
}
use fenice_1_12_with_h.Rtsp.Url.Tokens.{strtok-length}
use fenice_1_12_with_h.Rtsp.Url.Printed.{server_stops, port_stops}

-- What a text that is shorter than both arrays leads to.
abbrev pub IsFitting : Parsed → Type 0
IsFitting url_bad = Unit
IsFitting url_error = ⊥
IsFitting (url_ok u) = Unit

short-enough : (len n : ℕ) → n < len → leb len n ≡ false
short-enough len n lt = ground arith

with_file-IsFitting :
    (len : ℕ) (server : List ℕ) (port : Option ℕ) (rest : List ℕ)
    → length rest < len
    → IsFitting (with_file len server port rest)
unfolding with_file
with_file-IsFitting len server port rest lt = elim (Option-cases (strtok (b' ' ∷ []) rest)) [
  | inl e ↦ rw (e, with_file) tt
  | inr (t, e) ↦
      let l = strtok-length (b' ' ∷ []) rest t e in
      rw (e, with_file, short-enough len (length t.token) (omega (arith, l))) tt
]

behind_server-length :
    (passed token rest : List ℕ)
    → length (behind_server (record { passed = passed; token = token; rest = rest }))
      ≤ length passed + length token + length rest
unfolding behind_server
behind_server-length [] token rest = omega arith
behind_server-length (x ∷ xs) token rest =
    omega (arith, length-drop (suc (length token)) (x ∷ xs ++ token), length-append (x ∷ xs) token)

with_port-IsFitting :
    (file_len : ℕ) (server s : List ℕ)
    → length s < file_len
    → IsFitting (with_port file_len server s)
unfolding with_port
with_port-IsFitting file_len server s lt = elim (Option-cases (strtok port_stops s)) [
  | inl e ↦
      rw (e, with_port) (with_file-IsFitting file_len server (some default_port) [] (omega arith))
  | inr (t, e) ↦
      let l = strtok-length port_stops s t e in
      rw (e, with_port)
        (with_file-IsFitting file_len server (some (atol 16 t.token)) t.rest (omega (arith, l)))
]

parse_server-IsFitting :
    (server_len file_len : ℕ) (s : List ℕ)
    → length s < server_len
    → length s < file_len
    → IsFitting (parse_server server_len file_len s)
unfolding parse_server
parse_server-IsFitting server_len file_len s lt_server lt_file =
    elim (Option-cases (strtok server_stops s)) [
      | inl e ↦ rw (e, parse_server) tt
      | inr (t, e) ↦
          let l = strtok-length server_stops s t e in
          let short = short-enough server_len (length t.token) (omega (arith, l)) in
          elim (Bool-cases (has_port s)) [
            | inl h ↦
                rw (e, short, h, parse_server)
                  (with_port-IsFitting file_len t.token (behind_server t)
                    (omega (arith, l, behind_server-length t.passed t.token t.rest)))
            | inr h ↦
                rw (e, short, h, parse_server)
                  (with_file-IsFitting file_len t.token (some default_port) t.rest
                    (omega (arith, l)))
          ]
    ]

parse_file-IsFitting :
    (file_len : ℕ) (s : List ℕ) → length s < file_len → IsFitting (parse_file file_len s)
unfolding parse_file
parse_file-IsFitting file_len s lt = elim (Option-cases (strtok (text " \t\n") s)) [
  | inl e ↦ rw (e, parse_file) tt
  | inr (t, e) ↦
      let l = strtok-length (text " \t\n") s t e in
      rw (e, parse_file, short-enough file_len (length t.token) (omega (arith, l))) tt
]

parse_url-IsFitting :
    (server_len file_len : ℕ) (url : List ℕ)
    → length url < server_len
    → length url < file_len
    → IsFitting (parse_url server_len file_len url)
unfolding parse_url
parse_url-IsFitting server_len file_len url lt_server lt_file =
    elim (Bool-cases (begins scheme url)) [
      | inl b ↦
          let l = length-drop 7 url in
          rw (b, parse_url)
            (parse_server-IsFitting server_len file_len (drop 7 url) (omega (arith, l))
              (omega (arith, l)))
      | inr b ↦ rw (b, parse_url) (parse_file-IsFitting file_len url lt_file)
    ]

-- parse_url never returns URL_ERROR for a text that is shorter than both of its arrays, as any URL is
-- that a handler reads with "%254s" into an array of 255 bytes.
pub parse_url-ne-url_error :
    (server_len file_len : ℕ) (url : List ℕ)
    → length url < server_len
    → length url < file_len
    → parse_url server_len file_len url ≢ url_error
parse_url-ne-url_error server_len file_len url lt_server lt_file e =
    subst IsFitting e (parse_url-IsFitting server_len file_len url lt_server lt_file)
