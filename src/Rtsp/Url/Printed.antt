-- ===== src/Rtsp/Url/Printed.antt =====
-- rtsp/parse_url.c: URLs that are put together from their parts, and URLs that fit the arrays.
use mathlib.Core.List.{append_assoc}
use Prim.Native.Nat.{min}
use fenice_1_12_with_h.Prelude.{
  ℕ, ◌-◌, ◌%◌, ◌^◌, ◌<◌, ◌≡◌, refl, sym, true, false, List, [], ◌∷◌, ◌++◌, Option, none, some,
  length, All, All-append, leb, ◌==◌, arith,
}
use fenice_1_12_with_h.Rtsp.Text.{text, has, skip, Token, is_digit, digits, atol, spaces}
use fenice_1_12_with_h.Rtsp.Url.{
  url_ok, scheme, default_port, has_port, behind_server, with_file, with_port, parse_server,
  parse_url,
}
use fenice_1_12_with_h.Rtsp.Url.Tokens.{IsFree, span_stops, strtok-token, strtok_last}

-- A name that is not empty and holds no delimiter; `fits` bounds it by the array that it goes to.
abbrev pub IsName : List ℕ → ℕ → List ℕ → Type 0
IsName stops len [] = ⊥
IsName stops len (x ∷ xs) = IsFree stops (x ∷ xs) × (length (x ∷ xs) < len)

with_file_lem :
    (len : ℕ) (server : List ℕ) (port : Option ℕ) (file : List ℕ)
    → IsName (b' ' ∷ []) len file
    → with_file len server port file
      ≡ url_ok (record { server = server; port = port; file_name = file })
unfolding with_file
with_file_lem len server port [] name = elim name [ ]
with_file_lem len server port (x ∷ xs) (free, fits) =
    let short : leb len (length (x ∷ xs)) ≡ false = ground (arith, fits) in
    rw (strtok_last (b' ' ∷ []) x xs free, short, with_file) refl

abbrev pub server_stops : List ℕ
server_stops = text " :/\t\n"

abbrev pub port_stops : List ℕ
port_stops = text " /\t\n"

-- A server with a name, and what stands behind it.
abbrev pub at_server : List ℕ → List ℕ → Token
at_server server rest = record { passed = []; token = server; rest = rest }

IsFree-of_colon :
    (xs : List ℕ) → IsFree server_stops xs → IsFree (b'/' ∷ []) xs × (has b':' xs ≡ false)
IsFree-of_colon [] free = (tt, refl)
IsFree-of_colon (x ∷ xs) (f, free) =
    let (slash, colon) = IsFree-of_colon xs free in
    ((ground (arith, f), slash), ground (arith, f, colon))

has-append : (c : ℕ) (xs ys : List ℕ) → has c xs ≡ false → has c (xs ++ ys) ≡ has c ys
has-append c [] ys h = refl
has-append c (x ∷ xs) ys h = ground (arith, h, has-append c xs ys)

has_port-none :
    (server file : List ℕ) → IsFree server_stops server → has_port (server ++ b'/' ∷ file) ≡ false
unfolding has_port
has_port-none server file free =
    let (slash, colon) = IsFree-of_colon server free in
    rw (span_stops (b'/' ∷ []) server b'/' file slash refl) colon

-- `rtsp://server/file`
pub parse_server-plain :
    (server_len file_len : ℕ) (server file : List ℕ)
    → IsName server_stops server_len server
    → IsName (b' ' ∷ []) file_len file
    → parse_server server_len file_len (server ++ b'/' ∷ file)
      ≡ url_ok (record { server = server; port = some default_port; file_name = file })
unfolding parse_server
parse_server-plain server_len file_len [] file name f = elim name [ ]
parse_server-plain server_len file_len (x ∷ xs) file (free, fits) f =
    let short : leb server_len (length (x ∷ xs)) ≡ false = ground (arith, fits) in
    rw
      (
        strtok-token server_stops x xs b'/' file free refl,
        short,
        has_port-none (x ∷ xs) file free,
        parse_server,
      )
      (with_file_lem file_len (x ∷ xs) (some default_port) file f)

-- Decimal digits, one at least.
abbrev pub IsDecimal : List ℕ → Type 0
IsDecimal [] = ⊥
IsDecimal (x ∷ xs) = All (λ c. is_digit c ≡ true) (x ∷ xs)

digits-IsFree : (xs : List ℕ) → All (λ c. is_digit c ≡ true) xs → IsFree port_stops xs
digits-IsFree [] all_digits = tt
digits-IsFree (x ∷ xs) (d, all_digits) = (ground (arith, d), digits-IsFree xs all_digits)

digits-IsFree_of_slash : (xs : List ℕ) → All (λ c. is_digit c ≡ true) xs → IsFree (b'/' ∷ []) xs
digits-IsFree_of_slash [] all_digits = tt
digits-IsFree_of_slash (x ∷ xs) (d, all_digits) =
    (ground (arith, d), digits-IsFree_of_slash xs all_digits)

atol-digits :
    (width x : ℕ) (xs : List ℕ)
    → is_digit x ≡ true
    → atol width (x ∷ xs) ≡ min (digits 0 (x ∷ xs)) (2 ^ 63 - 1) % 2 ^ width
unfolding atol skip
atol-digits width x xs d =
    let blank : has x spaces ≡ false = ground (arith, d) in
    let minus : (x == 45) ≡ false = ground (arith, d) in
    let plus : (x == 43) ≡ false = ground (arith, d) in rw (blank, minus, plus) refl

has_port-some :
    (server ds file : List ℕ)
    → IsFree server_stops server
    → All (λ c. is_digit c ≡ true) ds
    → has_port (server ++ b':' ∷ (ds ++ b'/' ∷ file)) ≡ true
unfolding has_port
has_port-some server ds file free all_digits =
    let (slash, colon) = IsFree-of_colon server free in
    let slash_ds = digits-IsFree_of_slash ds all_digits in
    let all_slash =
      All-append (λ c. has c (b'/' ∷ []) ≡ false) server (b':' ∷ ds) slash (refl, slash_ds) in
    let whole : server ++ b':' ∷ (ds ++ b'/' ∷ file) ≡ server ++ b':' ∷ ds ++ b'/' ∷ file =
      sym (append_assoc server (b':' ∷ ds) (b'/' ∷ file)) in
    rw
      (
        whole,
        span_stops (b'/' ∷ []) (server ++ b':' ∷ ds) b'/' file all_slash refl,
        has-append b':' server (b':' ∷ ds) colon,
      )
      refl

-- `rtsp://server:port/file`
pub parse_server-port :
    (server_len file_len : ℕ) (server ds file : List ℕ)
    → IsName server_stops server_len server
    → IsDecimal ds
    → IsName (b' ' ∷ []) file_len file
    → parse_server server_len file_len (server ++ b':' ∷ (ds ++ b'/' ∷ file))
      ≡ url_ok (record {
        server = server;
        port = some (min (digits 0 ds) (2 ^ 63 - 1) % 2 ^ 16);
        file_name = file;
      })
unfolding parse_server behind_server with_port
parse_server-port server_len file_len [] ds file name d f = elim name [ ]
parse_server-port server_len file_len (x ∷ xs) [] file name d f = elim d [ ]
parse_server-port server_len file_len (x ∷ xs) (y ∷ ys) file (free, fits) d f =
    let short : leb server_len (length (x ∷ xs)) ≡ false = ground (arith, fits) in
    rw
      (
        strtok-token server_stops x xs b':' (y ∷ ys ++ b'/' ∷ file) free refl,
        short,
        has_port-some (x ∷ xs) (y ∷ ys) file free d,
        strtok-token port_stops y ys b'/' file (digits-IsFree (y ∷ ys) d) refl,
        atol-digits 16 y ys d.0,
        parse_server,
        with_port,
      )
      (with_file_lem file_len (x ∷ xs) (some (min (digits 0 (y ∷ ys)) (2 ^ 63 - 1) % 2 ^ 16)) file
        f)

-- `[:port]`, where there is a port
abbrev pub print_port : Option (List ℕ) → List ℕ
print_port none = []
print_port (some ds) = b':' ∷ ds

abbrev pub port_value : Option (List ℕ) → ℕ
port_value none = default_port
port_value (some ds) = min (digits 0 ds) (2 ^ 63 - 1) % 2 ^ 16

abbrev pub IsPort : Option (List ℕ) → Type 0
IsPort none = Unit
IsPort (some ds) = IsDecimal ds

abbrev pub print_url : List ℕ → Option (List ℕ) → List ℕ → List ℕ
print_url server port file = scheme ++ (server ++ (print_port port ++ b'/' ∷ file))

-- parse_url takes a URL `rtsp://server[:port]/file` apart into what it was put together from, where the
-- server holds none of its delimiters, the file name no space, neither is empty, and both fit the
-- arrays. Without digits the port is the default one, and else their value modulo 2 ^ 16, where a value
-- above 2 ^ 63 - 1, the greatest `long`, stands for that one, as it does for atol of glibc.
pub parse_url-print :
    (server_len file_len : ℕ) (server : List ℕ) (port : Option (List ℕ)) (file : List ℕ)
    → IsName server_stops server_len server
    → IsPort port
    → IsName (b' ' ∷ []) file_len file
    → parse_url server_len file_len (print_url server port file)
      ≡ url_ok (record { server = server; port = some (port_value port); file_name = file })
unfolding parse_url
parse_url-print server_len file_len server none file name p f =
    parse_server-plain server_len file_len server file name f
parse_url-print server_len file_len server (some ds) file name p f =
    parse_server-port server_len file_len server ds file name p f
