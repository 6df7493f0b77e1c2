-- ===== src/Rtsp/Text.antt =====
-- The functions of the C library on texts that rtsp/ and src/ use. A text is the list of its bytes
-- before the NUL.
use Prim.Native.Char.{code}
use Prim.Native.String.{String, [], ◌∷◌}
use Prim.Native.Nat.{min}
use fenice_1_12_with_h.Prelude.{
  ℕ, ◌+◌, ◌-◌, ◌*◌, ◌%◌, ◌^◌, Bool, true, false, ◌&&◌, ◌||◌, List, [], ◌∷◌, ◌++◌, Option, none,
  some, take, drop, leb, ◌==◌, if◌then◌else◌,
}
use fenice_1_12_with_h.Rtsp.Message.{lower}

abbrev pub text : String → List ℕ
text [] = []
text (c ∷ s) = code c ∷ text s

abbrev pub has : ℕ → List ℕ → Bool
has c [] = false
has c (x ∷ xs) = x == c || has c xs

abbrev pub same : List ℕ → List ℕ → Bool
same [] [] = true
same (x ∷ xs) (y ∷ ys) = x == y && same xs ys
same _ _ = false

-- `strcasecmp(s, t) == 0`
abbrev pub same_letters : List ℕ → List ℕ → Bool
same_letters [] [] = true
same_letters (x ∷ xs) (y ∷ ys) = lower x == lower y && same_letters xs ys
same_letters _ _ = false

-- `strncmp(s, prefix, strlen(prefix)) == 0`
abbrev pub begins : List ℕ → List ℕ → Bool
begins [] s = true
begins (x ∷ xs) [] = false
begins (x ∷ xs) (y ∷ ys) = x == y && begins xs ys

-- `strstr(s, word)`: what begins at the first place where `word` stands.
unfoldable pub strstr : List ℕ → List ℕ → Option (List ℕ)
strstr word [] = if begins word [] then some [] else none
strstr word (x ∷ xs) =
    let rest = strstr word xs in if begins word (x ∷ xs) then some (x ∷ xs) else rest

-- `strchr(s, c)`, and the last place in place of the first, `strrchr(s, c)`
unfoldable pub strchr : ℕ → List ℕ → Option (List ℕ)
strchr c [] = none
strchr c (x ∷ xs) = let rest = strchr c xs in if x == c then some (x ∷ xs) else rest

unfoldable pub strrchr : ℕ → List ℕ → Option (List ℕ)
strrchr c [] = none
strrchr c (x ∷ xs) = elim (strrchr c xs) [
  | some r ↦ some r
  | none ↦ if x == c then some (x ∷ xs) else none
]

-- The bytes before the first one of `stops`, and what begins there.
unfoldable pub span : List ℕ → List ℕ → List ℕ × List ℕ
span stops [] = ([], [])
span stops (x ∷ xs) =
    let (before, rest) = span stops xs in if has x stops then ([], x ∷ xs) else (x ∷ before, rest)

unfoldable pub skip : List ℕ → List ℕ → List ℕ × List ℕ
skip stops [] = ([], [])
skip stops (x ∷ xs) =
    let (passed, rest) = skip stops xs in if has x stops then (x ∷ passed, rest) else ([], x ∷ xs)

abbrev pub behind_first : List ℕ → List ℕ
behind_first [] = []
behind_first (x ∷ xs) = xs

-- What strtok returns for a text: the delimiters that it passed, the token, and the text behind the
-- delimiter that it replaced by a NUL.
pub record Token : Type 0 where
  pub passed : List ℕ
  pub token : List ℕ
  pub rest : List ℕ

abbrev pub token_of : List ℕ → List ℕ × List ℕ → Option Token
token_of passed ([], rest) = none
token_of passed (x ∷ xs, rest) =
    some (record { passed = passed; token = x ∷ xs; rest = behind_first rest })

unfoldable pub strtok : List ℕ → List ℕ → Option Token
unfolding skip span
strtok stops s = let (passed, found) = skip stops s in token_of passed (span stops found)

-- `isspace`
abbrev pub spaces : List ℕ
spaces = 32 ∷ 9 ∷ 10 ∷ 11 ∷ 12 ∷ 13 ∷ []

abbrev pub word_of : ℕ → List ℕ × List ℕ → Option (List ℕ × List ℕ)
word_of width ([], rest) = none
word_of width (x ∷ xs, rest) = some (take width (x ∷ xs), drop width (x ∷ xs) ++ rest)

-- sscanf with "%254s" for a width of 254: the word, and what is not read.
unfoldable pub scan_word : ℕ → List ℕ → Option (List ℕ × List ℕ)
unfolding skip span
scan_word width s = word_of width (span spaces (skip spaces s).1)

-- The value of the decimal digits at the start.
unfoldable pub digits : ℕ → List ℕ → ℕ
digits n [] = n
digits n (x ∷ xs) = elim (leb 48 x && leb x 57) [ true ↦ digits (n * 10 + (x - 48)) xs | false ↦ n ]

-- The value as strtol of glibc has it, which stops at the ends of a `long` of 64 bits, cut to `width`
-- bits.
abbrev pub signed : ℕ → Bool → ℕ → ℕ
signed width minus value =
    if minus
    then (2 ^ width - min value (2 ^ 63) % 2 ^ width) % 2 ^ width
    else min value (2 ^ 63 - 1) % 2 ^ width

abbrev pub is_digit : ℕ → Bool
is_digit c = leb 48 c && leb c 57

-- What a sign and digits mean: atol, cut to `width` bits, and where there is a digit, sscanf with "%d",
-- which glibc reads by strtol too.
abbrev pub number : ℕ → List ℕ → ℕ
number width [] = 0
number width (x ∷ xs) =
    if x == 45
    then signed width true (digits 0 xs)
    else if x == 43
    then signed width false (digits 0 xs)
    else signed width false (digits 0 (x ∷ xs))

abbrev pub is_number : List ℕ → Bool
is_number [] = false
is_number (x ∷ []) = is_digit x
is_number (x ∷ y ∷ xs) = is_digit x || ((x == 45 || x == 43) && is_digit y)

unfoldable pub atol : ℕ → List ℕ → ℕ
unfolding skip digits
atol width s = number width (skip spaces s).1

unfoldable pub scan_number : ℕ → List ℕ → Option ℕ
unfolding skip digits
scan_number width s =
    let found = (skip spaces s).1 in if is_number found then some (number width found) else none
