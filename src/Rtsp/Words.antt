-- ===== src/Rtsp/Words.antt =====
-- Words and numbers in a text, as sscanf reads them in RTSP_valid_response_msg and
-- RTSP_validate_method.
use Prim.Native.Nat.{min}
use fenice_1_12_with_h.Prelude.{
  ℕ, zero, suc, ◌+◌, ◌-◌, ◌*◌, ◌%◌, ◌^◌, ◌≤◌, ◌≡◌, refl, ap, ◌∙◌, true, false, ◌||◌, List, [], ◌∷◌,
  ◌++◌, some, none, take, drop, ◌==◌, length, All, arith,
}
use fenice_1_12_with_h.Rtsp.Text.{
  text, has, span, skip, spaces, word_of, scan_word, is_digit, is_number, digits, strstr,
}
use fenice_1_12_with_h.Rtsp.Url.Tokens.{IsFree, span_stops}
use fenice_1_12_with_h.Prelude.{Option}
use fenice_1_12_with_h.Rtsp.Method.{
  digits_rest, unsigned, unsigned_of, unsigned_in, scan_unsigned, rtsp_valid_response_msg, methods,
  method_id, five, with_method, with_object, with_version, with_header, with_number, verdict_from,
  request_of, response_of, response_from, rtsp_validate_method, verdict,
}

-- A word that sscanf reads whole, for a conversion of this width.
abbrev pub IsWord : ℕ → List ℕ → Type 0
IsWord width [] = ⊥
IsWord width (x ∷ xs) = IsFree spaces (x ∷ xs) × (length (x ∷ xs) ≤ width)

take_all : (width : ℕ) (xs : List ℕ) → length xs ≤ width → take width xs ≡ xs
take_all zero [] h = refl
take_all zero (x ∷ xs) h = absurd (omega arith)
take_all (suc n) [] h = refl
take_all (suc n) (x ∷ xs) h = ap (λ ys. x ∷ ys) (take_all n xs (omega arith))

drop_all : (width : ℕ) (xs : List ℕ) → length xs ≤ width → drop width xs ≡ []
drop_all zero [] h = refl
drop_all zero (x ∷ xs) h = absurd (omega arith)
drop_all (suc n) [] h = refl
drop_all (suc n) (x ∷ xs) h = drop_all n xs (omega arith)

skip_none : (x : ℕ) (xs : List ℕ) → has x spaces ≡ false → skip spaces (x ∷ xs) ≡ ([], x ∷ xs)
unfolding skip
skip_none x xs f = rw f refl

skip_space :
    (b : ℕ) (s : List ℕ) → has b spaces ≡ true → (skip spaces (b ∷ s)).1 ≡ (skip spaces s).1
unfolding skip
skip_space b s h = rw h refl

scan_word-word :
    (width : ℕ) (w : List ℕ) (y : ℕ) (r : List ℕ)
    → IsWord width w
    → has y spaces ≡ true
    → scan_word width (w ++ y ∷ r) ≡ some (w, y ∷ r)
unfolding scan_word
scan_word-word width [] y r v stop = elim v [ ]
scan_word-word width (x ∷ xs) y r (free, le) stop =
    ap (λ p. word_of width (span spaces p.1)) (skip_none x (xs ++ y ∷ r) free.0)
    ∙ ap (word_of width) (span_stops spaces (x ∷ xs) y r free stop)
    ∙ ap (λ ws. some (ws, drop width (x ∷ xs) ++ y ∷ r)) (take_all width (x ∷ xs) le)
    ∙ ap (λ ws. some (x ∷ xs, ws ++ y ∷ r)) (drop_all width (x ∷ xs) le)

scan_word-space :
    (width b : ℕ) (s : List ℕ) → has b spaces ≡ true → scan_word width (b ∷ s) ≡ scan_word width s
unfolding scan_word skip
scan_word-space width b s h = ap (λ p. word_of width (span spaces p)) (skip_space b s h)

scan_unsigned-space :
    (b : ℕ) (s : List ℕ) → has b spaces ≡ true → scan_unsigned (b ∷ s) ≡ scan_unsigned s
unfolding scan_unsigned skip
scan_unsigned-space b s h = ap unsigned_in (skip_space b s h)

digits_rest-digits :
    (n : ℕ) (ds : List ℕ) (y : ℕ) (r : List ℕ)
    → All (λ c. is_digit c ≡ true) ds
    → is_digit y ≡ false
    → digits_rest n (ds ++ y ∷ r) ≡ (digits n ds, y ∷ r)
unfolding digits_rest digits
digits_rest-digits n [] y r all_digits stop = rw (digits_rest, stop) refl
digits_rest-digits n (d ∷ ds) y r (h, all_digits) stop =
    ground (arith, h, digits_rest-digits (n * 10 + (d - 48)) ds y r all_digits stop)

-- The number that "%u" makes of decimal digits.
abbrev pub number_of : List ℕ → ℕ
number_of ds = min (digits 0 ds) (2 ^ 64 - 1) % 2 ^ 32

-- One digit at least.
abbrev pub IsDigits : List ℕ → Type 0
IsDigits [] = ⊥
IsDigits (d ∷ ds) = All (λ c. is_digit c ≡ true) (d ∷ ds)

digit_plain :
    (d : ℕ) → is_digit d ≡ true → (has d spaces ≡ false) × ((d == 45) ≡ false) × ((d == 43) ≡ false)
digit_plain d h = (ground (arith, h), ground (arith, h), ground (arith, h))

is_number-digit : (d : ℕ) (xs : List ℕ) → is_digit d ≡ true → is_number (d ∷ xs) ≡ true
is_number-digit d [] h = h
is_number-digit d (x ∷ xs) h = ground (arith, h)

is_number-object :
    (d : ℕ) (xs : List ℕ) → (is_digit d || d == 45 || d == 43) ≡ false → is_number (d ∷ xs) ≡ false
is_number-object d [] h = ground (arith, h)
is_number-object d (x ∷ xs) h = ground (arith, h)

scan_unsigned-digits :
    (ds r : List ℕ) → IsDigits ds → scan_unsigned (ds ++ 13 ∷ r) ≡ some (number_of ds, 13 ∷ r)
unfolding scan_unsigned
scan_unsigned-digits [] r v = elim v [ ]
scan_unsigned-digits (d ∷ ds) r v =
    let (space, minus, plus) = digit_plain d v.0 in
    let s = d ∷ ds ++ 13 ∷ r in
    let cut : ℕ × List ℕ → Option (ℕ × List ℕ) = λ p. some (unsigned false p) in
    let sign : unsigned_of s ≡ unsigned false (digits_rest 0 s) = rw (minus, plus) refl in
    ap (λ p. unsigned_in p.1) (skip_none d (ds ++ 13 ∷ r) space)
    ∙ rw (is_number-digit d (ds ++ 13 ∷ r) v.0) (ap some sign)
    ∙ ap cut (digits_rest-digits 0 (d ∷ ds) 13 r v refl)

-- An object that is no number for "%u".
abbrev pub IsObject : List ℕ → Type 0
IsObject [] = ⊥
IsObject (x ∷ xs) = IsWord 255 (x ∷ xs) × ((is_digit x || x == 45 || x == 43) ≡ false)

scan_unsigned-object : (w r : List ℕ) → IsObject w → scan_unsigned (w ++ 32 ∷ r) ≡ none
unfolding scan_unsigned
scan_unsigned-object [] r v = elim v [ ]
scan_unsigned-object (x ∷ xs) r v =
    ap (λ p. unsigned_in p.1) (skip_none x (xs ++ 32 ∷ r) v.0.0.0)
    ∙ rw (is_number-object x (xs ++ 32 ∷ r) v.1) refl

object-IsWord : (object : List ℕ) → IsObject object → IsWord 255 object
object-IsWord [] o = elim o [ ]
object-IsWord (x ∷ xs) o = o.0

cseq-IsWord : IsWord 15 (text "CSeq:")
cseq-IsWord = (search, omega arith)

-- What stands behind the first line, the object and the method.
abbrev behind_version : List ℕ → List ℕ → List ℕ
behind_version ds r = text "CSeq:" ++ 32 ∷ (ds ++ 13 ∷ r)

abbrev behind_object : List ℕ → List ℕ → List ℕ → List ℕ
behind_object version ds r = version ++ 13 ∷ 10 ∷ behind_version ds r

abbrev pub after_method : List ℕ → List ℕ → List ℕ → List ℕ → List ℕ
after_method object version ds r = 32 ∷ (object ++ 32 ∷ behind_object version ds r)

module _ (method object version ds r : List ℕ) (m : IsWord 31 method) (o : IsObject object)
    (v : IsWord 31 version) (d : IsDigits ds) where
  first_word :
      scan_word 31 (method ++ after_method object version ds r)
      ≡ some (method, after_method object version ds r)
  first_word = scan_word-word 31 method 32 _ m refl

  no_response : rtsp_valid_response_msg (method ++ after_method object version ds r) ≡ some false
  unfolding rtsp_valid_response_msg response_from
  no_response =
      ap (λ w. response_from w) first_word
      ∙ ap (response_of method) (
          scan_unsigned-space 32 (object ++ 32 ∷ behind_object version ds r) refl
          ∙ scan_unsigned-object object (behind_object version ds r) o)

  five_words :
      five (method ++ after_method object version ds r) ≡ some (method, text "CSeq:", number_of ds)
  unfolding five with_method with_object with_version with_header
  five_words =
      ap with_method first_word
      ∙ ap (with_object method) (
          scan_word-space 255 32 (object ++ 32 ∷ behind_object version ds r) refl
          ∙ scan_word-word 255 object 32 (behind_object version ds r) (object-IsWord object o) refl)
      ∙ ap (with_version method) (
          scan_word-space 31 32 (behind_object version ds r) refl
          ∙ scan_word-word 31 version 13 (10 ∷ behind_version ds r) v refl)
      ∙ ap (with_header method) (
          scan_word-space 15 13 (10 ∷ behind_version ds r) refl
          ∙ scan_word-space 15 10 (behind_version ds r) refl
          ∙ scan_word-word 15 (text "CSeq:") 32 (ds ++ 13 ∷ r) cseq-IsWord refl)
      ∙ ap (with_number method (text "CSeq:"))
          (scan_unsigned-space 32 (ds ++ 13 ∷ r) refl ∙ scan_unsigned-digits ds r d)

  -- The text of a request with a word for a method, one for a version, and its CSeq in the second line
  -- is taken for a request with that method, or with an unknown method where there is none such.
  pub verdict-command :
      verdict (method ++ after_method object version ds r)
      ≡ method_id methods 0 method (number_of ds)
  unfolding verdict verdict_from rtsp_validate_method request_of strstr
  verdict-command =
      ap (verdict_from (method ++ after_method object version ds r)) no_response
      ∙ ap request_of five_words
