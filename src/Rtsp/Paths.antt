-- ===== src/Rtsp/Paths.antt =====
-- rtsp/RTSP_describe.c: which paths of a request reach the file system.
use mathlib.Core.Path.{subst}
use fenice_1_12_with_h.Prelude.{
  ℕ, ◌≡◌, ◌≢◌, refl, sym, ap, ◌∙◌, inl, inr, Bool, true, List, [], ◌∷◌, ◌++◌, Option, none, some,
  Option-cases, Bool-cases, arith,
}
use fenice_1_12_with_h.Prelude.Codes.{Code, err_noerror}
use fenice_1_12_with_h.Rtsp.Text.{text, begins, strstr, strrchr}
use fenice_1_12_with_h.Rtsp.Url.{is_supported_url}
use fenice_1_12_with_h.Rtsp.Check.{
  Check, pass, refuse, undefined, ◌>>=◌, require, is_none, checked_path, checked_extension,
  requested_file, request_url, checked_url,
}
use fenice_1_12_with_h.Rtsp.Sessions.{Server, Outcome, settle, logged}
use fenice_1_12_with_h.Rtsp.Describe.{
  describe_headers, describe_checks, describe_request, rtsp_describe,
}

-- `word` stands somewhere in the text.
abbrev pub Contains : List ℕ → List ℕ → Type 0
Contains word s = (before : List ℕ) × (behind : List ℕ) × (s ≡ before ++ (word ++ behind))

begins-append : (word behind : List ℕ) → begins word (word ++ behind) ≡ true
begins-append [] behind = refl
begins-append (x ∷ xs) behind = ground (arith, begins-append xs behind)

strstr-append :
    (x : ℕ) (xs before behind : List ℕ) → strstr (x ∷ xs) (before ++ (x ∷ xs ++ behind)) ≢ none
unfolding strstr
strstr-append x xs [] behind = rw (begins-append (x ∷ xs) behind) (cc)
strstr-append x xs (y ∷ ys) behind =
    elim (Bool-cases (begins (x ∷ xs) (y ∷ ys ++ (x ∷ xs ++ behind)))) [
      | inl b ↦ rw (b, strstr) (cc)
      | inr b ↦ rw (b, strstr) (strstr-append x xs ys behind)
    ]

-- A path without a component that ends in a dot, and so without ".." as a directory, whose extension is
-- one of those that the server supports.
pub record IsSafe (object : List ℕ) : Type 0 where
  pub extension : List ℕ
  pub inside : ¬ Contains (text "./") object
  pub ends : strrchr b'.' object ≡ some extension
  pub known : is_supported_url extension ≡ true

-- What a check that lets a value through says of it.
abbrev pub Lets {ℓ κ} : {A : Type ℓ} → (A → Type κ) → Check A → Type κ
Lets P (pass a) = P a
Lets P (refuse status code) = Unit
Lets P undefined = Unit

settle_ext {ℓ κ} :
    {A : Type ℓ} {P : A → Type κ} (s : Server) (c : Check A) {j k : A → Option Outcome}
    → Lets P c
    → ((a : A) → P a → j a ≡ k a)
    → settle s c j ≡ settle s c k
settle_ext s (pass a) h f = f a h
settle_ext s (refuse status code) h f = refl
settle_ext s undefined h f = refl

module _ {ℓ κ μ} {A : Type ℓ} {B : Type κ} (P : B → Type μ) where
  pub Lets-bind :
      (c : Check A) (k : A → Check B) → ((a : A) → c ≡ pass a → Lets P (k a)) → Lets P (c >>= k)
  Lets-bind (pass a) k h = h a refl
  Lets-bind (refuse status code) k h = tt
  Lets-bind undefined k h = tt

is_none_lem {ℓ} : {A : Type ℓ} (o : Option A) → is_none o ≡ true → o ≡ none
is_none_lem none e = refl
is_none_lem (some a) e = cc

checked_path_lem :
    (code : Code) (object : List ℕ)
    → Lets (λ x. strstr (text "./") object ≡ none) (checked_path code object)
unfolding checked_path
checked_path_lem code object =
    Lets-bind _ (require (is_none (strstr (text "../") object)) 403 code) _ (λ x e.
      elim (Bool-cases (is_none (strstr (text "./") object))) [
        | inl b ↦ rw b (is_none_lem (strstr (text "./") object) b)
        | inr b ↦ rw b tt
      ])

abbrev HasExtension : List ℕ → Type 0
HasExtension object = (p : List ℕ) × (strrchr b'.' object ≡ some p) × (is_supported_url p ≡ true)

checked_extension_lem :
    (code : Code) (object : List ℕ)
    → Lets (λ x. HasExtension object) (checked_extension code object)
unfolding checked_extension
checked_extension_lem code object = elim (Option-cases (strrchr b'.' object)) [
  | inl e ↦ rw (e, checked_extension) tt
  | inr (p, e) ↦ elim (Bool-cases (is_supported_url p)) [
    | inl b ↦ rw (e, b, checked_extension) (p, refl, b)
    | inr b ↦ rw (e, b, checked_extension) tt
  ]
]

strstr-Contains : (s : List ℕ) → strstr (text "./") s ≡ none → ¬ Contains (text "./") s
strstr-Contains s e (before, behind, same) =
    strstr-append b'.' (b'/' ∷ []) before behind (ap (strstr (text "./")) (sym same) ∙ e)

passed {ℓ κ} : {A : Type ℓ} (P : A → Type κ) (c : Check A) {a : A} → Lets P c → c ≡ pass a → P a
passed P c h e = subst (Lets P) e h

requested_file-IsSafe : (code : Code) (input : List ℕ) → Lets IsSafe (requested_file code input)
unfolding requested_file
requested_file-IsSafe code input = Lets-bind IsSafe (request_url input) _ (λ url e_url.
    Lets-bind IsSafe (checked_url code url) _ (λ u e_u.
      Lets-bind IsSafe (checked_path code u.file_name) _ (λ x e_path.
        Lets-bind IsSafe (checked_extension code u.file_name) _ (λ y e_ext.
          let outside =
            passed (λ x. strstr (text "./") u.file_name ≡ none) _
              (checked_path_lem code u.file_name) e_path in
          let (p, ends, known) =
            passed (λ x. HasExtension u.file_name) _ (checked_extension_lem code u.file_name)
              e_ext in
          record {
            extension = p;
            inside = strstr-Contains u.file_name outside;
            ends = ends;
            known = known;
          }))))

describe_checks-IsSafe : (input : List ℕ) → Lets (λ found. IsSafe found.0) (describe_checks input)
unfolding describe_checks
describe_checks-IsSafe input =
    let P = λ (found : List ℕ × ℕ). IsSafe found.0 in
    Lets-bind P (requested_file err_noerror input) _ (λ object e.
      let safe = passed IsSafe _ (requested_file-IsSafe err_noerror input) e in
      Lets-bind P (describe_headers input) _ (λ n e_headers. safe))

-- RTSP_describe depends on get_media_descr and enum_media at safe paths only: two file systems that agree
-- on every path that holds no "./" and ends in a supported extension lead to the same outcome.
pub rtsp_describe-IsSafe :
    (descr descr' : List ℕ → Code) (twin twin' : List ℕ → Option Bool) (n max : ℕ) (input : List ℕ)
    (s : Server)
    → ((object : List ℕ) → IsSafe object → descr object ≡ descr' object)
    → ((object : List ℕ) → IsSafe object → twin object ≡ twin' object)
    → rtsp_describe descr twin n max input s ≡ rtsp_describe descr' twin' n max input s
unfolding rtsp_describe describe_request
rtsp_describe-IsSafe descr descr' twin twin' n max input s same_descr same_twin =
    ap (logged input) (
      settle_ext s (describe_checks input) (describe_checks-IsSafe input)
        (λ found safe. rw (same_descr found.0 safe, same_twin found.0 safe) refl))
