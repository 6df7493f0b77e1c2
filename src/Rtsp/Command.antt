-- ===== src/Rtsp/Command.antt =====
-- Texts of requests, as RTSP_valid_response_msg and RTSP_validate_method read them: a line of a method,
-- an object and a version, and behind it the header CSeq.
use mathlib.Core.List.{append_assoc}
use fenice_1_12_with_h.Prelude.{
  ℕ, zero, suc, ◌+◌, ◌≤◌, ◌≡◌, refl, ap, ◌∙◌, false, List, [], ◌∷◌, ◌++◌, ◌==◌, length, All, arith,
}
use fenice_1_12_with_h.Rtsp.Text.{text}
use fenice_1_12_with_h.Prelude.{Bool-cases, inl, inr}
use fenice_1_12_with_h.Rtsp.Text.{same}
use fenice_1_12_with_h.Rtsp.Framing.{Holds}
use fenice_1_12_with_h.Rtsp.Method.{Verdict, is_overflow, c_string, methods, method_id, verdict}
use fenice_1_12_with_h.Rtsp.Words.{
  IsWord, IsObject, IsDigits, number_of, after_method, verdict-command,
}

-- What of an array is text: it begins with the bytes that stand there, if none is a NUL.
pub c_string-begins :
    (n : ℕ) (buf : ℕ → ℕ) (at : ℕ) (xs : List ℕ)
    → Holds buf at xs
    → All (λ c. (c == 0) ≡ false) xs
    → length xs ≤ n
    → (r : List ℕ) × (c_string n buf at ≡ xs ++ r)
unfolding c_string
c_string-begins n buf at [] h nul le = (c_string n buf at, refl)
c_string-begins zero buf at (x ∷ xs) h nul le = absurd (omega arith)
c_string-begins (suc n) buf at (x ∷ xs) h nul le =
    let (r, e) = c_string-begins n buf (at + 1) xs h.1 nul.1 (omega arith) in
    (r, rw (h.0, nul.0) (ap (λ ys. x ∷ ys) e))

-- The words of the first two lines of a request.
pub record Command : Type 0 where
  pub method : List ℕ
  pub object : List ℕ
  pub version : List ℕ
  pub cseq : List ℕ

pub record IsCommand (c : Command) : Type 0 where
  pub method : IsWord 31 c.method
  pub object : IsObject c.object
  pub version : IsWord 31 c.version
  pub cseq : IsDigits c.cseq

abbrev pub first_line_of : Command → List ℕ
first_line_of c = c.method ++ 32 ∷ (c.object ++ 32 ∷ c.version)

abbrev pub second_line_of : Command → List ℕ
second_line_of c = text "CSeq: " ++ c.cseq

-- What the text of a command is taken for.
abbrev pub taken_for : Command → Verdict
taken_for c = method_id methods 0 c.method (number_of c.cseq)

-- The bytes of both lines, up to the CR behind the second.
abbrev pub head_of : Command → List ℕ
head_of c = first_line_of c ++ (13 ∷ 10 ∷ (second_line_of c ++ 13 ∷ []))

command-append :
    (c : Command) (r : List ℕ)
    → head_of c ++ r ≡ c.method ++ after_method c.object c.version c.cseq r
command-append c r = simp (append_assoc) refl

pub verdict-Command :
    (n : ℕ) (buf : ℕ → ℕ) (at : ℕ) (c : Command)
    → IsCommand c
    → Holds buf at (head_of c)
    → All (λ x. (x == 0) ≡ false) (head_of c)
    → length (head_of c) ≤ n
    → verdict (c_string n buf at) ≡ taken_for c
verdict-Command n buf at c v h nul le =
    let (r, e) = c_string-begins n buf at (head_of c) h nul le in
    ap verdict (e ∙ command-append c r)
    ∙ verdict-command c.method c.object c.version c.cseq r v.method v.object v.version v.cseq

method_id-defined :
    (ms : List (List ℕ)) (i : ℕ) (method : List ℕ) (seq : ℕ)
    → is_overflow (method_id ms i method seq) ≡ false
method_id-defined [] i method seq = refl
method_id-defined (m ∷ ms) i method seq = elim (Bool-cases (same method m)) [
  | inl e ↦ rw e refl
  | inr e ↦ rw e (method_id-defined ms (suc i) method seq)
]

pub taken_for-defined : (c : Command) → is_overflow (taken_for c) ≡ false
taken_for-defined c = method_id-defined methods 0 c.method (number_of c.cseq)
