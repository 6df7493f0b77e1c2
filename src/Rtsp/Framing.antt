-- ===== src/Rtsp/Framing.antt =====
-- Requests without a body, as RTSP_full_msg_rcvd finds them in the input.
use native.Mathlib.Nat.{add-zero}
use mathlib.Core.Path.{subst}
use fenice_1_12_with_h.Prelude.{
  ℕ, zero, suc, ◌+◌, ◌<◌, ◌≡◌, refl, ◌∙◌, ◌⊎◌, inl, inr, Bool, true, false, not, ◌&&◌, List, [],
  ◌∷◌, ◌++◌, some, ltb, ◌==◌, length, get_or, All, arith,
}
use fenice_1_12_with_h.Rtsp.Message.{
  is_eol, is_blank, strcspn, terminators, starts_with, content_length, lower,
}

-- The bytes `xs` stand in the array from `at` on.
abbrev pub Holds : (ℕ → ℕ) → ℕ → List ℕ → Type 0
Holds buf at [] = Unit {0}
Holds buf at (x ∷ xs) = (buf at ≡ x) × Holds buf (at + 1) xs

pub place : (a n : ℕ) → a + 1 + n ≡ a + suc n
place a n = omega arith

pub Holds-append :
    (buf : ℕ → ℕ) (at : ℕ) (xs ys : List ℕ)
    → Holds buf at (xs ++ ys)
    → Holds buf at xs × Holds buf (at + length xs) ys
Holds-append buf at [] ys h = (tt, rw add-zero h)
Holds-append buf at (x ∷ xs) ys h =
    let (front, back) = Holds-append buf (at + 1) xs ys h.1 in
    ((h.0, front), subst (λ i. Holds buf i ys) (place at (length xs)) back)

-- A byte of a line.
abbrev pub is_text : ℕ → Bool
is_text c = not (is_eol c) && not (c == 0)

abbrev pub IsText : List ℕ → Type 0
IsText = All (λ c. is_text c ≡ true)

pub strcspn-line :
    (xs : List ℕ) (left : ℕ) (buf : ℕ → ℕ) (at : ℕ)
    → IsText xs
    → Holds buf at (xs ++ (13 ∷ []))
    → length xs < left
    → strcspn left buf at ≡ some (length xs)
unfolding strcspn
strcspn-line xs zero buf at t h lt = absurd (omega arith)
strcspn-line [] (suc left) buf at t h lt = ground arith
strcspn-line (x ∷ xs) (suc left) buf at t h lt =
    ground (arith, strcspn-line xs left buf (at + 1) t.1 h.1 (omega arith), h.0, t.0)

-- A line behind the first one: not empty, no blank first, and no Content-Length.
abbrev pub prefix : List ℕ → List ℕ → Bool
prefix [] xs = true
prefix (c ∷ name) [] = false
prefix (c ∷ name) (x ∷ xs) = lower x == c && prefix name xs

pub record IsLine (xs : List ℕ) : Type 0 where
  pub text : IsText xs
  pub some_byte : 0 < length xs

pub record IsField (xs : List ℕ) : Type 0 where
  pub line : IsLine xs
  pub no_blank : is_blank (get_or xs 0 0) ≡ false
  pub no_length : prefix content_length xs ≡ false

pub starts_with-line :
    (name xs : List ℕ) (buf : ℕ → ℕ) (at : ℕ)
    → All (λ c. 13 < c) name
    → Holds buf at (xs ++ (13 ∷ []))
    → prefix name xs ≡ false
    → starts_with name buf at ≡ false
unfolding starts_with
starts_with-line [] xs buf at ns h e = cc
starts_with-line (c ∷ name) [] buf at ns h e = ground (arith, h, ns)
starts_with-line (c ∷ name) (x ∷ xs) buf at ns h e =
    ground (arith, h.0, e, starts_with-line name xs buf (at + 1) ns.1 h.1)

terminators-eol :
    (left : ℕ) (buf : ℕ → ℕ) (at tc : ℕ)
    → is_eol (buf at) ≡ true
    → terminators (suc left) buf at tc 0 ≡ terminators left buf (at + 1) (tc + 1) 0
unfolding terminators
terminators-eol left buf at tc e = rw e refl

terminators-stop :
    (left : ℕ) (buf : ℕ → ℕ) (at tc : ℕ)
    → is_eol (buf at) ≡ false
    → (ltb tc 3 && is_blank (buf at)) ≡ false
    → terminators left buf at tc 0 ≡ (tc, 0)
unfolding terminators
terminators-stop zero buf at tc e b = refl
terminators-stop (suc left) buf at tc e b = rw (e, b) refl

-- CR and LF, and a text byte that is no blank.
pub terminators-two :
    (left : ℕ) (buf : ℕ → ℕ) (at : ℕ)
    → Holds buf at (13 ∷ 10 ∷ [])
    → is_text (buf (at + 1 + 1)) ≡ true
    → is_blank (buf (at + 1 + 1)) ≡ false
    → terminators (suc (suc left)) buf at 0 0 ≡ (2, 0)
terminators-two left buf at h t n =
    terminators-eol (suc left) buf at 0 (ground (arith, h.0))
    ∙ terminators-eol left buf (at + 1) 1 (ground (arith, h.1.0))
    ∙ terminators-stop left buf (at + 1 + 1) 2 (ground (arith, t)) (ground (arith, n))

-- CR, LF, CR and LF, and the end of the input or a text byte.
pub terminators-four :
    (left : ℕ) (buf : ℕ → ℕ) (at : ℕ)
    → Holds buf at (13 ∷ 10 ∷ 13 ∷ 10 ∷ [])
    → (left ≡ 0) ⊎ (is_text (buf (at + 1 + 1 + 1 + 1)) ≡ true)
    → terminators (suc (suc (suc (suc left)))) buf at 0 0 ≡ (4, 0)
terminators-four left buf at h tail =
    terminators-eol (suc (suc (suc left))) buf at 0 (ground (arith, h.0))
    ∙ terminators-eol (suc (suc left)) buf (at + 1) 1 (ground (arith, h.1.0))
    ∙ terminators-eol (suc left) buf (at + 1 + 1) 2 (ground (arith, h.1.1.0))
    ∙ terminators-eol left buf (at + 1 + 1 + 1) 3 (ground (arith, h.1.1.1.0))
    ∙ elim tail [
      | inl done ↦ rw done (unfold terminators in refl)
      | inr t ↦ terminators-stop left buf (at + 1 + 1 + 1 + 1) 4 (ground (arith, t)) refl
    ]
