-- ===== src/Rtsp/Url/Tokens.antt =====
-- What strtok finds in a text that is put together from tokens, and how long its tokens are.
use fenice_1_12_with_h.Prelude.{
  ℕ, ◌+◌, ◌≤◌, ◌≡◌, refl, true, false, List, [], ◌∷◌, ◌++◌, some, length, All, arith,
}
use fenice_1_12_with_h.Rtsp.Text.{has, span, skip, behind_first, Token, token_of, strtok}

-- No byte of `xs` is among the delimiters.
abbrev pub IsFree : List ℕ → List ℕ → Type 0
IsFree stops xs = All (λ c. has c stops ≡ false) xs

pub span_stops :
    (stops xs : List ℕ) (y : ℕ) (ys : List ℕ)
    → IsFree stops xs
    → has y stops ≡ true
    → span stops (xs ++ y ∷ ys) ≡ (xs, y ∷ ys)
unfolding span
span_stops stops [] y ys free stop = rw stop refl
span_stops stops (x ∷ xs) y ys (f, free) stop = rw (f, span_stops stops xs y ys free stop) refl

pub span_all : (stops xs : List ℕ) → IsFree stops xs → span stops xs ≡ (xs, [])
unfolding span
span_all stops [] free = refl
span_all stops (x ∷ xs) (f, free) = rw (f, span_all stops xs free) refl

skip_none :
    (stops : List ℕ) (x : ℕ) (xs : List ℕ)
    → has x stops ≡ false
    → skip stops (x ∷ xs) ≡ ([], x ∷ xs)
unfolding skip
skip_none stops x xs f = rw f refl

pub strtok-token :
    (stops : List ℕ) (x : ℕ) (xs : List ℕ) (y : ℕ) (ys : List ℕ)
    → IsFree stops (x ∷ xs)
    → has y stops ≡ true
    → strtok stops (x ∷ xs ++ y ∷ ys) ≡ some (record { passed = []; token = x ∷ xs; rest = ys })
unfolding strtok
strtok-token stops x xs y ys free stop =
    rw (skip_none stops x (xs ++ y ∷ ys) free.0, span_stops stops (x ∷ xs) y ys free stop) refl

pub strtok_last :
    (stops : List ℕ) (x : ℕ) (xs : List ℕ)
    → IsFree stops (x ∷ xs)
    → strtok stops (x ∷ xs) ≡ some (record { passed = []; token = x ∷ xs; rest = [] })
unfolding strtok
strtok_last stops x xs free = rw (skip_none stops x xs free.0, span_all stops (x ∷ xs) free) refl

span-length : (stops s : List ℕ) → length (span stops s).0 + length (span stops s).1 ≡ length s
unfolding span
span-length stops [] = omega arith
span-length stops (x ∷ xs) = ground (arith, span-length stops xs)

skip-length : (stops s : List ℕ) → length (skip stops s).0 + length (skip stops s).1 ≡ length s
unfolding skip
skip-length stops [] = omega arith
skip-length stops (x ∷ xs) = ground (arith, skip-length stops xs)

behind_first-length : (s : List ℕ) → length (behind_first s) ≤ length s
behind_first-length [] = omega arith
behind_first-length (x ∷ xs) = omega arith

token_of-length :
    (passed : List ℕ) (found : List ℕ × List ℕ) (t : Token)
    → token_of passed found ≡ some t
    → (length t.passed ≡ length passed)
      × (length t.token ≡ length found.0)
      × (length t.rest ≤ length found.1)
token_of-length passed ([], rest) t e = absurd (cc)
token_of-length passed (x ∷ xs, rest) t e = let b = behind_first-length rest in ground (arith, e)

-- The parts of a text that strtok finds are not longer than the text.
pub strtok-length :
    (stops s : List ℕ) (t : Token)
    → strtok stops s ≡ some t
    → length t.passed + length t.token + length t.rest ≤ length s
unfolding strtok
strtok-length stops s t e =
    let (p, k, r) = token_of-length (skip stops s).0 (span stops (skip stops s).1) t e in
    omega (arith, p, k, r, skip-length stops s, span-length stops (skip stops s).1)
