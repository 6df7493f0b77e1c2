-- ===== src/Mpeg/System/Search.antt =====
-- next_start_code on a file that has a code.
use fenice_1_12_with_h.Prelude.{
  ℕ, suc, ◌+◌, ◌%◌, ◌^◌, ◌<◌, ◌≡◌, refl, sym, ap, ◌∙◌, List, [], ◌∷◌, ◌++◌, some, false, length,
  length-append, arith,
}
use mathlib.Core.List.{append_assoc}
use fenice_1_12_with_h.Mpeg.{is_start_code, search_code, next_start_code}
use fenice_1_12_with_h.Mpeg.Cut.{IsClear}

-- The first code behind `before` ends in a clear stretch.
is_start_code-IsClear :
    (a b c x : ℕ) (file before behind : List ℕ)
    → a ∷ b ∷ c ∷ file ≡ x ∷ before ++ 0 ∷ 0 ∷ behind
    → IsClear (x ∷ before ++ 0 ∷ 0 ∷ [])
    → is_start_code a b c ≡ false
is_start_code-IsClear a b c x file [] behind e h = ground (arith, h.0, e)
is_start_code-IsClear a b c x file (y ∷ []) behind e h = ground (arith, h.0, e)
is_start_code-IsClear a b c x file (y ∷ z ∷ before) behind e h = ground (arith, h.0, e)

IsClear-tail : (x : ℕ) (xs : List ℕ) → IsClear (x ∷ xs) → IsClear xs
IsClear-tail x [] h = tt
IsClear-tail x (y ∷ []) h = tt
IsClear-tail x (y ∷ z ∷ xs) h = h.1

tail_of : {x y : ℕ} {xs ys : List ℕ} → x ∷ xs ≡ y ∷ ys → xs ≡ ys
tail_of e = ground (arith, e)

head_of : {x y : ℕ} {xs ys : List ℕ} → x ∷ xs ≡ y ∷ ys → x ≡ y
head_of e = ground (arith, e)

here : (count : ℕ) → count < 2 ^ 32 → count ≡ (count + 0) % 2 ^ 32
here count small = omega arith

further : (count n : ℕ) → ((count + 1) % 2 ^ 32 + n) % 2 ^ 32 ≡ (count + suc n) % 2 ^ 32
further count n = omega arith

too_short :
    {a b c x : ℕ} (before rest : List ℕ) → a ∷ b ∷ c ∷ [] ≡ x ∷ before ++ 0 ∷ 0 ∷ 1 ∷ rest → ⊥
too_short before rest e = omega (arith, ap length e, length-append before (0 ∷ 0 ∷ 1 ∷ rest))

code_of :
    {a b c : ℕ} {file rest : List ℕ}
    → a ∷ b ∷ c ∷ file ≡ 0 ∷ 0 ∷ 1 ∷ rest
    → (a ≡ 0) × (b ≡ 0) × (c ≡ 1) × (file ≡ rest)
code_of e = (ground (arith, e), ground (arith, e), ground (arith, e), ground (arith, e))

search_code_first :
    (before : List ℕ) (count : ℕ) (buf : List ℕ) (a b c : ℕ) (file rest : List ℕ)
    → count < 2 ^ 32
    → a ∷ b ∷ c ∷ file ≡ before ++ 0 ∷ 0 ∷ 1 ∷ rest
    → IsClear (before ++ 0 ∷ 0 ∷ [])
    → search_code count buf a b c file ≡ record {
      result = some ((count + length before) % 2 ^ 32);
      buf = buf ++ (before ++ 0 ∷ 0 ∷ 1 ∷ []);
      unread = rest;
    }
unfolding search_code
search_code_first [] count buf a b c [] rest small e h =
    let (x, y, z, w) = code_of e in
    rw (x, y, z, sym w)
      λ i. record { result = some (here count small i); buf = buf ++ 0 ∷ 0 ∷ 1 ∷ []; unread = [] }
search_code_first [] count buf a b c (d ∷ file) rest small e h =
    let (x, y, z, w) = code_of e in
    rw (x, y, z, sym w)
      λ i. record {
        result = some (here count small i);
        buf = buf ++ 0 ∷ 0 ∷ 1 ∷ [];
        unread = d ∷ file;
      }
search_code_first (x ∷ before) count buf a b c [] rest small e h = absurd (too_short before rest e)
search_code_first (x ∷ before) count buf a b c (d ∷ file) rest small e h =
    rw (is_start_code-IsClear a b c x (d ∷ file) before (1 ∷ rest) e h) (
      search_code_first before ((count + 1) % 2 ^ 32) (buf ++ a ∷ []) b c d file rest (omega arith)
        (tail_of e) (IsClear-tail x _ h)
      ∙ (λ i. record {
        result = some (further count (length before) i);
        buf =
            (append_assoc buf (a ∷ []) (before ++ 0 ∷ 0 ∷ 1 ∷ [])
                ∙ ap (λ y. buf ++ y ∷ (before ++ 0 ∷ 0 ∷ 1 ∷ [])) (head_of e))
              i;
        unread = rest;
      }))

zero_lem : (n : ℕ) → (0 + n) % 2 ^ 32 ≡ n % 2 ^ 32
zero_lem n = omega arith

search_code_zero :
    (before buf : List ℕ) (a b c : ℕ) (file rest : List ℕ)
    → a ∷ b ∷ c ∷ file ≡ before ++ 0 ∷ 0 ∷ 1 ∷ rest
    → IsClear (before ++ 0 ∷ 0 ∷ [])
    → search_code 0 buf a b c file ≡ record {
      result = some (length before % 2 ^ 32);
      buf = buf ++ (before ++ 0 ∷ 0 ∷ 1 ∷ []);
      unread = rest;
    }
search_code_zero before buf a b c file rest e h =
    search_code_first before 0 buf a b c file rest (omega arith) e h ∙ (λ i. record {
      result = some (zero_lem (length before) i);
      buf = buf ++ (before ++ 0 ∷ 0 ∷ 1 ∷ []);
      unread = rest;
    })

-- next_start_code finds the first code of the file, where the count of the bytes before it fits.
pub next_start_code_first :
    (before buf rest : List ℕ)
    → IsClear (before ++ 0 ∷ 0 ∷ [])
    → next_start_code buf (before ++ 0 ∷ 0 ∷ 1 ∷ rest) ≡ record {
      result = some (length before % 2 ^ 32);
      buf = buf ++ (before ++ 0 ∷ 0 ∷ 1 ∷ []);
      unread = rest;
    }
unfolding next_start_code
next_start_code_first [] buf rest h = search_code_zero [] buf 0 0 1 rest rest refl h
next_start_code_first (a ∷ []) buf rest h =
    search_code_zero (a ∷ []) buf a 0 0 (1 ∷ rest) rest refl h
next_start_code_first (a ∷ b ∷ []) buf rest h =
    search_code_zero (a ∷ b ∷ []) buf a b 0 (0 ∷ 1 ∷ rest) rest refl h
next_start_code_first (a ∷ b ∷ c ∷ before) buf rest h =
    search_code_zero (a ∷ b ∷ c ∷ before) buf a b c _ rest refl h
