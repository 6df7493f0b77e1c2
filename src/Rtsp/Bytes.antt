-- ===== src/Rtsp/Bytes.antt =====
-- Bytes stored into an array and read back.
use fenice_1_12_with_h.Prelude.{
  ℕ, zero, suc, ◌+◌, ◌-◌, ◌<◌, ◌≤◌, ◌≡◌, refl, ap, ◌∙◌, List, [], ◌∷◌, ◌++◌, length, update, arith,
}
use fenice_1_12_with_h.Rtsp.Buffer.{store, bytes_from}

pub bytes_from-append :
    (f : ℕ → ℕ) (at n m : ℕ)
    → bytes_from f at (n + m) ≡ bytes_from f at n ++ bytes_from f (at + n) m
bytes_from-append f at zero m = ground arith
bytes_from-append f at (suc n) m =
    let count : suc n + m ≡ suc (n + m) = omega arith in
    let place : suc at + n ≡ at + suc n = omega arith in
    ap (bytes_from f at) count
    ∙ ap (◌∷◌ (f at)) (
        bytes_from-append f (suc at) n m
        ∙ ap (λ j. bytes_from f (suc at) n ++ bytes_from f j m) place)

bytes_from_ext :
    (f g : ℕ → ℕ) (at n : ℕ)
    → ((i : ℕ) → at ≤ i → i < at + n → f i ≡ g i)
    → bytes_from f at n ≡ bytes_from g at n
bytes_from_ext f g at zero h = refl
bytes_from_ext f g at (suc n) h =
    let rest = bytes_from_ext f g (suc at) n (λ i le lt. h i (omega arith) (omega arith)) in
    let first = h at (omega arith) (omega arith) in ground (arith, rest, first)

store-before : (f : ℕ → ℕ) (at : ℕ) (xs : List ℕ) (i : ℕ) → i < at → store f at xs i ≡ f i
store-before f at [] i lt = refl
store-before f at (x ∷ xs) i lt = ground (arith, store-before f (suc at) xs i)

store-at :
    (f : ℕ → ℕ) (at : ℕ) (xs : List ℕ) (z : ℕ → ℕ)
    → ((i : ℕ) → at ≤ i → i < at + length xs → z i ≡ store f at xs i)
    → bytes_from z at (length xs) ≡ xs
store-at f at [] z h = refl
store-at f at (x ∷ xs) z h =
    let first = h at (omega arith) (omega arith) in
    let rest =
      store-at f (suc at) xs z (λ i le lt. ground (arith, h i (omega arith) (omega arith))) in
    ground (arith, first, rest)

-- The bytes that were there, and those stored behind them.
pub bytes_from-store :
    (f : ℕ → ℕ) (from to : ℕ) (text : List ℕ)
    → from ≤ to
    → bytes_from (update (store f to text) (to + length text) 0) from (to + length text - from)
      ≡ bytes_from f from (to - from) ++ text
bytes_from-store f from to text le =
    let buf = update (store f to text) (to + length text) 0 in
    let count : to + length text - from ≡ (to - from) + length text = omega arith in
    let place : from + (to - from) ≡ to = omega arith in
    let old : bytes_from buf from (to - from) ≡ bytes_from f from (to - from) =
      bytes_from_ext buf f from (to - from)
        (λ i lo hi. ground (arith, store-before f to text i (omega (arith, hi, le)), hi, le)) in
    let stored : bytes_from buf to (length text) ≡ text =
      store-at f to text buf (λ i lo hi. ground (arith, hi)) in
    ap (bytes_from buf from) count
    ∙ bytes_from-append buf from (to - from) (length text)
    ∙ ap (λ j. bytes_from buf from (to - from) ++ bytes_from buf j (length text)) place
    ∙ ap (λ xs. xs ++ bytes_from buf to (length text)) old
    ∙ ap (◌++◌ (bytes_from f from (to - from))) stored
