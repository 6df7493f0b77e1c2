-- ===== src/Mpeg/Sequence/Rate.antt =====
-- The bit rate in the header of a sequence: 18 bits.
use fenice_1_12_with_h.Prelude.{
  ℕ, suc, zero, ◌+◌, ◌*◌, ◌/◌, ◌%◌, ◌^◌, ◌<◌, ◌≡◌, ap, ◌∙◌, [], ◌∷◌, arith,
}
use fenice_1_12_with_h.Mpeg.Sequence.{bit_rate}

-- The loop over `n` bits of the byte `b`.
abbrev taken : ℕ → ℕ → ℕ → ℕ
taken zero x b = x
taken (suc n) x b = taken n ((x * 2) % 2 ^ 32 + b / 2 ^ 7) (b * 2 % 2 ^ 8)

taken_8 : (x b : ℕ) → x < 2 ^ 20 → b < 2 ^ 8 → taken 8 x b ≡ x * 2 ^ 8 + b
taken_8 x b hx hb = omega arith

taken_2 : (x b : ℕ) → x < 2 ^ 20 → b < 2 ^ 8 → taken 2 x b ≡ x * 2 ^ 2 + b / 2 ^ 6
taken_2 x b hx hb = omega arith

pub bit_rate_lem :
    (tmp b1 b2 b3 b4 : ℕ)
    → b1 < 2 ^ 8
    → b2 < 2 ^ 8
    → b3 < 2 ^ 8
    → bit_rate 18 0 0 tmp (b1 ∷ b2 ∷ b3 ∷ b4 ∷ []) ≡ b1 * 2 ^ 10 + b2 * 2 ^ 2 + b3 / 2 ^ 6
unfolding bit_rate
bit_rate_lem tmp b1 b2 b3 b4 h1 h2 h3 =
    ap (λ x. taken 2 (taken 8 x b2) b3) (taken_8 0 b1 (omega arith) h1)
    ∙ ap (λ x. taken 2 x b3) (taken_8 (0 * 2 ^ 8 + b1) b2 (omega arith) h2)
    ∙ taken_2 _ b3 (omega arith) h3
    ∙ omega arith
