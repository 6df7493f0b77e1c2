-- ===== src/Mpeg/System/Stamp.antt =====
-- The times of an MPEG system stream: the five bytes of one, and what is read of them.
use fenice_1_12_with_h.Prelude.{
  ℕ, ◌+◌, ◌*◌, ◌/◌, ◌%◌, ◌^◌, ◌<◌, ◌≡◌, refl, ap, ◌∙◌, List, [], ◌∷◌, ◌++◌, arith,
}
use fenice_1_12_with_h.Mpeg.System.{two_bits, seven_bits, eight_bits, shift_in, read_time}

-- A time of 33 bits behind a prefix of four, as ISO 11172 lays it out, with its marker bits.
abbrev pub time_first : ℕ → ℕ → ℕ
time_first prefix v = prefix * 2 ^ 4 + v / 2 ^ 30 * 2 + 1

abbrev pub time_rest : ℕ → List ℕ
time_rest v =
    v / 2 ^ 22 % 2 ^ 8 ∷ (v / 2 ^ 15 % 2 ^ 7 * 2 + 1) ∷ v / 2 ^ 7 % 2 ^ 8 ∷ (v % 2 ^ 7 * 2 + 1) ∷ []

-- The bits that are read of it.
abbrev pub time_bits : ℕ → ℕ → List ℕ
time_bits prefix v =
    two_bits (time_first prefix v)
    ++ eight_bits (v / 2 ^ 22 % 2 ^ 8)
    ++ seven_bits (v / 2 ^ 15 % 2 ^ 7 * 2 + 1)
    ++ eight_bits (v / 2 ^ 7 % 2 ^ 8)
    ++ seven_bits (v % 2 ^ 7 * 2 + 1)

shift_in-append : (xs ys : List ℕ) (t : ℕ) → shift_in t (xs ++ ys) ≡ shift_in (shift_in t xs) ys
unfolding shift_in
shift_in-append [] ys t = refl
shift_in-append (x ∷ xs) ys t = shift_in-append xs ys _

shift_in-two_bits : (t b : ℕ) → shift_in t (two_bits b) ≡ (t * 2 ^ 2 + b / 2 % 2 ^ 2) % 2 ^ 32
unfolding shift_in
shift_in-two_bits t b = omega arith

shift_in-seven_bits : (t b : ℕ) → shift_in t (seven_bits b) ≡ (t * 2 ^ 7 + b / 2 % 2 ^ 7) % 2 ^ 32
unfolding shift_in
shift_in-seven_bits t b = omega arith

shift_in-eight_bits : (t b : ℕ) → shift_in t (eight_bits b) ≡ (t * 2 ^ 8 + b % 2 ^ 8) % 2 ^ 32
unfolding shift_in
shift_in-eight_bits t b = omega arith

shift_in_first :
    (xs ys : List ℕ) (t u : ℕ) → shift_in t xs ≡ u → shift_in t (xs ++ ys) ≡ shift_in u ys
shift_in_first xs ys t u e = shift_in-append xs ys t ∙ ap (λ v. shift_in v ys) e

-- The time as far as it is shifted in, from the first byte to the last.
to_30 :
    (t prefix v : ℕ)
    → v < 2 ^ 33
    → shift_in t (two_bits (time_first prefix v)) ≡ (t * 2 ^ 2 + v / 2 ^ 30 % 2 ^ 2) % 2 ^ 32
to_30 t prefix v h = shift_in-two_bits t (time_first prefix v) ∙ omega arith

to_22 :
    (t v : ℕ)
    → shift_in ((t * 2 ^ 2 + v / 2 ^ 30 % 2 ^ 2) % 2 ^ 32) (eight_bits (v / 2 ^ 22 % 2 ^ 8))
      ≡ (t * 2 ^ 10 + v / 2 ^ 22 % 2 ^ 10) % 2 ^ 32
to_22 t v = shift_in-eight_bits _ (v / 2 ^ 22 % 2 ^ 8) ∙ omega arith

to_15 :
    (t v : ℕ)
    → shift_in
        ((t * 2 ^ 10 + v / 2 ^ 22 % 2 ^ 10) % 2 ^ 32)
        (seven_bits (v / 2 ^ 15 % 2 ^ 7 * 2 + 1))
      ≡ (t * 2 ^ 17 + v / 2 ^ 15 % 2 ^ 17) % 2 ^ 32
to_15 t v = shift_in-seven_bits _ (v / 2 ^ 15 % 2 ^ 7 * 2 + 1) ∙ omega arith

to_7 :
    (t v : ℕ)
    → shift_in ((t * 2 ^ 17 + v / 2 ^ 15 % 2 ^ 17) % 2 ^ 32) (eight_bits (v / 2 ^ 7 % 2 ^ 8))
      ≡ (t * 2 ^ 25 + v / 2 ^ 7 % 2 ^ 25) % 2 ^ 32
to_7 t v = shift_in-eight_bits _ (v / 2 ^ 7 % 2 ^ 8) ∙ omega arith

to_0 :
    (t v : ℕ)
    → shift_in ((t * 2 ^ 25 + v / 2 ^ 7 % 2 ^ 25) % 2 ^ 32) (seven_bits (v % 2 ^ 7 * 2 + 1))
      ≡ v % 2 ^ 32
to_0 t v = shift_in-seven_bits _ (v % 2 ^ 7 * 2 + 1) ∙ omega arith

-- Whatever the time was before, the 32 bits shifted into it replace it.
pub shift_in-time_bits :
    (t prefix v : ℕ) → v < 2 ^ 33 → shift_in t (time_bits prefix v) ≡ v % 2 ^ 32
shift_in-time_bits t prefix v h =
    shift_in_first (two_bits (time_first prefix v)) _ t _ (to_30 t prefix v h)
    ∙ shift_in_first (eight_bits (v / 2 ^ 22 % 2 ^ 8)) _ _ _ (to_22 t v)
    ∙ shift_in_first (seven_bits (v / 2 ^ 15 % 2 ^ 7 * 2 + 1)) _ _ _ (to_15 t v)
    ∙ shift_in_first (eight_bits (v / 2 ^ 7 % 2 ^ 8)) _ _ _ (to_7 t v)
    ∙ to_0 t v

append-four :
    (xs : List ℕ) (a b c d : ℕ)
    → (((xs ++ a ∷ []) ++ b ∷ []) ++ c ∷ []) ++ d ∷ [] ≡ xs ++ a ∷ b ∷ c ∷ d ∷ []
append-four [] a b c d = refl
append-four (x ∷ xs) a b c d = ap (◌∷◌ x) (append-four xs a b c d)

msb_lem : (prefix v : ℕ) → v < 2 ^ 33 → time_first prefix v / 2 ^ 3 % 2 ≡ v / 2 ^ 32
msb_lem prefix v h = omega arith

-- What read_time makes of the bytes of a time.
pub read_time-time_rest :
    (old : ℕ → ℕ) (prefix v : ℕ) (buf file : List ℕ)
    → v < 2 ^ 33
    → read_time old (time_first prefix v) (record { buf = buf; unread = time_rest v ++ file })
      ≡ record {
        msb = v / 2 ^ 32;
        vett = time_bits prefix v;
        input = record { buf = buf ++ time_rest v; unread = file };
      }
unfolding read_time
read_time-time_rest old prefix v buf file h = λ i. record {
  msb = msb_lem prefix v h i;
  vett = time_bits prefix v;
  input = record {
    buf =
        append-four buf (v / 2 ^ 22 % 2 ^ 8) (v / 2 ^ 15 % 2 ^ 7 * 2 + 1) (v / 2 ^ 7 % 2 ^ 8)
          (v % 2 ^ 7 * 2 + 1) i;
    unread = file;
  };
}
