-- ===== src/Mpeg/Video/Extension.antt =====
-- read_picture_coding_ext on the extension of a picture, as ISO 13818 lays it out.
use fenice_1_12_with_h.Prelude.{
  ℕ, ◌+◌, ◌*◌, ◌/◌, ◌%◌, ◌^◌, ◌<◌, ◌≡◌, refl, ap, ◌∙◌, List, [], ◌∷◌, ◌++◌, arith,
}
use fenice_1_12_with_h.Mpeg.System.Search.{next_start_code_first}
use fenice_1_12_with_h.Mpeg.Video.{Head2, CodingExt, set_where, read_picture_coding_ext}
use fenice_1_12_with_h.Mpeg.Video.Extra.{IsPiece, print_code}

-- The fields of an extension are those of Head2 but for `x` and `e`; `d` is composite_display_flag.
pub record IsExtension (x : Head2) : Type 0 where
  pub f00_lt : x.f00 < 2 ^ 4
  pub f01_lt : x.f01 < 2 ^ 4
  pub f10_lt : x.f10 < 2 ^ 4
  pub f11_lt : x.f11 < 2 ^ 4
  pub dc_lt : x.dc < 2 ^ 2
  pub ps_lt : x.ps < 2 ^ 2
  pub t_lt : x.t < 2
  pub p_lt : x.p < 2
  pub c_lt : x.c < 2
  pub q_lt : x.q < 2
  pub v_lt : x.v < 2
  pub a_lt : x.a < 2
  pub r_lt : x.r < 2
  pub h_lt : x.h < 2
  pub g_lt : x.g < 2
  pub d_lt : x.d < 2

-- The five bytes: the fields stand behind the number 8 of the extension.
abbrev pub flag_byte : Head2 → ℕ
flag_byte x =
    x.t * 2 ^ 7
    + x.p * 2 ^ 6
    + x.c * 2 ^ 5
    + x.q * 2 ^ 4
    + x.v * 2 ^ 3
    + x.a * 2 ^ 2
    + x.r * 2
    + x.h

abbrev pub print_extension_of : Head2 → ℕ → List ℕ → List ℕ
print_extension_of x low rest =
    (8 * 2 ^ 4 + x.f00)
    ∷ (x.f01 * 2 ^ 4 + x.f10)
    ∷ (x.f11 * 2 ^ 4 + x.dc * 2 ^ 2 + x.ps)
    ∷ flag_byte x
    ∷ (x.g * 2 ^ 7 + x.d * 2 ^ 6 + low)
    ∷ rest

-- The header of the stream after the extension: seven of its flags are never cleared, and
-- `d` is 0.
abbrev pub joined : Head2 → Head2 → Head2
joined x old = record x {
  x = 0;
  e = 0;
  d = 0;
  p = set_where x.p old.p;
  c = set_where x.c old.c;
  v = set_where x.v old.v;
  a = set_where x.a old.a;
  r = set_where x.r old.r;
  h = set_where x.h old.h;
  g = set_where x.g old.g;
}

pub record IsExtensionRead (x old : Head2) (code : ℕ) (rest : List ℕ) (r : CodingExt) : Type 0 where
  pub head_read : r.vsh2 ≡ joined x old
  pub next : r.final_byte ≡ code
  pub behind : r.input.unread ≡ rest

bit_7 : (x : Head2) → IsExtension x → flag_byte x / 2 ^ 7 % 2 ≡ x.t
bit_7 x l = omega (arith, l.t_lt, l.p_lt, l.c_lt, l.q_lt, l.v_lt, l.a_lt, l.r_lt, l.h_lt)

bit_6 : (x : Head2) → IsExtension x → flag_byte x / 2 ^ 6 % 2 ≡ x.p
bit_6 x l = omega (arith, l.p_lt, l.c_lt, l.q_lt, l.v_lt, l.a_lt, l.r_lt, l.h_lt)

bit_5 : (x : Head2) → IsExtension x → flag_byte x / 2 ^ 5 % 2 ≡ x.c
bit_5 x l = omega (arith, l.c_lt, l.q_lt, l.v_lt, l.a_lt, l.r_lt, l.h_lt)

bit_4 : (x : Head2) → IsExtension x → flag_byte x / 2 ^ 4 % 2 ≡ x.q
bit_4 x l = omega (arith, l.q_lt, l.v_lt, l.a_lt, l.r_lt, l.h_lt)

bit_3 : (x : Head2) → IsExtension x → flag_byte x / 2 ^ 3 % 2 ≡ x.v
bit_3 x l = omega (arith, l.v_lt, l.a_lt, l.r_lt, l.h_lt)

bit_2 : (x : Head2) → IsExtension x → flag_byte x / 2 ^ 2 % 2 ≡ x.a
bit_2 x l = omega (arith, l.a_lt, l.r_lt, l.h_lt)

bit_1 : (x : Head2) → IsExtension x → flag_byte x / 2 % 2 ≡ x.r
bit_1 x l = omega (arith, l.r_lt, l.h_lt)

bit_0 : (x : Head2) → IsExtension x → flag_byte x % 2 ≡ x.h
bit_0 x l = omega (arith, l.h_lt)

f00_lem : (x : Head2) → IsExtension x → (8 * 2 ^ 4 + x.f00) % 2 ^ 4 ≡ x.f00
f00_lem x l = omega (arith, l.f00_lt)

f01_lem : (x : Head2) → IsExtension x → (x.f01 * 2 ^ 4 + x.f10) / 2 ^ 4 % 2 ^ 4 ≡ x.f01
f01_lem x l = omega (arith, l.f01_lt, l.f10_lt)

f10_lem : (x : Head2) → IsExtension x → (x.f01 * 2 ^ 4 + x.f10) % 2 ^ 4 ≡ x.f10
f10_lem x l = omega (arith, l.f10_lt)

f11_lem :
    (x : Head2) → IsExtension x → (x.f11 * 2 ^ 4 + x.dc * 2 ^ 2 + x.ps) / 2 ^ 4 % 2 ^ 4 ≡ x.f11
f11_lem x l = omega (arith, l.f11_lt, l.dc_lt, l.ps_lt)

dc_lem : (x : Head2) → IsExtension x → (x.f11 * 2 ^ 4 + x.dc * 2 ^ 2 + x.ps) / 2 ^ 2 % 2 ^ 2 ≡ x.dc
dc_lem x l = omega (arith, l.dc_lt, l.ps_lt)

ps_lem : (x : Head2) → IsExtension x → (x.f11 * 2 ^ 4 + x.dc * 2 ^ 2 + x.ps) % 2 ^ 2 ≡ x.ps
ps_lem x l = omega (arith, l.ps_lt)

g_lem :
    (x : Head2) (low : ℕ)
    → IsExtension x
    → low < 2 ^ 6
    → (x.g * 2 ^ 7 + x.d * 2 ^ 6 + low) / 2 ^ 7 % 2 ≡ x.g
g_lem x low l hl = omega (arith, l.g_lt, l.d_lt)

always : (n : ℕ) → n < 2 → set_where n 0 ≡ n
always n h = ground arith

-- read_picture_coding_ext reads back the fields of an extension that fit, but for eight flags, and stands
-- behind the number of the next code. Seven of them are only ever set: where the stream's header has
-- one from an earlier picture, it keeps it. The eighth, composite_display_flag in the field `d`, is 0
-- whatever the extension says.
pub read_picture_coding_ext-print_extension_of :
    (old : ℕ → ℕ) (x vsh2 : Head2) (low : ℕ) (bytes : List ℕ) (code : ℕ) (buf rest : List ℕ)
    → IsExtension x
    → low < 2 ^ 6
    → IsPiece bytes
    → IsExtensionRead x vsh2 code rest (
        read_picture_coding_ext old vsh2
          (record { buf = buf; unread = print_extension_of x low (print_code bytes code rest) }))
unfolding read_picture_coding_ext
read_picture_coding_ext-print_extension_of old x vsh2 low bytes code buf rest l hl hb =
    let b1 : ℕ = 8 * 2 ^ 4 + x.f00 in
    let b2 : ℕ = x.f01 * 2 ^ 4 + x.f10 in
    let b3 : ℕ = x.f11 * 2 ^ 4 + x.dc * 2 ^ 2 + x.ps in
    let b5 : ℕ = x.g * 2 ^ 7 + x.d * 2 ^ 6 + low in
    let buf2 = ((((buf ++ b1 ∷ []) ++ b2 ∷ []) ++ b3 ∷ []) ++ flag_byte x ∷ []) ++ b5 ∷ [] in
    rw (next_start_code_first bytes buf2 (code ∷ rest) hb) (record {
      head_read = λ i. record {
        x = 0;
        e = 0;
        f00 = f00_lem x l i;
        f01 = f01_lem x l i;
        f10 = f10_lem x l i;
        f11 = f11_lem x l i;
        dc = dc_lem x l i;
        ps = ps_lem x l i;
        t = (ap (λ b. set_where b 0) (bit_7 x l) ∙ always x.t l.t_lt) i;
        p = set_where (bit_6 x l i) vsh2.p;
        c = set_where (bit_5 x l i) vsh2.c;
        q = (ap (λ b. set_where b 0) (bit_4 x l) ∙ always x.q l.q_lt) i;
        v = set_where (bit_3 x l i) vsh2.v;
        a = set_where (bit_2 x l i) vsh2.a;
        r = set_where (bit_1 x l i) vsh2.r;
        h = set_where (bit_0 x l i) vsh2.h;
        g = set_where (g_lem x low l hl i) vsh2.g;
        d = 0;
      };
      next = refl;
      behind = refl;
    })
