-- ===== src/Mpeg/Video/Coding.antt =====
-- read_picture_head and read_picture_coding_ext on what ISO 11172 and 13818 lay out.
use mathlib.Core.Path.{subst}
use fenice_1_12_with_h.Prelude.{
  ℕ, Bool, sym, ◌+◌, ◌*◌, ◌/◌, ◌%◌, ◌^◌, ◌<◌, ◌≡◌, inl, inr, refl, ap, ◌∙◌, List, [], ◌∷◌, ◌++◌,
  ◌==◌, ◌||◌, false, if◌then◌else◌, Bool-cases, arith,
}
use fenice_1_12_with_h.Mpeg.System.{Input}
use fenice_1_12_with_h.Mpeg.Video.{
  Standard, Head1, PictureHead, char_in_10, motion, video_end, read_picture_head,
}
use fenice_1_12_with_h.Mpeg.Video.Extra.{
  Tail, IsTailOf, print_ending, IsEnded, video_end-print_ending,
}

-- The header of a picture: its temporal reference, its type, the delay of the buffer, and the fields of
-- the motion vectors with the three bits behind them.
pub record Picture : Type 0 where
  pub reference : ℕ
  pub kind : ℕ
  pub delay : ℕ
  pub full_forward : ℕ
  pub forward : ℕ
  pub full_backward : ℕ
  pub backward : ℕ
  pub behind : ℕ

pub record IsPicture (p : Picture) : Type 0 where
  pub reference_lt : p.reference < 2 ^ 10
  pub kind_lt : p.kind < 2 ^ 3
  pub delay_lt : p.delay < 2 ^ 16
  pub full_forward_lt : p.full_forward < 2
  pub forward_lt : p.forward < 2 ^ 3
  pub full_backward_lt : p.full_backward < 2
  pub backward_lt : p.backward < 2 ^ 3
  pub behind_lt : p.behind < 2 ^ 3

-- Its bytes, of which the last three are those of a picture of type P or B.
abbrev pub print_motion : Picture → List ℕ → List ℕ
print_motion p rest =
    p.delay / 2 ^ 5 % 2 ^ 8
    ∷ (p.delay % 2 ^ 5 * 2 ^ 3 + p.full_forward * 2 ^ 2 + p.forward / 2)
    ∷ (p.forward % 2 * 2 ^ 7 + p.full_backward * 2 ^ 6 + p.backward * 2 ^ 3 + p.behind)
    ∷ rest

abbrev pub has_motion : Picture → Bool
has_motion p = p.kind == 2 || p.kind == 3

abbrev pub print_picture : Picture → List ℕ → List ℕ
print_picture p rest =
    p.reference / 2 ^ 2
    ∷ (p.reference % 2 ^ 2 * 2 ^ 6 + p.kind * 2 ^ 3 + p.delay / 2 ^ 13)
    ∷ (if has_motion p then print_motion p rest else rest)

-- What the header of the video stream is given of it; a temporal reference of ten bits is cut to the
-- eight of a `char`, whose sign fills the field.
abbrev pub head_of : Picture → Head1 → Head1
head_of p vsh1 = record vsh1 {
  p = p.kind;
  tr = char_in_10 (p.reference % 2 ^ 8);
  ffv = if has_motion p then p.full_forward else 0;
  ffc = if has_motion p then p.forward else 0;
  fbv = if p.kind == 3 then p.full_backward else 0;
  bfc = if p.kind == 3 then p.backward else 0;
}

record IsMotionRead (p : Picture) (vsh1 : Head1) (rest : List ℕ) (r : ℕ × Head1 × Input)
    : Type 0 where
  pub head_lem : r.1 ≡ head_of p vsh1
  pub behind : r.2.unread ≡ rest

not_three : (p : Picture) → has_motion p ≡ false → (p.kind == 3) ≡ false
not_three p h = ground (arith, h)

-- The fields of the last two bytes.
forward_lem :
    (p : Picture)
    → IsPicture p
    → (p.delay % 2 ^ 5 * 2 ^ 3 + p.full_forward * 2 ^ 2 + p.forward / 2) % 2 ^ 2 * 2
        + (p.forward % 2 * 2 ^ 7 + p.full_backward * 2 ^ 6 + p.backward * 2 ^ 3 + p.behind)
          / 2 ^ 7
          % 2
      ≡ p.forward
forward_lem p h =
    omega (arith, h.full_forward_lt, h.forward_lt, h.full_backward_lt, h.backward_lt, h.behind_lt)

full_forward_lem :
    (p : Picture)
    → IsPicture p
    → (p.delay % 2 ^ 5 * 2 ^ 3 + p.full_forward * 2 ^ 2 + p.forward / 2) / 2 ^ 2 % 2
      ≡ p.full_forward
full_forward_lem p h = omega (arith, h.full_forward_lt, h.forward_lt)

full_backward_lem :
    (p : Picture)
    → IsPicture p
    → (p.forward % 2 * 2 ^ 7 + p.full_backward * 2 ^ 6 + p.backward * 2 ^ 3 + p.behind) / 2 ^ 6 % 2
      ≡ p.full_backward
full_backward_lem p h = omega (arith, h.full_backward_lt, h.backward_lt, h.behind_lt)

backward_lem :
    (p : Picture)
    → IsPicture p
    → (p.forward % 2 * 2 ^ 7 + p.full_backward * 2 ^ 6 + p.backward * 2 ^ 3 + p.behind)
        / 2 ^ 3
        % 2 ^ 3
      ≡ p.backward
backward_lem p h = omega (arith, h.full_backward_lt, h.backward_lt, h.behind_lt)

where_a :
    {b : Bool} (p : Picture) (n : ℕ)
    → has_motion p ≡ b
    → (if b then n else 0) ≡ (if has_motion p then n else 0)
where_a p n e = sym (ap (λ b. if b then n else 0) e)

where_b : (p : Picture) (n : ℕ) → has_motion p ≡ false → 0 ≡ (if p.kind == 3 then n else 0)
where_b p n e = sym (ap (λ b. if b then n else 0) (not_three p e))

motion-print_motion :
    (old : ℕ → ℕ) (count : ℕ) (p : Picture) (vsh1 : Head1) (buf rest : List ℕ)
    → IsPicture p
    → IsMotionRead p vsh1 rest (
        motion old count
          (record vsh1 { p = p.kind; tr = char_in_10 (p.reference % 2 ^ 8) })
          (record { buf = buf; unread = if has_motion p then print_motion p rest else rest }))
unfolding motion
motion-print_motion old count p vsh1 buf rest h = elim (Bool-cases (has_motion p)) [
  | inl e ↦ rw e (record {
    head_lem = λ i. record vsh1 {
      p = p.kind;
      tr = char_in_10 (p.reference % 2 ^ 8);
      ffv = (full_forward_lem p h ∙ where_a p p.full_forward e) i;
      ffc = (forward_lem p h ∙ where_a p p.forward e) i;
      fbv = if p.kind == 3 then full_backward_lem p h i else 0;
      bfc = if p.kind == 3 then backward_lem p h i else 0;
    };
    behind = refl;
  })
  | inr e ↦ rw e (record {
    head_lem = λ i. record vsh1 {
      p = p.kind;
      tr = char_in_10 (p.reference % 2 ^ 8);
      ffv = where_a p p.full_forward e i;
      ffc = where_a p p.forward e i;
      fbv = where_b p p.full_backward e i;
      bfc = where_b p p.backward e i;
    };
    behind = refl;
  })
]

kind_lem :
    (p : Picture)
    → IsPicture p
    → (p.reference % 2 ^ 2 * 2 ^ 6 + p.kind * 2 ^ 3 + p.delay / 2 ^ 13) / 2 ^ 3 % 2 ^ 3 ≡ p.kind
kind_lem p h = omega (arith, h.kind_lt, h.delay_lt)

reference_lem :
    (p : Picture)
    → IsPicture p
    → (p.reference / 2 ^ 2 * 4
          + (p.reference % 2 ^ 2 * 2 ^ 6 + p.kind * 2 ^ 3 + p.delay / 2 ^ 13) / 2 ^ 6 % 2 ^ 2)
        % 2 ^ 8
      ≡ p.reference % 2 ^ 8
reference_lem p h = omega (arith, h.kind_lt, h.delay_lt)

pub record IsPictureRead (p : Picture) (vsh1 : Head1) (code : ℕ) (rest : List ℕ) (r : PictureHead)
    : Type 0 where
  pub head_read : r.vsh1 ≡ head_of p vsh1
  pub next : r.final_byte ≡ code
  pub behind : r.input.unread ≡ rest

motion-video_end :
    (old : ℕ → ℕ) (std : Standard) (p : Picture) (vsh1 : Head1) (e : Tail) (rest : List ℕ)
    (temp_ref : ℕ) (r : ℕ × Head1 × Input)
    → IsTailOf std e
    → IsMotionRead p vsh1 (print_ending e rest) r
    → IsPictureRead p vsh1 e.code rest (record {
      count = (video_end old std r.0 r.2).0;
      final_byte = (video_end old std r.0 r.2).1;
      temp_ref = temp_ref;
      vsh1 = r.1;
      input = (video_end old std r.0 r.2).2;
    })
motion-video_end old std p vsh1 e rest temp_ref r he m =
    let end =
      subst
        (λ u. IsEnded e.code rest (video_end old std r.0 (record { buf = r.2.buf; unread = u })))
        (sym m.behind) (video_end-print_ending old std r.0 e r.2.buf rest he) in
    record { head_read = m.head_lem; next = end.next; behind = end.behind }

-- read_picture_head reads back the fields of a picture header that fit: the type, and those of the
-- motion vectors where the type has them, else 0. Of the temporal reference the field `tr` has the
-- eight lower bits with the sign that a `char` gives them. All this is so for any standard; the
-- input stands behind the number of the next code, in MPEG-1 past an extension and user data, and else
-- behind the first code.
pub read_picture_head-print_picture :
    (old : ℕ → ℕ) (std : Standard) (p : Picture) (vsh1 : Head1) (e : Tail) (buf rest : List ℕ)
    → IsPicture p
    → IsTailOf std e
    → IsPictureRead p vsh1 e.code rest (
        read_picture_head old std vsh1
          (record { buf = buf; unread = print_picture p (print_ending e rest) }))
unfolding read_picture_head
read_picture_head-print_picture old std p vsh1 e buf rest h he =
    let file = if has_motion p then print_motion p (print_ending e rest) else print_ending e rest in
    let byte1 : ℕ = p.reference / 2 ^ 2 in
    let byte2 : ℕ = p.reference % 2 ^ 2 * 2 ^ 6 + p.kind * 2 ^ 3 + p.delay / 2 ^ 13 in
    let i : Input = record { buf = (buf ++ byte1 ∷ []) ++ byte2 ∷ []; unread = file } in
    let found : ℕ → ℕ → ℕ × Head1 × Input =
      λ k t. motion old 2 (record vsh1 { p = k; tr = char_in_10 t }) i in
    let tail = print_ending e rest in
    let temp_ref : ℕ = (byte1 * 4 + byte2 / 2 ^ 6 % 2 ^ 2) % 2 ^ 8 in
    motion-video_end old std p vsh1 e rest temp_ref (found (byte2 / 2 ^ 3 % 2 ^ 3) temp_ref) he (
      subst (λ k. IsMotionRead p vsh1 tail (found k temp_ref)) (sym (kind_lem p h))
        (subst (λ t. IsMotionRead p vsh1 tail (found p.kind t)) (sym (reference_lem p h))
          (motion-print_motion old 2 p vsh1 i.buf tail h)))
