-- ===== src/Rtsp/Request.antt =====
-- A request of lines, as RTSP_full_msg_rcvd finds it at the start of the input.
use mathlib.Core.Path.{subst}
use fenice_1_12_with_h.Prelude.{
  ℕ, zero, suc, ◌+◌, ◌-◌, ◌%◌, ◌^◌, ◌<◌, ◌≤◌, ◌≡◌, refl, sym, ap, ◌∙◌, ◌⊎◌, inl, inr, length-append,
  true, false, List, [], ◌∷◌, ◌++◌, some, ltb, leb, ◌==◌, length, All, arith,
}
use fenice_1_12_with_h.Rtsp.Buffer.{RtspBuffer, buffer_size}
use fenice_1_12_with_h.Rtsp.Message.{
  method_rcvd, is_blank, terminators, starts_with, content_length, trailing_nuls, received, stop,
  again, line_end, round, proceed, lines, full_msg_rcvd,
}
use fenice_1_12_with_h.Rtsp.Framing.{
  Holds, Holds-append, is_text, IsLine, IsField, strcspn-line, starts_with-line, terminators-two,
  terminators-four,
}

-- Each line with CR and LF behind it, and an empty line at the end.
abbrev pub print : List (List ℕ) → List ℕ
print [] = 13 ∷ 10 ∷ []
print (xs ∷ ls) = xs ++ (13 ∷ 10 ∷ print ls)

line_end-more :
    (r : RtspBuffer) (eol : ℕ)
    → eol + 2 < r.in_size
    → terminators (r.in_size - eol) r.in_buffer eol 0 0 ≡ (2, 0)
    → Holds r.in_buffer eol (13 ∷ 10 ∷ [])
    → starts_with content_length r.in_buffer (eol + 2 + 0) ≡ false
    → line_end r eol false 0 ≡ again (eol + 2 + 0) false 0
unfolding line_end
line_end-more r eol lt t h n =
    let early : ltb r.in_size eol ≡ false = ground (arith, lt) in
    let differ : (r.in_buffer eol == r.in_buffer (eol + 1)) ≡ false = ground (arith, h.0, h.1.0) in
    let enough : leb r.in_size (eol + 2 + 0) ≡ false = ground (arith, lt) in
    rw (t, early, differ, enough, n) refl

line_end-last :
    (r : RtspBuffer) (eol : ℕ)
    → eol + 4 ≤ r.in_size
    → r.in_size < 2 ^ 31
    → terminators (r.in_size - eol) r.in_buffer eol 0 0 ≡ (4, 0)
    → line_end r eol false 0 ≡ stop (received r (eol + 4) 0)
unfolding line_end
line_end-last r eol le small t =
    let early : ltb r.in_size eol ≡ false = ground (arith, le) in
    let end : (eol + 4 + 0 + 0) % 2 ^ 32 ≡ eol + 4 = omega (arith, le, small) in
    let fits : leb (eol + 4) r.in_size ≡ true = ground (arith, le) in rw (t, early, end, fits) refl

-- Where the input goes on behind the request: not at all, or with a text byte.
abbrev pub IsTail : RtspBuffer → ℕ → Type 0
IsTail r end = (r.in_size ≡ end) ⊎ ((end < r.in_size) × (is_text (r.in_buffer end) ≡ true))

trailing_nuls-stop :
    (left : ℕ) (buf : ℕ → ℕ) (at bl : ℕ)
    → is_text (buf at) ≡ true
    → trailing_nuls left buf at bl ≡ bl
unfolding trailing_nuls
trailing_nuls-stop zero buf at bl t = refl
trailing_nuls-stop (suc left) buf at bl t = ground (arith, t)

no_nuls :
    (r : RtspBuffer) (end : ℕ)
    → IsTail r end
    → r.in_size < 2 ^ 31
    → received r end 0 ≡ method_rcvd end 0
unfolding trailing_nuls
no_nuls r end (inl e) small =
    let none_left : (r.in_size + 2 ^ 32 - end) % 2 ^ 32 ≡ 0 = omega (arith, e) in
    let same : (end + 2 ^ 32 - 0) % 2 ^ 32 ≡ end = omega (arith, e, small) in
    rw (none_left, same) refl
no_nuls r end (inr (lt, t)) small =
    let same : (end + 2 ^ 32 - 0) % 2 ^ 32 ≡ end = omega (arith, lt, small) in
    rw (same, trailing_nuls-stop ((r.in_size + 2 ^ 32 - end) % 2 ^ 32) r.in_buffer end 0 t) refl

Holds-line :
    (buf : ℕ → ℕ) (at : ℕ) (xs rest : List ℕ)
    → Holds buf at (xs ++ (13 ∷ rest))
    → Holds buf at (xs ++ (13 ∷ []))
Holds-line buf at [] rest h = (h.0, tt)
Holds-line buf at (x ∷ xs) rest h = (h.0, Holds-line buf (at + 1) xs rest h.1)

pub IsTail-le : (r : RtspBuffer) (end : ℕ) → IsTail r end → end ≤ r.in_size
IsTail-le r end (inl e) = omega (arith, e)
IsTail-le r end (inr (lt, t)) = omega (arith, lt)

four_left :
    (r : RtspBuffer) (eol : ℕ)
    → IsTail r (eol + 4)
    → (r.in_size - eol - 4 ≡ 0) ⊎ (is_text (r.in_buffer (eol + 1 + 1 + 1 + 1)) ≡ true)
four_left r eol (inl e) = inl (omega (arith, e))
four_left r eol (inr (lt, t)) =
    let at : eol + 4 ≡ eol + 1 + 1 + 1 + 1 = omega arith in
    inr (subst (λ i. is_text (r.in_buffer i) ≡ true) at t)

pub first_byte :
    (ys zs : List ℕ) (buf : ℕ → ℕ) (at : ℕ)
    → IsField ys
    → Holds buf at (ys ++ zs)
    → (is_text (buf at) ≡ true) × (is_blank (buf at) ≡ false)
first_byte [] zs buf at w h = absurd (omega (arith, w.line.some_byte))
first_byte (y ∷ ys) zs buf at w h = (rw h.0 w.line.text.0, rw h.0 w.no_blank)

module _ (r : RtspBuffer) (small : r.in_size ≤ buffer_size) where
  round-line :
      (xs rest : List ℕ) (ml : ℕ)
      → IsLine xs
      → Holds r.in_buffer ml (xs ++ (13 ∷ rest))
      → ml + length xs < r.in_size
      → round r ml false 0 ≡ line_end r (ml + length xs) false 0
  round-line xs rest ml v h lt =
      let early : ltb r.in_size ml ≡ false = ground (arith, lt) in
      let full : (length xs == 0) ≡ false = ground (arith, v.some_byte) in
      let line : Holds r.in_buffer ml (xs ++ (13 ∷ [])) = Holds-line r.in_buffer ml xs rest h in
      let found =
        strcspn-line xs (buffer_size - ml) r.in_buffer ml v.text line (omega (arith, lt, small)) in
      rw (early, found, full) refl

  round-more :
      (xs ys rest : List ℕ) (ml : ℕ)
      → IsLine xs
      → IsField ys
      → Holds r.in_buffer ml (xs ++ (13 ∷ 10 ∷ (ys ++ (13 ∷ rest))))
      → ml + length xs + 2 < r.in_size
      → round r ml false 0 ≡ again (ml + length xs + 2 + 0) false 0
  round-more xs ys rest ml v w h lt =
      let eol = ml + length xs in
      let back = (Holds-append r.in_buffer ml xs (13 ∷ 10 ∷ (ys ++ (13 ∷ rest))) h).1 in
      let next = back.1.1 in
      let (text, blank) = first_byte ys (13 ∷ rest) r.in_buffer (eol + 1 + 1) w next in
      let left : r.in_size - eol ≡ suc (suc (r.in_size - eol - 2)) = omega (arith, lt) in
      let at : eol + 1 + 1 ≡ eol + 2 + 0 = omega arith in
      let two =
        terminators-two (r.in_size - eol - 2) r.in_buffer eol (back.0, (back.1.0, tt)) text blank in
      round-line xs (10 ∷ (ys ++ (13 ∷ rest))) ml v h (omega (arith, lt))
      ∙ line_end-more r eol lt (ap (λ k. terminators k r.in_buffer eol 0 0) left ∙ two)
          (back.0, (back.1.0, tt))
          (subst (λ i. starts_with content_length r.in_buffer i ≡ false) at
            (starts_with-line content_length ys r.in_buffer (eol + 1 + 1) (omega arith)
              (Holds-line r.in_buffer (eol + 1 + 1) ys rest next) w.no_length))

  round-last :
      (xs : List ℕ) (ml : ℕ)
      → IsLine xs
      → Holds r.in_buffer ml (print (xs ∷ []))
      → IsTail r (ml + length xs + 4)
      → round r ml false 0 ≡ stop (method_rcvd (ml + length xs + 4) 0)
  round-last xs ml v h tail =
      let eol = ml + length xs in
      let le = IsTail-le r (eol + 4) tail in
      let back = (Holds-append r.in_buffer ml xs (13 ∷ 10 ∷ 13 ∷ 10 ∷ []) h).1 in
      let left : r.in_size - eol ≡ suc (suc (suc (suc (r.in_size - eol - 4)))) =
        omega (arith, le) in
      let four =
        terminators-four (r.in_size - eol - 4) r.in_buffer eol back (four_left r eol tail) in
      let bound : r.in_size < 2 ^ 31 = omega (arith, small) in
      round-line xs (10 ∷ 13 ∷ 10 ∷ []) ml v h (omega (arith, le))
      ∙ line_end-last r eol le bound (ap (λ k. terminators k r.in_buffer eol 0 0) left ∙ four)
      ∙ ap stop (no_nuls r (eol + 4) tail bound)

-- The lines behind the first one.
lines-print :
    (r : RtspBuffer) (small : r.in_size ≤ buffer_size) (xs : List ℕ) (ls : List (List ℕ)) (ml : ℕ)
    → IsLine xs
    → All IsField ls
    → Holds r.in_buffer ml (print (xs ∷ ls))
    → IsTail r (ml + length (print (xs ∷ ls)))
    → lines (suc (length ls)) r ml false 0 ≡ some (method_rcvd (ml + length (print (xs ∷ ls))) 0)
unfolding lines
lines-print r small xs [] ml v ws h tail =
    let end : ml + length (print (xs ∷ [])) ≡ ml + length xs + 4 =
      omega (arith, length-append xs (13 ∷ 10 ∷ 13 ∷ 10 ∷ [])) in
    ap (proceed (lines 0 r)) (round-last r small xs ml v h (subst (IsTail r) end tail))
    ∙ ap (λ e. some (method_rcvd e 0)) (sym end)
lines-print r small xs (ys ∷ ls) ml v ws h tail =
    let next = ml + length xs + 2 + 0 in
    let end : next + length (print (ys ∷ ls)) ≡ ml + length (print (xs ∷ ys ∷ ls)) =
      omega (arith, length-append xs (13 ∷ 10 ∷ print (ys ∷ ls))) in
    let some_left : 0 < length (print (ys ∷ ls)) =
      omega (arith, length-append ys (13 ∷ 10 ∷ print ls)) in
    let lt : ml + length xs + 2 < r.in_size =
      omega (arith, end, some_left, IsTail-le r (ml + length (print (xs ∷ ys ∷ ls))) tail) in
    let at : ml + length xs + 1 + 1 ≡ next = omega arith in
    let back = (Holds-append r.in_buffer ml xs (13 ∷ 10 ∷ print (ys ∷ ls)) h).1 in
    ap (proceed (lines (suc (length ls)) r))
      (round-more r small xs ys (10 ∷ print ls) ml v ws.0 h lt)
    ∙ lines-print r small ys ls next ws.0.line ws.1
        (subst (λ i. Holds r.in_buffer i (print (ys ∷ ls))) at back.1.1)
        (subst (IsTail r) (sym end) tail)
    ∙ ap (λ e. some (method_rcvd e 0)) end

-- A request of lines without a body, which does not begin with a dollar sign, at the start of an
-- input that ends with it or goes on with a byte of text: as many rounds as it has lines find it
-- whole, with the length of its text and no body.
pub full_msg_rcvd-print :
    (r : RtspBuffer) (xs : List ℕ) (ls : List (List ℕ))
    → r.in_size ≤ buffer_size
    → IsLine xs
    → All IsField ls
    → (r.in_buffer 0 == b'$') ≡ false
    → Holds r.in_buffer 0 (print (xs ∷ ls))
    → IsTail r (length (print (xs ∷ ls)))
    → full_msg_rcvd (suc (length ls)) r ≡ some (method_rcvd (length (print (xs ∷ ls))) 0)
unfolding full_msg_rcvd
full_msg_rcvd-print r xs ls small v ws text h tail =
    let from : length (print (xs ∷ ls)) ≡ 0 + length (print (xs ∷ ls)) = omega arith in
    rw text (
      lines-print r small xs ls 0 v ws h (subst (IsTail r) from tail)
      ∙ ap (λ e. some (method_rcvd e 0)) (sym from))
