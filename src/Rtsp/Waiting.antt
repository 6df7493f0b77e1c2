-- ===== src/Rtsp/Waiting.antt =====
-- Requests that stand one behind the other in the input, as RTSP_full_msg_rcvd finds the first of them
-- and RTSP_remove_msg leaves the others.
use native.Mathlib.Nat.{suc-add}
use mathlib.Core.Path.{subst}
use mathlib.Core.List.{append-nil}
use fenice_1_12_with_h.Prelude.{
  ℕ, zero, suc, ◌+◌, ◌-◌, ◌<◌, ◌≤◌, ◌≡◌, refl, sym, ap, ◌∙◌, inl, inr, length-append, Bool, true,
  false, List, [], ◌∷◌, ◌++◌, Option, some, ◌==◌, length, get_or, All, arith,
}
use fenice_1_12_with_h.Rtsp.Buffer.{RtspBuffer, buffer_size, bytes_from, rtsp_remove_msg}
use fenice_1_12_with_h.Rtsp.Message.{
  MsgRcvd, method_rcvd, Round, stop, again, round, proceed, lines, full_msg_rcvd,
}
use fenice_1_12_with_h.Rtsp.Framing.{Holds, Holds-append, IsLine, IsField, is_text}
use fenice_1_12_with_h.Rtsp.Request.{print, IsTail, full_msg_rcvd-print}
use fenice_1_12_with_h.Rtsp.Removal.{rtsp_remove_msg_lem}
use fenice_1_12_with_h.Rtsp.Command.{Command, IsCommand, first_line_of, second_line_of}

proceed_mono :
    (next next' : ℕ → Bool → ℕ → Option MsgRcvd) (o : Round) (m : MsgRcvd)
    → ((ml : ℕ) (mb : Bool) (bl : ℕ) → next ml mb bl ≡ some m → next' ml mb bl ≡ some m)
    → proceed next o ≡ some m
    → proceed next' o ≡ some m
proceed_mono next next' (stop x) m mono h = h
proceed_mono next next' (again ml mb bl) m mono h = mono ml mb bl h

lines_mono :
    (fuel more : ℕ) (r : RtspBuffer) (m : MsgRcvd) (ml : ℕ) (mb : Bool) (bl : ℕ)
    → lines fuel r ml mb bl ≡ some m
    → lines (fuel + more) r ml mb bl ≡ some m
unfolding lines
lines_mono zero more r m ml mb bl h = cc
lines_mono (suc fuel) more r m ml mb bl h = rw suc-add (
    proceed_mono (lines fuel r) (lines (fuel + more) r) (round r ml mb bl) m
      (lines_mono fuel more r m) h)

full_msg_rcvd-text :
    (fuel : ℕ) (r : RtspBuffer)
    → (r.in_buffer 0 == b'$') ≡ false
    → full_msg_rcvd fuel r ≡ lines fuel r 0 false 0
unfolding full_msg_rcvd
full_msg_rcvd-text fuel r t = rw t refl

full_msg_rcvd_mono :
    (fuel more : ℕ) (r : RtspBuffer) (m : MsgRcvd)
    → (r.in_buffer 0 == b'$') ≡ false
    → full_msg_rcvd fuel r ≡ some m
    → full_msg_rcvd (fuel + more) r ≡ some m
full_msg_rcvd_mono fuel more r m t h =
    full_msg_rcvd-text (fuel + more) r t
    ∙ lines_mono fuel more r m 0 false 0 (sym (full_msg_rcvd-text fuel r t) ∙ h)

-- A request, with the words of its first two lines, and the other lines.
pub record Request : Type 0 where
  pub command : Command
  pub others : List (List ℕ)

abbrev pub first_of : Request → List ℕ
first_of q = first_line_of q.command

abbrev pub fields_of : Request → List (List ℕ)
fields_of q = second_line_of q.command ∷ q.others

abbrev pub bytes : Request → List ℕ
bytes q = print (first_of q ∷ fields_of q)

pub record IsRequest (q : Request) : Type 0 where
  pub command : IsCommand q.command
  pub first : IsLine (first_of q)
  pub fields : All IsField (fields_of q)
  pub method : (get_or (first_of q) 0 0 == b'$') ≡ false

abbrev pub all_bytes : List Request → List ℕ
all_bytes [] = []
all_bytes (q ∷ qs) = bytes q ++ all_bytes qs

-- Behind each request no more waits than it has bytes itself.
abbrev pub Shrinks : List Request → Type 0
Shrinks [] = Unit {0}
Shrinks (q ∷ qs) = (length (all_bytes qs) ≤ length (bytes q)) × Shrinks qs

pub length-fields : (xs : List ℕ) (ls : List (List ℕ)) → length ls + 1 ≤ length (print (xs ∷ ls))
length-fields xs [] = omega (arith, length-append xs (13 ∷ 10 ∷ print []))
length-fields xs (ys ∷ ls) =
    omega (arith, length-append xs (13 ∷ 10 ∷ print (ys ∷ ls)), length-fields ys ls)

pub Holds-bytes_from :
    (buf : ℕ → ℕ) (at : ℕ) (xs : List ℕ) → Holds buf at xs → bytes_from buf at (length xs) ≡ xs
Holds-bytes_from buf at [] h = refl
Holds-bytes_from buf at (x ∷ xs) h =
    let next : at + 1 ≡ suc at = omega arith in
    ground (arith, h.0, Holds-bytes_from buf (suc at) xs (subst (λ j. Holds buf j xs) next h.1))

Holds-moved :
    (f g : ℕ → ℕ) (k at : ℕ) (xs : List ℕ)
    → ((i : ℕ) → i < at + length xs → g i ≡ f (i + k))
    → Holds f (at + k) xs
    → Holds g at xs
Holds-moved f g k at [] same h = tt
Holds-moved f g k at (x ∷ xs) same h =
    let next : at + k + 1 ≡ at + 1 + k = omega arith in
    (
      same at (omega arith) ∙ h.0,
      Holds-moved f g k (at + 1) xs (λ i lt. same i (omega arith))
          (subst (λ j. Holds f j xs) next h.1),
    )

first_line :
    (xs ws zs : List ℕ) (buf : ℕ → ℕ) (at : ℕ)
    → IsLine xs
    → (get_or xs 0 0 == b'$') ≡ false
    → Holds buf at ((xs ++ ws) ++ zs)
    → (is_text (buf at) ≡ true) × ((buf at == b'$') ≡ false)
first_line [] ws zs buf at v m h = absurd (omega (arith, v.some_byte))
first_line (x ∷ xs) ws zs buf at v m h = (rw h.0 v.text.0, rw h.0 m)

first_text :
    (q : Request) (zs : List ℕ) (buf : ℕ → ℕ) (at : ℕ)
    → IsRequest q
    → Holds buf at (bytes q ++ zs)
    → (is_text (buf at) ≡ true) × ((buf at == b'$') ≡ false)
first_text q zs buf at v h =
    first_line (first_of q) (13 ∷ 10 ∷ print (fields_of q)) zs buf at v.first v.method h

behind :
    (r : RtspBuffer) (q : Request) (qs : List Request)
    → All IsRequest qs
    → Holds r.in_buffer 0 (bytes q ++ all_bytes qs)
    → r.in_size ≡ length (bytes q ++ all_bytes qs)
    → IsTail r (length (bytes q))
behind r q [] vs h e = inl (e ∙ ap length (append-nil (bytes q)))
behind r q (p ∷ qs) vs h e =
    let end : 0 + length (bytes q) ≡ length (bytes q) = omega arith in
    let back = (Holds-append r.in_buffer 0 (bytes q) (all_bytes (p ∷ qs)) h).1 in
    let start =
      first_text p (all_bytes qs) r.in_buffer (length (bytes q)) vs.0
        (subst (λ j. Holds r.in_buffer j (all_bytes (p ∷ qs))) end back) in
    let more : 0 < length (bytes p) = omega (arith, length-fields (first_of p) (fields_of p)) in
    inr (
      omega (
        arith,
        e,
        more,
        length-append (bytes q) (all_bytes (p ∷ qs)),
        length-append (bytes p) (all_bytes qs),
      ),
      start.0,
    )

rtsp_remove_msg_size :
    (len : ℕ) (r : RtspBuffer) → (rtsp_remove_msg len r).in_size ≡ r.in_size - len
unfolding rtsp_remove_msg
rtsp_remove_msg_size len r = ground arith

module _ (r : RtspBuffer) (q : Request) (qs : List Request) where
  pub found :
      r.in_size ≤ buffer_size
      → IsRequest q
      → All IsRequest qs
      → Holds r.in_buffer 0 (bytes q ++ all_bytes qs)
      → r.in_size ≡ length (bytes q ++ all_bytes qs)
      → full_msg_rcvd (r.in_size + 2) r ≡ some (method_rcvd (length (bytes q)) 0)
  found small v vs h e =
      let start = (first_text q (all_bytes qs) r.in_buffer 0 v h).1 in
      let front = (Holds-append r.in_buffer 0 (bytes q) (all_bytes qs) h).0 in
      let fuel : suc (length (fields_of q)) + (r.in_size + 1 - length (fields_of q))
          ≡ r.in_size + 2 =
        omega (
          arith,
          e,
          length-append (bytes q) (all_bytes qs),
          length-fields (first_of q) (fields_of q),
        ) in
      subst (λ k. full_msg_rcvd k r ≡ some (method_rcvd (length (bytes q)) 0)) fuel
        (full_msg_rcvd_mono (suc (length (fields_of q))) (r.in_size + 1 - length (fields_of q)) r _
          start
          (full_msg_rcvd-print r (first_of q) (fields_of q) small v.first v.fields start front
            (behind r q qs vs h e)))

  pub moved :
      r.in_size ≤ buffer_size
      → length (all_bytes qs) ≤ length (bytes q)
      → Holds r.in_buffer 0 (bytes q ++ all_bytes qs)
      → r.in_size ≡ length (bytes q ++ all_bytes qs)
      → Holds (rtsp_remove_msg (length (bytes q)) r).in_buffer 0 (all_bytes qs)
        × ((rtsp_remove_msg (length (bytes q)) r).in_size ≡ length (all_bytes qs))
  moved small le h e =
      let len = length (bytes q) in
      let total = length-append (bytes q) (all_bytes qs) in
      let pos : 0 < len = omega (arith, length-fields (first_of q) (fields_of q)) in
      let back = (Holds-append r.in_buffer 0 (bytes q) (all_bytes qs) h).1 in
      (
        Holds-moved r.in_buffer (rtsp_remove_msg len r).in_buffer len 0 (all_bytes qs)
            (λ i lt.
              (rtsp_remove_msg_lem len i r pos (omega (arith, lt, e, total)) small).1
                (omega (arith, lt, le)))
            back,
        rtsp_remove_msg_size len r ∙ omega (arith, e, total),
      )
