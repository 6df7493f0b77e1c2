-- ===== src/Rtsp/Rounds.antt =====
-- The loop of RTSP_full_msg_rcvd ends.
use fenice_1_12_with_h.Prelude.{
  ℕ, zero, suc, ◌+◌, ◌-◌, ◌*◌, ◌%◌, ◌^◌, ◌<◌, ◌≤◌, ◌≡◌, refl, inl, inr, Bool-cases, Bool, true,
  false, not, ◌&&◌, ◌||◌, Option, none, some, ltb, leb, ltb→le, ◌==◌, if◌then◌else◌, arith,
}
use fenice_1_12_with_h.Rtsp.Buffer.{RtspBuffer, buffer_size}
use fenice_1_12_with_h.Rtsp.Message.{
  MsgRcvd, strcspn, terminators, starts_with, skip_colons, scan_int, content_length, received,
  header_field, next_round, Round, stop, again, line_end, round_at, proceed, lines, full_msg_rcvd,
  not_full, interlvd_rcvd,
}

skip_colons-le : (left : ℕ) (buf : ℕ → ℕ) (at : ℕ) → at ≤ skip_colons left buf at
unfolding skip_colons
skip_colons-le zero buf at = omega arith
skip_colons-le (suc left) buf at = ground (arith, skip_colons-le left buf (at + 1))

-- What follows for the state of the next round.
abbrev Grows : ℕ → Round → Type 0
Grows ml (stop m) = Unit {0}
Grows ml (again ml' mb bl) = ml ≤ ml'

Grows-mono : (m n : ℕ) (o : Round) → n ≤ m → Grows m o → Grows n o
Grows-mono m n (stop x) le h = tt
Grows-mono m n (again ml mb bl) le h = omega arith

Grows-tests :
    (n : ℕ) (a b c : Bool) (m : MsgRcvd) (o : Round)
    → Grows n o
    → Grows n (if a then stop not_full else if b then stop m else if c then stop not_full else o)
Grows-tests n true b c m o h = tt
Grows-tests n false true c m o h = tt
Grows-tests n false false true m o h = tt
Grows-tests n false false false m o h = h

field_length-Grows :
    (ml value : ℕ) (o : Option ℕ)
    → ml ≤ value
    → Grows ml (next_round (elim o [ none ↦ none | some n ↦ some (value, true, n) ]))
field_length-Grows ml value none le = tt
field_length-Grows ml value (some n) le = le

header_field-Grows :
    (r : RtspBuffer) (ml : ℕ) (mb : Bool) (bl : ℕ) → Grows ml (next_round (header_field r ml mb bl))
header_field-Grows r ml mb bl =
    let value = skip_colons (r.in_size - (ml + 14)) r.in_buffer (ml + 14) in
    let le : ml ≤ value =
      omega (arith, skip_colons-le (r.in_size - (ml + 14)) r.in_buffer (ml + 14)) in
    elim (not mb && starts_with content_length r.in_buffer ml)
      as (λ b. Grows ml (
        next_round (
          if b
          then elim (scan_int r.in_buffer value) [ none ↦ none | some n ↦ some (value, true, n) ]
          else some (ml, mb, bl)))) [
            | true ↦ field_length-Grows ml value (scan_int r.in_buffer value) le
            | false ↦ omega arith
          ]

line_end-Grows : (r : RtspBuffer) (eol : ℕ) (mb : Bool) (bl : ℕ) → Grows eol (line_end r eol mb bl)
unfolding line_end
line_end-Grows r eol mb bl =
    let (tc, ws) = terminators (r.in_size - eol) r.in_buffer eol 0 0 in
    let eomh = ltb 2 tc || (tc == 2 && r.in_buffer eol == r.in_buffer (eol + 1)) in
    let next = eol + tc + ws in
    let whole = (next + bl) % 2 ^ 32 in
    Grows-tests eol (ltb r.in_size eol) (eomh && leb whole r.in_size) (eomh || leb r.in_size next)
      (received r whole bl) (next_round (header_field r next mb bl))
      (Grows-mono next eol _ (omega arith) (header_field-Grows r next mb bl))

round_at-Grows :
    (r : RtspBuffer) (ml : ℕ) (mb : Bool) (bl : ℕ) (o : Option ℕ)
    → Grows (ml + 1) (round_at r ml mb bl o)
round_at-Grows r ml mb bl none = tt
round_at-Grows r ml mb bl (some zero) = tt
round_at-Grows r ml mb bl (some (suc n)) =
    let full : (suc n == 0) ≡ false = ground arith in
    rw full (Grows-mono (ml + suc n) (ml + 1) _ (omega arith) (line_end-Grows r (ml + suc n) mb bl))

proceed-some :
    (fuel : ℕ) (r : RtspBuffer) (ml : ℕ) (o : Round)
    → ((ml' : ℕ) (mb : Bool) (bl : ℕ)
        → ml + 1 ≤ ml'
        → (m : MsgRcvd) × (lines fuel r ml' mb bl ≡ some m))
    → Grows (ml + 1) o
    → (m : MsgRcvd) × (proceed (lines fuel r) o ≡ some m)
proceed-some fuel r ml (stop m) next h = (m, refl)
proceed-some fuel r ml (again ml' mb bl) next h = next ml' mb bl h

lines-some :
    (fuel : ℕ) (r : RtspBuffer) (ml : ℕ) (mb : Bool) (bl : ℕ)
    → r.in_size + 1 - ml < fuel
    → (m : MsgRcvd) × (lines fuel r ml mb bl ≡ some m)
unfolding lines
lines-some zero r ml mb bl h = absurd (omega arith)
lines-some (suc fuel) r ml mb bl h = elim (Bool-cases (ltb r.in_size ml)) [
  | inl behind ↦ (received r ml bl, rw behind refl)
  | inr within ↦ rw within (
      proceed-some fuel r ml _
        (λ ml' mb' bl' le.
          lines-some fuel r ml' mb' bl' (omega (arith, ltb→le r.in_size ml within)))
        (round_at-Grows r ml mb bl (strcspn (buffer_size - ml) r.in_buffer ml)))
]

-- The search for a message ends, whatever the input holds, within two rounds more than the input
-- has bytes.
pub full_msg_rcvd-some :
    (r : RtspBuffer) → (m : MsgRcvd) × (full_msg_rcvd (r.in_size + 2) r ≡ some m)
unfolding full_msg_rcvd
full_msg_rcvd-some r = elim (Bool-cases (r.in_buffer 0 == b'$')) [
  | inl dollar ↦
      let bl = r.in_buffer 2 * 256 + r.in_buffer 3 in
      ((if leb bl r.in_size then interlvd_rcvd 4 bl else not_full), rw dollar refl)
  | inr text ↦ rw text (lines-some (r.in_size + 2) r 0 false 0 (omega arith))
]
