-- ===== src/Rtsp/Message.antt =====
-- rtsp/RTSP_full_msg_rcvd.c: whether the input of a connection holds a whole message.
use fenice_1_12_with_h.Prelude.{
  ℕ, zero, suc, ◌+◌, ◌-◌, ◌*◌, ◌%◌, ◌^◌, Bool, true, false, not, ◌&&◌, ◌||◌, List, [], ◌∷◌, Option,
  none, some, ltb, leb, ◌==◌, if◌then◌else◌,
}
use fenice_1_12_with_h.Rtsp.Buffer.{RtspBuffer, buffer_size}

-- What a call returns, with `*hdr_len` and `*body_len`, both numbers of 32 bits. `overread`: strcspn
-- came to the end of the array, behind which C says nothing.
pub data MsgRcvd : Type 0 where
  overread err_in_msg not_full : MsgRcvd
  method_rcvd interlvd_rcvd : ℕ → ℕ → MsgRcvd

abbrev pub is_eol : ℕ → Bool
is_eol c = c == 13 || c == 10

abbrev pub is_blank : ℕ → Bool
is_blank c = c == 32 || c == 9

-- `strcspn(&buf[at], "\r\n")`, with the bytes left in the array.
unfoldable pub strcspn : ℕ → (ℕ → ℕ) → ℕ → Option ℕ
strcspn zero buf at = none
strcspn (suc left) buf at =
    if is_eol (buf at) || buf at == 0
    then some 0
    else elim (strcspn left buf (at + 1)) [ none ↦ none | some n ↦ some (suc n) ]

-- The loop over the terminators, from `tc` and `ws` on; `left` is what it may still read of the input.
unfoldable pub terminators : ℕ → (ℕ → ℕ) → ℕ → ℕ → ℕ → ℕ × ℕ
terminators zero buf at tc ws = (tc, ws)
terminators (suc left) buf at tc ws =
    let eol = is_eol (buf at) in
    let blank = ltb tc 3 && is_blank (buf at) in
    let rest =
      terminators left buf (at + 1) (if eol then tc + 1 else tc) (if eol then ws else ws + 1) in
    if eol || blank then rest else (tc, ws)

-- `strncasecmp(&buf[at], name, strlen(name)) == 0`, for a name in small letters.
abbrev pub lower : ℕ → ℕ
lower c = if leb 65 c && leb c 90 then c + 32 else c

unfoldable pub starts_with : List ℕ → (ℕ → ℕ) → ℕ → Bool
starts_with [] buf at = true
starts_with (c ∷ name) buf at = lower (buf at) == c && starts_with name buf (at + 1)

-- HDR_CONTENTLENGTH
abbrev pub content_length : List ℕ
content_length =
    b'c' ∷ b'o' ∷ b'n' ∷ b't' ∷ b'e' ∷ b'n' ∷ b't' ∷ b'-' ∷ b'l' ∷ b'e' ∷ b'n' ∷ b'g' ∷ b't' ∷ b'h'
    ∷ []

-- The loop that passes colons and spaces.
unfoldable pub skip_colons : ℕ → (ℕ → ℕ) → ℕ → ℕ
skip_colons zero buf at = at
skip_colons (suc left) buf at =
    let rest = skip_colons left buf (at + 1) in if buf at == 58 || buf at == 32 then rest else at

-- `sscanf(&buf[at], "%d", &bl)`: white space, a sign, and decimal digits, of which there must be
-- one. The value is kept as 32 bits in two's complement.
unfoldable pub digits_from : ℕ → (ℕ → ℕ) → ℕ → ℕ → ℕ
digits_from zero buf at n = n
digits_from (suc left) buf at n =
    let rest = digits_from left buf (at + 1) (n * 10 + (buf at - 48)) in
    if leb 48 (buf at) && leb (buf at) 57 then rest else n

unfoldable pub skip_space : ℕ → (ℕ → ℕ) → ℕ → ℕ
skip_space zero buf at = at
skip_space (suc left) buf at =
    let rest = skip_space left buf (at + 1) in
    if buf at == 32 || (leb 9 (buf at) && leb (buf at) 13) then rest else at

unfoldable pub scan_int : (ℕ → ℕ) → ℕ → Option ℕ
unfolding digits_from skip_space
scan_int buf at =
    let start = skip_space (buffer_size - at) buf at in
    let minus = buf start == 45 in
    let first = if minus || buf start == 43 then start + 1 else start in
    let value = digits_from (buffer_size - first) buf first 0 in
    if leb 48 (buf first) && leb (buf first) 57
    then some (if minus then (2 ^ 32 - value % 2 ^ 32) % 2 ^ 32 else value % 2 ^ 32)
    else none

-- The loop over trailing NULs.
unfoldable pub trailing_nuls : ℕ → (ℕ → ℕ) → ℕ → ℕ → ℕ
trailing_nuls zero buf at bl = bl
trailing_nuls (suc left) buf at bl =
    let rest = trailing_nuls left buf (at + 1) ((bl + 1) % 2 ^ 32) in
    if buf at == 0 then rest else bl

abbrev pub received : RtspBuffer → ℕ → ℕ → MsgRcvd
received r ml bl =
    method_rcvd ((ml + 2 ^ 32 - bl) % 2 ^ 32)
      (trailing_nuls ((r.in_size + 2 ^ 32 - ml) % 2 ^ 32) r.in_buffer ml bl)

-- The first token of the next line, at `ml`: the state `ml`, `mb`, `bl`, or `none` for an invalid
-- Content-Length.
abbrev pub header_field : RtspBuffer → ℕ → Bool → ℕ → Option (ℕ × Bool × ℕ)
header_field r ml mb bl =
    let value = skip_colons (r.in_size - (ml + 14)) r.in_buffer (ml + 14) in
    if not mb && starts_with content_length r.in_buffer ml
    then elim (scan_int r.in_buffer value) [ none ↦ none | some n ↦ some (value, true, n) ]
    else some (ml, mb, bl)

-- What a round of the loop over the lines comes to: a result, or the state of the next round.
pub data Round : Type 0 where
  stop : MsgRcvd → Round
  again : ℕ → Bool → ℕ → Round

abbrev pub next_round : Option (ℕ × Bool × ℕ) → Round
next_round none = stop err_in_msg
next_round (some (ml, mb, bl)) = again ml mb bl

-- A round, from the end of a line on. `eomh` is set only in a round that is the last one, so it is
-- no part of the state.
unfoldable pub line_end : RtspBuffer → ℕ → Bool → ℕ → Round
line_end r eol mb bl =
    let (tc, ws) = terminators (r.in_size - eol) r.in_buffer eol 0 0 in
    let eomh = ltb 2 tc || (tc == 2 && r.in_buffer eol == r.in_buffer (eol + 1)) in
    let next = eol + tc + ws in
    let whole = (next + bl) % 2 ^ 32 in
    if ltb r.in_size eol
    then stop not_full
    else if eomh && leb whole r.in_size
    then stop (received r whole bl)
    else if eomh || leb r.in_size next
    then stop not_full
    else next_round (header_field r next mb bl)

abbrev pub round_at : RtspBuffer → ℕ → Bool → ℕ → Option ℕ → Round
round_at r ml mb bl none = stop overread
round_at r ml mb bl (some control) =
    if control == 0 then stop err_in_msg else line_end r (ml + control) mb bl

abbrev pub round : RtspBuffer → ℕ → Bool → ℕ → Round
round r ml mb bl =
    if ltb r.in_size ml
    then stop (received r ml bl)
    else round_at r ml mb bl (strcspn (buffer_size - ml) r.in_buffer ml)

abbrev pub proceed : (ℕ → Bool → ℕ → Option MsgRcvd) → Round → Option MsgRcvd
proceed next (stop m) = some m
proceed next (again ml mb bl) = next ml mb bl

-- The loop `while (ml <= rtsp->in_size)`, and what stands behind it.
unfoldable pub lines : ℕ → RtspBuffer → ℕ → Bool → ℕ → Option MsgRcvd
lines zero r ml mb bl = none
lines (suc fuel) r ml mb bl = proceed (lines fuel r) (round r ml mb bl)

-- RTSP_full_msg_rcvd: `none` when the fuel ends.
unfoldable pub full_msg_rcvd : ℕ → RtspBuffer → Option MsgRcvd
full_msg_rcvd fuel r =
    let bl = r.in_buffer 2 * 256 + r.in_buffer 3 in
    if r.in_buffer 0 == b'$'
    then some (if leb bl r.in_size then interlvd_rcvd 4 bl else not_full)
    else lines fuel r 0 false 0
