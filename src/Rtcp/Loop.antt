-- ===== src/Rtcp/Loop.antt =====
-- Whether the loop over the packets of a datagram ends.
use fenice_1_12_with_h.Prelude.{
  ℕ, zero, suc, ◌+◌, ◌-◌, ◌%◌, ◌^◌, ◌<◌, ◌≤◌, ◌≡◌, refl, inl, inr, List, none, some, ltb, arith,
  Bool-cases, Option-cases, ltb→lt,
}
use fenice_1_12_with_h.Rtcp.{Stats, byte, packet, packet_size, recv_from, recv_packet}

-- No packet length of the buffer leads past what `len` can count.
abbrev pub IsBounded : List ℕ → ℕ → Type 0
IsBounded buf insize = (i : ℕ) → i < insize → insize + packet_size buf i ≤ 2 ^ 16

recv_from-some :
    (fuel : ℕ) (buf : List ℕ) (insize len : ℕ) (s : Stats)
    → IsBounded buf insize
    → insize - len < fuel
    → (s' : Stats) × (recv_from fuel buf insize len s ≡ some s')
unfolding recv_from
recv_from-some zero buf insize len s bound h = absurd (omega arith)
recv_from-some (suc fuel) buf insize len s bound h = elim (Bool-cases (ltb len insize)) [
  | inr ge ↦ (s, rw ge refl)
  | inl lt ↦ elim (Option-cases (packet buf len s)) [
    | inl n ↦ (s, ground (arith, lt, n))
    | inr (s', e) ↦
        let (t, f) =
          recv_from-some fuel buf insize ((len + packet_size buf len) % 2 ^ 16) s' bound
            (omega (arith, bound len (ltb→lt len insize lt), ltb→lt len insize lt)) in
        (t, ground (arith, lt, e, f))
  ]
]

-- RTCP_recv_packet returns, with fuel for one round more than there are bytes, on every datagram in
-- which no length of a packet, read at any of its bytes, leads past what `len` can count.
pub recv_packet-some :
    (fuel : ℕ) (buf : List ℕ) (insize : ℕ) (s : Stats)
    → IsBounded buf insize
    → insize < fuel
    → (s' : Stats) × (recv_packet fuel buf insize s ≡ some s')
unfolding recv_packet
recv_packet-some fuel buf insize s bound h = recv_from-some fuel buf insize 0 s bound (omega arith)

packet-known :
    (buf : List ℕ) (len : ℕ) (s : Stats)
    → 200 ≤ byte buf (1 + len)
    → byte buf (1 + len) ≤ 204
    → (s' : Stats) × (packet buf len s ≡ some s')
unfolding packet
packet-known buf len s lo hi = elim (Option-cases (packet buf len s)) [
  | inr found ↦ found
  | inl n ↦ absurd (ground (arith, n, lo, hi))
]

recv_from-none :
    (fuel : ℕ) (buf : List ℕ) (insize : ℕ) (s : Stats)
    → 200 ≤ byte buf 1
    → byte buf 1 ≤ 204
    → 0 < insize
    → packet_size buf 0 % 2 ^ 16 ≡ 0
    → recv_from fuel buf insize 0 s ≡ none
unfolding recv_from
recv_from-none zero buf insize s lo hi pos wraps = refl
recv_from-none (suc fuel) buf insize s lo hi pos wraps =
    let (s', e) = packet-known buf 0 s lo hi in
    let later = recv_from-none fuel buf insize s' lo hi pos wraps in
    ground (arith, pos, e, wraps, later)

-- RTCP_recv_packet does not end, whatever the fuel, on a datagram whose first packet has a type that it
-- knows and a length in bytes that is a multiple of 2 ^ 16: `len` stays where it is.
pub recv_packet-hangs :
    (fuel : ℕ) (buf : List ℕ) (insize : ℕ) (s : Stats)
    → 200 ≤ byte buf 1
    → byte buf 1 ≤ 204
    → 0 < insize
    → packet_size buf 0 % 2 ^ 16 ≡ 0
    → recv_packet fuel buf insize s ≡ none
unfolding recv_packet
recv_packet-hangs fuel buf insize s lo hi pos wraps =
    recv_from-none fuel buf insize s lo hi pos wraps
