-- ===== src/Rtp/Transport/Close.antt =====
-- What the end of a transport does to the pool of ports and to the descriptors.
use mathlib.Core.Path.{subst}
use fenice_1_12_with_h.Prelude.{
  ℕ, zero, suc, ◌+◌, ◌<◌, ◌≤◌, ◌≡◌, refl, sym, ap, inl, inr, false, List, [], ◌∷◌, ◌++◌, some,
  length, arith, Bool-cases,
}
use fenice_1_12_with_h.Rtp.PortPool.{Pair, Pool, entries, port_of, release_port_pair}
use fenice_1_12_with_h.Rtp.PortPool.Leases.{IsBalanced, count, fill_first-Filled}
use fenice_1_12_with_h.Rtp.PortPool.Steps.{release-IsBalanced}
use fenice_1_12_with_h.Rtp.Transport.{rtp_rtp_avp, Closing, rtp_transport_close}

-- The pool is what RTP_release_port_pair makes of it.
closed-pool :
    (c : Closing) (pool : Pool)
    → c.transport.kind ≡ rtp_rtp_avp
    → release_port_pair c.transport.ser_ports c.pool ≡ some pool
    → (rtp_transport_close c).pool ≡ pool
unfolding rtp_transport_close
closed-pool c pool k r = elim (Bool-cases c.transport.is_multicast) [
  | inl m ↦ ground (arith, k, m, r)
  | inr m ↦ ground (arith, k, m, r)
]

-- Closing the transport of a unicast session, whose two RTCP descriptors are one, gives its pair back
-- and keeps the pool balanced, and closes the RTCP descriptor twice.
pub rtp_transport_close-IsBalanced :
    {n start : ℕ} (c : Closing) (leased xs ys : List Pair) (a b : ℕ)
    → 0 < start
    → c.transport.kind ≡ rtp_rtp_avp
    → c.transport.is_multicast ≡ false
    → c.transport.rtp_fd ≡ some a
    → c.transport.rtcp_fd_in ≡ some b
    → c.transport.rtcp_fd_out ≡ some b
    → IsBalanced n start (record { pool = c.pool; leased = leased })
    → leased ≡ xs ++ c.transport.ser_ports ∷ ys
    → let c' = rtp_transport_close c in
      IsBalanced n start (record { pool = c'.pool; leased = xs ++ ys })
      × (c'.closed ≡ c.closed ++ a ∷ b ∷ b ∷ [])
      × (c'.multicast_port ≡ c.multicast_port)
unfolding rtp_transport_close
rtp_transport_close-IsBalanced {n} {start} c leased xs ys a b h k m fa fi fo q e =
    let (pool, released, balanced) =
      release-IsBalanced (record { pool = c.pool; leased = leased }) xs c.transport.ser_ports ys h q
        e in
    (
      subst (λ p. IsBalanced n start (record { pool = p; leased = xs ++ ys }))
          (sym (closed-pool c pool k released)) balanced,
      ground (arith, k, m, fa, fi, fo, released),
      ground (arith, k, m, released),
    )

count-entries-above : (v start i n : ℕ) → i + n + start ≤ v → count v (entries start i n) ≡ 0
count-entries-above v start i zero h = refl
count-entries-above v start i (suc n) h =
    ground (arith, count-entries-above v start (suc i) n (omega arith))

-- Closing the transport of a multicast session, whose ports are not those of any entry of the pool,
-- while a pair of the pool is leased, puts these ports into the pool in place of that pair: whatever
-- pairs are leased then, the pool is not balanced.
pub rtp_transport_close-multicast :
    {n start : ℕ} (c : Closing) (leased : List Pair)
    → c.transport.kind ≡ rtp_rtp_avp
    → IsBalanced n start (record { pool = c.pool; leased = leased })
    → 0 < length leased
    → 0 < n + start
    → n + start ≤ port_of start c.transport.ser_ports.rtp
    → (leased' : List Pair)
    → ¬ IsBalanced n start (record { pool = (rtp_transport_close c).pool; leased = leased' })
unfolding release_port_pair
rtp_transport_close-multicast {n} {start} c leased k q some_leased pos above leased' q' =
    let v = port_of start c.transport.ser_ports.rtp in
    let (rest, f, t) =
      fill_first-Filled v c.pool.ports (omega (arith, q.zeros, some_leased))
        (omega (arith, pos, above)) in
    let released : release_port_pair c.transport.ser_ports c.pool
        ≡ some (record c.pool { ports = rest }) =
      ground (arith, f, q.start_is) in
    let ports : (rtp_transport_close c).pool.ports ≡ rest =
      ap (λ p. p.ports) (closed-pool c (record c.pool { ports = rest }) k released) in
    ground (
      arith,
      ap (count v) ports,
      t.others v (omega (arith, pos, above)),
      q'.conserved v (omega (arith, pos, above)),
      count-entries-above v start 0 n (omega (arith, above)),
    )
