-- ===== src/Tests/Ports.antt =====
-- rtp/ at concrete inputs.
use fenice_1_12_with_h.Prelude.{false, ℕ, ◌+◌, ◌≡◌, ◌≢◌, ◌≤◌, refl, [], ◌∷◌, some, arith}
use fenice_1_12_with_h.Rtp.PortPool.{Pair, Pool, init, get_port_pair}
use fenice_1_12_with_h.Rtp.PortPool.Leases.{Book, IsBalanced}
use fenice_1_12_with_h.Rtp.PortPool.Steps.{
  lease, Reach, here, next, leased_disjoint, Reach-IsBalanced,
}
use fenice_1_12_with_h.Rtp.Transport.{Closing, rtp_rtp_avp, rtp_transport_close}
use fenice_1_12_with_h.Rtp.Transport.Close.{rtp_transport_close-IsBalanced}

abbrev fresh_book : ℕ → Book
fresh_book n = record { pool = init n 5004; leased = [] }

abbrev port_pair : ℕ → Pair
port_pair rtp = record { rtp = rtp; rtcp = rtp + 1 }

-- Both pairs of a pool of two, taken one after the other.
abbrev one_left : Pool
one_left = record { start_port = 5004; ports = 0 ∷ 5005 ∷ [] }

abbrev none_left : Pool
none_left = record { start_port = 5004; ports = 0 ∷ 0 ∷ [] }

first_lease : get_port_pair (init 2 5004) ≡ some (port_pair 5004, one_left)
unfolding get_port_pair init
first_lease = refl

second_lease : get_port_pair one_left ≡ some (port_pair 5006, none_left)
unfolding get_port_pair
second_lease = refl

abbrev both_leased : Book
both_leased = record { pool = none_left; leased = port_pair 5006 ∷ port_pair 5004 ∷ [] }

both_leased-Reach : Reach (fresh_book 2) both_leased
both_leased-Reach =
    next (next here (lease (port_pair 5004) one_left first_lease refl))
      (lease (port_pair 5006) none_left second_lease refl)

leased_disjoint_example :
    let p = port_pair 5006 in
    let q = port_pair 5004 in
    (p.rtp ≢ q.rtp)
    × (p.rtp ≢ q.rtcp)
    × (p.rtcp ≢ q.rtp)
    × (p.rtcp ≢ q.rtcp)
    × (5004 ≤ p.rtp)
    × (p.rtcp ≡ p.rtp + 1)
leased_disjoint_example =
    leased_disjoint 2 5004 [] (port_pair 5006) [] (port_pair 5004) [] (omega arith)
      both_leased-Reach refl

-- The session with the pair 5004, both pairs being leased.
abbrev unicast : Closing
unicast = record {
  transport = record {
    kind = rtp_rtp_avp;
    rtp_fd = some 7;
    rtcp_fd_in = some 8;
    rtcp_fd_out = some 8;
    ser_ports = port_pair 5004;
    is_multicast = false;
  };
  multicast_port = false;
  pool = none_left;
  closed = [];
}

rtp_transport_close-IsBalanced_example :
    let c' = rtp_transport_close unicast in
    IsBalanced 2 5004 (record { pool = c'.pool; leased = port_pair 5006 ∷ [] })
    × (c'.closed ≡ 7 ∷ 8 ∷ 8 ∷ [])
    × (c'.multicast_port ≡ false)
rtp_transport_close-IsBalanced_example =
    rtp_transport_close-IsBalanced unicast both_leased.leased (port_pair 5006 ∷ []) [] 7 8
      (omega arith) refl refl refl refl refl (Reach-IsBalanced (omega arith) both_leased-Reach) refl
