-- ===== src/Rtp/Transport.antt =====
-- rtp/RTP_transport_close.c: the end of a session's transport.
pub mod Close
use fenice_1_12_with_h.Prelude.{
  ℕ, Bool, true, false, List, [], ◌∷◌, ◌++◌, Option, none, some, if◌then◌else◌,
}
use fenice_1_12_with_h.Rtp.PortPool.{Pair, Pool, release_port_pair}

pub data Kind : Type 0 where
  rtp_no_transport rtp_rtp_avp rtp_rtp_avp_tcp rtp_rtp_avp_sctp : Kind

-- `RTP_transport`; a descriptor is `none` where it is negative.
pub record Transport : Type 0 where
  pub kind : Kind
  pub rtp_fd : Option ℕ
  pub rtcp_fd_in : Option ℕ
  pub rtcp_fd_out : Option ℕ
  pub ser_ports : Pair
  pub is_multicast : Bool

-- The transport of the session, SD_FL_MULTICAST_PORT of its description, the pool of ports, and the
-- descriptors that were given to `close`, in order.
pub record Closing : Type 0 where
  pub transport : Transport
  pub multicast_port : Bool
  pub pool : Pool
  pub closed : List ℕ

abbrev pub opened : Option ℕ → List ℕ
opened none = []
opened (some fd) = fd ∷ []

abbrev pub forget : Closing → Closing
forget c = record c {
  transport = record (c.transport) { rtp_fd = none; rtcp_fd_in = none; rtcp_fd_out = none };
}

abbrev pub close_all : Closing → Closing
close_all c = record c {
  closed =
      c.closed
      ++ (opened c.transport.rtp_fd
          ++ opened c.transport.rtcp_fd_in
          ++ opened c.transport.rtcp_fd_out);
}

-- The result of RTP_release_port_pair is not looked at; on an error it changes nothing.
abbrev pub release_ports : Closing → Closing
release_ports c = elim (release_port_pair c.transport.ser_ports c.pool) [
  | none ↦ c
  | some pool ↦ record c { pool = pool }
]

abbrev pub drop_membership : Closing → Closing
drop_membership c = if c.transport.is_multicast then record c { multicast_port = false } else c

-- RTP_transport_close, its `switch` on a kind `k` without the breaks.
abbrev pub close_from : Kind → Closing → Closing
close_from rtp_rtp_avp c = forget (close_all (release_ports (drop_membership c)))
close_from rtp_rtp_avp_tcp c = forget (close_all c)
close_from rtp_rtp_avp_sctp c = forget c
close_from rtp_no_transport c = c

unfoldable pub rtp_transport_close : Closing → Closing
rtp_transport_close c = close_from c.transport.kind c
