-- ===== src/Rtcp.antt =====
-- rtcp/RTCP_recv_packet.c: the reports that a receiver sends. The host is little-endian, as the shifts
-- of ntohl and ntohs below assume.
pub mod Loop
pub mod Report
pub mod Send
pub mod Queue
use fenice_1_12_with_h.Prelude.{
  ℕ, zero, suc, ◌+◌, ◌*◌, ◌/◌, ◌%◌, ◌^◌, List, Option, none, some, ltb, ◌==◌, if◌then◌else◌, get_or,
}

-- `RTCP_stats`
pub record Stats : Type 0 where
  pub rr_received : ℕ
  pub sr_received : ℕ
  pub dest_ssrc : ℕ
  pub pkt_count : ℕ
  pub octet_count : ℕ
  pub pkt_lost : ℕ
  pub fract_lost : ℕ
  pub highest_seq_no : ℕ
  pub jitter : ℕ
  pub last_sr : ℕ
  pub delay_since_last_sr : ℕ

-- A byte of `rtcp_inbuffer`. The source reads on behind the array where an index lies there; here 0.
abbrev pub byte : List ℕ → ℕ → ℕ
byte buf i = get_or buf i 0

-- `ntohl` of a single byte, which is what the source gives it.
abbrev pub ntohl_byte : ℕ → ℕ
ntohl_byte b = b * 2 ^ 24 % 2 ^ 32

-- Four bytes as an `int` of the host, and two bytes through ntohs.
abbrev pub host_int : List ℕ → ℕ → ℕ
host_int buf i =
    byte buf i + byte buf (i + 1) * 2 ^ 8 + byte buf (i + 2) * 2 ^ 16 + byte buf (i + 3) * 2 ^ 24

abbrev pub net_short : List ℕ → ℕ → ℕ
net_short buf i = byte buf i * 2 ^ 8 + byte buf (i + 1)

-- The body of the two loops over report blocks, for a block whose `fract_lost` stands at `i`; `tmp` is
-- a 0 and three bytes in network order, which RFC 3550 has as a number with a sign.
abbrev pub block : List ℕ → ℕ → Stats → Stats
block buf i s = record s {
  fract_lost = byte buf i;
  pkt_lost = byte buf (i + 1) * 2 ^ 16 + byte buf (i + 2) * 2 ^ 8 + byte buf (i + 3);
  highest_seq_no = ntohl_byte (byte buf (i + 4));
  jitter = ntohl_byte (byte buf (i + 8));
  last_sr = ntohl_byte (byte buf (i + 12));
  delay_since_last_sr = ntohl_byte (byte buf (i + 16));
}

-- `for (i = 0; i < ssrc_count; ++i)`, whose body does not use `i`.
pub blocks : ℕ → List ℕ → ℕ → Stats → Stats
blocks zero buf i s = s
blocks (suc n) buf i s = blocks n buf i (block buf i s)

-- The `switch` over the type of the packet at `len`; `none` is the return of its default case. The case
-- of SDES reads at the start of the buffer, whatever `len` is.
unfoldable pub packet : List ℕ → ℕ → Stats → Option Stats
unfolding blocks
packet buf len s =
    let type = byte buf (1 + len) in
    let ssrc_count = byte buf len % 32 in
    if type == 200
    then some (
        blocks ssrc_count buf (32 + len) (record s {
          sr_received = (s.sr_received + 1) % 2 ^ 32;
          pkt_count = host_int buf (20 + len);
          octet_count = host_int buf (24 + len);
        }))
    else if type == 201
    then some
        (blocks ssrc_count buf (12 + len) (record s { rr_received = (s.rr_received + 1) % 2 ^ 32 }))
    else if type == 202
    then some (if byte buf 8 == 1 then record s { dest_ssrc = net_short buf 4 } else s)
    else if type == 203
    then some s
    else if type == 204
    then some s
    else none

-- What the loop adds to `len`, the length of the packet in bytes.
abbrev pub packet_size : List ℕ → ℕ → ℕ
packet_size buf len = (net_short buf (len + 2) + 1) * 4

-- The loop of RTCP_recv_packet; `len` is a short, so it wraps at 2 ^ 16, and the test with the unsigned
-- `rtcp_insize` reads a negative one as a large number: for the sizes up to RTCP_BUFFERSIZE, which is
-- 1024, that is the test below. `none` when the fuel ends.
unfoldable pub recv_from : ℕ → List ℕ → ℕ → ℕ → Stats → Option Stats
recv_from zero buf insize len s = none
recv_from (suc fuel) buf insize len s =
    if ltb len insize
    then elim (packet buf len s) [
      | none ↦ some s
      | some s' ↦ recv_from fuel buf insize ((len + packet_size buf len) % 2 ^ 16) s'
    ]
    else some s

-- RTCP_recv_packet, on the statistics of `i_client`
unfoldable pub recv_packet : ℕ → List ℕ → ℕ → Stats → Option Stats
recv_packet fuel buf insize s = recv_from fuel buf insize 0 s
