-- ===== src/Rtcp/Send.antt =====
-- rtcp/RTCP_send_packet.c: the reports of the server, put one behind the other into `rtcp_outbuffer`.
use fenice_1_12_with_h.Prelude.{
  ℕ, ◌+◌, ◌-◌, ◌*◌, ◌/◌, ◌%◌, ◌^◌, List, [], ◌∷◌, ◌++◌, Option, none, some, leb, ◌==◌,
  if◌then◌else◌, length, replicate,
}
use fenice_1_12_with_h.Rtcp.Report.{be_16, be_32}

-- A number as the bytes of the little-endian host.
abbrev pub le_32 : ℕ → List ℕ
le_32 n = n % 2 ^ 8 ∷ n / 2 ^ 8 % 2 ^ 8 ∷ n / 2 ^ 16 % 2 ^ 8 ∷ n / 2 ^ 24 % 2 ^ 8 ∷ []

-- `htonl` as a number of the host, and what is left of it in an `unsigned char`.
abbrev pub htonl : ℕ → ℕ
htonl n =
    n % 2 ^ 8 * 2 ^ 24
    + n / 2 ^ 8 % 2 ^ 8 * 2 ^ 16
    + n / 2 ^ 16 % 2 ^ 8 * 2 ^ 8
    + n / 2 ^ 24 % 2 ^ 8

abbrev pub htonl_char : ℕ → ℕ
htonl_char n = htonl n % 2 ^ 8

-- What a report is made of: fields of the session, the time of day, and the name of the host.
pub record Source : Type 0 where
  pub ssrc : ℕ
  pub tv_sec : ℕ
  pub tv_usec : ℕ
  pub clock_rate : ℕ
  pub start_rtptime : ℕ
  pub pkt_count : ℕ
  pub octet_count : ℕ
  pub hostname : List ℕ

-- `rtcp_pkt_type`, with any other value as `other`
pub data PktType : Type 0 where
  sr rr sdes bye other : PktType

-- `RTCP_header` of a packet of `size` bytes
abbrev pub header : ℕ → ℕ → ℕ → List ℕ
header count pt size = (128 + count) ∷ pt ∷ be_16 (size / 4 - 1)

-- `pkt_size` for a name of `n` bytes
abbrev pub sdes_size : ℕ → ℕ
sdes_size n = (if (12 + n) % 4 == 0 then 0 else 1) + (12 + n)

-- The packet of a type; `none` is the return of the default case. The padding bytes of the structures,
-- which are not set, are 0 here.
unfoldable pub packet_of : PktType → Source → Option (List ℕ)
packet_of sr s = some (
    header 0 200 28
    ++ (be_32 s.ssrc
        ++ be_32 s.tv_sec
        ++ be_32 s.tv_usec
        ++ le_32 ((htonl s.tv_sec * s.clock_rate + s.start_rtptime) % 2 ^ 32)
        ++ le_32 s.pkt_count
        ++ le_32 s.octet_count))
packet_of rr s = some (header 0 201 8 ++ be_32 s.ssrc)
packet_of sdes s =
    let n = length s.hostname in
    some (
      header 1 202 (sdes_size n)
      ++ (be_32 s.ssrc
          ++ (htonl_char 1 ∷ htonl_char n ∷ 0 ∷ 0 ∷ [])
          ++ (s.hostname ++ replicate (sdes_size n - (12 + n)) 0)))
packet_of bye s = some (header 1 203 12 ++ (be_32 s.ssrc ++ (htonl_char 19 ∷ 0 ∷ 0 ∷ 0 ∷ [])))
packet_of other s = none

-- RTCP_BUFFERSIZE
abbrev pub out_size : ℕ
out_size = 1024

-- RTCP_send_packet on the first `rtcp_outsize` bytes of `rtcp_outbuffer`.
unfoldable pub send_packet : PktType → Source → List ℕ → List ℕ
send_packet type s queued = elim (packet_of type s) [
  | none ↦ queued
  | some pkt ↦ if leb (length queued + length pkt) out_size then queued ++ pkt else queued
]
