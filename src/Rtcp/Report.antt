-- ===== src/Rtcp/Report.antt =====
-- What RTCP_recv_packet makes of the report block of a receiver.
use fenice_1_12_with_h.Prelude.{
  ℕ, suc, ◌+◌, ◌-◌, ◌*◌, ◌/◌, ◌%◌, ◌^◌, ◌<◌, ◌≡◌, refl, List, [], ◌∷◌, ◌++◌, some, arith,
}
use fenice_1_12_with_h.Rtcp.{Stats, blocks, packet, recv_from, recv_packet, ntohl_byte}

-- Numbers in network order.
abbrev pub be_16 : ℕ → List ℕ
be_16 n = n / 2 ^ 8 ∷ n % 2 ^ 8 ∷ []

abbrev pub be_24 : ℕ → List ℕ
be_24 n = n / 2 ^ 16 ∷ n / 2 ^ 8 % 2 ^ 8 ∷ n % 2 ^ 8 ∷ []

abbrev pub be_32 : ℕ → List ℕ
be_32 n = n / 2 ^ 24 ∷ n / 2 ^ 16 % 2 ^ 8 ∷ n / 2 ^ 8 % 2 ^ 8 ∷ n % 2 ^ 8 ∷ []

-- The fields of a report block, RFC 3550.
pub record ReportBlock : Type 0 where
  pub source : ℕ
  pub fraction : ℕ
  pub lost : ℕ
  pub highest : ℕ
  pub interarrival_jitter : ℕ
  pub last_sr : ℕ
  pub delay : ℕ

-- Each field fits its width.
pub record IsBlock (r : ReportBlock) : Type 0 where
  pub fraction_lt : r.fraction < 2 ^ 8
  pub lost_lt : r.lost < 2 ^ 24
  pub highest_lt : r.highest < 2 ^ 32
  pub jitter_lt : r.interarrival_jitter < 2 ^ 32
  pub last_sr_lt : r.last_sr < 2 ^ 32
  pub delay_lt : r.delay < 2 ^ 32

-- A receiver report with one block: version 2, no padding, count 1, type 201, length 7 words more.
abbrev pub encode_rr : ℕ → ReportBlock → List ℕ
encode_rr sender r =
    129 ∷ 201 ∷ be_16 7
    ++ (be_32 sender
        ++ (be_32 r.source
            ++ (r.fraction ∷ be_24 r.lost)
            ++ be_32 r.highest
            ++ be_32 r.interarrival_jitter
            ++ be_32 r.last_sr
            ++ be_32 r.delay))

be_24_lem : (n : ℕ) → n / 2 ^ 16 * 2 ^ 16 + n / 2 ^ 8 % 2 ^ 8 * 2 ^ 8 + n % 2 ^ 8 ≡ n
be_24_lem n = omega arith

ntohl_byte_lem : (n : ℕ) → n < 2 ^ 32 → ntohl_byte (n / 2 ^ 24) ≡ n - n % 2 ^ 24
ntohl_byte_lem n h = omega arith

-- A receiver report of one block, as RFC 3550 lays it out, is counted; the fraction of lost packets
-- arrives as it was sent, the 24 bits of their number arrive as a number without a sign, and of the
-- other four numbers only the highest byte arrives. In RFC 3550 the 24 bits have a sign: a negative
-- number -n is not received as such, but as 2 ^ 24 - n.
pub recv_packet-encode_rr :
    (fuel sender : ℕ) (r : ReportBlock) (s : Stats)
    → IsBlock r
    → recv_packet (suc (suc fuel)) (encode_rr sender r) 32 s
      ≡ some (record s {
        rr_received = (s.rr_received + 1) % 2 ^ 32;
        fract_lost = r.fraction;
        pkt_lost = r.lost;
        highest_seq_no = r.highest - r.highest % 2 ^ 24;
        jitter = r.interarrival_jitter - r.interarrival_jitter % 2 ^ 24;
        last_sr = r.last_sr - r.last_sr % 2 ^ 24;
        delay_since_last_sr = r.delay - r.delay % 2 ^ 24;
      })
unfolding recv_packet recv_from packet blocks
recv_packet-encode_rr fuel sender r s h =
    rw
      (
        be_24_lem r.lost,
        ntohl_byte_lem r.highest h.highest_lt,
        ntohl_byte_lem r.interarrival_jitter h.jitter_lt,
        ntohl_byte_lem r.last_sr h.last_sr_lt,
        ntohl_byte_lem r.delay h.delay_lt,
      )
      refl
