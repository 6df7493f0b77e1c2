-- ===== src/Intnet/Jitter.antt =====
-- intnet/change_check.c on the jitter that rtcp/RTCP_recv_packet.c stored.
use fenice_1_12_with_h.Prelude.{ℕ, suc, ◌^◌, ◌<◌, ◌≡◌, ◌≢◌, sym, ◌∙◌, some, arith}
use fenice_1_12_with_h.Rtcp.{Stats, recv_packet}
use fenice_1_12_with_h.Rtcp.Report.{ReportBlock, IsBlock, encode_rr, recv_packet-encode_rr}
use fenice_1_12_with_h.Intnet.{Session, downgrade, change_check}

-- A session's view of the statistics of its receiver.
abbrev pub with_stats : Session → Stats → Session
with_stats session s = record session {
  rr_received = s.rr_received;
  fract_lost = s.fract_lost;
  jitter = s.jitter;
}

no_jitter : (session : Session) → session.jitter ≡ 0 → (change_check session).0 ≢ downgrade
unfolding change_check
no_jitter session e is = ground (arith, e, is)

-- A receiver that reports a jitter below 2 ^ 24 never makes change_check ask for the next lower rate.
pub change_check-recv_packet :
    (fuel sender : ℕ) (r : ReportBlock) (s stats : Stats) (session : Session)
    → IsBlock r
    → r.interarrival_jitter < 2 ^ 24
    → recv_packet (suc (suc fuel)) (encode_rr sender r) 32 s ≡ some stats
    → (change_check (with_stats session stats)).0 ≢ downgrade
change_check-recv_packet fuel sender r s stats session h small e =
    let expected = sym (recv_packet-encode_rr fuel sender r s h) ∙ e in
    no_jitter (with_stats session stats) (ground (arith, expected))
