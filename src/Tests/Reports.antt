-- ===== src/Tests/Reports.antt =====
-- rtcp/ at concrete inputs.
use fenice_1_12_with_h.Prelude.{
  ℕ, zero, suc, ◌≡◌, List, [], ◌∷◌, some, arith, ◌%◌, ◌⊎◌, ◌↔◌, length,
}
use fenice_1_12_with_h.Rtcp.Send.{Source, sdes, packet_of}
use fenice_1_12_with_h.Rtcp.Queue.{packet_of-sdes}
use fenice_1_12_with_h.Rtcp.{byte, packet_size, Stats, recv_packet}
use fenice_1_12_with_h.Rtcp.Loop.{IsBounded, recv_packet-some}
use fenice_1_12_with_h.Rtcp.Report.{ReportBlock, IsBlock, encode_rr, recv_packet-encode_rr}

abbrev no_stats : Stats
no_stats = record {
  rr_received = 0;
  sr_received = 0;
  dest_ssrc = 0;
  pkt_count = 0;
  octet_count = 0;
  pkt_lost = 0;
  fract_lost = 0;
  highest_seq_no = 0;
  jitter = 0;
  last_sr = 0;
  delay_since_last_sr = 0;
}

abbrev report : ReportBlock
report = record {
  source = 99;
  fraction = 3;
  lost = 70000;
  highest = 123456;
  interarrival_jitter = 5000;
  last_sr = 17;
  delay = 20000000;
}

report-IsBlock : IsBlock report
report-IsBlock = record {
  fraction_lt = omega arith;
  lost_lt = omega arith;
  highest_lt = omega arith;
  jitter_lt = omega arith;
  last_sr_lt = omega arith;
  delay_lt = omega arith;
}

abbrev seen : Stats
seen = record no_stats {
  rr_received = 1;
  fract_lost = 3;
  pkt_lost = 70000;
  delay_since_last_sr = 16777216;
}

recv_packet-encode_rr_example : recv_packet 2 (encode_rr 5 report) 32 no_stats ≡ some seen
recv_packet-encode_rr_example = recv_packet-encode_rr 0 5 report no_stats report-IsBlock

-- A packet of type BYE without anything behind its header.
abbrev short_bye : List ℕ
short_bye = 128 ∷ 203 ∷ 0 ∷ 0 ∷ []

short_bye-IsBounded : IsBounded short_bye 4
short_bye-IsBounded zero lt = omega arith
short_bye-IsBounded (suc zero) lt = omega arith
short_bye-IsBounded (suc (suc zero)) lt = omega arith
short_bye-IsBounded (suc (suc (suc zero))) lt = omega arith
short_bye-IsBounded (suc (suc (suc (suc i)))) lt = absurd (omega arith)

recv_packet-some_example : (s : Stats) × (recv_packet 5 short_bye 4 no_stats ≡ some s)
recv_packet-some_example = recv_packet-some 5 short_bye 4 no_stats short_bye-IsBounded (omega arith)

abbrev server : Source
server = record {
  ssrc = 77;
  tv_sec = 1000;
  tv_usec = 5;
  clock_rate = 8000;
  start_rtptime = 3;
  pkt_count = 20;
  octet_count = 4000;
  hostname = b'h' ∷ [];
}

packet_of-sdes_example :
    (pkt : List ℕ) × (packet_of sdes server ≡ some pkt)
    × ((packet_size pkt 0 ≡ length pkt)
        ↔ ((length server.hostname % 4 ≡ 0) ⊎ (length server.hostname % 4 ≡ 3)))
    × (byte pkt 8 ≡ 0)
    × (byte pkt 9 ≡ 0)
packet_of-sdes_example = packet_of-sdes server (omega arith)
