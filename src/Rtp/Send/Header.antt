-- ===== src/Rtp/Send/Header.antt =====
-- An RTP packet as its receiver reads it.
use fenice_1_12_with_h.Prelude.{
  ℕ, ◌+◌, ◌-◌, ◌*◌, ◌/◌, ◌%◌, ◌^◌, ◌<◌, ◌≡◌, refl, ◌∷◌, Option, none, some, ◌==◌, if◌then◌else◌,
  arith,
}
use fenice_1_12_with_h.BufferPool.{Bytes, Slot}
use fenice_1_12_with_h.BufferPool.Queue.{Item, item}
use fenice_1_12_with_h.Rtp.Send.{RtpSession, msec2tick, first_time, rtp_header, rtp_packet}

pub record Received : Type 0 where
  pub seq : ℕ
  pub marker : ℕ
  pub payload_type : ℕ
  pub timestamp : ℕ
  pub ssrc : ℕ
  pub payload : Bytes

-- RFC 3550, section 5.1, for packets without padding, extension and contributing sources.
abbrev pub parse : Bytes → Option Received
parse (a ∷ b ∷ c ∷ d ∷ t3 ∷ t2 ∷ t1 ∷ t0 ∷ s3 ∷ s2 ∷ s1 ∷ s0 ∷ payload) =
    if a == 128
    then some (record {
      seq = c * 256 + d;
      marker = b / 128;
      payload_type = b % 128;
      timestamp = t3 * 16777216 + t2 * 65536 + t1 * 256 + t0;
      ssrc = s3 * 16777216 + s2 * 65536 + s1 * 256 + s0;
      payload = payload;
    })
    else none
parse _ = none

-- What is received of packet number `k` of a buffer.
abbrev pub seen : RtpSession → ℕ → Item → Received
seen s k i = record {
  seq = (k + s.start_seq + 2 ^ 32 - 1) % 2 ^ 16;
  marker = i.marker % 2;
  payload_type = s.payload_type % 128;
  timestamp =
      (s.start_rtptime + msec2tick i.timestamp s.clock_rate + 2 ^ 32 - first_time s.cons) % 2 ^ 32;
  ssrc = s.ssrc % 2 ^ 32;
  payload = i.payload;
}

net16_read : (n : ℕ) → n < 2 ^ 16 → n / 256 % 256 * 256 + n % 256 ≡ n
net16_read n h = omega arith

net32_read :
    (n : ℕ)
    → n < 2 ^ 32
    → n / 16777216 % 256 * 16777216 + n / 65536 % 256 * 65536 + n / 256 % 256 * 256 + n % 256 ≡ n
net32_read n h = omega arith

pub parse-rtp_packet :
    (s : RtpSession) (slot : Slot)
    → parse (rtp_packet s slot) ≡ some (seen s slot.slot_seq (item slot))
unfolding rtp_header
parse-rtp_packet s slot =
    let seq = (slot.slot_seq + s.start_seq + 2 ^ 32 - 1) % 2 ^ 16 in
    let time =
      (s.start_rtptime + msec2tick slot.timestamp s.clock_rate + 2 ^ 32 - first_time s.cons)
      % 2 ^ 32 in
    let mark : (s.payload_type % 128 + slot.marker % 2 * 128) / 128 ≡ slot.marker % 2 =
      omega arith in
    let type : (s.payload_type % 128 + slot.marker % 2 * 128) % 128 ≡ s.payload_type % 128 =
      omega arith in
    rw
      (
        net16_read seq (omega arith),
        net32_read time (omega arith),
        net32_read (s.ssrc % 2 ^ 32) (omega arith),
        mark,
        type,
      )
      refl
