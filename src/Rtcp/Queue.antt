-- ===== src/Rtcp/Queue.antt =====
-- The reports that wait to be sent: their bound, and their lengths.
use mathlib.Core.Path.{subst}
use fenice_1_12_with_h.Prelude.{
  ℕ, ◌+◌, ◌-◌, ◌%◌, ◌^◌, ◌≤◌, ◌<◌, ◌≡◌, ◌↔◌, ◌⊎◌, refl, sym, ap, ◌∙◌, inl, inr, List, [], ◌∷◌, ◌++◌,
  Option, none, some, leb, if◌then◌else◌, length, length-append, length-replicate, replicate, arith,
  Bool-cases, Option-cases,
}
use fenice_1_12_with_h.Rtcp.{byte, packet_size}
use fenice_1_12_with_h.Rtcp.Report.{be_32}
use fenice_1_12_with_h.Rtcp.Send.{
  Source, PktType, sdes, header, sdes_size, packet_of, out_size, send_packet, htonl_char,
}

-- Several reports, one after the other.
abbrev pub send_all : Source → List PktType → List ℕ → List ℕ
send_all s [] queued = queued
send_all s (t ∷ ts) queued = send_all s ts (send_packet t s queued)

put : List ℕ → Option (List ℕ) → List ℕ
put queued none = queued
put queued (some pkt) = if leb (length queued + length pkt) out_size then queued ++ pkt else queued

put-bound :
    (queued : List ℕ) (o : Option (List ℕ))
    → length queued ≤ out_size
    → length (put queued o) ≤ out_size
unfolding put
put-bound queued none h = h
put-bound queued (some pkt) h = elim (Bool-cases (leb (length queued + length pkt) out_size)) [
  | inl fits ↦ ground (arith, length-append queued pkt, fits)
  | inr full ↦ ground (arith, full)
]

send_packet-put :
    (t : PktType) (s : Source) (queued : List ℕ)
    → send_packet t s queued ≡ put queued (packet_of t s)
unfolding send_packet put
send_packet-put t s queued = elim (Option-cases (packet_of t s)) [
  | inl e ↦ ground (arith, e)
  | inr (pkt, e) ↦ ground (arith, e)
]

send_packet-bound :
    (t : PktType) (s : Source) (queued : List ℕ)
    → length queued ≤ out_size
    → length (send_packet t s queued) ≤ out_size
send_packet-bound t s queued h =
    subst (λ xs. length xs ≤ out_size) (sym (send_packet-put t s queued))
      (put-bound queued (packet_of t s) h)

-- However many reports RTCP_send_packet is asked for, and whatever their types, the bytes that wait
-- never exceed the output buffer.
pub send_all-bound :
    (s : Source) (types : List PktType) (queued : List ℕ)
    → length queued ≤ out_size
    → length (send_all s types queued) ≤ out_size
send_all-bound s [] queued h = h
send_all-bound s (t ∷ ts) queued h =
    send_all-bound s ts (send_packet t s queued) (send_packet-bound t s queued h)

-- The length in the header of a packet of type SDES, read as RTCP_recv_packet reads it, is the length
-- of the packet exactly for a host name whose length modulo 4 is 0 or 3, for names shorter than
-- 2 ^ 16 bytes; and the packet names no attribute CNAME, but 0, of length 0.
pub packet_of-sdes :
    (s : Source)
    → length s.hostname < 2 ^ 16
    → (pkt : List ℕ) × (packet_of sdes s ≡ some pkt)
      × ((packet_size pkt 0 ≡ length pkt)
          ↔ ((length s.hostname % 4 ≡ 0) ⊎ (length s.hostname % 4 ≡ 3)))
      × (byte pkt 8 ≡ 0)
      × (byte pkt 9 ≡ 0)
unfolding packet_of
packet_of-sdes s small =
    let n = length s.hostname in
    let pad = sdes_size n - (12 + n) in
    let total : length (s.hostname ++ replicate pad 0) ≡ n + pad =
      length-append s.hostname (replicate pad 0) ∙ ap (λ m. n + m) (length-replicate pad 0) in
    (
      header 1 202 (sdes_size n)
          ++ (be_32 s.ssrc
              ++ (htonl_char 1 ∷ htonl_char n ∷ 0 ∷ 0 ∷ [])
              ++ (s.hostname ++ replicate pad 0)),
      refl,
      ground (arith, total, small),
      refl,
      omega (arith, small),
    )
