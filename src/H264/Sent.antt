-- ===== src/H264/Sent.antt =====
-- Every unit is sent whole: what a receiver gets, and the state behind it.
use mathlib.Core.Path.{subst}
use fenice_1_12_with_h.Prelude.{
  ℕ, suc, ◌+◌, ◌-◌, ◌*◌, ◌/◌, ◌%◌, ◌<◌, ◌≤◌, ◌≡◌, refl, sym, ap, ◌∙◌, inl, inr, true, false, List,
  [], ◌∷◌, Option, some, leb, ◌==◌, take, drop, Bool-cases, length-take, arith,
}
use fenice_1_12_with_h.Prelude.Codes.{err_noerror}
use fenice_1_12_with_h.H264.File.{Stream}
use fenice_1_12_with_h.H264.Nalu.{Nalu, returned, get_one_nalu_payload}
use fenice_1_12_with_h.H264.Read.{
  Static, H264Entry, Opening, H264Packet, packet, first_packet, read_h264, fragment, fu_indicator,
}
use fenice_1_12_with_h.H264.Receive.{receive-one, receive-many}
use fenice_1_12_with_h.H264.Fragment.{
  packets, keep, unit_of, IsFilled, IsSent, further, entry, packets-further, receive_rest-further,
  further-bounded, further-timed, take-all, take-drop_zero,
}

-- One unit, and the state behind it.
pub record IsDone (n : Nalu) (f : Stream) (time : ℕ) (r : Option (List H264Packet × H264Entry))
    : Type 0 where
  pub ps : List H264Packet
  pub s' : Static
  pub result : r ≡ some (ps, record { stat = some s'; h264_time = time })
  pub sent : IsSent n time ps
  pub ready : s'.sharding_packet ≡ 0
  pub file : s'.f ≡ f
  pub unit_kept : s'.n ≡ n

module _ (answer : Opening) (s : Static) (n : Nalu) (f : Stream) (v : IsFilled n) (time : ℕ) where
  abbrev opened_entry : H264Entry
  opened_entry = record { stat = some s; h264_time = time }

  module _ (idle : s.sharding_packet ≡ 0)
      (read : get_one_nalu_payload s.n s.f ≡ returned err_noerror n f) where
    read-first : read_h264 answer opened_entry ≡ first_packet (record s { n = n; f = f }) time
    unfolding read_h264
    read-first = ground (arith, read)

    first_packet-small :
        n.len ≤ 1400
        → first_packet (record s { n = n; f = f }) time
          ≡ packet
              (record { payload = unit_of n; mtime = time + 1; recallme = false; marker = 1 })
              (record {
                stat = some (record s { n = n; f = f; sharding_packet = 0 });
                h264_time = time + 1;
              })
    unfolding first_packet
    first_packet-small h =
        let bits : fu_indicator n.nal_unit_type (n.nal_reference_idc / 32) n.forbidden_bit
            ≡ n.nal_reference_idc / 32 * 32 + n.nal_unit_type =
          omega (arith, v.reference, v.unit_type, v.forbidden) in
        ground (arith, bits, take-all n.len n.buf (omega (arith, v.all)), v.some_byte)

    first_packet-large :
        1400 < n.len
        → first_packet (record s { n = n; f = f }) time
          ≡ packet
              (record {
                payload = fragment n 0 1 0 1400;
                mtime = time + 1;
                recallme = true;
                marker = 0;
              })
              (entry answer n v (time + 1) f 1 1)
    unfolding first_packet
    first_packet-large h =
        let full : (n.len == 0) ≡ false = ground (arith, v.some_byte) in
        let large : leb n.len 1400 ≡ false = ground (arith, h) in rw (full, large) refl

    packets-small :
        (fuel : ℕ) → n.len ≤ 1400 → IsDone n f (time + 1) (packets (suc fuel) answer opened_entry)
    unfolding packets
    packets-small fuel h = record {
      ps = record { payload = unit_of n; mtime = time + 1; recallme = false; marker = 1 } ∷ [];
      s' = record s { n = n; f = f; sharding_packet = 0 };
      result = rw (read-first, first_packet-small h) refl;
      sent = record {
        received =
            receive-one _ n.buf (omega (arith, v.some_byte, v.all)) (omega (arith, v.unit_type));
        bounded = (omega (arith, v.all, h), tt);
        timed = (refl, tt);
      };
      ready = refl;
      file = refl;
      unit_kept = refl;
    }

    packets-large :
        (k : ℕ)
        → 1400 < n.len
        → n.len / 1400 ≡ suc k
        → IsDone n f (time + 1) (packets (suc (suc k)) answer opened_entry)
    unfolding packets
    packets-large k h split = record {
      ps =
          record { payload = fragment n 0 1 0 1400; mtime = time + 1; recallme = true; marker = 0 }
          ∷ further answer n v (time + 1) f (k) 1;
      s' = record s {
        sharding_packet = 0;
        n = n;
        f = f;
        packet_num = n.len / 1400;
        last_packet_byte = n.len % 1400;
        current_packet = n.len / 1400;
      };
      result =
          rw (read-first, first_packet-large h)
            (ap (keep _) (packets-further answer n v (time + 1) f (k) 1 (omega (arith, split))));
      sent = record {
        received =
            receive-many n.nal_unit_type (n.nal_reference_idc / 32) n.forbidden_bit
              (take 1400 n.buf) (drop 1400 n.buf) _ v.unit_type v.reference v.forbidden
              (receive_rest-further answer n v (time + 1) f (k) 1 (omega (arith, split)))
            ∙ ap (λ xs. some ((n.nal_reference_idc / 32 * 32 + n.nal_unit_type) ∷ xs))
                (take-drop_zero 1400 n.buf);
        bounded =
            (omega (arith, length-take 1400 n.buf), further-bounded answer n v (time + 1) f (k) 1);
        timed = (refl, further-timed answer n v (time + 1) f (k) 1);
      };
      ready = refl;
      file = refl;
      unit_kept = refl;
    }

    -- So many rounds are enough for a unit of any size.
    pub packets-IsDone : IsDone n f (time + 1) (packets (suc (n.len / 1400)) answer opened_entry)
    packets-IsDone = elim (Bool-cases (leb n.len 1400)) [
      | inl small ↦ packets-small (n.len / 1400) (ground (arith, small))
      | inr large ↦
          let h : 1400 < n.len = ground (arith, large) in
          let split : n.len / 1400 ≡ suc (n.len / 1400 - 1) = omega (arith, h) in
          subst (λ k. IsDone n f (time + 1) (packets (suc k) answer opened_entry)) (sym split)
            (packets-large (n.len / 1400 - 1) h split)
    ]
