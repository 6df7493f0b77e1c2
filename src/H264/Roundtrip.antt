-- ===== src/H264/Roundtrip.antt =====
-- A file of units, sent by read_h264 and put together by a receiver.
use fenice_1_12_with_h.Prelude.{
  ℕ, suc, ◌+◌, ◌*◌, ◌/◌, ◌%◌, ◌<◌, ◌≤◌, ◌≡◌, refl, sym, ap, ◌∙◌, List, [], ◌∷◌, ◌++◌, map, Option,
  none, some, length, length-append, All, arith,
}
use fenice_1_12_with_h.H264.File.{Bytes, at_start}
use fenice_1_12_with_h.H264.Nalu.{Nalu, max_frame_size}
use fenice_1_12_with_h.H264.Read.{Static, Opening, opened, H264Packet, read_h264}
use fenice_1_12_with_h.H264.Units.{NalUnit, IsNalUnit, print, decoded}
use fenice_1_12_with_h.H264.Pass.{print_all, reads, as_read, as_last_read, reads-print_all}
use fenice_1_12_with_h.H264.Receive.{receive}
use fenice_1_12_with_h.H264.Fragment.{packets, unit_of, IsFilled}
use fenice_1_12_with_h.H264.Playback.{play, and_on, play-reads}

-- A unit with a payload, a header of one byte, and a type that is not one of the packet types.
pub record IsSendable (u : NalUnit) : Type 0 where
  pub unit : IsNalUnit u
  pub payload : 0 < length u.payload
  pub header : u.header < 256
  pub unit_type : u.header % 32 < 24

IsFilled-decoded :
    (header : ℕ) (payload : Bytes)
    → 0 < length payload
    → header % 32 < 24
    → IsFilled (decoded header payload)
IsFilled-decoded header payload p t = record {
  all = refl;
  some_byte = p;
  reference = omega arith;
  unit_type = t;
  forbidden = omega arith;
}

-- What arrives of a unit: the forbidden bit of its header is lost.
abbrev pub as_received : NalUnit → Option Bytes
as_received u = some ((u.header % 128) ∷ u.payload)

abbrev pub as_last_received : NalUnit → Option Bytes
as_last_received u = some ((u.header % 128) ∷ (u.payload ++ (255 ∷ [])))

unit_of-decoded :
    (header : ℕ) (payload : Bytes)
    → header < 256
    → unit_of (decoded header payload) ≡ (header % 128) ∷ payload
unit_of-decoded header payload h =
    let bits : header / 32 % 4 * 32 / 32 * 32 + header % 32 ≡ header % 128 = omega arith in
    ap (λ b. b ∷ payload) bits

abbrev units_read : List NalUnit → NalUnit → List Nalu
units_read us last = map as_read us ++ (as_last_read last ∷ [])

length-units_read :
    (us : List NalUnit) (last : NalUnit) → length (units_read us last) ≡ suc (length us)
length-units_read [] last = refl
length-units_read (u ∷ us) last = ap suc (length-units_read us last)

units_read-IsFilled :
    (us : List NalUnit) (last : NalUnit)
    → All IsSendable us
    → IsSendable last
    → All (λ n. IsFilled n × (n.len ≤ max_frame_size)) (units_read us last)
units_read-IsFilled [] last vs v = (
  (
    IsFilled-decoded last.header (last.payload ++ (255 ∷ []))
        (omega (arith, v.payload, length-append last.payload (255 ∷ []))) v.unit_type,
    omega (arith, v.unit.fits, length-append last.payload (255 ∷ [])),
  ),
  tt,
)
units_read-IsFilled (u ∷ us) last vs v = (
  (IsFilled-decoded u.header u.payload vs.0.payload vs.0.unit_type, omega (arith, vs.0.unit.fits)),
  units_read-IsFilled us last vs.1 v,
)

units_received :
    (us : List NalUnit) (last : NalUnit)
    → All IsSendable us
    → IsSendable last
    → map (λ n. some (unit_of n)) (units_read us last)
      ≡ map as_received us ++ (as_last_received last ∷ [])
units_received [] last vs v =
    ap (λ xs. some xs ∷ []) (unit_of-decoded last.header (last.payload ++ (255 ∷ [])) v.header)
units_received (u ∷ us) last vs v =
    cc (unit_of-decoded u.header u.payload vs.0.header, units_received us last vs.1 v)

All-IsNalUnit : (us : List NalUnit) → All IsSendable us → All IsNalUnit us
All-IsNalUnit [] vs = tt
All-IsNalUnit (u ∷ us) vs = (vs.0.unit, All-IsNalUnit us vs.1)

module _ (us : List NalUnit) (last : NalUnit) (fresh : Static) where
  abbrev bytes : Bytes
  bytes = print_all us ++ print last

  abbrev answer : Opening
  answer = opened (at_start bytes) fresh

  packets_opens :
      (k : ℕ)
      → packets (suc k) answer (record { stat = none; h264_time = 0 })
        ≡ packets
            (suc k)
            answer
            (record { stat = some (record fresh { f = at_start bytes }); h264_time = 0 })
  unfolding packets read_h264
  packets_opens k = refl

  opens :
      (k : ℕ)
      → play (suc k) answer (record { stat = none; h264_time = 0 })
        ≡ play
            (suc k)
            answer
            (record { stat = some (record fresh { f = at_start bytes }); h264_time = 0 })
  unfolding play
  opens k = ap (and_on (play k answer)) (packets_opens 72)

  -- Let a file hold units with a type below 24 and a payload that is not empty, does not end with a
  -- byte 0, holds no start code, and is short enough: with its 12 bytes more it has at most 100000.
  -- From the opening of the file on read_h264 ends each unit after at most 73 calls, and a receiver
  -- that puts the packets together by RFC 6184 has every unit in order; then the file stands at its
  -- start. Memory that malloc gave must hold 0 for `sharding_packet`. The forbidden bits are lost, and the last unit
  -- has a byte 255 more.
  pub play-print_all :
      fresh.sharding_packet ≡ 0
      → All IsSendable us
      → IsSendable last
      → (pss : List (List H264Packet)) × (s' : Static) × (time : ℕ) × (play
            (suc (length us))
            answer
            (record { stat = none; h264_time = 0 })
          ≡ some (pss, record { stat = some s'; h264_time = time }))
        × (map (λ ps. receive (map (λ p. p.payload) ps)) pss
            ≡ map as_received us ++ (as_last_received last ∷ []))
        × (s'.sharding_packet ≡ 0)
        × (s'.f ≡ at_start bytes)
  play-print_all idle vs v =
      let ns = units_read us last in
      let s : Static = record fresh { f = at_start bytes } in
      let count = length-units_read us last in
      let all_read : reads (length ns) s.n s.f ≡ some (ns, at_start bytes) =
        ap (λ k. reads k fresh.n (at_start bytes)) count
        ∙ reads-print_all us last fresh.n (All-IsNalUnit us vs) v.unit in
      let p =
        play-reads ns answer s (at_start bytes) 0 idle (units_read-IsFilled us last vs v)
          all_read in
      (
        p.pss,
        p.s',
        p.time',
        opens (length us)
            ∙ ap (λ k. play k answer (record { stat = some s; h264_time = 0 })) (sym count)
            ∙ p.result,
        p.received ∙ units_received us last vs v,
        p.ready,
        p.file,
      )
