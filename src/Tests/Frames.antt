-- ===== src/Tests/Frames.antt =====
-- mediainfo/read_h264.c at concrete files.
use fenice_1_12_with_h.Prelude.{
  ℕ, ◌≡◌, refl, true, false, List, [], ◌∷◌, ◌++◌, map, none, some, replicate, arith,
}
use fenice_1_12_with_h.Prelude.Codes.{err_noerror}
use fenice_1_12_with_h.H264.File.{at_start}
use fenice_1_12_with_h.H264.Nalu.{
  Nalu, returned, find_another_start, finish, copy_nalu, get_one_nalu_payload,
}
use fenice_1_12_with_h.H264.Read.{Static, opened, H264Packet}
use fenice_1_12_with_h.H264.Scan.{is_clean, reading}
use fenice_1_12_with_h.H264.Units.{NalUnit, IsNalUnit, print, decoded}
use fenice_1_12_with_h.H264.Pass.{print_all, as_read}
use fenice_1_12_with_h.H264.Receive.{receive}
use fenice_1_12_with_h.H264.Fragment.{IsFilled}
use fenice_1_12_with_h.H264.Playback.{play}
use fenice_1_12_with_h.H264.Roundtrip.{IsSendable, as_received, as_last_received, play-print_all}

abbrev parameters : NalUnit
parameters = record { long = true; header = 0x67; payload = 66 ∷ 0 ∷ 30 ∷ [] }

abbrev picture : NalUnit
picture = record { long = false; header = 0x65; payload = replicate 1500 7 }

abbrev no_unit : Nalu
no_unit = decoded 0 []

parameters-IsNalUnit : IsNalUnit parameters
unfolding is_clean
parameters-IsNalUnit = record { clean = refl; fits = omega arith }

picture-IsNalUnit : IsNalUnit picture
unfolding is_clean
picture-IsNalUnit = record { clean = refl; fits = omega arith }

-- The file is read from its bytes, and the last unit wraps around.
small_file :
    get_one_nalu_payload no_unit (reading [] (print parameters ++ (0 ∷ 0 ∷ 1 ∷ 0x41 ∷ [])))
    ≡ returned err_noerror
        (decoded 0x67 (66 ∷ 0 ∷ 30 ∷ []))
        (reading (30 ∷ 0 ∷ 66 ∷ 0x67 ∷ 1 ∷ 0 ∷ 0 ∷ 0 ∷ []) (0 ∷ 0 ∷ 1 ∷ 0x41 ∷ []))
unfolding get_one_nalu_payload find_another_start finish copy_nalu
small_file = refl

picture_nalu-IsFilled : IsFilled (as_read picture)
picture_nalu-IsFilled = record {
  all = refl;
  some_byte = omega arith;
  reference = omega arith;
  unit_type = omega arith;
  forbidden = omega arith;
}

abbrev memory : Static
memory = record {
  sharding_packet = 0;
  f = at_start (print picture ++ (print parameters ++ []));
  n = no_unit;
  packet_num = 0;
  last_packet_byte = 0;
  current_packet = 0;
}

parameters-IsSendable : IsSendable parameters
parameters-IsSendable = record {
  unit = parameters-IsNalUnit;
  payload = omega arith;
  header = omega arith;
  unit_type = omega arith;
}

picture-IsSendable : IsSendable picture
picture-IsSendable = record {
  unit = picture-IsNalUnit;
  payload = omega arith;
  header = omega arith;
  unit_type = omega arith;
}

play-print_all_example :
    (pss : List (List H264Packet)) × (s' : Static) × (time : ℕ) × (play 2
        (opened (at_start (print_all (picture ∷ []) ++ print parameters)) memory)
        (record { stat = none; h264_time = 0 })
      ≡ some (pss, record { stat = some s'; h264_time = time }))
    × (map (λ ps. receive (map (λ p. p.payload) ps)) pss
        ≡ as_received picture ∷ as_last_received parameters ∷ [])
    × (s'.sharding_packet ≡ 0)
    × (s'.f ≡ at_start (print_all (picture ∷ []) ++ print parameters))
play-print_all_example =
    play-print_all (picture ∷ []) parameters memory refl (picture-IsSendable, tt)
      parameters-IsSendable
