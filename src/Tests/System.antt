-- ===== src/Tests/System.antt =====
-- Runs of the headers of an MPEG system stream.
use fenice_1_12_with_h.Prelude.{◌≡◌, ◌^◌, ◌%◌, ◌+◌, [], ◌∷◌, ℕ, some, false, refl, length, arith}
use fenice_1_12_with_h.Mpeg.System.{read_pack_head}
use fenice_1_12_with_h.Mpeg.System.Head.{Clock, read_packet_head}
use fenice_1_12_with_h.Mpeg.System.Section.{read_packet}
use fenice_1_12_with_h.Mpeg.System.Stamp.{time_bits}
use fenice_1_12_with_h.Mpeg.System.Pack.{Pack, IsPackRead, print_pack, read_pack_head-IsPackRead}
use fenice_1_12_with_h.Mpeg.System.Stamped.{Stamped, decoded, print_stamped}
use fenice_1_12_with_h.Mpeg.System.Stamped.Loops.{clock_of}
use fenice_1_12_with_h.Mpeg.System.Stamped.Header.{read_packet_head-print_stamped}
use fenice_1_12_with_h.Mpeg.System.Stamped.Unset.{audio_pts, read_packet_head_unset}
use fenice_1_12_with_h.Mpeg.System.Sections.{piece, picture, print_parts, read_packet-print_parts}

abbrev zeros : ℕ → ℕ
zeros n = 0

-- A pack header with a system header, whose time has its highest bit.
abbrev a_pack : Pack
a_pack = record {
  time = 2 ^ 32 + 90000;
  rate = 128 ∷ 27 ∷ 131 ∷ [];
  system = some (0 ∷ 12 ∷ 128 ∷ 27 ∷ []);
  code = 224;
}

read_pack_head-IsPackRead_example : IsPackRead a_pack (0 ∷ 0 ∷ 1 ∷ 186 ∷ []) (9 ∷ []) (
    read_pack_head zeros
      (record { msb = 0; scr = 7 })
      (record { buf = 0 ∷ 0 ∷ 1 ∷ 186 ∷ []; unread = print_pack a_pack (9 ∷ []) }))
read_pack_head-IsPackRead_example =
    read_pack_head-IsPackRead zeros (record { msb = 0; scr = 7 }) a_pack (0 ∷ 0 ∷ 1 ∷ 186 ∷ [])
      (9 ∷ [])
      (record {
        time_lt = omega arith;
        rate_clear = (refl, (refl, (refl, tt)));
        end_lem = (refl, (refl, (refl, (refl, tt))));
      })

abbrev a_clock : Clock
a_clock = record {
  time_set = false;
  pts = record { msb = 1; pts = 5 };
  dts = record { msb = 1; pts = 6 };
  dts_present = false;
  pts_audio = record { msb = 1; pts = 8 };
}

-- A video packet with two bytes of stuffing, a buffer scale and both times.
abbrev a_header : Stamped
a_header = record {
  high = 7;
  low = 200;
  stuffing = 2;
  scale = some (96, 46);
  stamps = decoded 90000 86400;
}

read_packet_head-print_stamped_example :
    read_packet_head 3 zeros [] [] 224 a_clock
      (record { buf = []; unread = print_stamped a_header (1 ∷ []) })
    ≡ some (record {
      count = length (print_stamped a_header []) % 2 ^ 32;
      clock = clock_of 224 a_header.stamps a_clock;
      input = record { buf = print_stamped a_header []; unread = 1 ∷ [] };
    })
read_packet_head-print_stamped_example =
    read_packet_head-print_stamped 3 zeros [] [] 224 a_clock a_header [] (1 ∷ []) (omega arith)
      (λ e. omega (arith, e)) refl (omega arith, omega arith)

read_packet_head_unset_example :
    audio_pts (
      read_packet_head 1 zeros
        (time_bits 2 4711)
        []
        192
        a_clock
        (record { buf = []; unread = 0 ∷ 200 ∷ 15 ∷ 1 ∷ [] }))
    ≡ 4711
read_packet_head_unset_example =
    read_packet_head_unset 1 zeros [] 4711 0 0 200 a_clock [] (1 ∷ []) (omega arith) (omega arith)

read_packet-print_parts_example :
    read_packet 3 zeros 0 (record {
      buf = [];
      unread = print_parts (picture (4 ∷ []) 0 8 ∷ piece (5 ∷ []) 1 ∷ []) (6 ∷ 7 ∷ []) 224 (1 ∷ []);
    })
    ≡ some (record {
      count = 6;
      final_byte = 224;
      input = record {
        buf = print_parts (picture (4 ∷ []) 0 8 ∷ piece (5 ∷ []) 1 ∷ []) (6 ∷ 7 ∷ []) 224 [];
        unread = 1 ∷ [];
      };
    })
read_packet-print_parts_example =
    read_packet-print_parts 3 zeros 0 (picture (4 ∷ []) 0 8 ∷ piece (5 ∷ []) 1 ∷ []) (6 ∷ 7 ∷ [])
      224 [] (1 ∷ []) (omega arith)
      (((refl, tt), omega arith), ((((refl, tt), omega arith), omega arith), tt)) (refl, (refl, tt))
      (omega arith)
