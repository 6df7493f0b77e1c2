-- ===== src/Tests/Video.antt =====
-- Runs of the headers of an MPEG video stream.
use fenice_1_12_with_h.Prelude.{[], ◌∷◌, ℕ, some, none, refl, replicate, arith}
use fenice_1_12_with_h.Mpeg.Video.{
  Head1, Head2, mpeg_1, read_gop_head, read_picture_head, read_picture_coding_ext,
}
use fenice_1_12_with_h.Mpeg.Video.Extra.{Tail, IsTail, print_ending, print_code}
use fenice_1_12_with_h.Mpeg.Video.Time.{
  TimeCode, IsTimeRead, print_time_code, read_gop_head-print_time_code,
}
use fenice_1_12_with_h.Mpeg.Video.Coding.{
  Picture, IsPictureRead, print_picture, read_picture_head-print_picture,
}
use fenice_1_12_with_h.Mpeg.Video.Extension.{
  IsExtensionRead, print_extension_of, read_picture_coding_ext-print_extension_of,
}
use fenice_1_12_with_h.Mpeg.Sequence.{read_seq_head}
use fenice_1_12_with_h.Mpeg.Sequence.Header.{
  Sequence, IsSequenceRead, print_sequence, read_seq_head-print_sequence,
}

abbrev zeros : ℕ → ℕ
zeros n = 0

-- The end of a header with user data.
abbrev an_ending : Tail
an_ending = record { bytes = 3 ∷ []; extension = none; user = some (70 ∷ 0 ∷ []); code = 184 }

an_ending-IsTail : IsTail an_ending
an_ending-IsTail = record {
  bytes_clear = (refl, tt);
  extension_lem = λ e. omega (arith, e);
  user_lem = (refl, (refl, tt));
}

abbrev a_time : TimeCode
a_time = record { drop_frame = 0; hours = 23; minutes = 59; seconds = 7; pictures = 24; flags = 64 }

read_gop_head-print_time_code_example : IsTimeRead a_time 184 (9 ∷ []) (
    read_gop_head zeros mpeg_1
      (record { buf = []; unread = print_time_code a_time (print_ending an_ending (9 ∷ [])) }))
read_gop_head-print_time_code_example =
    read_gop_head-print_time_code zeros mpeg_1 a_time an_ending [] (9 ∷ [])
      (record {
        drop_lt = omega arith;
        hours_lt = omega arith;
        minutes_lt = omega arith;
        seconds_lt = omega arith;
        pictures_lt = omega arith;
        flags_lt = omega arith;
      })
      an_ending-IsTail

-- A sequence with the second matrix alone.
abbrev a_sequence : Sequence
a_sequence = record {
  size = (22, 1, 32, 19);
  rate = 2875;
  behind_rate = 33;
  flags = 129;
  intra = none;
  non_intra = some (replicate 64 16);
}

read_seq_head-print_sequence_example : IsSequenceRead a_sequence 184 (9 ∷ []) (
    read_seq_head zeros mpeg_1
      (record { buf = []; unread = print_sequence a_sequence (print_ending an_ending (9 ∷ [])) }))
read_seq_head-print_sequence_example =
    read_seq_head-print_sequence zeros mpeg_1 a_sequence an_ending [] (9 ∷ [])
      (record {
        rate_lt = omega arith;
        behind_lt = omega arith;
        intra_lem = refl;
        non_intra_lem = (refl, refl);
      })
      an_ending-IsTail

abbrev no_head1 : Head1
no_head1 = record {
  mbz = 0;
  t = 0;
  tr = 0;
  an = 0;
  n = 0;
  s = 0;
  b = 0;
  e = 0;
  p = 0;
  fbv = 0;
  bfc = 0;
  ffv = 0;
  ffc = 0;
}

-- A picture of type B whose temporal reference needs more than seven bits.
abbrev a_picture : Picture
a_picture = record {
  reference = 200;
  kind = 3;
  delay = 65535;
  full_forward = 0;
  forward = 5;
  full_backward = 1;
  backward = 6;
  behind = 0;
}

read_picture_head-print_picture_example : IsPictureRead a_picture no_head1 184 (9 ∷ []) (
    read_picture_head zeros mpeg_1 no_head1
      (record { buf = []; unread = print_picture a_picture (print_ending an_ending (9 ∷ [])) }))
read_picture_head-print_picture_example =
    read_picture_head-print_picture zeros mpeg_1 a_picture no_head1 an_ending [] (9 ∷ [])
      (record {
        reference_lt = omega arith;
        kind_lt = omega arith;
        delay_lt = omega arith;
        full_forward_lt = omega arith;
        forward_lt = omega arith;
        full_backward_lt = omega arith;
        backward_lt = omega arith;
        behind_lt = omega arith;
      })
      an_ending-IsTail

-- An extension, and the header that an earlier one left with other flags.
abbrev an_extension : Head2
an_extension = record {
  x = 0;
  e = 0;
  f00 = 3;
  f01 = 2;
  f10 = 15;
  f11 = 15;
  dc = 1;
  ps = 3;
  t = 1;
  p = 0;
  c = 0;
  q = 1;
  v = 0;
  a = 1;
  r = 0;
  h = 1;
  g = 1;
  d = 1;
}

abbrev earlier : Head2
earlier = record an_extension { p = 1; v = 1 }

read_picture_coding_ext-print_extension_of_example :
    IsExtensionRead an_extension earlier 1 (9 ∷ []) (
      read_picture_coding_ext zeros earlier (record {
        buf = [];
        unread = print_extension_of an_extension 0 (print_code [] 1 (9 ∷ []));
      }))
read_picture_coding_ext-print_extension_of_example =
    read_picture_coding_ext-print_extension_of zeros an_extension earlier 0 [] 1 [] (9 ∷ [])
      (record {
        f00_lt = omega arith;
        f01_lt = omega arith;
        f10_lt = omega arith;
        f11_lt = omega arith;
        dc_lt = omega arith;
        ps_lt = omega arith;
        t_lt = omega arith;
        p_lt = omega arith;
        c_lt = omega arith;
        q_lt = omega arith;
        v_lt = omega arith;
        a_lt = omega arith;
        r_lt = omega arith;
        h_lt = omega arith;
        g_lt = omega arith;
        d_lt = omega arith;
      })
      (omega arith) tt
