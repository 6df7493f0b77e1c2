-- ===== src/Mpeg/System/Stamped/Header.antt =====
-- read_packet_head on a header with times.
use mathlib.Core.List.{append_assoc}
use fenice_1_12_with_h.Prelude.{
  ℕ, suc, ◌+◌, ◌%◌, ◌^◌, ◌<◌, ◌≡◌, zero, ◌≢◌, refl, ap, List, [], ◌∷◌, ◌++◌, Option, some, none,
  false, length, replicate, ◌==◌, arith,
}
use fenice_1_12_with_h.Mpeg.System.Head.{Clock, Reading, read_fields, set_times, read_packet_head}
use fenice_1_12_with_h.Mpeg.System.Stamp.{time_rest}
use fenice_1_12_with_h.Mpeg.System.Stamped.{
  Stamps, Stamped, first_of, rest_of, lead, follow, print_stamped, IsStamps, IsScale,
  read_stuffing_split, scaled, scale_read, read_scale-lead, stamped_count, stamped_buf,
  stamped_reading, read_times-first_of, presented, decoded,
}
use fenice_1_12_with_h.Mpeg.System.Stamped.Loops.{clock_of, set_times-clock_of}

-- The buffer and the count behind the header.
copied_lem :
    (scale : Option (ℕ × ℕ)) (stamps : Stamps) (high low : ℕ) (buf stuffing : List ℕ)
    → stamped_buf stamps
        (scale_read scale (first_of stamps) (((buf ++ high ∷ []) ++ low ∷ []) ++ stuffing))
      ≡ buf
        ++ (high ∷ low ∷ stuffing
            ++ lead scale (first_of stamps) ∷ follow scale (first_of stamps) (rest_of stamps []))
copied_lem none (presented p) high low buf stuffing = simp (append_assoc) refl
copied_lem none (decoded p d) high low buf stuffing = simp (append_assoc) refl
copied_lem (some s) (presented p) high low buf stuffing = simp (append_assoc) refl
copied_lem (some s) (decoded p d) high low buf stuffing = simp (append_assoc) refl

length_stuffing : (n : ℕ) (ys : List ℕ) → length (replicate {A = ℕ} n 255 ++ ys) ≡ n + length ys
length_stuffing zero ys = omega arith
length_stuffing (suc n) ys = omega (arith, length_stuffing n ys)

counted_lem :
    (scale : Option (ℕ × ℕ)) (stamps : Stamps) (high low n : ℕ)
    → stamped_count stamps (scaled scale ((2 + n + 1) % 2 ^ 32))
      ≡ length (
          high ∷ low ∷ replicate n 255
          ++ lead scale (first_of stamps) ∷ follow scale (first_of stamps) (rest_of stamps []))
        % 2 ^ 32
counted_lem none (presented p) high low n =
    omega (arith, length_stuffing n (first_of (presented p) ∷ time_rest p))
counted_lem none (decoded p d) high low n =
    omega (arith, length_stuffing n (first_of (decoded p d) ∷ rest_of (decoded p d) []))
counted_lem (some (a, c)) (presented p) high low n =
    omega (arith, length_stuffing n (a ∷ c ∷ first_of (presented p) ∷ time_rest p))
counted_lem (some (a, c)) (decoded p d) high low n =
    omega (arith, length_stuffing n (a ∷ c ∷ first_of (decoded p d) ∷ rest_of (decoded p d) []))

first_small : (s : Stamps) → IsStamps s → first_of s < 2 ^ 6
first_small (presented p) h = omega arith
first_small (decoded p d) h = omega (arith, h.0)

lead_ne : (scale : Option (ℕ × ℕ)) (b : ℕ) → IsScale scale → b < 2 ^ 6 → lead scale b ≢ 255
lead_ne none b h small = λ e. omega (arith, e)
lead_ne (some (a, c)) b h small = λ e. omega (arith, e)

read_fields_stamped :
    (fuel : ℕ) (old : ℕ → ℕ) (final_byte n : ℕ) (scale : Option (ℕ × ℕ)) (s : Stamps)
    (buf rest : List ℕ) (r : Reading)
    → n < fuel
    → IsScale scale
    → IsStamps s
    → read_fields fuel old final_byte (record r {
      input = record {
        buf = buf;
        unread =
            replicate n 255 ++ lead scale (first_of s) ∷ follow scale (first_of s) (rest_of s rest);
      };
    })
      ≡ some (
          stamped_reading final_byte s
            (record r {
              count = scaled scale ((r.count + n + 1) % 2 ^ 32);
              input = record {
                buf = scale_read scale (first_of s) (buf ++ replicate n 255);
                unread = rest;
              };
            })
            rest)
unfolding read_fields
read_fields_stamped fuel old final_byte n scale s buf rest r enough hc hs =
    let small = first_small s hs in
    rw
      (
        read_stuffing_split n fuel old r.count buf (lead scale (first_of s))
            (follow scale (first_of s) (rest_of s rest)) enough
            (lead_ne scale (first_of s) hc small),
        read_scale-lead old ((r.count + n + 1) % 2 ^ 32) (first_of s) (buf ++ replicate n 255)
            (rest_of s rest) scale small hc,
        read_times-first_of old final_byte s
            (scale_read scale (first_of s) (buf ++ replicate n 255)) rest
            (record r { count = scaled scale ((r.count + n + 1) % 2 ^ 32) }) hs,
        read_fields,
      )
      refl

-- The state in which the times are read.
abbrev behind : Option (ℕ × ℕ) → Stamps → ℕ → ℕ → ℕ → List ℕ → Reading → Reading
behind scale s high low n buf r = record r {
  count = scaled scale ((2 + n + 1) % 2 ^ 32);
  input = record {
    buf = scale_read scale (first_of s) (((buf ++ high ∷ []) ++ low ∷ []) ++ replicate n 255);
    unread = r.input.unread;
  };
}

not_private : {final_byte : ℕ} → final_byte ≢ 191 → (final_byte == 191) ≡ false
not_private h = ground (arith, h)

-- read_packet_head on a header with times, for any stream but 0xbf and whatever its arrays hold before:
-- with fuel for the stuffing bytes it stands behind the header, has copied it into the buffer and
-- returns its size modulo 2 ^ 32. The time for decoding is replaced. So is the presentation time of the
-- stream's kind, audio for 0xc0, but its lower 32 bits only where `time_set` was 0; it is 1 afterwards.
pub read_packet_head-print_stamped :
    (fuel : ℕ) (old : ℕ → ℕ) (stack_pts stack_dts : List ℕ) (final_byte : ℕ) (k : Clock)
    (s : Stamped) (buf rest : List ℕ)
    → s.stuffing < fuel
    → final_byte ≢ 191
    → IsScale s.scale
    → IsStamps s.stamps
    → read_packet_head fuel old stack_pts stack_dts final_byte k
        (record { buf = buf; unread = print_stamped s rest })
      ≡ some (record {
        count = length (print_stamped s []) % 2 ^ 32;
        clock = clock_of final_byte s.stamps k;
        input = record { buf = buf ++ print_stamped s []; unread = rest };
      })
unfolding read_packet_head set_times
read_packet_head-print_stamped fuel old stack_pts stack_dts final_byte k s buf rest enough audio hc
      hs =
    let r : Reading = record {
      count = 2;
      vett_pts = stack_pts;
      vett_dts = stack_dts;
      pts_present = false;
      clock = record k { dts_present = false };
      input = record { buf = (buf ++ s.high ∷ []) ++ s.low ∷ []; unread = rest };
    } in
    rw
      (
        not_private audio,
        read_fields_stamped fuel old final_byte s.stuffing s.scale s.stamps
            ((buf ++ s.high ∷ []) ++ s.low ∷ []) rest r enough hc hs,
      )
      (ap some λ i. record {
        count = counted_lem s.scale s.stamps s.high s.low s.stuffing i;
        clock =
            set_times-clock_of final_byte s.stamps
              (behind s.scale s.stamps s.high s.low s.stuffing buf r) k rest hs i;
        input = record {
          buf = copied_lem s.scale s.stamps s.high s.low buf (replicate s.stuffing 255) i;
          unread = rest;
        };
      })
