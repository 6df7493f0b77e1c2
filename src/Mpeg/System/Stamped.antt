-- ===== src/Mpeg/System/Stamped.antt =====
-- Packet headers with times, as ISO 11172 lays them out, and how read_packet_head reads their parts.
pub mod Loops
pub mod Header
pub mod Unset
use mathlib.Core.List.{append_assoc}
use fenice_1_12_with_h.Prelude.{
  ℕ, suc, ◌+◌, ◌%◌, ◌/◌, ◌^◌, ◌<◌, ◌≡◌, zero, ◌≢◌, refl, sym, ap, ◌∙◌, List, [], ◌∷◌, ◌++◌, Option,
  Bool, if◌then◌else◌, some, none, inl, inr, true, false, length, replicate, ◌==◌, Bool-cases,
  arith,
}
use fenice_1_12_with_h.Mpeg.System.{Input, Pts, Times, read_time, shift_in, read_byte, read_byte_of}
use fenice_1_12_with_h.Mpeg.System.Head.{
  Clock, Reading, PacketHead, read_stuffing, read_fields, read_scale, store_msb, read_times,
  read_pts, read_both, set_times, read_packet_head,
}
use fenice_1_12_with_h.Mpeg.System.Stamp.{
  time_first, time_rest, time_bits, read_time-time_rest, shift_in-time_bits,
}

-- The times of a packet: for presentation alone, or for decoding too.
pub data Stamps : Type 0 where
  presented : ℕ → Stamps
  decoded : ℕ → ℕ → Stamps

-- A packet header with times: its length of two bytes, the number of stuffing bytes, the two bytes of
-- the buffer scale and size where they are present, and the times.
pub record Stamped : Type 0 where
  pub high : ℕ
  pub low : ℕ
  pub stuffing : ℕ
  pub scale : Option (ℕ × ℕ)
  pub stamps : Stamps

-- The bytes: `first_of` stands before `rest_of`, and `lead` before `follow`.
abbrev pub first_of : Stamps → ℕ
first_of (presented p) = time_first 2 p
first_of (decoded p d) = time_first 3 p

abbrev pub rest_of : Stamps → List ℕ → List ℕ
rest_of (presented p) rest = time_rest p ++ rest
rest_of (decoded p d) rest = time_rest p ++ (time_first 1 d ∷ time_rest d ++ rest)

abbrev pub lead : Option (ℕ × ℕ) → ℕ → ℕ
lead none b = b
lead (some (a, c)) b = a

abbrev pub follow : Option (ℕ × ℕ) → ℕ → List ℕ → List ℕ
follow none b rest = rest
follow (some (a, c)) b rest = c ∷ b ∷ rest

abbrev pub print_stamped : Stamped → List ℕ → List ℕ
print_stamped s rest =
    s.high ∷ s.low ∷ replicate s.stuffing 255
    ++ lead s.scale (first_of s.stamps) ∷ follow s.scale (first_of s.stamps) (rest_of s.stamps rest)

-- The times have 33 bits, and the byte of the buffer scale begins with the bits 01.
abbrev pub IsStamps : Stamps → Type 0
IsStamps (presented p) = p < 2 ^ 33
IsStamps (decoded p d) = (p < 2 ^ 33) × (d < 2 ^ 33)

abbrev pub IsScale : Option (ℕ × ℕ) → Type 0
IsScale none = Unit
IsScale (some (a, c)) = a / 2 ^ 6 ≡ 1

pub stuffing_end : {b : ℕ} → b ≢ 255 → (b == 255) ≡ false
stuffing_end e = ground (arith, e)

pub count_here : (count : ℕ) → (count + 1) % 2 ^ 32 ≡ (count + 0 + 1) % 2 ^ 32
count_here count = omega arith

pub count_next :
    (count n : ℕ) → ((count + 1) % 2 ^ 32 + n + 1) % 2 ^ 32 ≡ (count + suc n + 1) % 2 ^ 32
count_next count n = omega arith

-- The stuffing is passed over, and the byte behind it is the next.
pub read_stuffing-replicate :
    (n fuel : ℕ) (old : ℕ → ℕ) (count : ℕ) (buf : List ℕ) (b : ℕ) (rest : List ℕ)
    → n < fuel
    → b ≢ 255
    → read_stuffing fuel old count (record { buf = buf; unread = replicate n 255 ++ b ∷ rest })
      ≡ some (
        (count + n + 1) % 2 ^ 32,
        b,
        record { buf = buf ++ (replicate n 255 ++ b ∷ []); unread = rest },
      )
unfolding read_stuffing
read_stuffing-replicate zero (suc fuel) old count buf b rest h e =
    rw (stuffing_end e)
      (ap some (λ i. (count_here count i, b, record { buf = buf ++ b ∷ []; unread = rest })))
read_stuffing-replicate (suc n) (suc fuel) old count buf b rest h e =
    read_stuffing-replicate n fuel old ((count + 1) % 2 ^ 32) (buf ++ 255 ∷ []) b rest (omega arith)
      e
    ∙ ap some (λ i. (
      count_next count n i,
      b,
      record { buf = append_assoc buf (255 ∷ []) (replicate n 255 ++ b ∷ []) i; unread = rest },
    ))
read_stuffing-replicate n zero old count buf b rest h e = absurd (omega arith)

pub read_stuffing_split :
    (n fuel : ℕ) (old : ℕ → ℕ) (count : ℕ) (buf : List ℕ) (b : ℕ) (rest : List ℕ)
    → n < fuel
    → b ≢ 255
    → read_stuffing fuel old count (record { buf = buf; unread = replicate n 255 ++ b ∷ rest })
      ≡ some (
        (count + n + 1) % 2 ^ 32,
        b,
        record { buf = (buf ++ replicate n 255) ++ b ∷ []; unread = rest },
      )
read_stuffing_split n fuel old count buf b rest h e =
    read_stuffing-replicate n fuel old count buf b rest h e
    ∙ ap (λ c. some ((count + n + 1) % 2 ^ 32, b, record { buf = c; unread = rest }))
        (sym (append_assoc buf (replicate n 255) (b ∷ [])))

-- The scale is passed over, and the first byte of the times is the next.
abbrev pub scaled : Option (ℕ × ℕ) → ℕ → ℕ
scaled none count = count
scaled (some (a, c)) count = (count + 2) % 2 ^ 32

abbrev pub scale_read : Option (ℕ × ℕ) → ℕ → List ℕ → List ℕ
scale_read none b buf = buf ++ b ∷ []
scale_read (some (a, c)) b buf = ((buf ++ a ∷ []) ++ c ∷ []) ++ b ∷ []

pub no_scale : (b : ℕ) → b < 2 ^ 6 → (b / 2 ^ 6 % 4 == 1) ≡ false
no_scale b h = ground arith

pub a_scale : (a : ℕ) → a / 2 ^ 6 ≡ 1 → (a / 2 ^ 6 % 4 == 1) ≡ true
a_scale a h = ground (arith, h)

pub read_scale-lead :
    (old : ℕ → ℕ) (count b : ℕ) (buf rest : List ℕ) (scale : Option (ℕ × ℕ))
    → b < 2 ^ 6
    → IsScale scale
    → read_scale old count
        (lead scale b)
        (record { buf = buf ++ lead scale b ∷ []; unread = follow scale b rest })
      ≡ (scaled scale count, b, record { buf = scale_read scale b buf; unread = rest })
read_scale-lead old count b buf rest none small h = rw (no_scale b small) refl
read_scale-lead old count b buf rest (some (a, c)) small h = rw (a_scale a h) refl

-- The state behind the times.
abbrev pub stamped_count : Stamps → ℕ → ℕ
stamped_count (presented p) count = (count + 4) % 2 ^ 32
stamped_count (decoded p d) count = (count + 9) % 2 ^ 32

abbrev pub stamped_buf : Stamps → List ℕ → List ℕ
stamped_buf (presented p) buf = buf ++ time_rest p
stamped_buf (decoded p d) buf = ((buf ++ time_rest p) ++ time_first 1 d ∷ []) ++ time_rest d

abbrev pub pts_bits : Stamps → List ℕ
pts_bits (presented p) = time_bits 2 p
pts_bits (decoded p d) = time_bits 3 p

abbrev pub dts_bits : Stamps → List ℕ → List ℕ
dts_bits (presented p) vett = vett
dts_bits (decoded p d) vett = time_bits 1 d

abbrev pub stamped_clock : ℕ → Stamps → Clock → Clock
stamped_clock final_byte (presented p) k = record (store_msb final_byte (p / 2 ^ 32) k) {
  dts_present = false;
}
stamped_clock final_byte (decoded p d) k = record (store_msb final_byte (p / 2 ^ 32) k) {
  dts = record { msb = d / 2 ^ 32; pts = k.dts.pts };
  dts_present = true;
}

abbrev pub stamped_reading : ℕ → Stamps → Reading → List ℕ → Reading
stamped_reading final_byte s r rest = record {
  count = stamped_count s r.count;
  vett_pts = pts_bits s;
  vett_dts = dts_bits s r.vett_dts;
  pts_present = true;
  clock = stamped_clock final_byte s r.clock;
  input = record { buf = stamped_buf s r.input.buf; unread = rest };
}

pub two_lem : (p : ℕ) → p < 2 ^ 33 → (time_first 2 p / 2 ^ 4 == 2) ≡ true
two_lem p h = ground arith

pub three_lem : (p : ℕ) → p < 2 ^ 33 → (time_first 3 p / 2 ^ 4 == 3) ≡ true
three_lem p h = ground arith

pub not_two : (p : ℕ) → p < 2 ^ 33 → (time_first 3 p / 2 ^ 4 == 2) ≡ false
not_two p h = ground arith

pub read_times-first_of :
    (old : ℕ → ℕ) (final_byte : ℕ) (s : Stamps) (buf rest : List ℕ) (r : Reading)
    → IsStamps s
    → read_times old final_byte
        (first_of s)
        (record r { input = record { buf = buf; unread = rest_of s rest } })
      ≡ stamped_reading final_byte s (record r { input = record { buf = buf; unread = rest } }) rest
unfolding read_times read_pts read_both
read_times-first_of old final_byte (presented p) buf rest r h =
    rw (two_lem p h, read_time-time_rest old 2 p buf rest h) refl
read_times-first_of old final_byte (decoded p d) buf rest r h =
    rw
      (
        not_two p h.0,
        three_lem p h.0,
        read_time-time_rest old 3 p buf (time_first 1 d ∷ time_rest d ++ rest) h.0,
        read_time-time_rest old 1 d ((buf ++ time_rest p) ++ time_first 1 d ∷ []) rest h.1,
      )
      refl
