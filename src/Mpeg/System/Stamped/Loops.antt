-- ===== src/Mpeg/System/Stamped/Loops.antt =====
-- What read_packet_head makes of the caller's variables, for a header with times.
use fenice_1_12_with_h.Prelude.{
  ℕ, ◌%◌, ◌/◌, ◌^◌, ◌≡◌, refl, List, Bool, if◌then◌else◌, true, false, ◌==◌,
}
use fenice_1_12_with_h.Mpeg.System.{Input, Pts, shift_in}
use fenice_1_12_with_h.Mpeg.System.Head.{Clock, Reading, store_msb, set_times}
use fenice_1_12_with_h.Mpeg.System.Stamp.{time_bits, shift_in-time_bits}
use fenice_1_12_with_h.Mpeg.System.Stamped.{Stamps, IsStamps, stamped_reading, presented, decoded}

-- What the header makes of the caller's variables.
abbrev pub new_time : Bool → Pts → ℕ → Pts
new_time time_set t v = record { msb = v / 2 ^ 32; pts = if time_set then t.pts else v % 2 ^ 32 }

abbrev pub presented_at : ℕ → ℕ → Clock → Clock
presented_at final_byte p k =
    if final_byte == 192
    then record k {
      time_set = true;
      dts_present = false;
      pts_audio = new_time k.time_set k.pts_audio p;
    }
    else record k { time_set = true; dts_present = false; pts = new_time k.time_set k.pts p }

abbrev pub clock_of : ℕ → Stamps → Clock → Clock
clock_of final_byte (presented p) k = presented_at final_byte p k
clock_of final_byte (decoded p d) k = record (presented_at final_byte p k) {
  dts_present = true;
  dts = new_time false k.dts d;
}

-- The loops on times whose bits are known.
module _ (final_byte p : ℕ) (vett vett_dts : List ℕ) (count : ℕ) (input : Input) (v d a : Pts)
    (b : Bool) where
  presented_lem :
      (time_set audio : Bool)
      → (final_byte == 192) ≡ audio
      → ((t : ℕ) → shift_in t vett ≡ p % 2 ^ 32)
      → (set_times final_byte (record {
        count = count;
        vett_pts = vett;
        vett_dts = vett_dts;
        pts_present = true;
        clock =
            record (store_msb final_byte (p / 2 ^ 32) (record {
              time_set = time_set;
              pts = v;
              dts = d;
              dts_present = false;
              pts_audio = a;
            })) { dts_present = false };
        input = input;
      })).clock
        ≡ clock_of final_byte
            (presented p)
            (record { time_set = time_set; pts = v; dts = d; dts_present = b; pts_audio = a })
  unfolding set_times
  presented_lem true true e h = rw e refl
  presented_lem true false e h = rw e refl
  presented_lem false true e h = rw (e, h a.pts) refl
  presented_lem false false e h = rw (e, h v.pts) refl

  decoded_lem :
      (q : ℕ) (time_set audio : Bool)
      → (final_byte == 192) ≡ audio
      → ((t : ℕ) → shift_in t vett ≡ p % 2 ^ 32)
      → ((t : ℕ) → shift_in t vett_dts ≡ q % 2 ^ 32)
      → (set_times final_byte (record {
        count = count;
        vett_pts = vett;
        vett_dts = vett_dts;
        pts_present = true;
        clock =
            record (store_msb final_byte (p / 2 ^ 32) (record {
              time_set = time_set;
              pts = v;
              dts = d;
              dts_present = false;
              pts_audio = a;
            })) { dts = record { msb = q / 2 ^ 32; pts = d.pts }; dts_present = true };
        input = input;
      })).clock
        ≡ clock_of final_byte
            (decoded p q)
            (record { time_set = time_set; pts = v; dts = d; dts_present = b; pts_audio = a })
  unfolding set_times
  decoded_lem q true true e h g = rw (e, g d.pts) refl
  decoded_lem q true false e h g = rw (e, g d.pts) refl
  decoded_lem q false true e h g = rw (e, h a.pts, g d.pts) refl
  decoded_lem q false false e h g = rw (e, h v.pts, g d.pts) refl

pub set_times-clock_of :
    (final_byte : ℕ) (s : Stamps) (r : Reading) (k : Clock) (rest : List ℕ)
    → IsStamps s
    → (set_times final_byte (
        stamped_reading final_byte s
          (record r { clock = record k { dts_present = false } })
          rest)).clock
      ≡ clock_of final_byte s k
unfolding set_times
set_times-clock_of final_byte (presented p) r k rest h =
    presented_lem final_byte p (time_bits 2 p) r.vett_dts r.count r.input k.pts k.dts k.pts_audio
      k.dts_present k.time_set (final_byte == 192) refl (λ t. shift_in-time_bits t 2 p h)
set_times-clock_of final_byte (decoded p d) r k rest h =
    decoded_lem final_byte p (time_bits 3 p) (time_bits 1 d) r.count r.input k.pts k.dts k.pts_audio
      k.dts_present d k.time_set (final_byte == 192) refl (λ t. shift_in-time_bits t 3 p h.0)
      (λ t. shift_in-time_bits t 1 d h.1)
