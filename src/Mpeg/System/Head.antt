-- ===== src/Mpeg/System/Head.antt =====
-- mediainfo/read_MPEGSYSTEM_utils.c: read_packet_head, the header of one packet with its times.
use fenice_1_12_with_h.Prelude.{
  ℕ, zero, suc, ◌+◌, ◌/◌, ◌%◌, ◌^◌, Bool, true, false, ◌&&◌, not, List, Option, none, some, ◌==◌,
  if◌then◌else◌,
}
use fenice_1_12_with_h.Mpeg.System.{Pts, Input, read_byte, shift_in, read_time}

-- The variables of the caller that read_packet_head changes.
pub record Clock : Type 0 where
  pub time_set : Bool
  pub pts : Pts
  pub dts : Pts
  pub dts_present : Bool
  pub pts_audio : Pts

-- The state within read_packet_head: vett_pts and vett_dts are arrays on the stack that nothing sets
-- before the bits of a time are stored.
pub record Reading : Type 0 where
  pub count : ℕ
  pub vett_pts : List ℕ
  pub vett_dts : List ℕ
  pub pts_present : Bool
  pub clock : Clock
  pub input : Input

-- The loop over the stuffing bytes, with the byte that ends it.
unfoldable pub read_stuffing : ℕ → (ℕ → ℕ) → ℕ → Input → Option (ℕ × ℕ × Input)
read_stuffing zero old count i = none
read_stuffing (suc fuel) old count i =
    let (b, i2) = read_byte old i in
    let rest = read_stuffing fuel old ((count + 1) % 2 ^ 32) i2 in
    if b == 255 then rest else some ((count + 1) % 2 ^ 32, b, i2)

-- The buffer scale and size, where they are present: two more bytes, the second of which is the next to
-- be looked at.
abbrev pub read_scale : (ℕ → ℕ) → ℕ → ℕ → Input → ℕ × ℕ × Input
read_scale old count b i =
    let (c, i2) = read_byte old i in
    let (d, i3) = read_byte old i2 in
    if b / 2 ^ 6 % 4 == 1 then ((count + 2) % 2 ^ 32, d, i3) else (count, b, i)

-- Where the highest bit of the presentation time goes.
abbrev pub store_msb : ℕ → ℕ → Clock → Clock
store_msb final_byte msb k =
    if not (final_byte == 192)
    then record k { pts = record { msb = msb; pts = k.pts.pts } }
    else record k { pts_audio = record { msb = msb; pts = k.pts_audio.pts } }

-- The two branches that read times.
unfoldable pub read_pts : (ℕ → ℕ) → ℕ → ℕ → Reading → Reading
read_pts old final_byte b r =
    let t = read_time old b r.input in
    record {
      count = (r.count + 4) % 2 ^ 32;
      vett_pts = t.vett;
      vett_dts = r.vett_dts;
      pts_present = true;
      clock = record (store_msb final_byte t.msb r.clock) { dts_present = false };
      input = t.input;
    }

unfoldable pub read_both : (ℕ → ℕ) → ℕ → ℕ → Reading → Reading
read_both old final_byte b r =
    let t = read_time old b r.input in
    let (c, i2) = read_byte old t.input in
    let u = read_time old c i2 in
    record {
      count = (r.count + 9) % 2 ^ 32;
      vett_pts = t.vett;
      vett_dts = u.vett;
      pts_present = true;
      clock = record (store_msb final_byte t.msb r.clock) {
        dts = record { msb = u.msb; pts = r.clock.dts.pts };
        dts_present = true;
      };
      input = u.input;
    }

unfoldable pub read_times : (ℕ → ℕ) → ℕ → ℕ → Reading → Reading
read_times old final_byte b r =
    if b / 2 ^ 4 == 2
    then read_pts old final_byte b r
    else if b / 2 ^ 4 == 3
    then read_both old final_byte b r
    else r

-- The part of read_packet_head for all streams but those of number 0xbf.
unfoldable pub read_fields : ℕ → (ℕ → ℕ) → ℕ → Reading → Option Reading
read_fields fuel old final_byte r = elim (read_stuffing fuel old r.count r.input) [
  | none ↦ none
  | some (count, b, i) ↦
      let (count2, c, i2) = read_scale old count b i in
      some (read_times old final_byte c (record r { count = count2; input = i2 }))
]

-- The three loops behind it.
abbrev pub set_video : ℕ → Reading → Clock → Clock
set_video final_byte r k =
    if not k.time_set && (r.pts_present && not (final_byte == 192))
    then record k {
      time_set = true;
      pts = record { msb = k.pts.msb; pts = shift_in k.pts.pts r.vett_pts };
    }
    else k

abbrev pub set_audio : ℕ → Reading → Clock → Clock
set_audio final_byte r k =
    if not k.time_set && final_byte == 192
    then record k {
      time_set = true;
      pts_audio = record { msb = k.pts_audio.msb; pts = shift_in k.pts_audio.pts r.vett_pts };
    }
    else k

abbrev pub set_decoding : Reading → Clock → Clock
set_decoding r k =
    if k.dts_present
    then record k { dts = record { msb = k.dts.msb; pts = shift_in k.dts.pts r.vett_dts } }
    else k

-- What read_packet_head returns and leaves.
pub record PacketHead : Type 0 where
  pub count : ℕ
  pub clock : Clock
  pub input : Input

unfoldable pub set_times : ℕ → Reading → PacketHead
set_times final_byte r = record {
  count = r.count;
  clock = set_decoding r (set_audio final_byte r (set_video final_byte r r.clock));
  input = r.input;
}

-- read_packet_head, with what the two arrays hold before; `none` where the fuel, which counts the
-- stuffing bytes, is at its end.
unfoldable pub read_packet_head :
    ℕ → (ℕ → ℕ) → List ℕ → List ℕ → ℕ → Clock → Input → Option PacketHead
read_packet_head fuel old stack_pts stack_dts final_byte k i =
    let (b, i2) = read_byte old i in
    let (c, i3) = read_byte old i2 in
    let r : Reading = record {
      count = 2;
      vett_pts = stack_pts;
      vett_dts = stack_dts;
      pts_present = false;
      clock = record k { dts_present = false };
      input = i3;
    } in
    if final_byte == 191
    then some (set_times final_byte r)
    else elim (read_fields fuel old final_byte r) [
      | none ↦ none
      | some s ↦ some (set_times final_byte s)
    ]
