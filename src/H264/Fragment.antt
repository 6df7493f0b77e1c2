-- ===== src/H264/Fragment.antt =====
-- The packets that read_h264 makes of one unit, and a receiver of RFC 6184 that puts them together.
use native.Mathlib.Nat.{zero-add, suc-add}
use fenice_1_12_with_h.Prelude.{
  ℕ, zero, suc, ◌+◌, ◌*◌, ◌/◌, ◌%◌, ◌<◌, ◌≤◌, ◌≡◌, refl, ap, true, List, [], ◌∷◌, ◌++◌, map, Option,
  none, some, ◌==◌, if◌then◌else◌, length, take, drop, All, length-take, length-drop, arith,
}
use fenice_1_12_with_h.H264.File.{Bytes, Stream}
use fenice_1_12_with_h.H264.Nalu.{Nalu}
use fenice_1_12_with_h.H264.Read.{
  H264Entry, Opening, H264Packet, ReadResult, packet, next_packet, read_h264, udp_max_size,
  fragment, fu_indicator, type_fu_a,
}
use fenice_1_12_with_h.H264.Receive.{receive, receive_rest}

abbrev pub keep :
    H264Packet → Option (List H264Packet × H264Entry) → Option (List H264Packet × H264Entry)
keep p none = none
keep p (some (ps, e)) = some (p ∷ ps, e)

-- The packets of one unit: calls of read_h264 up to one that sets the marker.
abbrev pub until_marker :
    (H264Entry → Option (List H264Packet × H264Entry))
    → ReadResult
    → Option (List H264Packet × H264Entry)
until_marker next (packet p e) = if p.marker == 1 then some (p ∷ [], e) else keep p (next e)
until_marker next _ = none

unfoldable pub packets : ℕ → Opening → H264Entry → Option (List H264Packet × H264Entry)
packets zero answer e = none
packets (suc fuel) answer e = until_marker (packets fuel answer) (read_h264 answer e)

-- The unit that a receiver gets: the reference bits and the type, the forbidden bit cleared.
abbrev pub unit_of : Nalu → Bytes
unit_of n = (n.nal_reference_idc / 32 * 32 + n.nal_unit_type) ∷ n.buf

-- A unit as get_one_NALU_payload returns it.
pub record IsFilled (n : Nalu) : Type 0 where
  pub all : length n.buf ≡ n.len
  pub some_byte : 0 < n.len
  pub reference : n.nal_reference_idc / 32 < 4
  pub unit_type : n.nal_unit_type < 24
  pub forbidden : n.forbidden_bit % 2 ≡ 0

-- What holds of the packets `ps` of a unit that is sent at `time`, and of the entry behind them.
pub record IsSent (n : Nalu) (time : ℕ) (ps : List H264Packet) : Type 0 where
  pub received : receive (map (λ p. p.payload) ps) ≡ some (unit_of n)
  pub bounded : All (λ p. length p.payload ≤ udp_max_size + 2) ps
  pub timed : All (λ p. p.mtime ≡ time) ps

pub take-drop_zero : (n : ℕ) (xs : Bytes) → take n xs ++ drop n xs ≡ xs
take-drop_zero zero xs = refl
take-drop_zero (suc n) [] = refl
take-drop_zero (suc n) (x ∷ xs) = ap (◌∷◌ x) (take-drop_zero n xs)

abbrev no_bytes : Bytes
no_bytes = []

take_nil : (n : ℕ) → take n [] ++ [] ≡ no_bytes
take_nil zero = refl
take_nil (suc n) = refl

take-drop : (n m : ℕ) (xs : Bytes) → take n (drop m xs) ++ drop (m + n) xs ≡ drop m xs
take-drop n zero xs = rw zero-add (take-drop_zero n xs)
take-drop n (suc m) [] = rw suc-add (take_nil n)
take-drop n (suc m) (x ∷ xs) = rw suc-add (take-drop n m xs)

pub take-all : (n : ℕ) (xs : Bytes) → length xs ≤ n → take n xs ≡ xs
take-all zero [] h = refl
take-all zero (x ∷ xs) h = absurd (omega arith)
take-all (suc n) [] h = refl
take-all (suc n) (x ∷ xs) h = ap (◌∷◌ x) (take-all n xs (omega arith))

module _ (answer : Opening) (n : Nalu) (v : IsFilled n) (time : ℕ) (f : Stream) where
  -- The static data between two packets of the unit, and behind the last one.
  abbrev pub entry : ℕ → ℕ → H264Entry
  entry sharding current = record {
    stat = some (record {
      sharding_packet = sharding;
      f = f;
      n = n;
      packet_num = n.len / 1400;
      last_packet_byte = n.len % 1400;
      current_packet = current;
    });
    h264_time = time;
  }

  abbrev pub middle : ℕ → H264Packet
  middle current = record {
    payload = fragment n 0 0 (current * 1400) 1400;
    mtime = time;
    recallme = true;
    marker = 0;
  }

  abbrev pub final : ℕ → H264Packet
  final current = record {
    payload = fragment n 1 0 (current * 1400) (n.len % 1400);
    mtime = time;
    recallme = true;
    marker = 1;
  }

  abbrev pub further : ℕ → ℕ → List H264Packet
  further zero current = final current ∷ []
  further (suc k) current = middle current ∷ further k (current + 1)

  read-middle :
      (current : ℕ)
      → current < n.len / 1400
      → read_h264 answer (entry 1 current) ≡ packet (middle current) (entry 1 (current + 1))
  unfolding read_h264
  read-middle current h = unfold next_packet in ground arith

  read-final :
      read_h264 answer (entry 1 (n.len / 1400))
      ≡ packet (final (n.len / 1400)) (entry 0 (n.len / 1400))
  unfolding read_h264
  read-final = unfold next_packet in ground arith

  pub packets-further :
      (k current : ℕ)
      → current + k ≡ n.len / 1400
      → packets (suc k) answer (entry 1 current) ≡ some (further k current, entry 0 (n.len / 1400))
  unfolding packets
  packets-further zero current e =
      let here : current ≡ n.len / 1400 = omega (arith, e) in
      rw here (rw (read-final, until_marker) refl)
  packets-further (suc k) current e =
      rw (read-middle current (omega (arith, e)))
        (ap (keep (middle current)) (packets-further k (current + 1) (omega (arith, e))))

  pub receive_rest-further :
      (k current : ℕ)
      → current + k ≡ n.len / 1400
      → receive_rest
          (fu_indicator type_fu_a (n.nal_reference_idc / 32) n.forbidden_bit)
          n.nal_unit_type
          (map (λ p. p.payload) (further k current))
        ≡ some (drop (current * 1400) n.buf)
  receive_rest-further zero current e =
      let here : current ≡ n.len / 1400 = omega (arith, e) in
      let rest : length (drop (current * 1400) n.buf) ≤ n.len % 1400 =
        rw here (omega (arith, length-drop (n.len / 1400 * 1400) n.buf, v.all)) in
      rw (take-all (n.len % 1400) (drop (current * 1400) n.buf) rest) (ground (arith, v.unit_type))
  receive_rest-further (suc k) current e =
      let place : (current + 1) * 1400 ≡ current * 1400 + 1400 = omega arith in
      let whole : take 1400 (drop (current * 1400) n.buf) ++ drop ((current + 1) * 1400) n.buf
          ≡ drop (current * 1400) n.buf =
        rw place (take-drop 1400 (current * 1400) n.buf) in
      ground (arith, v.unit_type, whole, receive_rest-further k (current + 1) (omega (arith, e)))

  pub further-bounded :
      (k current : ℕ) → All (λ p. length p.payload ≤ udp_max_size + 2) (further k current)
  further-bounded zero current =
      (omega (arith, length-take (n.len % 1400) (drop (current * 1400) n.buf)), tt)
  further-bounded (suc k) current = (
    omega (arith, length-take 1400 (drop (current * 1400) n.buf)),
    further-bounded k (current + 1),
  )

  pub further-timed : (k current : ℕ) → All (λ p. p.mtime ≡ time) (further k current)
  further-timed zero current = (refl, tt)
  further-timed (suc k) current = (refl, further-timed k (current + 1))
