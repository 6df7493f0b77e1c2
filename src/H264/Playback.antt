-- ===== src/H264/Playback.antt =====
-- A file is sent from its start to its end: read_h264 over all its units.
use native.Mathlib.Nat.{suc-add}
use mathlib.Core.Path.{subst}
use fenice_1_12_with_h.Prelude.{
  ℕ, zero, suc, ◌+◌, ◌-◌, ◌/◌, ◌≤◌, ◌≡◌, refl, sym, ap, ◌∙◌, inl, inr, List, [], ◌∷◌, map, Option,
  none, some, length, All, Option-cases, arith,
}
use fenice_1_12_with_h.Prelude.Codes.{err_noerror}
use fenice_1_12_with_h.H264.File.{Stream}
use fenice_1_12_with_h.H264.Nalu.{
  Nalu, Outcome, overrun, returned, get_one_nalu_payload, max_frame_size,
}
use fenice_1_12_with_h.H264.Read.{
  Static, H264Entry, Opening, H264Packet, ReadResult, packet, failed, out_of_bounds, read_h264,
}
use fenice_1_12_with_h.H264.Pass.{on_success, prepend, reads}
use fenice_1_12_with_h.H264.Receive.{receive}
use fenice_1_12_with_h.H264.Fragment.{packets, until_marker, unit_of, IsFilled}
use fenice_1_12_with_h.H264.Sent.{IsDone, packets-IsDone}

-- Rounds that are enough for a unit that fits the array.
abbrev pub rounds : ℕ
rounds = 73

abbrev pub collect :
    List H264Packet
    → Option (List (List H264Packet) × H264Entry)
    → Option (List (List H264Packet) × H264Entry)
collect ps none = none
collect ps (some (pss, e)) = some (ps ∷ pss, e)

-- So many units are sent, each up to its marker.
abbrev pub and_on :
    (H264Entry → Option (List (List H264Packet) × H264Entry))
    → Option (List H264Packet × H264Entry)
    → Option (List (List H264Packet) × H264Entry)
and_on next none = none
and_on next (some (ps, e)) = collect ps (next e)

unfoldable pub play : ℕ → Opening → H264Entry → Option (List (List H264Packet) × H264Entry)
play zero answer e = some ([], e)
play (suc k) answer e = and_on (play k answer) (packets rounds answer e)

until_marker_mono :
    (next next' : H264Entry → Option (List H264Packet × H264Entry)) (o : ReadResult)
    (r : List H264Packet × H264Entry)
    → ((e : H264Entry) (r : List H264Packet × H264Entry) → next e ≡ some r → next' e ≡ some r)
    → until_marker next o ≡ some r
    → until_marker next' o ≡ some r
until_marker_mono next next' out_of_bounds r mono h = cc
until_marker_mono next next' (failed c e) r mono h = cc
until_marker_mono next next' (packet p e) r mono h = elim (Option-cases (next e)) [
  | inl ended ↦ ground (arith, ended, h)
  | inr (q, found) ↦ ground (arith, found, h, mono e q found)
]

packets_mono :
    (fuel more : ℕ) (answer : Opening) (e : H264Entry) (r : List H264Packet × H264Entry)
    → packets fuel answer e ≡ some r
    → packets (fuel + more) answer e ≡ some r
unfolding packets
packets_mono zero more answer e r h = cc
packets_mono (suc fuel) more answer e r h = rw suc-add (
    until_marker_mono (packets fuel answer) (packets (fuel + more) answer) (read_h264 answer e) r
      (packets_mono fuel more answer) h)

-- A call that returned, of the calls of `reads`.
reads-inv :
    (k : ℕ) (o : Outcome) (n : Nalu) (ns : List Nalu) (g : Stream)
    → on_success (λ nalu s. prepend nalu (reads k nalu s)) o ≡ some (n ∷ ns, g)
    → (f : Stream) × (o ≡ returned err_noerror n f) × (reads k n f ≡ some (ns, g))
reads-inv k overrun n ns g h = cc
reads-inv k (returned err_noerror m f) n ns g h = elim (Option-cases (reads k m f)) [
  | inl ended ↦ absurd (ground (arith, ended, h))
  | inr ((ms, t), found) ↦
      let read : some (m ∷ ms, t) ≡ some (n ∷ ns, g) = ap (prepend m) (sym found) ∙ h in
      let same : m ≡ n = cc read in
      (
        f,
        ap (λ x. returned err_noerror x f) same,
        subst (λ x. reads k x f ≡ some (ns, g)) same (found ∙ cc read),
      )
]
reads-inv k (returned _ m f) n ns g h = cc

-- What is sent of the units `ns`, and the entry behind them, where the file stands at `g`.
pub record IsPlayed (ns : List Nalu) (g : Stream) (r : Option (List (List H264Packet) × H264Entry))
    : Type 0 where
  pub pss : List (List H264Packet)
  pub s' : Static
  pub time' : ℕ
  pub result : r ≡ some (pss, record { stat = some s'; h264_time = time' })
  pub received : map (λ ps. receive (map (λ p. p.payload) ps)) pss ≡ map (λ n. some (unit_of n)) ns
  pub ready : s'.sharding_packet ≡ 0
  pub file : s'.f ≡ g

IsDone-rounds :
    (n : Nalu) (f : Stream) (time : ℕ) (answer : Opening) (e : H264Entry)
    → n.len ≤ max_frame_size
    → IsDone n f time (packets (suc (n.len / 1400)) answer e)
    → IsDone n f time (packets rounds answer e)
IsDone-rounds n f time answer e fits d =
    let enough : suc (n.len / 1400) + (72 - n.len / 1400) ≡ rounds = omega (arith, fits) in
    record {
      ps = d.ps;
      s' = d.s';
      result =
          subst
            (λ k. packets k answer e ≡ some (d.ps, record { stat = some d.s'; h264_time = time }))
            enough (packets_mono (suc (n.len / 1400)) (72 - n.len / 1400) answer e _ d.result);
      sent = d.sent;
      ready = d.ready;
      file = d.file;
      unit_kept = d.unit_kept;
    }

IsPlayed-cons :
    (answer : Opening) (n : Nalu) (ns : List Nalu) (g : Stream) (time : ℕ) (k : ℕ) (e : H264Entry)
    (f : Stream)
    → (d : IsDone n f time (packets rounds answer e))
    → IsPlayed ns g (play k answer (record { stat = some d.s'; h264_time = time }))
    → IsPlayed (n ∷ ns) g (play (suc k) answer e)
unfolding play
IsPlayed-cons answer n ns g time k e f d p = record {
  pss = d.ps ∷ p.pss;
  s' = p.s';
  time' = p.time';
  result = ap (and_on (play k answer)) d.result ∙ ap (collect d.ps) p.result;
  received = cc (d.sent.received, p.received);
  ready = p.ready;
  file = p.file;
}

pub play-reads :
    (ns : List Nalu) (answer : Opening) (s : Static) (g : Stream) (time : ℕ)
    → s.sharding_packet ≡ 0
    → All (λ n. IsFilled n × (n.len ≤ max_frame_size)) ns
    → reads (length ns) s.n s.f ≡ some (ns, g)
    → IsPlayed ns g (play (length ns) answer (record { stat = some s; h264_time = time }))
unfolding play
play-reads [] answer s g time idle vs h = record {
  pss = [];
  s' = s;
  time' = time;
  result = refl;
  received = refl;
  ready = idle;
  file = cc h;
}
play-reads (n ∷ ns) answer s g time idle vs h =
    let (f, read, rest) = reads-inv (length ns) (get_one_nalu_payload s.n s.f) n ns g h in
    let d : IsDone n f (time + 1)
        (packets rounds answer (record { stat = some s; h264_time = time })) =
      IsDone-rounds n f (time + 1) answer _ vs.0.1
        (packets-IsDone answer s n f vs.0.0 time idle read) in
    IsPlayed-cons answer n ns g (time + 1) (length ns) _ f d
      (play-reads ns answer d.s' g (time + 1) d.ready vs.1 (rw (d.unit_kept, d.file) rest))
