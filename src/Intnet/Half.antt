-- ===== src/Intnet/Half.antt =====
-- intnet/half_MP3.c and half_GSM.c: the rate of the medium that a halving takes.
use mathlib.Core.Path.{subst}
use fenice_1_12_with_h.Prelude.{
  ℕ, ◌<◌, ◌≤◌, ◌≡◌, refl, sym, ap, ◌⊎◌, inl, inr, Bool, true, false, List, Option, none, ltb,
  ltb→lt, ◌==◌, if◌then◌else◌, arith, Option-cases,
}
use fenice_1_12_with_h.Prelude.Codes.{Code}
use fenice_1_12_with_h.Intnet.Catalog.{Bytes, same_text}
use fenice_1_12_with_h.Intnet.Ladder.{start_at, Sorted, IsIn, start_at-behind}
use fenice_1_12_with_h.Intnet.Switch.{
  Down, Down-asym, in_order-Sorted, find_rate-some, in_order, all,
}
use fenice_1_12_with_h.Intnet.{
  World, current, stream_switch, switch_or, priority_decrease, find_rate, half_mp3, half_gsm, mpa,
  gsm, mp3_half, gsm_half, mp3_half_rate, gsm_half_rate,
}

-- The change went to a medium of the encoding with a lower rate.
pub record Lowered (name : Bytes) (w : World) (result : Code × World) : Type 0 where
  pub to : ℕ
  pub switched : result ≡ stream_switch w to
  pub encoding : same_text (w.media to).encoding_name name ≡ true
  pub slower : (w.media to).bitrate < (current w).bitrate

mp3_half-Sorted : Sorted Down mp3_half
unfolding in_order all
mp3_half-Sorted = in_order-Sorted Down (λ x y. ltb y x) (λ x y. ltb→lt y x) mp3_half refl

gsm_half-Sorted : Sorted Down gsm_half
unfolding in_order all
gsm_half-Sorted = in_order-Sorted Down (λ x y. ltb y x) (λ x y. ltb→lt y x) gsm_half refl

mp3_half_rate-lt : (b t : ℕ) → 0 < t → t ≤ mp3_half_rate b → t < b
unfolding mp3_half_rate
mp3_half_rate-lt b t pos le = ground arith

gsm_half_rate-lt : (b t : ℕ) → 4750 < b → t ≤ gsm_half_rate b → t < b
unfolding gsm_half_rate
gsm_half_rate-lt b t pos le = ground arith

module _ (list : List ℕ) (w : World) where
  -- halve_lem: a walk from the rate `speed` of a ladder whose rungs are lower than the current rate
  halve_lem :
      (name : Bytes) (ladder : List ℕ) (speed : ℕ)
      → Sorted Down ladder
      → ((t : ℕ) → IsIn t ladder → t ≤ speed → t < (current w).bitrate)
      → Lowered name w
          (switch_or (start_at (find_rate list name w) speed ladder) w (priority_decrease list w))
        ⊎ (switch_or (start_at (find_rate list name w) speed ladder) w (priority_decrease list w)
            ≡ priority_decrease list w)
  halve_lem name ladder speed sorted below =
      elim (Option-cases (start_at (find_rate list name w) speed ladder)) [
        | inl e ↦ inr (ap (λ found. switch_or found w (priority_decrease list w)) e)
        | inr (a, e) ↦
            let (t, f, o, m) =
              start_at-behind (find_rate list name w) Down Down-asym ladder speed sorted e in
            let (enc, rate) = find_rate-some list w name t f in
            inl (record {
              to = a;
              switched = ap (λ found. switch_or found w (priority_decrease list w)) e;
              encoding = enc;
              slower = subst (λ x. x < (current w).bitrate) (sym rate) (below t m (order t o));
            })
      ]
    where
      order : (t : ℕ) → (t ≡ speed) ⊎ (t < speed) → t ≤ speed
      order t (inl p) = omega arith
      order t (inr p) = omega arith

  mp3_half-pos : (t : ℕ) → IsIn t mp3_half → 0 < t
  mp3_half-pos t m = ground arith

  -- half_MP3 goes either to a medium of encoding MPA with a lower rate than the current one, or by
  -- priority, whatever the current rate.
  pub half_mp3_lem : Lowered mpa w (half_mp3 list w) ⊎ (half_mp3 list w ≡ priority_decrease list w)
  unfolding half_mp3
  half_mp3_lem =
      halve_lem mpa mp3_half (mp3_half_rate (current w).bitrate) mp3_half-Sorted
        (λ t m le. mp3_half_rate-lt (current w).bitrate t (mp3_half-pos t m) le)

  abbrev half_gsm_at : Bool → Code × World
  half_gsm_at at_end =
      let found : Option ℕ =
        if at_end
        then none
        else start_at (find_rate list gsm w) (gsm_half_rate (current w).bitrate) gsm_half in
      switch_or found w (priority_decrease list w)

  half_gsm_at_lem :
      (b : Bool)
      → ((current w).bitrate == 4750) ≡ b
      → 4750 ≤ (current w).bitrate
      → Lowered gsm w (half_gsm_at b) ⊎ (half_gsm_at b ≡ priority_decrease list w)
  half_gsm_at_lem true e le = inr refl
  half_gsm_at_lem false e le =
      halve_lem gsm gsm_half (gsm_half_rate (current w).bitrate) gsm_half-Sorted
        (λ t m. gsm_half_rate-lt (current w).bitrate t (ground arith))

  -- half_GSM at a rate of 4750 or more goes either to a medium of encoding GSM with a lower rate than
  -- the current one, or by priority.
  pub half_gsm_lem :
      4750 ≤ (current w).bitrate
      → Lowered gsm w (half_gsm list w) ⊎ (half_gsm list w ≡ priority_decrease list w)
  unfolding half_gsm
  half_gsm_lem le = half_gsm_at_lem ((current w).bitrate == 4750) refl le
