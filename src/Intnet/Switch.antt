-- ===== src/Intnet/Switch.antt =====
-- intnet/downgrade_MP3.c, downgrade_GSM.c, upgrade_MP3.c and upgrade_GSM.c: the medium that
-- each change of rate takes.
use mathlib.Core.Path.{subst}
use fenice_1_12_with_h.Prelude.{
  ℕ, ◌<◌, ◌≡◌, refl, sym, ◌⊎◌, inl, inr, Bool, true, false, ◌&&◌, List, [], ◌∷◌, none, some, ltb,
  ltb→lt, All, arith, Option-cases, ap,
}
use fenice_1_12_with_h.Prelude.Codes.{Code}
use fenice_1_12_with_h.Intnet.Catalog.{
  Bytes, same_text, matches, search_media-IsFirst, search_media-none,
}
use fenice_1_12_with_h.Intnet.Ladder.{step_from, Sorted, IsIn, step_from-IsNext, step_from-none}
use fenice_1_12_with_h.Intnet.{
  World, current, stream_switch, switch_or, priority_decrease, priority_increase, find_rate,
  by_bitrate, downgrade_mp3, downgrade_gsm, upgrade_mp3, upgrade_gsm, mpa, gsm, mp3_down, gsm_down,
  mp3_up, gsm_up,
}

-- A test that every rung of a ladder passes with each that follows.
unfoldable pub all : (ℕ → Bool) → List ℕ → Bool
all f [] = true
all f (x ∷ xs) = f x && all f xs

unfoldable pub in_order : (ℕ → ℕ → Bool) → List ℕ → Bool
in_order test [] = true
in_order test (x ∷ xs) = all (test x) xs && in_order test xs

all-All :
    (R : ℕ → Type 0) (f : ℕ → Bool)
    → ((y : ℕ) → f y ≡ true → R y)
    → (xs : List ℕ) → all f xs ≡ true
    → All R xs
unfolding all
all-All R f h [] e = tt
all-All R f h (x ∷ xs) e = (h x (ground arith), all-All R f h xs (ground arith))

pub in_order-Sorted :
    (R : ℕ → ℕ → Type 0) (test : ℕ → ℕ → Bool)
    → ((x y : ℕ) → test x y ≡ true → R x y)
    → (xs : List ℕ) → in_order test xs ≡ true
    → Sorted R xs
unfolding in_order
in_order-Sorted R test h [] e = tt
in_order-Sorted R test h (x ∷ xs) e =
    (all-All (R x) (test x) (h x) xs (ground arith), in_order-Sorted R test h xs (ground arith))

-- Downwards and upwards.
abbrev pub Down : ℕ → ℕ → Type 0
Down x y = y < x

abbrev pub Up : ℕ → ℕ → Type 0
Up x y = x < y

-- The medium at address `p` has the encoding and the rate.
abbrev pub Offers : World → Bytes → ℕ → ℕ → Type 0
Offers w name rate p =
    (same_text (w.media p).encoding_name name ≡ true) × ((w.media p).bitrate ≡ rate)

-- No entry of the programme's list does.
abbrev pub Lacks : List ℕ → World → Bytes → ℕ → Type 0
Lacks list w name rate = All (λ p. Offers w name rate p → ⊥) list

matches-Offers :
    (w : World) (name : Bytes) (rate p : ℕ)
    → (matches (by_bitrate name rate) (w.media p) ≡ true → Offers w name rate p)
      × (Offers w name rate p → matches (by_bitrate name rate) (w.media p) ≡ true)
unfolding matches
matches-Offers w name rate p = (λ e. ground arith, λ o. ground arith)

pub find_rate-some :
    (list : List ℕ) (w : World) (name : Bytes) (rate : ℕ) {a : ℕ}
    → find_rate list name w rate ≡ some a
    → Offers w name rate a
find_rate-some list w name rate {a} e =
    (matches-Offers w name rate a).0
      (search_media-IsFirst w.media (by_bitrate name rate) list e).meets

lacks :
    (list : List ℕ) (w : World) (name : Bytes) (rate : ℕ)
    → All (λ p. matches (by_bitrate name rate) (w.media p) ≡ false) list
    → Lacks list w name rate
lacks [] w name rate h = tt
lacks (p ∷ ps) w name rate h =
    ((λ o. ground (arith, h.0, (matches-Offers w name rate p).1 o)), lacks ps w name rate h.1)

find_rate-none :
    (list : List ℕ) (w : World) (name : Bytes) (rate : ℕ)
    → find_rate list name w rate ≡ none
    → Lacks list w name rate
find_rate-none list w name rate e =
    lacks list w name rate (search_media-none w.media (by_bitrate name rate) list e)

-- The change went to the medium `to` of the encoding, whose rate lies behind the current one on the
-- ladder, and the programme has no medium of the encoding at a rung between.
pub record Moved (R : ℕ → ℕ → Type 0) (ladder list : List ℕ) (name : Bytes) (w : World)
    (result : Code × World) : Type 0 where
  pub to : ℕ
  pub switched : result ≡ stream_switch w to
  pub encoding : same_text (w.media to).encoding_name name ≡ true
  pub behind : R (current w).bitrate (w.media to).bitrate
  pub none_between :
      (r : ℕ)
      → IsIn r ladder
      → R (current w).bitrate r
      → R r (w.media to).bitrate
      → Lacks list w name r

-- The change went by priority, and the programme has no medium of the encoding at any rung behind.
pub record Exhausted (R : ℕ → ℕ → Type 0) (ladder list : List ℕ) (name : Bytes) (w : World)
    (result other : Code × World) : Type 0 where
  pub fell_back : result ≡ other
  pub none_behind : (r : ℕ) → IsIn r ladder → R (current w).bitrate r → Lacks list w name r

-- A walk from the current rate, for each ladder and either direction.
module _ (R : ℕ → ℕ → Type 0) (asym : (x y : ℕ) → R x y → R y x → ⊥) (ladder : List ℕ)
    (sorted : Sorted R ladder) (list : List ℕ) (name : Bytes) (w : World)
    (other : Code × World) where
  step_lem :
      IsIn (current w).bitrate ladder
      → Moved R ladder list name w
          (switch_or (step_from (find_rate list name w) (current w).bitrate ladder) w other)
        ⊎ Exhausted R ladder list name w
            (switch_or (step_from (find_rate list name w) (current w).bitrate ladder) w other)
            other
  step_lem on = elim (Option-cases (step_from (find_rate list name w) (current w).bitrate ladder)) [
    | inl e ↦ inr (record {
      fell_back = ap (λ found. switch_or found w other) e;
      none_behind = λ r m h. find_rate-none list w name r (
          step_from-none (find_rate list name w) R asym ladder (current w).bitrate sorted on e r m
            h);
    })
    | inr (a, e) ↦
        let n =
          step_from-IsNext (find_rate list name w) R asym ladder (current w).bitrate sorted e in
        let (enc, rate) = find_rate-some list w name n.rate n.found in
        inl (record {
          to = a;
          switched = ap (λ found. switch_or found w other) e;
          encoding = enc;
          behind = subst (R (current w).bitrate) (sym rate) n.behind;
          none_between =
              λ r m h k. find_rate-none list w name r (n.between r m h (subst (R r) rate k));
        })
  ]

pub Down-asym : (x y : ℕ) → Down x y → Down y x → ⊥
Down-asym x y h k = omega arith

Up-asym : (x y : ℕ) → Up x y → Up y x → ⊥
Up-asym x y h k = omega arith

mp3_down-Sorted : Sorted Down mp3_down
unfolding in_order all
mp3_down-Sorted = in_order-Sorted Down (λ x y. ltb y x) (λ x y. ltb→lt y x) mp3_down refl

gsm_down-Sorted : Sorted Down gsm_down
unfolding in_order all
gsm_down-Sorted = in_order-Sorted Down (λ x y. ltb y x) (λ x y. ltb→lt y x) gsm_down refl

mp3_up-Sorted : Sorted Up mp3_up
unfolding in_order all
mp3_up-Sorted = in_order-Sorted Up ltb ltb→lt mp3_up refl

gsm_up-Sorted : Sorted Up gsm_up
unfolding in_order all
gsm_up-Sorted = in_order-Sorted Up ltb ltb→lt gsm_up refl

module _ (list : List ℕ) (w : World) where
  -- From a rate of the ladder, downgrade_MP3 takes a medium of encoding MPA at the highest lower rate
  -- that the programme has one for; where it has none at any lower rate, it goes by priority.
  pub downgrade_mp3_lem :
      IsIn (current w).bitrate mp3_down
      → Moved Down mp3_down list mpa w (downgrade_mp3 list w)
        ⊎ Exhausted Down mp3_down list mpa w (downgrade_mp3 list w) (priority_decrease list w)
  unfolding downgrade_mp3
  downgrade_mp3_lem =
      step_lem Down Down-asym mp3_down mp3_down-Sorted list mpa w (priority_decrease list w)

  -- From a rate of the ladder, downgrade_GSM takes a medium of encoding GSM at the highest lower rate
  -- that the programme has one for; where it has none at any lower rate, it goes by priority.
  pub downgrade_gsm_lem :
      IsIn (current w).bitrate gsm_down
      → Moved Down gsm_down list gsm w (downgrade_gsm list w)
        ⊎ Exhausted Down gsm_down list gsm w (downgrade_gsm list w) (priority_decrease list w)
  unfolding downgrade_gsm
  downgrade_gsm_lem =
      step_lem Down Down-asym gsm_down gsm_down-Sorted list gsm w (priority_decrease list w)

  -- From a rate of the ladder, upgrade_MP3 takes a medium of encoding MPA at the lowest higher rate
  -- that the programme has one for; where it has none at any higher rate, it goes by priority.
  pub upgrade_mp3_lem :
      IsIn (current w).bitrate mp3_up
      → Moved Up mp3_up list mpa w (upgrade_mp3 list w)
        ⊎ Exhausted Up mp3_up list mpa w (upgrade_mp3 list w) (priority_increase list w)
  unfolding upgrade_mp3
  upgrade_mp3_lem = step_lem Up Up-asym mp3_up mp3_up-Sorted list mpa w (priority_increase list w)

  -- From a rate of the ladder, upgrade_GSM takes a medium of encoding GSM at the lowest higher rate
  -- that the programme has one for; where it has none at any higher rate, it goes by priority.
  pub upgrade_gsm_lem :
      IsIn (current w).bitrate gsm_up
      → Moved Up gsm_up list gsm w (upgrade_gsm list w)
        ⊎ Exhausted Up gsm_up list gsm w (upgrade_gsm list w) (priority_increase list w)
  unfolding upgrade_gsm
  upgrade_gsm_lem = step_lem Up Up-asym gsm_up gsm_up-Sorted list gsm w (priority_increase list w)
