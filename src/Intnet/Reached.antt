-- ===== src/Intnet/Reached.antt =====
-- The packet buffer of a session and its marks MinimumReached and MaximumReached, over
-- stream_change and the functions below it.
use fenice_1_12_with_h.Prelude.{
  ℕ, ◌+◌, ◌-◌, ◌≡◌, refl, ◌∙◌, ◌⊎◌, inl, inr, Bool, true, false, List, Option, none, some, ◌==◌,
  if◌then◌else◌, arith,
}
use fenice_1_12_with_h.Prelude.Codes.{Code, err_noerror, err_generic}
use fenice_1_12_with_h.Intnet.Catalog.{Bytes, same_text, search_media}
use fenice_1_12_with_h.Intnet.Ladder.{step_from, start_at}
use fenice_1_12_with_h.Intnet.{
  World, current, Change, halve, downgrade, keep, upgrade, stream_switch, priority_decrease,
  priority_increase, switch_or, downgrade_mp3, downgrade_gsm, downgrade_l16, upgrade_mp3,
  upgrade_gsm, half_mp3, half_gsm, half_l16, stream_change, by_priority, change_down, change_up,
  change_half, find_rate, mpa, gsm, l16, mp3_down, gsm_down, mp3_up, gsm_up, mp3_half, gsm_half,
  mp3_half_rate, gsm_half_rate, reset_minimum, reset_maximum,
}

-- Of a change from `w` to `w'`: the packet buffer stays, and both marks are not set if they were not.
pub record Keeps (w w' : World) : Type 0 where
  pub buffer : (current w').pkt_buffer ≡ (current w).pkt_buffer
  pub one_end :
      (w.session.minimum_reached ≡ false) × (w.session.maximum_reached ≡ false)
      → (w'.session.minimum_reached ≡ false) ⊎ (w'.session.maximum_reached ≡ false)

stream_switch-Keeps : (w : World) (a : ℕ) → Keeps w (stream_switch w a).1
unfolding stream_switch
stream_switch-Keeps w a = record { buffer = ground arith; one_end = λ h. inl h.0 }

switch_or-Keeps :
    (found : Option ℕ) (w : World) (other : Code × World)
    → Keeps w other.1
    → Keeps w (switch_or found w other).1
switch_or-Keeps none w other k = k
switch_or-Keeps (some a) w other k = stream_switch-Keeps w a

-- A branch keeps what both its sides keep.
if-Keeps :
    (b : Bool) (w : World) (x y : Code × World)
    → Keeps w x.1
    → Keeps w y.1
    → Keeps w (if b then x else y).1
if-Keeps true w x y kx ky = kx
if-Keeps false w x y kx ky = ky

Keeps-refl : (w : World) → Keeps w w
Keeps-refl w = record { buffer = refl; one_end = λ h. inl h.0 }

module _ (list : List ℕ) (w : World) where
  priority_decrease-Keeps : Keeps w (priority_decrease list w).1
  unfolding priority_decrease
  priority_decrease-Keeps =
      switch_or-Keeps (search_media w.media (by_priority ((current w).priority + 1)) list) w
        (err_noerror, record w { session = record (w.session) { minimum_reached = true } })
        (record { buffer = refl; one_end = λ h. inr h.1 })

  priority_increase-Keeps : Keeps w (priority_increase list w).1
  unfolding priority_increase
  priority_increase-Keeps =
      let p = (current w).priority in
      let found : Option ℕ =
        if p == 0 then none else search_media w.media (by_priority (p - 1)) list in
      if-Keeps (p == 1) w
        (err_noerror, record w { session = record (w.session) { maximum_reached = true } })
        (switch_or found w (err_generic, w)) (record { buffer = refl; one_end = λ h. inl h.0 })
        (switch_or-Keeps found w (err_generic, w) (Keeps-refl w))

  lower-Keeps : (found : Option ℕ) → Keeps w (switch_or found w (priority_decrease list w)).1
  lower-Keeps found = switch_or-Keeps found w (priority_decrease list w) priority_decrease-Keeps

  raise-Keeps : (found : Option ℕ) → Keeps w (switch_or found w (priority_increase list w)).1
  raise-Keeps found = switch_or-Keeps found w (priority_increase list w) priority_increase-Keeps

-- The dispatch on the encoding keeps what its branches keep.
module _ (list : List ℕ) (name : Bytes) (w : World) where
  three-Keeps :
      (m g l : Bool) (x y z : Code × World)
      → Keeps w x.1
      → Keeps w y.1
      → Keeps w z.1
      → Keeps w (if m then x else if g then y else if l then z else (err_noerror, w)).1
  three-Keeps m g l x y z kx ky kz =
      if-Keeps m w x (if g then y else if l then z else (err_noerror, w)) kx (
        if-Keeps g w y (if l then z else (err_noerror, w)) ky
          (if-Keeps l w z (err_noerror, w) kz (Keeps-refl w)))

  change_down-Keeps : Keeps w (change_down list name w).1
  unfolding change_down downgrade_mp3 downgrade_gsm downgrade_l16
  change_down-Keeps =
      three-Keeps (same_text name mpa) (same_text name gsm) (same_text name l16)
        (downgrade_mp3 list w) (downgrade_gsm list w) (downgrade_l16 list w)
        (lower-Keeps list w (step_from (find_rate list mpa w) (current w).bitrate mp3_down))
        (lower-Keeps list w (step_from (find_rate list gsm w) (current w).bitrate gsm_down))
        (priority_decrease-Keeps list w)

  half_found : Option ℕ
  half_found =
      if (current w).bitrate == 4750
      then none
      else start_at (find_rate list gsm w) (gsm_half_rate (current w).bitrate) gsm_half

  change_half-Keeps : Keeps w (change_half list name w).1
  unfolding change_half half_mp3 half_gsm half_l16 half_found
  change_half-Keeps =
      three-Keeps (same_text name mpa) (same_text name gsm) (same_text name l16) (half_mp3 list w)
        (half_gsm list w) (half_l16 list w)
        (lower-Keeps list w
          (start_at (find_rate list mpa w) (mp3_half_rate (current w).bitrate) mp3_half))
        (lower-Keeps list w half_found) (priority_decrease-Keeps list w)

  change_up-Keeps : Keeps w (change_up list name w).1
  unfolding change_up upgrade_mp3 upgrade_gsm
  change_up-Keeps =
      if-Keeps (same_text name mpa) w (upgrade_mp3 list w)
        (if same_text name gsm then upgrade_gsm list w else (err_noerror, w))
        (raise-Keeps list w (step_from (find_rate list mpa w) (current w).bitrate mp3_up))
        (if-Keeps (same_text name gsm) w (upgrade_gsm list w) (err_noerror, w)
          (raise-Keeps list w (step_from (find_rate list gsm w) (current w).bitrate gsm_up))
          (Keeps-refl w))

-- At most one mark is set.
abbrev pub OneEnd : World → Type 0
OneEnd w = (w.session.minimum_reached ≡ false) ⊎ (w.session.maximum_reached ≡ false)

-- A change that is not made where a mark is set, and otherwise begins with neither mark.
unmarked :
    (b : Bool) (w w' : World) (r : Code × World)
    → (current w').pkt_buffer ≡ (current w).pkt_buffer
    → (b ≡ false → (w'.session.minimum_reached ≡ false) × (w'.session.maximum_reached ≡ false))
    → Keeps w' r.1
    → ((current (if b then (err_noerror, w) else r).1).pkt_buffer ≡ (current w).pkt_buffer)
      × (OneEnd w → OneEnd (if b then (err_noerror, w) else r).1)
unmarked true w w' r same none_set k = (refl, λ h. h)
unmarked false w w' r same none_set k = (k.buffer ∙ same, λ h. k.one_end (none_set refl))

-- Whatever the change and whatever media the programme has, a stream change leaves the session on the
-- same packet buffer, and a session that is not marked as being at both ends of its ladder is not so
-- marked afterwards.
pub stream_change-keeps :
    (list : List ℕ) (w : World) (change : Change)
    → ((current (stream_change list w change).1).pkt_buffer ≡ (current w).pkt_buffer)
      × (OneEnd w → OneEnd (stream_change list w change).1)
unfolding stream_change
stream_change-keeps list w keep = (refl, λ h. h)
stream_change-keeps list w downgrade =
    let w' = reset_maximum w in
    let name = (current w).encoding_name in
    unmarked w.session.minimum_reached w w' (change_down list name w') refl (λ e. (e, refl))
      (change_down-Keeps list name w')
stream_change-keeps list w upgrade =
    let w' = reset_minimum w in
    let name = (current w).encoding_name in
    unmarked w.session.maximum_reached w w' (change_up list name w') refl (λ e. (refl, e))
      (change_up-Keeps list name w')
stream_change-keeps list w halve =
    let w' = reset_maximum w in
    let name = (current w).encoding_name in
    unmarked w.session.minimum_reached w w' (change_half list name w') refl (λ e. (e, refl))
      (change_half-Keeps list name w')
