-- ===== src/Rtsp/Playing.antt =====
-- rtsp/RTSP_play.c: which streams play afterwards.
pub mod Runs
use mathlib.Core.Path.{subst}
use fenice_1_12_with_h.Prelude.{
  ℕ, zero, suc, ◌+◌, ◌%◌, ◌^◌, ◌≤◌, ◌<◌, ◌≡◌, ◌≢◌, refl, sym, ap, ◌∙◌, ◌⊎◌, inl, inr, Bool, true,
  false, not, ◌&&◌, ◌||◌, List, [], ◌∷◌, Option, none, some, Bool-cases, Option-cases, All, length,
  get_or, update, ◌==◌, ==_refl, if◌then◌else◌, arith,
}
use fenice_1_12_with_h.Prelude.Codes.{Code, err_noerror}
use fenice_1_12_with_h.Schedule.{Entry, Sched, empty}
use fenice_1_12_with_h.Schedule.Timing.{Timed, Action, PlayArgs, schedule_start, schedule_resume}
use fenice_1_12_with_h.Schedule.Pace.{passes, passes_paused}
use fenice_1_12_with_h.Rtsp.Text.{has}
use fenice_1_12_with_h.Rtsp.Check.{Check, pass, cseq_of}
use fenice_1_12_with_h.Rtsp.Sessions.{
  Stream, Session, Server, Outcome, answer, set_pause, pause_all, pause_checks, rtsp_pause,
}
use fenice_1_12_with_h.Rtsp.Play.{
  Played, presentation, aggregate, stream, Moment, at_entry, starts, play_one, then_play, play_all,
  play_reply, play_found, play_checks, rtsp_play,
}
use fenice_1_12_with_h.Rtsp.Served.{HasEntry, HasEntry-keep, IsDistinct, IsServed}
use fenice_1_12_with_h.Rtsp.Pausing.{update_self, update_other, has_self, has_other, cases_eq}

module _ (args : PlayArgs) (m : Moment) where
  -- The choice between a start, a stream that plays, and one to resume.
  abbrev pub choose {ℓ} : {A : Type ℓ} → Bool → Bool → A → A → A → A
  choose started pause first playing resumed =
      if not started then first else if not pause then playing else resumed

  -- What becomes of a stream that is to play.
  abbrev pub played_at : ℕ → Stream → Stream
  played_at i r =
      choose r.timed.started r.timed.pause (record r { timed = starts args m i r.timed }) r
        (record r { timed = schedule_resume args m.now r.timed })

  at_entry_lem :
      (table : List Entry) (i : ℕ) (change : ℕ → Timed → Timed) (memory : ℕ → Stream)
      → HasEntry true memory table i
      → at_entry table (memory i).sched_id change memory
        ≡ some (update memory i (record (memory i) { timed = change i (memory i).timed }))
  unfolding at_entry
  at_entry_lem table i change memory h = rw (h.holds, at_entry) refl

  update-same : {A : Type 0} (f : ℕ → A) (i j : ℕ) → update f i (f i) j ≡ f j
  update-same f i j = elim (cases_eq i j) [
    | inl e ↦ subst (λ k. update f i (f i) k ≡ f k) e (update_self f i (f i))
    | inr ne ↦ update_other f i (f i) j ne
  ]

  -- The three cases of a choice.
  choose_cases {ℓ κ} :
      {A : Type ℓ} {B : Type κ} (P : A → B → Type 0) (b c : Bool) {x y z : A} {u v w : B}
      → P x u
      → P y v
      → P z w
      → P (choose b c x y z) (choose b c u v w)
  choose_cases P false c p q r = p
  choose_cases P true false p q r = q
  choose_cases P true true p q r = r

  pub choose_keep {ℓ} :
      {A : Type ℓ} (P : A → Type 0) (b c : Bool) {x y z : A}
      → P x
      → P y
      → P z
      → P (choose b c x y z)
  choose_keep P false c p q r = p
  choose_keep P true false p q r = q
  choose_keep P true true p q r = r

  -- The memory that a step leaves has the stream `r` at `i`.
  abbrev Leaves : (ℕ → Stream) → ℕ → Option (ℕ → Stream) → Stream → Type 0
  Leaves memory i o r =
      (memory' : ℕ → Stream) × (o ≡ some memory') × ((j : ℕ) → memory' j ≡ update memory i r j)

  play_one_lem :
      (table : List Entry) (i : ℕ) (memory : ℕ → Stream)
      → HasEntry true memory table i
      → Leaves memory i (play_one args m table (memory i) memory) (played_at i (memory i))
  unfolding play_one
  play_one_lem table i memory h =
      choose_cases (Leaves memory i) (memory i).timed.started (memory i).timed.pause
        (_, at_entry_lem table i (starts args m) memory h, (λ j. refl))
        (memory, refl, (λ j. sym (update-same memory i j)))
        (_, at_entry_lem table i (λ i. schedule_resume args m.now) memory h, (λ j. refl))

  abbrev pub then_change : (Stream → Bool) → ℕ → Stream → Stream
  then_change chosen i r = if chosen r then played_at i r else r

  played_at-sched_id : (i : ℕ) (r : Stream) → (played_at i r).sched_id ≡ r.sched_id
  played_at-sched_id i r =
      choose_keep (λ (q : Stream). q.sched_id ≡ r.sched_id) r.timed.started r.timed.pause refl refl
        refl

  if_Leaves :
      (b : Bool) (memory : ℕ → Stream) (i : ℕ) (o : Option (ℕ → Stream)) (r : Stream)
      → Leaves memory i o r
      → Leaves memory i (if b then o else some memory) (if b then r else memory i)
  if_Leaves true memory i o r h = h
  if_Leaves false memory i o r h = (memory, refl, (λ j. sym (update-same memory i j)))

  pub if_sched_id :
      (b : Bool) (i : ℕ) (r : Stream) → (if b then played_at i r else r).sched_id ≡ r.sched_id
  if_sched_id true i r = played_at-sched_id i r
  if_sched_id false i r = refl

  Leaves-sched_id :
      (memory memory' : ℕ → Stream) (i : ℕ) (r : Stream)
      → ((j : ℕ) → memory' j ≡ update memory i r j)
      → r.sched_id ≡ (memory i).sched_id
      → (j : ℕ) → (memory' j).sched_id ≡ (memory j).sched_id
  Leaves-sched_id memory memory' i r h e j = elim (cases_eq i j) [
    | inl same ↦
        subst (λ k. (memory' k).sched_id ≡ (memory k).sched_id) same
          (ap (λ (q : Stream). q.sched_id) (h i ∙ update_self memory i r) ∙ e)
    | inr ne ↦ ap (λ (q : Stream). q.sched_id) (h j ∙ update_other memory i r j ne)
  ]

  has_none : (i : ℕ) (is : List ℕ) → All (λ j. i ≢ j) is → has i is ≡ false
  has_none i [] h = refl
  has_none i (j ∷ is) h = has_other j i is (λ e. h.0 (sym e)) ∙ has_none i is h.1

  abbrev pub played_in : (Stream → Bool) → Bool → ℕ → Stream → Stream
  played_in chosen b j r = if b then then_change chosen j r else r

  -- The streams of a list that are chosen are played, and no other is changed.
  abbrev pub Plays : (Stream → Bool) → List ℕ → (ℕ → Stream) → (ℕ → Stream) → Type 0
  Plays chosen is memory memory' = (j : ℕ) → memory' j ≡ played_in chosen (has j is) j (memory j)

  pub play_all_lem :
      (chosen : Stream → Bool) (table : List Entry) (is : List ℕ) (memory : ℕ → Stream)
      → All (HasEntry true memory table) is
      → IsDistinct is
      → (memory' : ℕ → Stream) × (play_all chosen args m table is memory ≡ some memory')
        × Plays chosen is memory memory'
  unfolding play_all
  play_all_lem chosen table [] memory h d = (memory, refl, (λ j. refl))
  play_all_lem chosen table (i ∷ is) memory h d =
      let (memory1, e1, l1) =
        if_Leaves (chosen (memory i)) memory i _ _ (play_one_lem table i memory h.0) in
      let same =
        Leaves-sched_id memory memory1 i (then_change chosen i (memory i)) l1
          (if_sched_id (chosen (memory i)) i (memory i)) in
      let (memory2, e2, l2) =
        play_all_lem chosen table is memory1 (HasEntry-keep true memory memory1 table is same h.1)
          d.1 in
      (
        memory2,
        ap (λ o. then_play o (play_all chosen args m table is)) e1 ∙ e2,
        (λ j. elim (cases_eq i j) [
          | inl e ↦
              subst (λ k. memory2 k ≡ played_in chosen (has k (i ∷ is)) k (memory k)) e
                (l2 i
                  ∙ ap (λ b. played_in chosen b i (memory1 i)) (has_none i is d.0)
                  ∙ l1 i
                  ∙ update_self memory i (then_change chosen i (memory i))
                  ∙ sym (ap (λ b. played_in chosen b i (memory i)) (has_self i is)))
          | inr ne ↦
              l2 j
              ∙ ap (played_in chosen (has j is) j)
                  (l1 j ∙ update_other memory i (then_change chosen i (memory i)) j ne)
              ∙ sym (ap (λ b. played_in chosen b j (memory j)) (has_other i j is ne))
        ]),
      )
