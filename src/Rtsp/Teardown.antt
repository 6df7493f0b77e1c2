-- ===== src/Rtsp/Teardown.antt =====
-- rtsp/RTSP_teardown.c: what becomes of the streams of a session and of their entries.
use mathlib.Core.Path.{subst}
use fenice_1_12_with_h.Prelude.{
  ℕ, ◌^◌, ◌<◌, ◌≡◌, ◌≢◌, refl, sym, ap, ◌∙◌, inl, inr, Bool, true, false, List, [], ◌∷◌, Option,
  none, some, Bool-cases, All, if◌then◌else◌,
}
use fenice_1_12_with_h.Schedule.{Sched, schedule_remove}
use fenice_1_12_with_h.Schedule.Count.{IsCounted}
use fenice_1_12_with_h.Prelude.Codes.{err_noerror}
use fenice_1_12_with_h.Rtsp.Check.{pass, cseq_of}
use fenice_1_12_with_h.Rtsp.Sessions.{
  Stream, Session, Server, Outcome, answer, is_named, remove_named, shrink, torn_down,
  teardown_checks, has_agent, teardown_request, rtsp_teardown,
}
use fenice_1_12_with_h.Rtsp.Logged.{logged_same}
use fenice_1_12_with_h.Rtsp.Served.{
  HasEntry, IsDistinct, IsServed, HasEntry-remove, HasEntry-removed, IsServed-remove, IsServed-tail,
}

-- The streams of a list that do not have the name, in their order.
abbrev pub unnamed : List ℕ → (ℕ → Stream) → List ℕ → List ℕ
unnamed name memory [] = []
unnamed name memory (i ∷ is) =
    if is_named name (memory i) then unnamed name memory is else i ∷ unnamed name memory is

-- What is left of the streams `is`, and of the table `k`: those with the name stand in entries that are no
-- longer valid, for schedule_do to destroy; the others are served as before.
pub record IsTorn (n : ℕ) (name : List ℕ) (memory : ℕ → Stream) (is : List ℕ) (kept : List ℕ)
    (k : Sched) : Type 0 where
  pub rest : kept ≡ unnamed name memory is
  pub served : IsServed n memory kept k
  pub gone : All (λ i. is_named name (memory i) ≡ true → HasEntry false memory k.table i) is

module _ (name : List ℕ) (memory : ℕ → Stream) where
  unnamed-All : (P : ℕ → Type 0) (is : List ℕ) → All P is → All P (unnamed name memory is)
  unnamed-All P [] h = tt
  unnamed-All P (i ∷ is) h = elim (Bool-cases (is_named name (memory i))) [
    | inl e ↦ rw e (unnamed-All P is h.1)
    | inr e ↦ rw e (h.0, unnamed-All P is h.1)
  ]

  unnamed-IsDistinct : (is : List ℕ) → IsDistinct is → IsDistinct (unnamed name memory is)
  unnamed-IsDistinct [] d = tt
  unnamed-IsDistinct (i ∷ is) d = elim (Bool-cases (is_named name (memory i))) [
    | inl e ↦ rw e (unnamed-IsDistinct is d.1)
    | inr e ↦ rw e (unnamed-All (λ j. i ≢ j) is d.0, unnamed-IsDistinct is d.1)
  ]

  remove_named-unnamed :
      (is : List ℕ) (k : Sched) → (remove_named name memory is k).0 ≡ unnamed name memory is
  unfolding remove_named
  remove_named-unnamed [] k = refl
  remove_named-unnamed (i ∷ is) k = elim (Bool-cases (is_named name (memory i))) [
    | inl e ↦ rw e (remove_named-unnamed is (schedule_remove (memory i).sched_id k))
    | inr e ↦ rw e (ap (◌∷◌ i) (remove_named-unnamed is k))
  ]

  -- The entry of a stream that is not in the list stays as it is.
  remove_named_others :
      (v : Bool) (n : ℕ) (is : List ℕ) (k : Sched) (j : ℕ)
      → n < 2 ^ 64
      → IsServed n memory is k
      → All (λ i. i ≢ j) is
      → HasEntry v memory k.table j
      → HasEntry v memory (remove_named name memory is k).1.table j
  unfolding remove_named
  remove_named_others v n [] k j small s apart h = h
  remove_named_others v n (i ∷ is) k j small s apart h =
      elim (Bool-cases (is_named name (memory i))) [
        | inl e ↦ rw e (
            remove_named_others v n is (schedule_remove (memory i).sched_id k) j small
              (IsServed-remove memory n k i is small s) apart.1
              (HasEntry-remove memory true v k i j s.entries.0 apart.0 h))
        | inr e ↦
            rw e (remove_named_others v n is k j small (IsServed-tail memory n k i is s) apart.1 h)
      ]

  apart-sym : (i : ℕ) (is : List ℕ) → All (λ j. i ≢ j) is → All (λ j. j ≢ i) is
  apart-sym i [] h = tt
  apart-sym i (j ∷ is) h = ((λ e. h.0 (sym e)), apart-sym i is h.1)

  remove_named-entries :
      (n : ℕ) (is : List ℕ) (k : Sched)
      → n < 2 ^ 64
      → IsServed n memory is k
      → All (HasEntry true memory (remove_named name memory is k).1.table) (unnamed name memory is)
  unfolding remove_named
  remove_named-entries n [] k small s = tt
  remove_named-entries n (i ∷ is) k small s = elim (Bool-cases (is_named name (memory i))) [
    | inl e ↦ rw e (
        remove_named-entries n is (schedule_remove (memory i).sched_id k) small
          (IsServed-remove memory n k i is small s))
    | inr e ↦
        let tail = IsServed-tail memory n k i is s in
        rw e (
          remove_named_others true n is k i small tail (apart-sym i is s.distinct.0) s.entries.0,
          remove_named-entries n is k small tail,
        )
  ]

  remove_named-IsCounted :
      (n : ℕ) (is : List ℕ) (k : Sched)
      → n < 2 ^ 64
      → IsServed n memory is k
      → IsCounted n (remove_named name memory is k).1
  unfolding remove_named
  remove_named-IsCounted n [] k small s = s.counted
  remove_named-IsCounted n (i ∷ is) k small s = elim (Bool-cases (is_named name (memory i))) [
    | inl e ↦ rw e (
        remove_named-IsCounted n is (schedule_remove (memory i).sched_id k) small
          (IsServed-remove memory n k i is small s))
    | inr e ↦ rw e (remove_named-IsCounted n is k small (IsServed-tail memory n k i is s))
  ]

  abbrev Gone : Sched → ℕ → Type 0
  Gone k i = is_named name (memory i) ≡ true → HasEntry false memory k.table i

  table_named :
      (i : ℕ) (is : List ℕ) (k : Sched)
      → is_named name (memory i) ≡ true
      → (remove_named name memory (i ∷ is) k).1
        ≡ (remove_named name memory is (schedule_remove (memory i).sched_id k)).1
  unfolding remove_named
  table_named i is k e = rw e refl

  table_unnamed :
      (i : ℕ) (is : List ℕ) (k : Sched)
      → is_named name (memory i) ≡ false
      → (remove_named name memory (i ∷ is) k).1 ≡ (remove_named name memory is k).1
  unfolding remove_named
  table_unnamed i is k e = rw e refl

  remove_named-Gone :
      (n : ℕ) (is : List ℕ) (k : Sched)
      → n < 2 ^ 64
      → IsServed n memory is k
      → All (Gone (remove_named name memory is k).1) is
  remove_named-Gone n [] k small s = tt
  remove_named-Gone n (i ∷ is) k small s = elim (Bool-cases (is_named name (memory i))) [
    | inl e ↦
        let tail = IsServed-remove memory n k i is small s in
        let here = HasEntry-removed memory true k i s.entries.0 in
        let k' = schedule_remove (memory i).sched_id k in
        subst (λ u. All (Gone u) (i ∷ is)) (sym (table_named i is k e))
          (
            (λ named.
                remove_named_others false n is k' i small tail (apart-sym i is s.distinct.0) here),
            remove_named-Gone n is k' small tail,
          )
    | inr e ↦
        subst (λ u. All (Gone u) (i ∷ is)) (sym (table_unnamed i is k e))
          ((λ named. absurd (cc)), remove_named-Gone n is k small (IsServed-tail memory n k i is s))
  ]

  pub remove_named-IsTorn :
      (n : ℕ) (is : List ℕ) (k : Sched)
      → n < 2 ^ 64
      → IsServed n memory is k
      → IsTorn n name memory is (remove_named name memory is k).0 (remove_named name memory is k).1
  remove_named-IsTorn n is k small s = record {
    rest = remove_named-unnamed is k;
    served =
        subst (λ kept. IsServed n memory kept (remove_named name memory is k).1)
          (sym (remove_named-unnamed is k))
          (record {
            counted = remove_named-IsCounted n is k small s;
            entries = remove_named-entries n is k small s;
            distinct = unnamed-IsDistinct is s.distinct;
          });
    gone = remove_named-Gone n is k small s;
  }

abbrev pub streams_of : Option Session → List ℕ
streams_of none = []
streams_of (some ses) = ses.streams

shrink_lem : (ses : Session) (kept : List ℕ) → streams_of (shrink ses kept) ≡ kept
shrink_lem ses [] = refl
shrink_lem ses (i ∷ is) = refl

-- A request TEARDOWN without a User-Agent header that passes its checks, for streams that the table
-- serves, all of them different, is replied to with 200. It takes the streams with the name that it gives out of the session and marks
-- their entries, each still with its stream, for schedule_do to destroy. The others stay in their order,
-- the table goes on to serve them with a count of clients that is right, and no stream is changed.
pub rtsp_teardown-IsTorn :
    (n c : ℕ) (input name : List ℕ) (ses : Session) (s : Server)
    → n < 2 ^ 64
    → has_agent input ≡ false
    → cseq_of input ≡ some c
    → teardown_checks input s.session ≡ pass (name, ses)
    → IsServed n s.memory ses.streams s.sched
    → (out : Outcome) × (rtsp_teardown input s ≡ some out)
      × (out.replies ≡ 200 ∷ [])
      × IsTorn n name s.memory ses.streams (streams_of out.server.session) out.server.sched
      × (out.server.memory ≡ s.memory)
unfolding rtsp_teardown teardown_request
rtsp_teardown-IsTorn n c input name ses s small plain number checks served =
    let (kept, k) = remove_named name s.memory ses.streams s.sched in
    (
      answer 200 err_noerror (torn_down (record s { cseq = c }) (name, ses)),
      logged_same input (teardown_request input s) plain
          ∙ rw (number, checks, teardown_request) refl,
      refl,
      subst (λ is. IsTorn n name s.memory ses.streams is k) (sym (shrink_lem ses kept))
          (remove_named-IsTorn name s.memory n ses.streams s.sched small served),
      refl,
    )
