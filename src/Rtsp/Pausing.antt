-- ===== src/Rtsp/Pausing.antt =====
-- rtsp/RTSP_pause.c: that the streams of the session are silent afterwards.
use mathlib.Core.Path.{subst}
use fenice_1_12_with_h.Prelude.{
  ℕ, ◌≡◌, ◌≢◌, refl, sym, ap, ◌∙◌, ◌⊎◌, inl, inr, Bool, true, false, List, [], ◌∷◌, some,
  Bool-cases, update, ◌==◌, ==_refl, if◌then◌else◌, arith,
}
use fenice_1_12_with_h.Prelude.Codes.{Code, err_noerror}
use fenice_1_12_with_h.Schedule.Timing.{Timed, Action}
use fenice_1_12_with_h.Schedule.Pace.{passes, passes_paused}
use fenice_1_12_with_h.Rtsp.Text.{has}
use fenice_1_12_with_h.Rtsp.Check.{pass, cseq_of}
use fenice_1_12_with_h.Rtsp.Logged.{logged_same}
use fenice_1_12_with_h.Rtsp.Sessions.{
  Stream, Session, Server, Outcome, answer, set_pause, pause_all, pause_checks, has_agent,
  pause_request, rtsp_pause,
}

-- `change` at the streams of a list.
abbrev pub changed : (Stream → Stream) → List ℕ → (ℕ → Stream) → ℕ → Stream
changed change is memory j = if has j is then change (memory j) else memory j

pub update_self : {A : Type 0} (f : ℕ → A) (i : ℕ) (v : A) → update f i v i ≡ v
update_self f i v = rw (==_refl i) refl

pub update_other : {A : Type 0} (f : ℕ → A) (i : ℕ) (v : A) (j : ℕ) → i ≢ j → update f i v j ≡ f j
update_other f i v j ne = ground (arith, ne)

pub has_self : (i : ℕ) (is : List ℕ) → has i (i ∷ is) ≡ true
has_self i is = rw (==_refl i) refl

pub has_other : (i j : ℕ) (is : List ℕ) → i ≢ j → has j (i ∷ is) ≡ has j is
has_other i j is ne = ground (arith, ne)

set_pause_again :
    (b : Bool) (r : Stream) → (if b then set_pause (set_pause r) else set_pause r) ≡ set_pause r
set_pause_again true r = refl
set_pause_again false r = refl

pub cases_eq : (i j : ℕ) → (i ≡ j) ⊎ (i ≢ j)
cases_eq i j = elim (Bool-cases (i == j)) [
  | inl e ↦ inl (ground (arith, e))
  | inr e ↦ inr (λ p. ground (arith, e, p))
]

pub pause_all_lem :
    (is : List ℕ) (memory : ℕ → Stream) (j : ℕ)
    → pause_all is memory j ≡ changed set_pause is memory j
unfolding pause_all
pause_all_lem [] memory j = refl
pause_all_lem (i ∷ is) memory j =
    let ih = pause_all_lem is (update memory i (set_pause (memory i))) j in
    elim (cases_eq i j) [
      | inl e ↦
          subst
            (λ k.
              pause_all is (update memory i (set_pause (memory i))) k
              ≡ changed set_pause (i ∷ is) memory k)
            e
            (pause_all_lem is (update memory i (set_pause (memory i))) i
              ∙ ap (λ r. if has i is then set_pause r else r)
                  (update_self memory i (set_pause (memory i)))
              ∙ set_pause_again (has i is) (memory i)
              ∙ sym (ap (λ b. if b then set_pause (memory i) else memory i) (has_self i is)))
      | inr ne ↦
          ih
          ∙ ap (λ r. if has j is then set_pause r else r)
              (update_other memory i (set_pause (memory i)) j ne)
          ∙ sym (ap (λ b. if b then set_pause (memory j) else memory j) (has_other i j is ne))
    ]

-- A request PAUSE without a User-Agent header that passes its checks is replied to with 200, pauses the streams of the session and
-- changes nothing else of them, and no other stream; and no pass of schedule_do, at whatever times and
-- whatever the calls that it makes do, sends or adapts anything for a stream of the session as the
-- request leaves it.
pub rtsp_pause-silent :
    (c : ℕ) (hostname input : List ℕ) (ses : Session) (s : Server)
    → has_agent input ≡ false
    → cseq_of input ≡ some c
    → pause_checks hostname input s.session ≡ pass ses
    → (out : Outcome) × (rtsp_pause hostname input s ≡ some out)
      × (out.replies ≡ 200 ∷ [])
      × ((j : ℕ) → out.server.memory j ≡ changed set_pause ses.streams s.memory j)
      × ((j : ℕ) (act : Timed → Code × Timed) (ts : List ℕ)
          → has j ses.streams ≡ true
          → (passes act ts (out.server.memory j).timed).0 ≡ [])
unfolding rtsp_pause pause_request
rtsp_pause-silent c hostname input ses s plain number checks =
    let memory = pause_all ses.streams s.memory in
    (
      answer 200 err_noerror (record s { cseq = c; memory = memory }),
      logged_same input (pause_request hostname input s) plain
          ∙ rw (number, checks, pause_request) refl,
      refl,
      (λ j. pause_all_lem ses.streams s.memory j),
      (λ j act ts member.
          let paused : (memory j).timed.pause ≡ true =
            ap (λ (r : Stream). r.timed.pause) (pause_all_lem ses.streams s.memory j)
            ∙ ap (λ (b : Bool). (if b then set_pause (s.memory j) else s.memory j).timed.pause)
                member in
          ap (λ (r : List Action × Timed). r.0) (passes_paused act ts (memory j).timed paused)),
    )
