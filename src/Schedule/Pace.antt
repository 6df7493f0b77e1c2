-- ===== src/Schedule/Pace.antt =====
-- schedule/schedule_do.c: how often it serves a session, and when it ends.
use fenice_1_12_with_h.Prelude.{
  ◌-◌, ◌==◌, ℕ, suc, ◌+◌, ◌*◌, ◌≤◌, ◌≡◌, refl, ap, ◌∙◌, ◌⊎◌, inl, inr, Bool-cases, true, false,
  List, [], ◌∷◌, ◌++◌, All, arith,
}
use fenice_1_12_with_h.Prelude.Codes.{
  Code, err_noerror, err_generic, err_not_found, err_parse, err_alloc, err_input_param, err_not_sd,
  err_unsupported_pt, err_eof, err_fatal, err_connection_close,
}
use fenice_1_12_with_h.Schedule.Timing.{
  Timed, PlayArgs, schedule_start, schedule_resume, Action, adapt, rtcp, play, report, bye,
  schedule_stop, after_play, is_due, serve,
}

-- Passes of schedule_do at the times `ts`.
abbrev pub passes : (Timed → Code × Timed) → List ℕ → Timed → List Action × Timed
passes act [] s = ([], s)
passes act (now ∷ ts) s =
    let (actions, s') = serve act now s in
    let (others, s'') = passes act ts s' in (actions ++ others, s'')

abbrev pub plays : List Action → ℕ
plays [] = 0
plays (play ∷ xs) = suc (plays xs)
plays (_ ∷ xs) = plays xs

-- `act` keeps the time at which the session was due, and the period.
abbrev pub IsSteady : (Timed → Code × Timed) → Type 0
IsSteady act =
    (s : Timed) → ((act s).1.mprev_tx_time ≡ s.mprev_tx_time) × ((act s).1.pkt_len ≡ s.pkt_len)

plays_append : (xs ys : List Action) → plays (xs ++ ys) ≡ plays xs + plays ys
plays_append [] ys = omega arith
plays_append (play ∷ xs) ys = let ih = plays_append xs ys in omega arith
plays_append (adapt ∷ xs) ys = plays_append xs ys
plays_append (rtcp ∷ xs) ys = plays_append xs ys
plays_append (report ∷ xs) ys = plays_append xs ys
plays_append (bye ∷ xs) ys = plays_append xs ys

after_play_lem :
    (res : Code) (s : Timed)
    → (plays (after_play res s).0 ≡ 0)
      × ((after_play res s).1.mprev_tx_time ≡ s.mprev_tx_time)
      × ((after_play res s).1.pkt_len ≡ s.pkt_len)
unfolding after_play schedule_stop
after_play_lem err_eof s = elim (Bool-cases s.live) [
  | inl e ↦ rw e (refl, refl, refl)
  | inr e ↦ rw e (refl, refl, refl)
]
after_play_lem err_alloc s = (refl, refl, refl)
after_play_lem err_noerror s = (refl, refl, refl)
after_play_lem err_generic s = (refl, refl, refl)
after_play_lem err_not_found s = (refl, refl, refl)
after_play_lem err_parse s = (refl, refl, refl)
after_play_lem err_input_param s = (refl, refl, refl)
after_play_lem err_not_sd s = (refl, refl, refl)
after_play_lem err_unsupported_pt s = (refl, refl, refl)
after_play_lem err_fatal s = (refl, refl, refl)
after_play_lem err_connection_close s = (refl, refl, refl)

pub serve_due :
    (act : Timed → Code × Timed) (now : ℕ) (s : Timed)
    → is_due now s ≡ true
    → serve act now s ≡ (
        let (stopped, s') = after_play (act s).0 (act s).1 in
        (
          adapt ∷ rtcp ∷ play ∷ stopped,
          record s' { mprev_tx_time = s'.mprev_tx_time + s'.pkt_len },
        ))
unfolding serve
serve_due act now s d = rw d refl

pub serve_idle :
    (act : Timed → Code × Timed) (now : ℕ) (s : Timed)
    → is_due now s ≡ false
    → serve act now s ≡ ([], s)
unfolding serve
serve_idle act now s d = rw d refl

is_due_time : (now : ℕ) (s : Timed) → is_due now s ≡ true → s.mprev_tx_time + s.pkt_len ≤ now
is_due_time now s d = ground arith

serve_lem :
    (act : Timed → Code × Timed)
    → IsSteady act
    → (now : ℕ) (s : Timed)
    → ((serve act now s).1.mprev_tx_time ≡ s.mprev_tx_time + plays (serve act now s).0 * s.pkt_len)
      × ((serve act now s).1.pkt_len ≡ s.pkt_len)
      × (((serve act now s).1.mprev_tx_time ≤ now) ⊎ ((serve act now s) ≡ ([], s)))
serve_lem act steady now s = elim (Bool-cases (is_due now s)) [
  | inl d ↦
      let (k, m, l) = after_play_lem (act s).0 (act s).1 in
      let (m', l') = steady s in
      let t = is_due_time now s d in
      rw (serve_due act now s d)
        (rw (k, l, m, m', l') (omega arith), l ∙ l', inl (rw (l, m, m', l') t))
  | inr d ↦ rw (serve_idle act now s d) (omega arith, refl, inr refl)
]

-- In passes of schedule_do at times up to `last`, where stream_change, RTCP_handler and `play_action`
-- keep the session's last time and its period, each packet moves the session's time on by one
-- period, and unless none was sent that time is not behind `last`: no packet is sent early, and
-- the packets are no more than the periods that have passed.
passes_pace :
    (act : Timed → Code × Timed)
    → IsSteady act
    → (last : ℕ) (ts : List ℕ) (s : Timed) → All (λ t. t ≤ last) ts
    → ((passes act ts s).1.mprev_tx_time ≡ s.mprev_tx_time + plays (passes act ts s).0 * s.pkt_len)
      × ((passes act ts s).1.pkt_len ≡ s.pkt_len)
      × (((passes act ts s).1.mprev_tx_time ≤ last) ⊎ ((passes act ts s) ≡ ([], s)))
passes_pace act steady last [] s a = (omega arith, refl, inr refl)
passes_pace act steady last (now ∷ ts) s (now_le, rest_le) =
    let (m, l, w) = serve_lem act steady now s in
    let (m', l', w') = passes_pace act steady last ts (serve act now s).1 rest_le in
    (
      rw (plays_append (serve act now s).0 (passes act ts (serve act now s).1).0, m', m, l)
          (ground arith),
      l' ∙ l,
      elim w' [
        | inl le ↦ inl le
        | inr e' ↦ elim w [ inl le ↦ inl (rw e' (omega arith)) | inr e ↦ inr (rw (e', e) refl) ]
      ],
    )

pace_within :
    (act : Timed → Code × Timed)
    → IsSteady act
    → (last : ℕ) (ts : List ℕ) (s : Timed) {since len : ℕ} → All (λ t. t ≤ last) ts
    → s.mprev_tx_time ≡ since
    → s.pkt_len ≡ len
    → since ≤ last
    → since + plays (passes act ts s).0 * len ≤ last
pace_within act steady last ts s a at long b =
    let (m, l, w) = passes_pace act steady last ts s a in
    let total = ap (◌*◌ (plays (passes act ts s).0)) long in
    elim w [ inl le ↦ omega (arith, m, le, at, total) | inr e ↦ rw e (omega (arith, b)) ]

schedule_start-pkt_len :
    (args : PlayArgs) (refs now : ℕ) (s : Timed)
    → (schedule_start args now refs s).pkt_len ≡ s.pkt_len
unfolding schedule_start
schedule_start-pkt_len args refs now s = elim (Bool-cases (refs == 1)) [
  | inl e ↦ rw e refl
  | inr e ↦ rw e refl
]

schedule_start-mprev_tx_time :
    (args : PlayArgs) (refs now : ℕ) (s : Timed)
    → (schedule_start args now refs s).mprev_tx_time ≡ now
unfolding schedule_start
schedule_start-mprev_tx_time args refs now s = refl

schedule_resume-times :
    (args : PlayArgs) (now : ℕ) (s : Timed)
    → ((schedule_resume args now s).pkt_len ≡ s.pkt_len)
      × ((schedule_resume args now s).mprev_tx_time ≡ now - s.pkt_len)
unfolding schedule_resume
schedule_resume-times args now s = (refl, refl)

-- From schedule_start at the time `start` to the time `last`, passes of schedule_do call `play_action`
-- once for each whole period that has passed at most, where stream_change, RTCP_handler and
-- `play_action` keep the session's last time and its period. From schedule_resume they call it once
-- more at most, since a call is due at once. One call may send several packets; `start` is a time after
-- 1970, and so not less than the period.
pub schedule_start_pace :
    (act : Timed → Code × Timed)
    → IsSteady act
    → (args : PlayArgs) (refs start last : ℕ) (ts : List ℕ) (s : Timed) → s.pkt_len ≤ start
    → start ≤ last
    → All (λ t. t ≤ last) ts
    → (start + plays (passes act ts (schedule_start args start refs s)).0 * s.pkt_len ≤ last)
      × (start + plays (passes act ts (schedule_resume args start s)).0 * s.pkt_len
          ≤ last + s.pkt_len)
schedule_start_pace act steady args refs start last ts s long order a =
    let started = schedule_start args start refs s in
    let resumed = schedule_resume args start s in
    let k = schedule_start-pkt_len args refs start s in
    let m = schedule_start-mprev_tx_time args refs start s in
    let (k', m') = schedule_resume-times args start s in
    let first = pace_within act steady last ts started a m k order in
    let second = pace_within act steady last ts resumed a m' k' (omega arith) in
    (first, omega (arith, second))

pub passes_paused :
    (act : Timed → Code × Timed) (ts : List ℕ) (s : Timed)
    → s.pause ≡ true
    → passes act ts s ≡ ([], s)
passes_paused act [] s p = refl
passes_paused act (now ∷ ts) s p =
    rw (serve_idle act now s (rw p refl), passes_paused act ts s p) refl

-- The two results of `play_action` that end a session.
abbrev pub Ends : Code × Timed → Type 0
Ends (res, s) = ((res ≡ err_eof) × (s.live ≡ false)) ⊎ (res ≡ err_alloc)

after_play-Ends : (r : Code × Timed) → Ends r → after_play r.0 r.1 ≡ schedule_stop r.1
unfolding after_play
after_play-Ends r (inl (e, l)) = rw (e, l) refl
after_play-Ends r (inr e) = rw e refl

-- Where a call is due and `play_action` returns ERR_EOF for a medium that is not live, or ERR_ALLOC,
-- schedule_do has RTCP_send_packet put an SR and a BYE in the output buffer behind the call, and no
-- later pass calls anything for the session, at whatever times. That leaves out RTCP_handler, which
-- would send what waits in the buffer.
pub passes_end :
    (act : Timed → Code × Timed) (now : ℕ) (ts : List ℕ) (s : Timed)
    → is_due now s ≡ true
    → Ends (act s)
    → (passes act (now ∷ ts) s).0 ≡ adapt ∷ rtcp ∷ play ∷ report ∷ bye ∷ []
unfolding schedule_stop
passes_end act now ts s d e =
    rw (serve_due act now s d, after_play-Ends (act s) e)
      (ap (λ r. adapt ∷ rtcp ∷ play ∷ report ∷ bye ∷ r.0) (passes_paused act ts _ refl))
