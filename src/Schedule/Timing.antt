-- ===== src/Schedule/Timing.antt =====
-- schedule/schedule_start.c, schedule_resume.c, schedule_stop.c, and of schedule_do.c the branch for
-- the entries that are valid.
use fenice_1_12_with_h.Prelude.{
  ℕ, ◌+◌, ◌-◌, ◌*◌, Bool, true, false, not, ◌&&◌, List, [], ◌∷◌, Option, none, some, leb, ◌==◌,
  if◌then◌else◌, update,
}
use fenice_1_12_with_h.Prelude.Codes.{Code, err_eof, err_alloc}
use fenice_1_12_with_h.Schedule.{Entry}

-- The fields of a session and of its media by which it is scheduled. Times are in milliseconds, whole
-- numbers here; `live` is `msource == live`.
pub record Timed : Type 0 where
  pub pause : Bool
  pub started : Bool
  pub mprev_tx_time : ℕ
  pub minimum_reached : ℕ
  pub maximum_reached : ℕ
  pub previous_count : ℕ
  pub rr_received : ℕ
  pub sr_received : ℕ
  pub mstart : ℕ
  pub mtime : ℕ
  pub mstart_offset : ℕ
  pub play_offset : ℕ
  pub pkt_len : ℕ
  pub live : Bool

-- play_args: `playback_time` is what mktime makes of it, a time in seconds, and `none` where it is not
-- valid. schedule_start uses the value of `start_time`, in whole seconds here, valid or not.
pub record PlayArgs : Type 0 where
  pub start_time : ℕ
  pub start_time_valid : Bool
  pub playback_time : Option ℕ

-- schedule_start at the time `now`, once OMSbuff_ref left the buffer with `refs` consumers.
unfoldable pub schedule_start : PlayArgs → ℕ → ℕ → Timed → Timed
schedule_start args now refs s =
    let first = record s {
      mstart = elim args.playback_time [ none ↦ now | some t ↦ t ];
      mtime = now;
      mstart_offset = args.start_time * 1000;
      play_offset = args.start_time * 1000;
    } in
    let media = if refs == 1 then first else s in
    record media {
      mprev_tx_time = now;
      pause = false;
      started = true;
      minimum_reached = 0;
      maximum_reached = 0;
      previous_count = 0;
      rr_received = 0;
      sr_received = 0;
    }

-- schedule_resume; `now` is a time after 1970 and so above any `pkt_len`, as `mtime` is above
-- `mstart`.
unfoldable pub schedule_resume : PlayArgs → ℕ → Timed → Timed
schedule_resume args now s = record s {
  mstart_offset = s.mstart_offset + (s.mtime - s.mstart) + s.pkt_len;
  play_offset = if args.start_time_valid then args.start_time * 1000 else s.play_offset;
  mstart = now;
  mtime = now - s.pkt_len;
  mprev_tx_time = now - s.pkt_len;
  pause = false;
}

-- What schedule_do and schedule_stop call for a session: stream_change by change_check, RTCP_handler,
-- `play_action`, and RTCP_send_packet with SR and with BYE, which puts the report in the output buffer
-- and sends nothing: RTCP_handler does.
pub data Action : Type 0 where
  adapt rtcp play report bye : Action

-- schedule_stop
unfoldable pub schedule_stop : Timed → List Action × Timed
schedule_stop s = (report ∷ bye ∷ [], record s { pause = true; started = false })

-- What follows on the result of `play_action`.
unfoldable pub after_play : Code → Timed → List Action × Timed
unfolding schedule_stop
after_play err_eof s = if s.live then ([], s) else schedule_stop s
after_play err_alloc s = schedule_stop s
after_play _ s = ([], s)

-- A session is served at most once in a pass: not while it pauses, before its start, or before
-- `pkt_len` has passed since the time at which it was due before.
abbrev pub is_due : ℕ → Timed → Bool
is_due now s = not s.pause && (leb s.mstart now && leb (s.mprev_tx_time + s.pkt_len) now)

-- The branch of schedule_do for a valid entry that is looked at at the time `now`. `act` stands for
-- stream_change, RTCP_handler and `play_action`, which may change the session too, and its code is
-- what `play_action` returns.
unfoldable pub serve : (Timed → Code × Timed) → ℕ → Timed → List Action × Timed
unfolding after_play
serve act now s =
    let (res, played) = act s in
    let (stopped, s') = after_play res played in
    if is_due now s
    then (
      adapt ∷ rtcp ∷ play ∷ stopped,
      record s' { mprev_tx_time = s'.mprev_tx_time + s'.pkt_len },
    )
    else ([], s)

-- The loop over the table, for its valid entries: session `i` is looked at at the time `clock i`.
unfoldable pub serve_all :
    (ℕ → Timed → Code × Timed)
    → (ℕ → ℕ)
    → List Entry
    → (ℕ → Timed)
    → List (ℕ × List Action) × (ℕ → Timed)
unfolding serve
serve_all act clock [] sessions = ([], sessions)
serve_all act clock (e ∷ es) sessions = elim e.rtp_session [
  | none ↦ serve_all act clock es sessions
  | some i ↦
      let (actions, s') = serve (act i) (clock i) (sessions i) in
      let (others, sessions') =
        serve_all act clock es (if e.valid then update sessions i s' else sessions) in
      (if e.valid then (i, actions) ∷ others else others, sessions')
]
