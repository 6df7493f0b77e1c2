-- ===== src/Tests/Pace.antt =====
-- The timing of schedule/ at concrete inputs.
use fenice_1_12_with_h.Prelude.{
  All, List, inl, ℕ, ◌+◌, ◌*◌, ◌≤◌, ◌≡◌, refl, true, false, [], ◌∷◌, none, replicate, arith,
}
use fenice_1_12_with_h.Prelude.Codes.{Code, err_noerror, err_eof}
use fenice_1_12_with_h.Schedule.Timing.{
  Timed, PlayArgs, adapt, rtcp, play, report, bye, schedule_start, schedule_resume, after_play,
  serve,
}
use fenice_1_12_with_h.Schedule.Pace.{passes, plays, IsSteady, schedule_start_pace, passes_end}
use fenice_1_12_with_h.Schedule.CatchUp.{Caught, PlaysOn, passes_catch_up}

-- A file with a packet each 20 ms, before it is started.
abbrev clip : Timed
clip = record {
  pause = true;
  started = false;
  mprev_tx_time = 0;
  minimum_reached = 0;
  maximum_reached = 0;
  previous_count = 0;
  rr_received = 0;
  sr_received = 0;
  mstart = 0;
  mtime = 0;
  mstart_offset = 0;
  play_offset = 0;
  pkt_len = 20;
  live = false;
}

abbrev from_the_start : PlayArgs
from_the_start = record { start_time = 0; start_time_valid = true; playback_time = none }

-- A packet of the file is sent, and its end is reached.
abbrev sends : Timed → Code × Timed
sends s = (err_noerror, record s { mtime = s.mtime + s.pkt_len })

abbrev finishes : Timed → Code × Timed
finishes s = (err_eof, s)

abbrev playing : Timed
unfolding schedule_start
playing = schedule_start from_the_start 1000 1 clip

abbrev times : List ℕ
times = 1010 ∷ 1020 ∷ 1045 ∷ 1065 ∷ 1066 ∷ []

sends_three : plays (passes sends times playing).0 ≡ 3
unfolding schedule_start serve after_play
sends_three = refl

sends-IsSteady : IsSteady sends
sends-IsSteady s = (refl, refl)

sends-PlaysOn : PlaysOn sends
sends-PlaysOn s = (refl, refl, refl)

in_time : All (λ t. t ≤ 1066) times
in_time = (omega arith, (omega arith, (omega arith, (omega arith, (omega arith, tt)))))

schedule_start_pace_example :
    (1000 + plays (passes sends times (schedule_start from_the_start 1000 1 clip)).0 * 20 ≤ 1066)
    × (1000 + plays (passes sends times (schedule_resume from_the_start 1000 clip)).0 * 20
        ≤ 1066 + 20)
schedule_start_pace_example =
    schedule_start_pace sends sends-IsSteady from_the_start 1 1000 1066 times clip (omega arith)
      (omega arith) in_time

passes_end_example :
    (passes finishes (1020 ∷ times) playing).0 ≡ adapt ∷ rtcp ∷ play ∷ report ∷ bye ∷ []
unfolding schedule_start
passes_end_example = passes_end finishes 1020 times playing refl (inl (refl, refl))

passes_catch_up_example : Caught 1066 4 playing (passes sends (replicate 4 1066) playing)
unfolding schedule_start
passes_catch_up_example =
    passes_catch_up sends sends-IsSteady sends-PlaysOn 1066 4 playing refl (omega arith)
