-- ===== src/Rtsp/Playing/Runs.antt =====
-- rtsp/RTSP_play.c: the streams that a request PLAY sets to play.
use fenice_1_12_with_h.Prelude.{◌≡◌, Bool, true, false, ◌||◌, ◌==◌, if◌then◌else◌}
use fenice_1_12_with_h.Rtsp.Sessions.{Stream}
use fenice_1_12_with_h.Rtsp.Play.{Played, presentation, aggregate}

abbrev pub Runs : Stream → Type 0
Runs r = (r.timed.pause ≡ false) × (r.timed.started ≡ true)

-- Whether a request for a presentation or for an aggregate is about a stream.
abbrev pub is_chosen : Bool → Stream → Bool
is_chosen all r = all || r.priority == 1

abbrev pub whole : Bool → Played
whole all = if all then aggregate else presentation
