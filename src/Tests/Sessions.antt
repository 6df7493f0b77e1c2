-- ===== src/Tests/Sessions.antt =====
-- rtsp/RTSP_state_machine.c at concrete inputs.
use fenice_1_12_with_h.Prelude.{true, some}
use fenice_1_12_with_h.Prelude.Codes.{err_noerror}
use fenice_1_12_with_h.Rtsp.Machine.{Call, Answer, absent, id_play, rtsp_state_machine}
use fenice_1_12_with_h.Rtsp.Transitions.{Allowed, rtsp_state_machine-Allowed}

-- Every handler succeeds.
abbrev fine : Call → Answer
fine call = record { code = err_noerror; freed = true }

rtsp_state_machine-Allowed_example :
    Allowed fine id_play 1 (rtsp_state_machine absent (some 1) id_play fine).1
rtsp_state_machine-Allowed_example = rtsp_state_machine-Allowed absent 1 id_play fine
