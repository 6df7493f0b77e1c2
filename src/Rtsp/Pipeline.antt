-- ===== src/Rtsp/Pipeline.antt =====
-- Requests that stand one behind the other in the input.
use fenice_1_12_with_h.Prelude.{List, map}
use fenice_1_12_with_h.Rtsp.Buffer.{RtspBuffer}
use fenice_1_12_with_h.Rtsp.Command.{taken_for}
use fenice_1_12_with_h.Rtsp.Handler.{Event, text, no_error, Handled}
use fenice_1_12_with_h.Rtsp.Waiting.{Request, bytes}

-- What the handler makes of a request.
abbrev pub text_of : Request → Event
text_of q = text (taken_for q.command) (bytes q)

-- What the handler makes of the requests `qs`.
abbrev pub handled : List Request → RtspBuffer → Handled
handled qs r = record { ending = no_error; events = map text_of qs; rtsp = r }
