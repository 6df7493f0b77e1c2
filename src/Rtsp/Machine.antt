-- ===== src/Rtsp/Machine.antt =====
-- rtsp/RTSP_state_machine.c: what a request leads to in each state of a session, and the state behind
-- it. What a handler returned, and whether RTSP_teardown freed the session, is an argument.
use fenice_1_12_with_h.Prelude.{ℕ, Bool, Option, none, some, ◌==◌, if◌then◌else◌}
use fenice_1_12_with_h.Prelude.Codes.{Code, err_noerror}

-- RTSP_ID_ and a name; the states INIT_STATE, READY_STATE and PLAY_STATE are 0, 1 and 2.
abbrev pub id_describe : ℕ
id_describe = 0

abbrev pub id_options : ℕ
id_options = 3

abbrev pub id_pause : ℕ
id_pause = 4

abbrev pub id_play : ℕ
id_play = 5

abbrev pub id_setup : ℕ
id_setup = 8

abbrev pub id_teardown : ℕ
id_teardown = 10

-- What is called: a handler, send_reply with a status, or nothing.
pub data Call : Type 0 where
  describe setup teardown options play pause : Call
  reply : ℕ → Call
  nothing : Call

-- The inner `switch` for each state.
abbrev pub in_init : ℕ → Call
in_init method =
    if method == id_describe
    then describe
    else if method == id_setup
    then setup
    else if method == id_teardown
    then teardown
    else if method == id_options
    then options
    else if method == id_play
    then reply 455
    else if method == id_pause
    then reply 455
    else reply 501

abbrev pub in_ready : ℕ → Call
in_ready method =
    if method == id_play
    then play
    else if method == id_setup
    then setup
    else if method == id_teardown
    then teardown
    else if method == id_options
    then nothing
    else if method == id_pause
    then reply 455
    else if method == id_describe
    then describe
    else reply 501

abbrev pub in_play : ℕ → Call
in_play method =
    if method == id_play
    then reply 551
    else if method == id_pause
    then pause
    else if method == id_teardown
    then teardown
    else if method == id_describe
    then describe
    else nothing

-- The outer `switch`.
unfoldable pub dispatch : ℕ → ℕ → Call
dispatch state method =
    if state == 0
    then in_init method
    else if state == 1
    then in_ready method
    else if state == 2
    then in_play method
    else nothing

pub data Header : Type 0 where
  -- no Session header, one with a number, one without
  absent numbered malformed : Header

-- What a handler did.
pub record Answer : Type 0 where
  pub code : Code
  pub freed : Bool

-- `== ERR_NOERROR`, which the handlers return also behind some of their refusals.
abbrev pub on_success : Code → ℕ → ℕ → ℕ
on_success err_noerror next state = next
on_success _ next state = state

-- `cur_state` after the call.
unfoldable pub state_after : Call → Answer → ℕ → Option ℕ
state_after setup a state = some (on_success a.code 1 state)
state_after play a state = some (on_success a.code 2 state)
state_after pause a state = some (on_success a.code 1 state)
state_after options a state = some (on_success a.code 0 state)
state_after teardown a state = if a.freed then none else some state
state_after _ a state = some state

-- RTSP_state_machine on the session list, `none` for NULL, here the state of its first session.
unfoldable pub rtsp_state_machine : Header → Option ℕ → ℕ → (Call → Answer) → Call × Option ℕ
rtsp_state_machine malformed session method answer = (reply 454, session)
rtsp_state_machine _ none method answer = (nothing, none)
rtsp_state_machine _ (some state) method answer =
    let call = dispatch state method in (call, state_after call (answer call) state)
