-- ===== src/Intnet.antt =====
-- intnet/: the choice of another stream of the same programme when a receiver reports loss. The
-- media are entries of one memory, shared by address: a session's current medium is its own copy until
-- the first change, and then an entry of the programme's list.
pub mod Catalog
pub mod Ladder
pub mod Switch
pub mod Half
pub mod Jitter
pub mod Reached
use fenice_1_12_with_h.Prelude.{
  ℕ, ◌+◌, ◌-◌, ◌*◌, ◌/◌, Bool, true, false, List, [], ◌∷◌, Option, none, some, ltb, ◌==◌,
  if◌then◌else◌, update,
}
use fenice_1_12_with_h.Prelude.Codes.{Code, err_noerror, err_generic}
use fenice_1_12_with_h.Intnet.Catalog.{Media, Bytes, has, same_text, search_media}
use fenice_1_12_with_h.Intnet.Ladder.{step_from, start_at}

-- The fields of an `RTP_session` that the stream changes use; `rr_received`, `fract_lost` and `jitter`
-- are those of `rtcp_stats[i_client]`.
pub record Session : Type 0 where
  pub current_media : ℕ
  pub minimum_reached : Bool
  pub maximum_reached : Bool
  pub previous_count : ℕ
  pub rr_received : ℕ
  pub fract_lost : ℕ
  pub jitter : ℕ

-- The media in memory, the session, and the file descriptors that were closed, last first.
pub record World : Type 0 where
  pub media : ℕ → Media
  pub session : Session
  pub closed : List ℕ

abbrev pub current : World → Media
current w = w.media w.session.current_media

-- The values -2, -1, 0 and 1.
pub data Change : Type 0 where
  halve downgrade keep upgrade : Change

-- change_check. `fract_lost / 256 > 0.03` is written with whole numbers.
unfoldable pub change_check : Session → Change × Session
change_check s =
    let s' = record s { previous_count = s.rr_received } in
    if s.rr_received == s.previous_count
    then (keep, s)
    else if ltb (3 * 256) (s.fract_lost * 100)
    then (halve, s')
    else if ltb 10 s.jitter
    then (downgrade, s')
    else if ltb (s.fract_lost * 100) (2 * 256)
    then (if ltb s.jitter 10 then (upgrade, s') else (keep, s'))
    else (keep, s')

-- stream_switch to the entry at address `a`
unfoldable pub stream_switch : World → ℕ → Code × World
stream_switch w a =
    let cur = w.session.current_media in
    let old = w.media cur in
    let cleared = if has old.flags 32 then old.flags - 32 else old.flags in
    let media' = update w.media cur (record old { flags = cleared }) in
    (
      err_noerror,
      record w {
        closed = old.fd ∷ w.closed;
        media = update media' a (record (media' a) { pkt_buffer = (media' cur).pkt_buffer });
        session = record (w.session) { current_media = a };
      },
    )

-- `if (p != NULL) return stream_switch(changing_session, p); else …`
abbrev pub switch_or : Option ℕ → World → Code × World → Code × World
switch_or found w otherwise = elim found [ none ↦ otherwise | some a ↦ stream_switch w a ]

-- The request that `memset` and the assignments build: ME_ and MED_ flags and the fields they name.
abbrev pub empty_request : Media
empty_request = record {
  flags = 0;
  fd = 0;
  pkt_buffer = 0;
  filename = [];
  aggregate = [];
  descr_format = 0;
  med_flags = 0;
  msource = 0;
  mtype = 0;
  payload_type = 0;
  clock_rate = 0;
  sample_rate = 0;
  audio_channels = 0;
  bit_per_sample = 0;
  encoding_name = [];
  bitrate = 0;
  priority = 0;
  frame_rate = 0;
  byte_per_pckt = 0;
}

-- MED_BITRATE and MED_ENCODING_NAME
abbrev pub by_bitrate : Bytes → ℕ → Media
by_bitrate name speed = record empty_request {
  med_flags = 1024 + 16;
  encoding_name = name;
  bitrate = speed;
}

-- MED_PRIORITY
abbrev pub by_priority : ℕ → Media
by_priority p = record empty_request { med_flags = 4096; priority = p }

abbrev pub mpa : Bytes
mpa = b'M' ∷ b'P' ∷ b'A' ∷ []

abbrev pub gsm : Bytes
gsm = b'G' ∷ b'S' ∷ b'M' ∷ []

abbrev pub l16 : Bytes
l16 = b'L' ∷ b'1' ∷ b'6' ∷ []

-- The cases of downgrade_MP3 with the rate that the last one sets, and those of downgrade_GSM,
-- upgrade_MP3, upgrade_GSM, half_MP3 and half_GSM.
abbrev pub mp3_down : List ℕ
mp3_down =
    448000 ∷ 416000 ∷ 384000 ∷ 352000 ∷ 320000 ∷ 288000 ∷ 256000 ∷ 224000 ∷ 192000 ∷ 176000 ∷ 160000
    ∷ 144000 ∷ 128000 ∷ 112000 ∷ 96000 ∷ 80000 ∷ 64000 ∷ 56000 ∷ 48000 ∷ 40000 ∷ 32000 ∷ 24000
    ∷ 16000 ∷ 8000 ∷ []

abbrev pub gsm_down : List ℕ
gsm_down = 12200 ∷ 10200 ∷ 7950 ∷ 7400 ∷ 6700 ∷ 5900 ∷ 5150 ∷ 4750 ∷ []

abbrev pub mp3_up : List ℕ
mp3_up =
    8000 ∷ 16000 ∷ 24000 ∷ 32000 ∷ 40000 ∷ 48000 ∷ 56000 ∷ 64000 ∷ 80000 ∷ 96000 ∷ 112000 ∷ 128000
    ∷ 144000 ∷ 160000 ∷ 176000 ∷ 192000 ∷ 224000 ∷ 256000 ∷ 288000 ∷ 320000 ∷ 352000 ∷ 384000
    ∷ 416000 ∷ 448000 ∷ []

abbrev pub gsm_up : List ℕ
gsm_up = 4750 ∷ 5150 ∷ 5900 ∷ 6700 ∷ 7400 ∷ 7950 ∷ 10200 ∷ 12200 ∷ []

abbrev pub mp3_half : List ℕ
mp3_half =
    224000 ∷ 192000 ∷ 176000 ∷ 160000 ∷ 144000 ∷ 128000 ∷ 112000 ∷ 96000 ∷ 80000 ∷ 64000 ∷ 56000
    ∷ 48000 ∷ 40000 ∷ 32000 ∷ 24000 ∷ 16000 ∷ 8000 ∷ []

abbrev pub gsm_half : List ℕ
gsm_half = 6700 ∷ 5900 ∷ 5150 ∷ 4750 ∷ []

-- half_MP3: half the rate, moved up to a rate of the encoding where it falls between two.
unfoldable pub mp3_half_rate : ℕ → ℕ
mp3_half_rate bitrate =
    let speed = bitrate / 2 in
    if speed == 208000
    then 224000
    else if speed == 88000
    then 96000
    else if speed == 72000
    then 80000
    else if speed == 28000
    then 32000
    else if speed == 20000
    then 24000
    else if speed == 12000
    then 16000
    else speed

-- half_GSM: the rate to begin with.
unfoldable pub gsm_half_rate : ℕ → ℕ
gsm_half_rate bitrate =
    let speed = bitrate / 2 in if speed == 6100 then 6700 else if speed == 5100 then 5150 else 4750

abbrev pub reset_minimum : World → World
reset_minimum w = record w { session = record (w.session) { minimum_reached = false } }

abbrev pub reset_maximum : World → World
reset_maximum w = record w { session = record (w.session) { maximum_reached = false } }

-- `list` is the list of media that enum_media finds for the session's programme.
module _ (list : List ℕ) where
  -- priority_decrease
  unfoldable pub priority_decrease : World → Code × World
  priority_decrease w =
      switch_or (search_media w.media (by_priority ((current w).priority + 1)) list) w
        (err_noerror, record w { session = record (w.session) { minimum_reached = true } })

  -- priority_increase. A priority of -1 is that of no medium.
  unfoldable pub priority_increase : World → Code × World
  priority_increase w =
      let p = (current w).priority in
      let found = if p == 0 then none else search_media w.media (by_priority (p - 1)) list in
      if p == 1
      then (err_noerror, record w { session = record (w.session) { maximum_reached = true } })
      else switch_or found w (err_generic, w)

  abbrev pub find_rate : Bytes → World → ℕ → Option ℕ
  find_rate name w speed = search_media w.media (by_bitrate name speed) list

  unfoldable pub downgrade_mp3 : World → Code × World
  downgrade_mp3 w =
      switch_or (step_from (find_rate mpa w) (current w).bitrate mp3_down) w (priority_decrease w)

  unfoldable pub downgrade_gsm : World → Code × World
  downgrade_gsm w =
      switch_or (step_from (find_rate gsm w) (current w).bitrate gsm_down) w (priority_decrease w)

  unfoldable pub downgrade_l16 : World → Code × World
  downgrade_l16 w = priority_decrease w

  unfoldable pub upgrade_mp3 : World → Code × World
  upgrade_mp3 w =
      switch_or (step_from (find_rate mpa w) (current w).bitrate mp3_up) w (priority_increase w)

  unfoldable pub upgrade_gsm : World → Code × World
  upgrade_gsm w =
      switch_or (step_from (find_rate gsm w) (current w).bitrate gsm_up) w (priority_increase w)

  unfoldable pub half_mp3 : World → Code × World
  half_mp3 w =
      let speed = mp3_half_rate (current w).bitrate in
      switch_or (start_at (find_rate mpa w) speed mp3_half) w (priority_decrease w)

  unfoldable pub half_gsm : World → Code × World
  half_gsm w =
      let bitrate = (current w).bitrate in
      let found =
        if bitrate == 4750
        then none
        else start_at (find_rate gsm w) (gsm_half_rate bitrate) gsm_half in
      switch_or found w (priority_decrease w)

  unfoldable pub half_l16 : World → Code × World
  half_l16 w = priority_decrease w

  -- The choice by encoding that stream_change makes for each kind of change.
  unfoldable pub change_down : Bytes → World → Code × World
  change_down name w =
      if same_text name mpa
      then downgrade_mp3 w
      else if same_text name gsm
      then downgrade_gsm w
      else if same_text name l16
      then downgrade_l16 w
      else (err_noerror, w)

  unfoldable pub change_up : Bytes → World → Code × World
  change_up name w =
      if same_text name mpa
      then upgrade_mp3 w
      else if same_text name gsm
      then upgrade_gsm w
      else (err_noerror, w)

  unfoldable pub change_half : Bytes → World → Code × World
  change_half name w =
      if same_text name mpa
      then half_mp3 w
      else if same_text name gsm
      then half_gsm w
      else if same_text name l16
      then half_l16 w
      else (err_noerror, w)

  -- stream_change
  unfoldable pub stream_change : World → Change → Code × World
  stream_change w keep = (err_noerror, w)
  stream_change w downgrade =
      if w.session.minimum_reached
      then (err_noerror, w)
      else change_down (current w).encoding_name (reset_maximum w)
  stream_change w upgrade =
      if w.session.maximum_reached
      then (err_noerror, w)
      else change_up (current w).encoding_name (reset_minimum w)
  stream_change w halve =
      if w.session.minimum_reached
      then (err_noerror, w)
      else change_half (current w).encoding_name (reset_maximum w)
