-- ===== src/Mpeg/Video/Time.antt =====
-- read_gop_head on the header of a group of pictures, as ISO 11172 lays it out.
use fenice_1_12_with_h.Prelude.{ℕ, ◌+◌, ◌*◌, ◌/◌, ◌%◌, ◌^◌, ◌<◌, ◌≡◌, List, [], ◌∷◌, ◌++◌, arith}
use fenice_1_12_with_h.Mpeg.Video.{Standard, GopHead, read_gop_head}
use fenice_1_12_with_h.Mpeg.Video.Extra.{Tail, IsTailOf, print_ending, video_end-print_ending}

-- A time code, with its flag for dropped frames and the seven bits that follow it.
pub record TimeCode : Type 0 where
  pub drop_frame : ℕ
  pub hours : ℕ
  pub minutes : ℕ
  pub seconds : ℕ
  pub pictures : ℕ
  pub flags : ℕ

pub record IsTimeCode (t : TimeCode) : Type 0 where
  pub drop_lt : t.drop_frame < 2
  pub hours_lt : t.hours < 2 ^ 5
  pub minutes_lt : t.minutes < 2 ^ 6
  pub seconds_lt : t.seconds < 2 ^ 6
  pub pictures_lt : t.pictures < 2 ^ 6
  pub flags_lt : t.flags < 2 ^ 7

-- Its four bytes; the fourth bit of the second one is a marker.
abbrev pub print_time_code : TimeCode → List ℕ → List ℕ
print_time_code t rest =
    (t.drop_frame * 2 ^ 7 + t.hours * 2 ^ 2 + t.minutes / 2 ^ 4)
    ∷ (t.minutes % 2 ^ 4 * 2 ^ 4 + 2 ^ 3 + t.seconds / 2 ^ 3)
    ∷ (t.seconds % 2 ^ 3 * 2 ^ 5 + t.pictures / 2)
    ∷ (t.pictures % 2 * 2 ^ 7 + t.flags)
    ∷ rest

pub record IsTimeRead (t : TimeCode) (code : ℕ) (rest : List ℕ) (g : GopHead) : Type 0 where
  pub hours_lem : g.hours ≡ t.hours
  pub minutes_lem : g.minutes ≡ t.minutes
  pub seconds_lem : g.seconds ≡ t.seconds
  pub picture_lem : g.picture ≡ t.pictures
  pub next : g.final_byte ≡ code
  pub behind : g.input.unread ≡ rest

-- read_gop_head reads back the hours, minutes, seconds and pictures of a time code whose fields fit,
-- for any standard, and stands behind the number of the next code: in MPEG-1 past an extension and user
-- data, and else behind the first code.
pub read_gop_head-print_time_code :
    (old : ℕ → ℕ) (std : Standard) (t : TimeCode) (e : Tail) (buf rest : List ℕ)
    → IsTimeCode t
    → IsTailOf std e
    → IsTimeRead t e.code rest (
        read_gop_head old std
          (record { buf = buf; unread = print_time_code t (print_ending e rest) }))
unfolding read_gop_head
read_gop_head-print_time_code old std t e buf rest h he =
    let end =
      video_end-print_ending old std 4 e ((((buf ++ _ ∷ []) ++ _ ∷ []) ++ _ ∷ []) ++ _ ∷ []) rest
        he in
    record {
      hours_lem = omega (arith, h.hours_lt, h.minutes_lt);
      minutes_lem = omega (arith, h.minutes_lt, h.seconds_lt);
      seconds_lem = omega (arith, h.seconds_lt, h.pictures_lt);
      picture_lem = omega (arith, h.pictures_lt, h.flags_lt);
      next = end.next;
      behind = end.behind;
    }
