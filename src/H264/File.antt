-- ===== src/H264/File.antt =====
-- The calls of <stdio.h> that mediainfo/read_h264.c makes on its input, a file opened for reading.
use mathlib.Core.List.{reverse_aux}
use fenice_1_12_with_h.Prelude.{
  ℕ, zero, suc, Bool, true, false, List, [], ◌∷◌, Option, none, some, ltb, if◌then◌else◌, length,
  take, drop,
}

abbrev pub Bytes : Type 0
Bytes = List ℕ

-- The bytes before the position, the last one first, those from it on, and the end-of-file flag.
pub record Stream : Type 0 where
  pub behind : Bytes
  pub ahead : Bytes
  pub ended : Bool

abbrev pub at_start : Bytes → Stream
at_start xs = record { behind = []; ahead = xs; ended = false }

-- `fgetc`, cast to a character: EOF becomes 255.
abbrev get_from : Bytes → Stream → ℕ × Stream
get_from [] s = (255, record s { ended = true })
get_from (x ∷ xs) s = (x, record s { behind = x ∷ s.behind; ahead = xs })

abbrev pub fgetc : Stream → ℕ × Stream
fgetc s = get_from s.ahead s

-- `fread(buff, 1, n, f)`: the bytes read, at most `n`.
abbrev pub fread : ℕ → Stream → Bytes × Stream
fread n s =
    let got = take n s.ahead in
    (
      got,
      record {
        behind = reverse_aux got s.behind;
        ahead = drop n s.ahead;
        ended = if ltb (length s.ahead) n then true else s.ended;
      },
    )

-- `fseek(f, 0, SEEK_SET)`
abbrev pub rewound : Stream → Stream
rewound s = at_start (reverse_aux s.behind s.ahead)

-- `fseek(f, -n, SEEK_CUR)`: `none` before the start of the file.
abbrev back_over : ℕ → Bytes → Bytes → Option Stream
back_over zero bs xs = some (record { behind = bs; ahead = xs; ended = false })
back_over (suc n) [] xs = none
back_over (suc n) (b ∷ bs) xs = back_over n bs (b ∷ xs)

abbrev pub seek_back : ℕ → Stream → Option Stream
seek_back n s = back_over n s.behind s.ahead
