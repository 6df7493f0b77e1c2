-- ===== src/Mpeg/Video/Extra.antt =====
-- The end of the headers of an MPEG video stream: extension and user data are passed over in MPEG-1.
use fenice_1_12_with_h.Prelude.{
  ℕ, ◌≡◌, ◌≢◌, refl, List, [], ◌∷◌, ◌++◌, Option, some, none, false, ◌==◌, arith,
}
use fenice_1_12_with_h.Mpeg.Cut.{IsClear}
use fenice_1_12_with_h.Mpeg.System.{Input}
use fenice_1_12_with_h.Mpeg.System.Search.{next_start_code_first}
use fenice_1_12_with_h.Mpeg.Video.{
  Standard, is_mpeg_1, mpeg_2, to_probe, mpeg_1, after_code, video_end,
}

-- The end of a header: its last bytes, the extension and the user data behind it where they are
-- present, and the number of the next code.
pub record Tail : Type 0 where
  pub bytes : List ℕ
  pub extension : Option (List ℕ)
  pub user : Option (List ℕ)
  pub code : ℕ

abbrev pub print_code : List ℕ → ℕ → List ℕ → List ℕ
print_code bytes code rest = bytes ++ 0 ∷ 0 ∷ 1 ∷ code ∷ rest

abbrev pub print_user : List ℕ → Option (List ℕ) → ℕ → List ℕ → List ℕ
print_user bytes none code rest = print_code bytes code rest
print_user bytes (some user) code rest = print_code bytes 178 (print_code user code rest)

abbrev pub print_extension : List ℕ → Option (List ℕ) → Option (List ℕ) → ℕ → List ℕ → List ℕ
print_extension bytes none user code rest = print_user bytes user code rest
print_extension bytes (some extension) user code rest =
    print_code bytes 181 (print_user extension user code rest)

abbrev pub print_ending : Tail → List ℕ → List ℕ
print_ending e rest = print_extension e.bytes e.extension e.user e.code rest

-- No code is within the parts, and the last code is not that of a part that is not there.
abbrev pub IsPiece : List ℕ → Type 0
IsPiece bytes = IsClear (bytes ++ 0 ∷ 0 ∷ [])

abbrev pub IsPresent : ℕ → ℕ → Option (List ℕ) → Type 0
IsPresent wanted code none = code ≢ wanted
IsPresent wanted code (some bytes) = IsPiece bytes

pub record IsTail (e : Tail) : Type 0 where
  pub bytes_clear : IsPiece e.bytes
  pub extension_lem : IsPresent 181 e.code e.extension
  pub user_lem : IsPresent 178 e.code e.user

-- The header is behind: its next code is known.
pub record IsEnded (code : ℕ) (rest : List ℕ) (r : ℕ × ℕ × Input) : Type 0 where
  pub next : r.1 ≡ code
  pub behind : r.2.unread ≡ rest

other : {code wanted : ℕ} → code ≢ wanted → (code == wanted) ≡ false
other h = ground (arith, h)

video_end-print_user :
    (old : ℕ → ℕ) (count : ℕ) (bytes : List ℕ) (user : Option (List ℕ)) (code : ℕ)
    (buf rest : List ℕ)
    → IsPiece bytes
    → code ≢ 181
    → IsPresent 178 code user
    → IsEnded code rest (
        video_end old mpeg_1 count (record { buf = buf; unread = print_user bytes user code rest }))
unfolding video_end after_code
video_end-print_user old count bytes none code buf rest h no_ext hu =
    rw (next_start_code_first bytes buf (code ∷ rest) h, other no_ext, other hu, video_end)
      (record { next = refl; behind = refl })
video_end-print_user old count bytes (some user) code buf rest h no_ext hu =
    rw
      (
        next_start_code_first bytes buf (178 ∷ print_code user code rest) h,
        next_start_code_first user ((buf ++ (bytes ++ 0 ∷ 0 ∷ 1 ∷ [])) ++ 178 ∷ []) (code ∷ rest)
            hu,
      )
      (record { next = refl; behind = refl })

video_end-print_extension :
    (old : ℕ → ℕ) (count : ℕ) (bytes extension : List ℕ) (user : Option (List ℕ)) (code : ℕ)
    (buf rest : List ℕ)
    → IsPiece bytes
    → IsPiece extension
    → IsPresent 178 code user
    → IsEnded code rest (
        video_end old mpeg_1 count (record {
          buf = buf;
          unread = print_code bytes 181 (print_user extension user code rest);
        }))
unfolding video_end after_code
video_end-print_extension old count bytes extension none code buf rest h he hu =
    let buf2 = (buf ++ (bytes ++ 0 ∷ 0 ∷ 1 ∷ [])) ++ 181 ∷ [] in
    rw
      (
        next_start_code_first bytes buf (181 ∷ print_code extension code rest) h,
        next_start_code_first extension buf2 (code ∷ rest) he,
        other hu,
      )
      (record { next = refl; behind = refl })
video_end-print_extension old count bytes extension (some user) code buf rest h he hu =
    let buf2 = (buf ++ (bytes ++ 0 ∷ 0 ∷ 1 ∷ [])) ++ 181 ∷ [] in
    let buf3 = (buf2 ++ (extension ++ 0 ∷ 0 ∷ 1 ∷ [])) ++ 178 ∷ [] in
    rw
      (
        next_start_code_first bytes buf (181 ∷ print_code extension 178 (print_code user code rest))
            h,
        next_start_code_first extension buf2 (178 ∷ print_code user code rest) he,
        next_start_code_first user buf3 (code ∷ rest) hu,
      )
      (record { next = refl; behind = refl })

ending_lem :
    (old : ℕ → ℕ) (count : ℕ) (bytes : List ℕ) (extension user : Option (List ℕ)) (code : ℕ)
    (buf rest : List ℕ)
    → IsPiece bytes
    → IsPresent 181 code extension
    → IsPresent 178 code user
    → IsEnded code rest (
        video_end old mpeg_1 count
          (record { buf = buf; unread = print_extension bytes extension user code rest }))
ending_lem old count bytes none user code buf rest h he hu =
    video_end-print_user old count bytes user code buf rest h he hu
ending_lem old count bytes (some extension) user code buf rest h he hu =
    video_end-print_extension old count bytes extension user code buf rest h he hu

-- Outside MPEG-1 the first code ends the header, also that of an extension or of user data.
abbrev pub IsTailOf : Standard → Tail → Type 0
IsTailOf mpeg_1 e = IsTail e
IsTailOf _ e = IsPiece e.bytes × (e.extension ≡ none) × (e.user ≡ none)

other_std :
    (old : ℕ → ℕ) (std : Standard) (count : ℕ) (bytes : List ℕ) (extension user : Option (List ℕ))
    (code : ℕ) (buf rest : List ℕ)
    → is_mpeg_1 std ≡ false
    → IsPiece bytes
    → extension ≡ none
    → user ≡ none
    → IsEnded code rest (
        video_end old std count
          (record { buf = buf; unread = print_extension bytes extension user code rest }))
unfolding video_end
other_std old std count bytes none none code buf rest o h e u =
    rw (next_start_code_first bytes buf (code ∷ rest) h, o, video_end)
      (record { next = refl; behind = refl })
other_std old std count bytes (some x) user code buf rest o h e u = cc
other_std old std count bytes none (some x) code buf rest o h e u = cc

-- The end of a header, in MPEG-1 with or without an extension and user data.
pub video_end-print_ending :
    (old : ℕ → ℕ) (std : Standard) (count : ℕ) (e : Tail) (buf rest : List ℕ)
    → IsTailOf std e
    → IsEnded e.code rest
        (video_end old std count (record { buf = buf; unread = print_ending e rest }))
video_end-print_ending old mpeg_1 count e buf rest h =
    ending_lem old count e.bytes e.extension e.user e.code buf rest h.bytes_clear h.extension_lem
      h.user_lem
video_end-print_ending old mpeg_2 count e buf rest h =
    other_std old mpeg_2 count e.bytes e.extension e.user e.code buf rest refl h.0 h.1 h.2
video_end-print_ending old to_probe count e buf rest h =
    other_std old to_probe count e.bytes e.extension e.user e.code buf rest refl h.0 h.1 h.2
