-- ===== src/Intnet/Catalog.antt =====
-- Media entries, and mediainfo/search_media.c, default_selection_criterion.c, get_media_entry.c and
-- media_is_empty.c, which look one up in the list of a programme.
use fenice_1_12_with_h.Prelude.{
  ℕ, ◌/◌, ◌%◌, ◌≡◌, Bool, true, false, not, ◌&&◌, ◌||◌, List, [], ◌∷◌, ◌++◌, Option, none, some,
  ◌==◌, if◌then◌else◌, All, arith, Bool-cases, inl, inr, ap,
}

-- C strings, without their final 0.
abbrev pub Bytes : Type 0
Bytes = List ℕ

-- `strcmp(s, t) == 0`
pub same_text : Bytes → Bytes → Bool
same_text [] [] = true
same_text (x ∷ xs) (y ∷ ys) = x == y && same_text xs ys
same_text _ _ = false

-- `media_entry` with its `description`: what the lookups and the stream changes use.
pub record Media : Type 0 where
  pub flags : ℕ
  pub fd : ℕ
  pub pkt_buffer : ℕ
  pub filename : Bytes
  pub aggregate : Bytes
  pub descr_format : ℕ
  pub med_flags : ℕ
  pub msource : ℕ
  pub mtype : ℕ
  pub payload_type : ℕ
  pub clock_rate : ℕ
  pub sample_rate : ℕ
  pub audio_channels : ℕ
  pub bit_per_sample : ℕ
  pub encoding_name : Bytes
  pub bitrate : ℕ
  pub priority : ℕ
  pub frame_rate : ℕ
  pub byte_per_pckt : ℕ

-- `flags & bit`, for a power of two
abbrev pub has : ℕ → ℕ → Bool
has flags bit = (flags / bit) % 2 == 1

-- The part of a file name behind its last '!', or all of it.
pub after_bang : Bytes → Bytes → Bytes
after_bang best [] = best
after_bang best (c ∷ cs) = after_bang (if c == b'!' then cs else best) cs

-- One test of the loop: passed unless the request has the flag and the test fails.
abbrev pub wants : ℕ → ℕ → Bool → Bool
wants flags bit test = not (has flags bit) || test

-- The tests of the loop of search_media on the entry `p`.
unfoldable pub matches : Media → Media → Bool
unfolding same_text after_bang
matches req p =
    wants req.flags 1 (same_text p.filename (after_bang req.filename req.filename))
    && wants req.flags 4 (p.descr_format == req.descr_format)
    && wants req.flags 8 (same_text p.aggregate req.aggregate)
    && wants req.med_flags 2 (p.msource == req.msource)
    && wants req.med_flags 1 (p.mtype == req.mtype)
    && wants req.med_flags 4 (p.payload_type == req.payload_type)
    && wants req.med_flags 8 (p.clock_rate == req.clock_rate)
    && wants req.med_flags 16 (same_text p.encoding_name req.encoding_name)
    && wants req.med_flags 32 (p.audio_channels == req.audio_channels)
    && wants req.med_flags 128 (p.bit_per_sample == req.bit_per_sample)
    && wants req.med_flags 64 (p.sample_rate == req.sample_rate)
    && wants req.med_flags 1024 (p.bitrate == req.bitrate)
    && wants req.med_flags 4096 (p.priority == req.priority)
    && wants req.med_flags 16384 (p.frame_rate == req.frame_rate)
    && wants req.med_flags 32768 (p.byte_per_pckt == req.byte_per_pckt)

-- search_media: the address of an entry, or NULL.
unfoldable pub search_media : (ℕ → Media) → Media → List ℕ → Option ℕ
search_media mem req [] = none
search_media mem req (p ∷ ps) = if matches req (mem p) then some p else search_media mem req ps

-- The loop of default_selection_criterion.
pub first_preferred : (ℕ → Media) → List ℕ → Option ℕ
first_preferred mem [] = none
first_preferred mem (p ∷ ps) = if (mem p).priority == 1 then some p else first_preferred mem ps

-- default_selection_criterion: the first entry of priority 1, or the head of the list.
unfoldable pub default_selection_criterion : (ℕ → Media) → List ℕ → Option ℕ
unfolding first_preferred
default_selection_criterion mem [] = none
default_selection_criterion mem (p ∷ ps) = elim (first_preferred mem (p ∷ ps)) [
  | none ↦ some p
  | some q ↦ some q
]

-- get_media_entry, with the test of media_is_empty on a request that is not NULL: `none` is
-- ERR_NOT_FOUND.
unfoldable pub get_media_entry : (ℕ → Media) → Media → List ℕ → Option ℕ
get_media_entry mem req list =
    if not (has req.flags 1)
    then default_selection_criterion mem list
    else search_media mem req list

-- `a` is the first entry of the list that meets the request.
pub record IsFirst (mem : ℕ → Media) (req : Media) (list : List ℕ) (a : ℕ) : Type 0 where
  pub before : List ℕ
  pub behind : List ℕ
  pub splits : list ≡ before ++ a ∷ behind
  pub meets : matches req (mem a) ≡ true
  pub passed_over : All (λ p. matches req (mem p) ≡ false) before

-- The entry that search_media returns is the first of the list that meets the request: it meets every
-- test that the request's flags name, and no entry before it does.
pub search_media-IsFirst :
    (mem : ℕ → Media) (req : Media) (list : List ℕ) {a : ℕ}
    → search_media mem req list ≡ some a
    → IsFirst mem req list a
unfolding search_media
search_media-IsFirst mem req [] e = absurd (cc)
search_media-IsFirst mem req (p ∷ ps) {a} e = elim (Bool-cases (matches req (mem p))) [
  | inl m ↦ record {
    before = [];
    behind = ps;
    splits = ground arith;
    meets = ground arith;
    passed_over = tt;
  }
  | inr m ↦
      let f = search_media-IsFirst mem req ps (ground arith) in
      record {
        before = p ∷ f.before;
        behind = f.behind;
        splits = ap (◌∷◌ p) f.splits;
        meets = f.meets;
        passed_over = (m, f.passed_over);
      }
]

pub search_media-none :
    (mem : ℕ → Media) (req : Media) (list : List ℕ)
    → search_media mem req list ≡ none
    → All (λ p. matches req (mem p) ≡ false) list
unfolding search_media
search_media-none mem req [] e = tt
search_media-none mem req (p ∷ ps) e = elim (Bool-cases (matches req (mem p))) [
  | inl m ↦ absurd (ground arith)
  | inr m ↦ (m, search_media-none mem req ps (ground arith))
]
