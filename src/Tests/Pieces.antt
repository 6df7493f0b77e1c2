-- ===== src/Tests/Pieces.antt =====
-- mediainfo/common_utils.c at concrete inputs.
use fenice_1_12_with_h.Prelude.{ℕ, List, [], ◌∷◌, ◌≡◌, refl, some}
use fenice_1_12_with_h.Mpeg.{Cutting, search_code, next_start_code}
use fenice_1_12_with_h.Mpeg.Cut.{Outcome, next_start_code-Outcome}

abbrev movie : List ℕ
movie = 7 ∷ 0 ∷ 0 ∷ 0 ∷ 1 ∷ 179 ∷ 5 ∷ []

abbrev cut : Cutting
cut = record { result = some 2; buf = 9 ∷ 7 ∷ 0 ∷ 0 ∷ 0 ∷ 1 ∷ []; unread = 179 ∷ 5 ∷ [] }

movie_cut : next_start_code (9 ∷ []) movie ≡ cut
unfolding next_start_code search_code
movie_cut = refl

next_start_code-Outcome_example : Outcome 0 (9 ∷ []) movie (next_start_code (9 ∷ []) movie)
next_start_code-Outcome_example = next_start_code-Outcome (9 ∷ []) movie
