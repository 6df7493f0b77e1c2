-- ===== src/H264/Adjacent.antt =====
-- get_one_NALU_payload where one start code follows another.
use mathlib.Core.List.{reverse_aux}
use fenice_1_12_with_h.Prelude.{◌≡◌, refl, ◌∙◌, Bool, true, false, [], ◌∷◌, ◌++◌, arith}
use fenice_1_12_with_h.H264.File.{Bytes}
use fenice_1_12_with_h.H264.Nalu.{Nalu, overrun, finish, get_one_nalu_payload}
use fenice_1_12_with_h.H264.Scan.{reading, start_code, ends_at_code}
use fenice_1_12_with_h.H264.Units.{started}

-- Where a start code, short or long, is followed by another one at once, the length of the unit
-- between them wraps around to 2 ^ 32 - 1 and the copy leaves the arrays.
pub get_one-adjacent :
    (long next : Bool) (nalu : Nalu) (behind rest : Bytes)
    → get_one_nalu_payload nalu (reading behind (start_code long ++ (start_code next ++ rest)))
      ≡ overrun
get_one-adjacent true true nalu behind rest =
    started true nalu behind (start_code true ++ rest)
    ∙ ends_at_code true 99992 4 nalu rest 0 1 (0 ∷ 0 ∷ []) (reverse_aux (start_code true) behind)
        (omega arith)
    ∙ (unfold finish in refl)
get_one-adjacent true false nalu behind rest =
    started true nalu behind (start_code false ++ rest)
    ∙ ends_at_code false 99992 4 nalu rest 0 1 (0 ∷ 0 ∷ []) (reverse_aux (start_code true) behind)
        (omega arith)
    ∙ (unfold finish in refl)
get_one-adjacent false true nalu behind rest =
    started false nalu behind (start_code true ++ rest)
    ∙ ends_at_code true 99993 3 nalu rest 0 1 (0 ∷ []) (reverse_aux (start_code false) behind)
        (omega arith)
    ∙ (unfold finish in refl)
get_one-adjacent false false nalu behind rest =
    started false nalu behind (start_code false ++ rest)
    ∙ ends_at_code false 99993 3 nalu rest 0 1 (0 ∷ []) (reverse_aux (start_code false) behind)
        (omega arith)
    ∙ (unfold finish in refl)
