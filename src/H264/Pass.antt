-- ===== src/H264/Pass.antt =====
-- One pass of get_one_NALU_payload over a file.
use mathlib.Core.List.{reverse_aux, append-nil, append_assoc}
use fenice_1_12_with_h.Prelude.{
  ℕ, zero, suc, ◌≡◌, sym, ap, ◌∙◌, List, [], ◌∷◌, ◌++◌, map, Option, none, some, length, All,
}
use fenice_1_12_with_h.Prelude.Codes.{err_noerror}
use fenice_1_12_with_h.H264.File.{Bytes, Stream, at_start}
use fenice_1_12_with_h.H264.Nalu.{Nalu, Outcome, returned, get_one_nalu_payload}
use fenice_1_12_with_h.H264.Scan.{reading}
use fenice_1_12_with_h.H264.Units.{
  NalUnit, IsNalUnit, print, decoded, reverse_aux-reverse_aux, get_one-print, get_one-print_last,
}

abbrev pub print_all : List NalUnit → Bytes
print_all [] = []
print_all (u ∷ us) = print u ++ print_all us

abbrev pub on_success :
    (Nalu → Stream → Option (List Nalu × Stream)) → Outcome → Option (List Nalu × Stream)
on_success next (returned err_noerror nalu s) = next nalu s
on_success next _ = none

abbrev pub prepend : Nalu → Option (List Nalu × Stream) → Option (List Nalu × Stream)
prepend nalu none = none
prepend nalu (some (ns, s)) = some (nalu ∷ ns, s)

-- So many calls in a row, each of which has to return without an error.
abbrev pub reads : ℕ → Nalu → Stream → Option (List Nalu × Stream)
reads zero nalu s = some ([], s)
reads (suc n) nalu s =
    let next : Nalu → Stream → Option (List Nalu × Stream) =
      λ nalu' s'. prepend nalu' (reads n nalu' s') in
    on_success next (get_one_nalu_payload nalu s)

abbrev pub as_read : NalUnit → Nalu
as_read u = decoded u.header u.payload

abbrev pub as_last_read : NalUnit → Nalu
as_last_read u = decoded u.header (u.payload ++ (255 ∷ []))

first_unit :
    (us : List NalUnit) (last : NalUnit)
    → (u : NalUnit) × (rest : Bytes) × (print_all us ++ print last ≡ print u ++ rest)
first_unit [] last = (last, [], sym (append-nil (print last)))
first_unit (u ∷ us) last =
    (u, print_all us ++ print last, append_assoc (print u) (print_all us) (print last))

reads_from :
    (us : List NalUnit) (last : NalUnit) (nalu : Nalu) (behind : Bytes) (first : NalUnit)
    (rest : Bytes)
    → All IsNalUnit us
    → IsNalUnit last
    → reverse_aux behind (print_all us ++ print last) ≡ print first ++ rest
    → reads (suc (length us)) nalu (reading behind (print_all us ++ print last))
      ≡ some (map as_read us ++ (as_last_read last ∷ []), at_start (print first ++ rest))
reads_from [] last nalu behind first rest vs v e =
    rw (get_one-print_last last nalu behind v first rest e)
reads_from (u ∷ us) last nalu behind first rest vs v e =
    let (next, more, shape) = first_unit us last in
    let whole = append_assoc (print u) (print_all us) (print last) in
    let split : (print u ++ print_all us) ++ print last ≡ print u ++ (print next ++ more) =
      whole ∙ ap (◌++◌ (print u)) shape in
    let rest_of : reads (suc (length us)) (as_read u)
          (reading (reverse_aux (print u) behind) (print next ++ more))
        ≡ some (map as_read us ++ (as_last_read last ∷ []), at_start (print first ++ rest)) =
      sym (
        ap (λ xs. reads (suc (length us)) (as_read u) (reading (reverse_aux (print u) behind) xs))
          shape)
      ∙ reads_from us last (as_read u) (reverse_aux (print u) behind) first rest vs.1 v (
          reverse_aux-reverse_aux (print u) behind (print_all us ++ print last)
          ∙ ap (reverse_aux behind) (sym whole)
          ∙ e) in
    ap (λ xs. reads (suc (suc (length us))) nalu (reading behind xs)) split
    ∙ ap (on_success (λ nalu' s'. prepend nalu' (reads (suc (length us)) nalu' s')))
        (get_one-print u nalu behind vs.0 next more)
    ∙ ap (prepend (as_read u)) rest_of

-- On a file of units, each behind its start code, without a start code within a unit and without a
-- byte 0 at its end, and none as large as the array, as many calls as there are units return them
-- all, in order, and lead back to the start of the file; the last unit comes with a byte 255 more.
pub reads-print_all :
    (us : List NalUnit) (last : NalUnit) (nalu : Nalu)
    → All IsNalUnit us
    → IsNalUnit last
    → reads (suc (length us)) nalu (at_start (print_all us ++ print last))
      ≡ some (map as_read us ++ (as_last_read last ∷ []), at_start (print_all us ++ print last))
reads-print_all us last nalu vs v =
    let (first, rest, shape) = first_unit us last in
    reads_from us last nalu [] first rest vs v shape
    ∙ ap (λ xs. some (map as_read us ++ (as_last_read last ∷ []), at_start xs)) (sym shape)
