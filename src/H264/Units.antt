-- ===== src/H264/Units.antt =====
-- get_one_NALU_payload on a byte stream made of units.
use mathlib.Core.List.{reverse, reverse_aux, append-nil, append_assoc, reverse_aux-append}
use fenice_1_12_with_h.Prelude.{
  ℕ, suc, ◌+◌, ◌-◌, ◌*◌, ◌/◌, ◌%◌, ◌^◌, ◌≤◌, ◌≡◌, refl, sym, ap, ◌∙◌, ◌≢◌, Bool, true, false, [],
  ◌∷◌, ◌++◌, length, length-append, take, arith,
}
use fenice_1_12_with_h.Prelude.Codes.{err_noerror}
use fenice_1_12_with_h.H264.File.{Bytes, at_start}
use fenice_1_12_with_h.H264.Nalu.{
  Nalu, Outcome, returned, find_another_start, finish, copy_nalu, get_one_nalu_payload, search_from,
  max_frame_size,
}
use fenice_1_12_with_h.H264.Scan.{
  is_clean, reading, start_code, find_another_start-append, ends_at_code, ends_at_eof, wraps,
  at_end,
}

-- A unit of a byte stream: which start code stands before it, its first byte and the others.
pub record NalUnit : Type 0 where
  pub long : Bool
  pub header : ℕ
  pub payload : Bytes

abbrev pub print : NalUnit → Bytes
print u = start_code u.long ++ (u.header ∷ u.payload)

-- The unit, as the reader keeps it.
abbrev pub decoded : ℕ → Bytes → Nalu
decoded header payload = record {
  len = length payload;
  forbidden_bit = header / 128 % 2 * 128;
  nal_reference_idc = header / 32 % 4 * 32;
  nal_unit_type = header % 32;
  buf = payload;
}

pub record IsNalUnit (u : NalUnit) : Type 0 where
  pub clean : is_clean 0 1 (u.header ∷ u.payload) ≡ true
  pub fits : length u.payload + 12 ≤ max_frame_size

pub reverse_aux-reverse_aux :
    (s t r : Bytes) → reverse_aux (reverse_aux s t) r ≡ reverse_aux t (s ++ r)
reverse_aux-reverse_aux [] t r = refl
reverse_aux-reverse_aux (x ∷ s) t r = reverse_aux-reverse_aux s (x ∷ t) r

length-reverse_aux : (s t : Bytes) → length (reverse_aux s t) ≡ length s + length t
length-reverse_aux [] t = omega arith
length-reverse_aux (x ∷ s) t = omega (arith, length-reverse_aux s (x ∷ t))

take-append : (xs ys : Bytes) → take (length xs) (xs ++ ys) ≡ xs
take-append [] ys = refl
take-append (x ∷ xs) ys = ap (◌∷◌ x) (take-append xs ys)

module _ (header : ℕ) (payload : Bytes) where
  -- The bytes read once the code `code` was found.
  abbrev buffer : Bool → Bytes → Bytes
  buffer long code = reverse_aux code (reverse_aux (header ∷ payload) (reverse (start_code long)))

  reverse-buffer :
      (long : Bool) (code : Bytes)
      → reverse (buffer long code)
        ≡ reverse (reverse (start_code long)) ++ (header ∷ (payload ++ code))
  reverse-buffer true code =
      reverse_aux-reverse_aux code _ []
      ∙ reverse_aux-reverse_aux (header ∷ payload) _ (code ++ [])
      ∙ simp append-nil
  reverse-buffer false code =
      reverse_aux-reverse_aux code _ []
      ∙ reverse_aux-reverse_aux (header ∷ payload) _ (code ++ [])
      ∙ simp append-nil

  length-buffer :
      (long : Bool) (code : Bytes)
      → length (buffer long code) ≡ length code + suc (length payload) + length (start_code long)
  length-buffer true code = omega (
    arith,
    length-reverse_aux code (reverse_aux (header ∷ payload) (reverse (start_code true))),
    length-reverse_aux payload (header ∷ reverse (start_code true)),
  )
  length-buffer false code = omega (
    arith,
    length-reverse_aux code (reverse_aux (header ∷ payload) (reverse (start_code false))),
    length-reverse_aux payload (header ∷ reverse (start_code false)),
  )

  copied :
      (long : Bool) (code : Bytes)
      → copy_nalu (length (start_code long)) (length payload) (buffer long code)
        ≡ decoded header payload
  unfolding copy_nalu
  copied true code = rw (reverse-buffer true code) (rw (take-append payload code))
  copied false code = rw (reverse-buffer false code) (rw (take-append payload code))

  -- The length that is computed from the position.
  counted :
      (long next : Bool)
      → length payload + 11 ≤ max_frame_size
      → (length (buffer long (start_code next))
            + 2 ^ 32
            - length (start_code long)
            - length (start_code next)
            - 1)
          % 2 ^ 32
        ≡ length payload
  counted long next le = omega (arith, length-buffer long (start_code next))

  module _ (nalu : Nalu) (behind rest : Bytes) (fits : length payload + 11 ≤ max_frame_size) where
    finished :
        (long next : Bool)
        → finish
            (length (start_code long))
            (length (start_code next))
            (buffer long (start_code next))
            nalu
            (reading (reverse_aux (start_code next) behind) rest)
          ≡ returned err_noerror (decoded header payload) (reading behind (start_code next ++ rest))
    unfolding finish
    finished true true = rw (counted true true fits, copied true (start_code true)) (ground arith)
    finished true false =
        rw (counted true false fits, copied true (start_code false)) (ground arith)
    finished false true =
        rw (counted false true fits, copied false (start_code true)) (ground arith)
    finished false false =
        rw (counted false false fits, copied false (start_code false)) (ground arith)

-- The room in the array, with some left behind a unit.
room_split :
    (long : Bool) (n : ℕ)
    → n + 12 ≤ max_frame_size
    → max_frame_size - length (start_code long)
      ≡ suc n + suc (suc (suc (suc (suc (max_frame_size - length (start_code long) - n - 6)))))
room_split true n h = omega arith
room_split false n h = omega arith

abbrev room_left : Bool → ℕ → ℕ
room_left long n = max_frame_size - length (start_code long) - n - 6

-- A unit is passed over, whatever ends it.
searched :
    (header : ℕ) (payload : Bytes) (nalu : Nalu) (ahead : Bytes)
    (ending : ℕ → Bytes → Bytes → Outcome) (long : Bool) (behind : Bytes)
    → is_clean 0 1 (header ∷ payload) ≡ true
    → length payload + 12 ≤ max_frame_size
    → ((room a b : ℕ) (buff behind : Bytes)
        → b ≢ 0
        → find_another_start
            (suc (suc (suc (suc (suc room)))))
            (length (start_code long))
            (b ∷ a ∷ buff)
            nalu
            (reading behind ahead)
          ≡ ending room (b ∷ a ∷ buff) behind)
    → search_from
        (length (start_code long))
        (start_code long)
        nalu
        (reading behind ((header ∷ payload) ++ ahead))
      ≡ ending
          (room_left long (length payload))
          (reverse_aux (header ∷ payload) (reverse (start_code long)))
          (reverse_aux (header ∷ payload) behind)
searched header payload nalu ahead ending true behind clean fits ends =
    ap
      (λ r.
        find_another_start r 4 (reverse (start_code true)) nalu
          (reading behind ((header ∷ payload) ++ ahead)))
      (room_split true (length payload) fits)
    ∙ (find_another_start-append 4 _ nalu ahead (ending (room_left true (length payload)))
        (ends (room_left true (length payload))) 0 1 (header ∷ payload) (0 ∷ 0 ∷ []) behind clean)
searched header payload nalu ahead ending false behind clean fits ends =
    ap
      (λ r.
        find_another_start r 3 (reverse (start_code false)) nalu
          (reading behind ((header ∷ payload) ++ ahead)))
      (room_split false (length payload) fits)
    ∙ (find_another_start-append 3 _ nalu ahead (ending (room_left false (length payload)))
        (ends (room_left false (length payload))) 0 1 (header ∷ payload) (0 ∷ []) behind clean)

-- The start code that stands before a unit is read first.
pub started :
    (long : Bool) (nalu : Nalu) (behind ahead : Bytes)
    → get_one_nalu_payload nalu (reading behind (start_code long ++ ahead))
      ≡ search_from
          (length (start_code long))
          (start_code long)
          nalu
          (reading (reverse_aux (start_code long) behind) ahead)
unfolding get_one_nalu_payload
started true nalu behind ahead = ground arith
started false nalu behind ahead = ground arith

print-append :
    (u : NalUnit) (xs : Bytes) → print u ++ xs ≡ start_code u.long ++ ((u.header ∷ u.payload) ++ xs)
print-append u xs = append_assoc (start_code u.long) (u.header ∷ u.payload) xs

module _ (u : NalUnit) (nalu : Nalu) (behind : Bytes) (v : IsNalUnit u) where
  -- A unit that another one follows is read as it is, up to the start code of that one.
  pub get_one-print :
      (next : NalUnit) (rest : Bytes)
      → get_one_nalu_payload nalu (reading behind (print u ++ (print next ++ rest)))
        ≡ returned err_noerror
            (decoded u.header u.payload)
            (reading (reverse_aux (print u) behind) (print next ++ rest))
  get_one-print next rest =
      let ahead : Bytes = (next.header ∷ next.payload) ++ rest in
      let old = reverse_aux (start_code u.long) behind in
      rw (print-append next rest, print-append u (start_code next.long ++ ahead))
        (started u.long nalu behind _
          ∙ searched u.header u.payload nalu (start_code next.long ++ ahead)
              (λ room buff bh.
                finish (length (start_code u.long)) (length (start_code next.long))
                  (reverse_aux (start_code next.long) buff) nalu
                  (reading (reverse_aux (start_code next.long) bh) ahead))
              u.long old v.clean v.fits
              (λ room a b buff bh ne.
                ends_at_code next.long _ (length (start_code u.long)) nalu ahead a b buff bh ne)
          ∙ finished u.header u.payload nalu (reverse_aux (u.header ∷ u.payload) old) ahead
              (omega (arith, v.fits)) u.long next.long
          ∙ ap
              (λ b.
                returned err_noerror (decoded u.header u.payload)
                  (reading b (start_code next.long ++ ahead)))
              (sym (reverse_aux-append (start_code u.long) (u.header ∷ u.payload) behind)))

  -- Behind the last unit of a file the byte 255 is taken for one more, and the reading goes on at the
  -- start of the file.
  pub get_one-print_last :
      (first : NalUnit) (rest : Bytes)
      → reverse_aux behind (print u) ≡ print first ++ rest
      → get_one_nalu_payload nalu (reading behind (print u))
        ≡ returned err_noerror
            (decoded u.header (u.payload ++ (255 ∷ [])))
            (at_start (print first ++ rest))
  get_one-print_last first rest e =
      let ahead : Bytes = (first.header ∷ first.payload) ++ rest in
      let old = reverse_aux (start_code u.long) behind in
      let start = length (start_code u.long) in
      let whole : reverse_aux (reverse_aux (u.header ∷ u.payload) old) []
          ≡ start_code first.long ++ ahead =
        ap (λ xs. reverse_aux xs [])
          (sym (reverse_aux-append (start_code u.long) (u.header ∷ u.payload) behind))
        ∙ reverse_aux-reverse_aux (print u) behind []
        ∙ ap (reverse_aux behind) (append-nil (print u))
        ∙ e
        ∙ print-append first rest in
      let read = reverse_aux (u.header ∷ u.payload) (reverse (start_code u.long)) in
      rw (print-append first rest) (
        ap (λ xs. get_one_nalu_payload nalu (reading behind (start_code u.long ++ (u.header ∷ xs))))
          (sym (append-nil u.payload))
        ∙ started u.long nalu behind _
        ∙ searched u.header u.payload nalu []
            (λ room buff bh.
              find_another_start (suc (suc (suc (suc room)))) start (255 ∷ buff) nalu (at_end bh))
            u.long old v.clean v.fits
            (λ room a b buff bh ne. ends_at_eof _ start nalu (b ∷ a ∷ buff) bh)
        ∙ wraps first.long _ start nalu ahead (reverse_aux (u.header ∷ u.payload) old) read whole
        ∙ ap
            (λ buff.
              finish start (length (start_code first.long))
                (reverse_aux (start_code first.long) buff)
                (copy_nalu start (length (255 ∷ read) - start - 1) (255 ∷ read))
                (reading (reverse_aux (start_code first.long) []) ahead))
            (sym
              (reverse_aux-append (u.header ∷ u.payload) (255 ∷ []) (reverse (start_code u.long))))
        ∙ finished u.header (u.payload ++ (255 ∷ []))
            (copy_nalu start (length (255 ∷ read) - start - 1) (255 ∷ read)) [] ahead
            (omega (arith, v.fits, length-append u.payload (255 ∷ []))) u.long first.long)
