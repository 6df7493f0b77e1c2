-- ===== src/Mpeg/System/Sections.antt =====
-- read_packet on a packet that further codes end, and on the last one of a file.
use fenice_1_12_with_h.Prelude.{
  ℕ, zero, suc, ◌+◌, ◌%◌, ◌^◌, ◌<◌, ◌≤◌, ◌≡◌, refl, ap, ◌∙◌, List, [], ◌∷◌, ◌++◌, some, true, false,
  length, ◌==◌, ltb, All, arith,
}
use mathlib.Core.List.{append_assoc}
use fenice_1_12_with_h.Mpeg.Cut.{IsClear}
use fenice_1_12_with_h.Mpeg.System.Section.{read_section, read_packet}
use fenice_1_12_with_h.Mpeg.System.Search.{next_start_code_first}

-- The parts of a packet: bytes before a code of number `code`, and before the code of a picture, with
-- the two bytes of its head that are read.
pub data Part : Type 0 where
  piece : List ℕ → ℕ → Part
  picture : List ℕ → ℕ → ℕ → Part

abbrev pub print_part : Part → List ℕ → List ℕ
print_part (piece bytes code) rest = bytes ++ 0 ∷ 0 ∷ 1 ∷ code ∷ rest
print_part (picture bytes a b) rest = bytes ++ 0 ∷ 0 ∷ 1 ∷ 0 ∷ a ∷ b ∷ rest

-- A packet: its parts, and the part whose code ends it.
abbrev pub print_parts : List Part → List ℕ → ℕ → List ℕ → List ℕ
print_parts [] bytes code rest = print_part (piece bytes code) rest
print_parts (p ∷ parts) bytes code rest = print_part p (print_parts parts bytes code rest)

-- No code is within the bytes, and only a picture has the code 0.
abbrev pub IsPart : Part → Type 0
IsPart (piece bytes code) = IsClear (bytes ++ 0 ∷ 0 ∷ []) × (0 < code)
IsPart (picture bytes a b) = IsClear (bytes ++ 0 ∷ 0 ∷ [])

abbrev pub part_code : Part → ℕ
part_code (piece bytes code) = code
part_code (picture bytes a b) = 0

-- The codes within a packet are below 0xb9.
abbrev pub IsInner : Part → Type 0
IsInner p = IsPart p × (part_code p < 185)

abbrev pub part_size : Part → ℕ
part_size (piece bytes code) = length bytes
part_size (picture bytes a b) = length bytes + 2

abbrev pub parts_size : List Part → ℕ
parts_size [] = 0
parts_size (p ∷ parts) = part_size p + parts_size parts

not_zero : {n : ℕ} → 0 < n → (n == 0) ≡ false
not_zero h = ground (arith, h)

plus_mod : (count n : ℕ) → (count + n % 2 ^ 32) % 2 ^ 32 ≡ (count + n) % 2 ^ 32
plus_mod count n = omega arith

plus_mod_two : (count n : ℕ) → (count + n % 2 ^ 32 + 2) % 2 ^ 32 ≡ (count + (n + 2)) % 2 ^ 32
plus_mod_two count n = omega arith

two_steps :
    (buf bytes rest : List ℕ)
    → (buf ++ (bytes ++ 0 ∷ 0 ∷ 1 ∷ [])) ++ rest ≡ buf ++ (bytes ++ 0 ∷ 0 ∷ 1 ∷ rest)
two_steps buf bytes rest = simp (append_assoc) refl

four_steps :
    (buf bytes : List ℕ) (a b : ℕ)
    → (((buf ++ (bytes ++ 0 ∷ 0 ∷ 1 ∷ [])) ++ 0 ∷ []) ++ a ∷ []) ++ b ∷ []
      ≡ buf ++ (bytes ++ 0 ∷ 0 ∷ 1 ∷ 0 ∷ a ∷ b ∷ [])
four_steps buf bytes a b = simp (append_assoc) refl

print_part-append : (p : Part) (ys : List ℕ) → print_part p [] ++ ys ≡ print_part p ys
print_part-append (piece bytes code) ys = simp (append_assoc) refl
print_part-append (picture bytes a b) ys = simp (append_assoc) refl

-- One part is read: its code is known, it is in the buffer, and the bytes before its code are counted,
-- with those of a picture.
read_section-print_part :
    (old : ℕ → ℕ) (count : ℕ) (p : Part) (buf rest : List ℕ)
    → IsPart p
    → read_section old count (record { buf = buf; unread = print_part p rest }) ≡ record {
      count = (count + part_size p) % 2 ^ 32;
      final_byte = part_code p;
      input = record { buf = buf ++ print_part p []; unread = rest };
    }
unfolding read_section
read_section-print_part old count (piece bytes code) buf rest h =
    rw (next_start_code_first bytes buf (code ∷ rest) h.0, not_zero h.1)
      λ i. record {
        count = plus_mod count (length bytes) i;
        final_byte = code;
        input = record { buf = two_steps buf bytes (code ∷ []) i; unread = rest };
      }
read_section-print_part old count (picture bytes a b) buf rest h =
    rw (next_start_code_first bytes buf (0 ∷ a ∷ b ∷ rest) h) λ i. record {
      count = plus_mod_two count (length bytes) i;
      final_byte = 0;
      input = record { buf = four_steps buf bytes a b i; unread = rest };
    }

inner : (n : ℕ) → n < 185 → ltb n 185 ≡ true
inner n h = ground arith

outer : (n : ℕ) → 185 ≤ n → ltb n 185 ≡ false
outer n h = ground arith

none_before : (count n : ℕ) → (count + n) % 2 ^ 32 ≡ (count + (0 + n)) % 2 ^ 32
none_before count n = omega arith

sum_of :
    (count n m k : ℕ) → ((count + n) % 2 ^ 32 + (m + k)) % 2 ^ 32 ≡ (count + (n + m + k)) % 2 ^ 32
sum_of count n m k = omega arith

-- read_packet, with fuel for its parts, reads a packet up to the first code of 0xb9 or above, a code by
-- which it stands: all of it is in the buffer, and the count is moved on by the bytes between the codes
-- and the two of each picture, modulo 2 ^ 32. The four bytes of each code are left out, although the
-- source says of the count that it is the size of the packet at the end.
pub read_packet-print_parts :
    (fuel : ℕ) (old : ℕ → ℕ) (count : ℕ) (parts : List Part) (bytes : List ℕ) (code : ℕ)
    (buf rest : List ℕ)
    → length parts < fuel
    → All IsInner parts
    → IsClear (bytes ++ 0 ∷ 0 ∷ [])
    → 185 ≤ code
    → read_packet fuel old count (record { buf = buf; unread = print_parts parts bytes code rest })
      ≡ some (record {
        count = (count + (parts_size parts + length bytes)) % 2 ^ 32;
        final_byte = code;
        input = record { buf = buf ++ print_parts parts bytes code []; unread = rest };
      })
unfolding read_packet
read_packet-print_parts zero old count parts bytes code buf rest enough hp hb hc =
    absurd (omega arith)
read_packet-print_parts (suc fuel) old count [] bytes code buf rest enough hp hb hc =
    rw
      (
        read_section-print_part old count (piece bytes code) buf rest (hb, omega arith),
        outer code hc,
      )
      (ap some λ i. record {
        count = none_before count (length bytes) i;
        final_byte = code;
        input = record { buf = buf ++ print_part (piece bytes code) []; unread = rest };
      })
read_packet-print_parts (suc fuel) old count (p ∷ parts) bytes code buf rest enough hp hb hc =
    rw
      (
        read_section-print_part old count p buf (print_parts parts bytes code rest) hp.0.0,
        inner (part_code p) hp.0.1,
      )
      (read_packet-print_parts fuel old _ parts bytes code _ rest (omega arith) hp.1 hb hc
        ∙ ap some λ i. record {
          count = sum_of count (part_size p) (parts_size parts) (length bytes) i;
          final_byte = code;
          input = record {
            buf =
                (append_assoc buf (print_part p []) (print_parts parts bytes code [])
                    ∙ ap (◌++◌ buf) (print_part-append p (print_parts parts bytes code [])))
                  i;
            unread = rest;
          };
        })
