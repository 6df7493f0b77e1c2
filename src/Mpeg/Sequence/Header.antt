-- ===== src/Mpeg/Sequence/Header.antt =====
-- read_seq_head on the header of a sequence, as ISO 11172 lays it out.
use mathlib.Core.List.{append_assoc, append-nil}
use fenice_1_12_with_h.Prelude.{
  ℕ, suc, zero, ◌+◌, ◌*◌, ◌/◌, ◌%◌, ◌^◌, ◌<◌, ◌≡◌, refl, sym, ap, ◌∙◌, List, [], ◌∷◌, ◌++◌, ◌==◌,
  if◌then◌else◌, length, Option, some, none, true, false, arith,
}
use fenice_1_12_with_h.Mpeg.Video.{Standard}
use fenice_1_12_with_h.Mpeg.Video.Extra.{Tail, IsTailOf, print_ending, video_end-print_ending}
use fenice_1_12_with_h.Mpeg.Sequence.{read_bytes, matrix, read_matrices, SeqHead, read_seq_head}
use fenice_1_12_with_h.Mpeg.Sequence.Rate.{bit_rate_lem}

-- A sequence header: the two sizes and the two codes, in four bytes, the rate of 18 bits, the 6 bits
-- behind it, the byte that ends in the flag of the first matrix, and the matrices, each 64 bytes. The
-- first one begins with the last bit of that byte and ends before the flag of the second one.
pub record Sequence : Type 0 where
  pub size : ℕ × ℕ × ℕ × ℕ
  pub rate : ℕ
  pub behind_rate : ℕ
  pub flags : ℕ
  pub intra : Option (List ℕ)
  pub non_intra : Option (List ℕ)

abbrev pub print_matrix : Option (List ℕ) → List ℕ → List ℕ
print_matrix none rest = rest
print_matrix (some m) rest = m ++ rest

abbrev pub print_sequence : Sequence → List ℕ → List ℕ
print_sequence s rest =
    s.size.0
    ∷ s.size.1
    ∷ s.size.2
    ∷ s.size.3
    ∷ s.rate / 2 ^ 10
    ∷ s.rate / 2 ^ 2 % 2 ^ 8
    ∷ (s.rate % 2 ^ 2 * 2 ^ 6 + s.behind_rate)
    ∷ s.flags
    ∷ print_matrix s.intra (print_matrix s.non_intra rest)

-- The last byte of a list.
abbrev pub last_or : ℕ → List ℕ → ℕ
last_or d [] = d
last_or d (x ∷ xs) = last_or x xs

abbrev pub last_of : ℕ → Option (List ℕ) → ℕ
last_of d none = d
last_of d (some m) = last_or d m

-- A matrix is there where its flag is.
abbrev pub IsMatrix : ℕ → ℕ → Option (List ℕ) → Type 0
IsMatrix bit last none = last / bit % 2 ≡ 0
IsMatrix bit last (some m) = (last / bit % 2 ≡ 1) × (length m ≡ 64)

pub record IsSequence (s : Sequence) : Type 0 where
  pub rate_lt : s.rate < 2 ^ 18
  pub behind_lt : s.behind_rate < 2 ^ 6
  pub intra_lem : IsMatrix 2 s.flags s.intra
  pub non_intra_lem : IsMatrix 1 (last_of s.flags s.intra) s.non_intra

read_bytes-append :
    (old : ℕ → ℕ) (n last : ℕ) (xs buf rest : List ℕ)
    → length xs ≡ n
    → read_bytes old n last (record { buf = buf; unread = xs ++ rest })
      ≡ (last_or last xs, record { buf = buf ++ xs; unread = rest })
unfolding read_bytes
read_bytes-append old zero last [] buf rest h =
    ap (λ b. (last, record { buf = b; unread = rest })) (sym (append-nil buf))
read_bytes-append old (suc n) last (x ∷ xs) buf rest h =
    read_bytes-append old n x xs (buf ++ x ∷ []) rest (omega (arith, h))
    ∙ ap (λ b. (last_or x xs, record { buf = b; unread = rest })) (append_assoc buf (x ∷ []) xs)
read_bytes-append old zero last (x ∷ xs) buf rest h = absurd (omega (arith, h))
read_bytes-append old (suc n) last [] buf rest h = absurd (omega (arith, h))

has_flag : {n : ℕ} → n ≡ 1 → (n == 1) ≡ true
has_flag h = ground (arith, h)

no_flag : {n : ℕ} → n ≡ 0 → (n == 1) ≡ false
no_flag h = ground (arith, h)

abbrev matrix_buf : Option (List ℕ) → List ℕ → List ℕ
matrix_buf none buf = buf
matrix_buf (some m) buf = buf ++ m

matrix-print_matrix :
    (old : ℕ → ℕ) (bit last : ℕ) (m : Option (List ℕ)) (buf rest : List ℕ)
    → IsMatrix bit last m
    → matrix old bit last (record { buf = buf; unread = print_matrix m rest })
      ≡ (last_of last m, record { buf = matrix_buf m buf; unread = rest })
unfolding matrix
matrix-print_matrix old bit last none buf rest h = rw (no_flag h) refl
matrix-print_matrix old bit last (some m) buf rest h =
    rw (has_flag h.0) (read_bytes-append old 64 last m buf rest h.1)

read_matrices-print_matrix :
    (old : ℕ → ℕ) (flags : ℕ) (intra non_intra : Option (List ℕ)) (buf rest : List ℕ)
    → IsMatrix 2 flags intra
    → IsMatrix 1 (last_of flags intra) non_intra
    → read_matrices old flags
        (record { buf = buf; unread = print_matrix intra (print_matrix non_intra rest) })
      ≡ record { buf = matrix_buf non_intra (matrix_buf intra buf); unread = rest }
unfolding read_matrices
read_matrices-print_matrix old flags intra non_intra buf rest h g =
    ap (λ x. (matrix old 1 x.0 x.1).1)
      (matrix-print_matrix old 2 flags intra buf (print_matrix non_intra rest) h)
    ∙ ap (λ x. x.1)
        (matrix-print_matrix old 1 (last_of flags intra) non_intra (matrix_buf intra buf) rest g)

pub record IsSequenceRead (s : Sequence) (code : ℕ) (rest : List ℕ) (r : SeqHead) : Type 0 where
  pub bitrate_lem : r.bitrate ≡ (if s.rate == 262143 then 0 else s.rate * 400)
  pub next : r.final_byte ≡ code
  pub behind : r.input.unread ≡ rest

rate_lem :
    (rate behind_rate : ℕ)
    → rate < 2 ^ 18
    → behind_rate < 2 ^ 6
    → rate / 2 ^ 10 * 2 ^ 10
        + rate / 2 ^ 2 % 2 ^ 8 * 2 ^ 2
        + (rate % 2 ^ 2 * 2 ^ 6 + behind_rate) / 2 ^ 6
      ≡ rate
rate_lem rate behind_rate h hb = omega arith

-- read_seq_head takes the bit rate, in units of 400 bits per second and 0 for a variable one, out of a
-- sequence header whose fields fit, for any standard, and passes over the quantizer matrices. It stands
-- behind the number of the next code: in MPEG-1 past an extension and user data, and else behind the
-- first code.
pub read_seq_head-print_sequence :
    (old : ℕ → ℕ) (std : Standard) (s : Sequence) (e : Tail) (buf rest : List ℕ)
    → IsSequence s
    → IsTailOf std e
    → IsSequenceRead s e.code rest (
        read_seq_head old std
          (record { buf = buf; unread = print_sequence s (print_ending e rest) }))
unfolding read_seq_head
read_seq_head-print_sequence old std s e buf rest h he =
    let b1 : ℕ = s.rate / 2 ^ 10 in
    let b2 : ℕ = s.rate / 2 ^ 2 % 2 ^ 8 in
    let b3 : ℕ = s.rate % 2 ^ 2 * 2 ^ 6 + s.behind_rate in
    let size = s.size.0 ∷ s.size.1 ∷ s.size.2 ∷ s.size.3 ∷ [] in
    let buf2 = ((((buf ++ size) ++ b1 ∷ []) ++ b2 ∷ []) ++ b3 ∷ []) ++ s.flags ∷ [] in
    let buf3 = matrix_buf s.non_intra (matrix_buf s.intra buf2) in
    let end = video_end-print_ending old std 0 e buf3 rest he in
    rw
      (
        read_bytes-append old 4 0 size buf
            (b1
              ∷ b2
              ∷ b3
              ∷ s.flags
              ∷ print_matrix s.intra (print_matrix s.non_intra (print_ending e rest)))
            refl,
        read_matrices-print_matrix old s.flags s.intra s.non_intra buf2 (print_ending e rest)
            h.intra_lem h.non_intra_lem,
      )
      (record {
        bitrate_lem =
            ap (λ x. if x == 262143 then 0 else x * 400)
              (bit_rate_lem s.size.3 b1 b2 b3 s.flags (omega (arith, h.rate_lt)) (omega arith)
                  (omega (arith, h.behind_lt))
                ∙ rate_lem s.rate s.behind_rate h.rate_lt h.behind_lt);
        next = end.next;
        behind = end.behind;
      })
