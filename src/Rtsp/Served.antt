-- ===== src/Rtsp/Served.antt =====
-- rtsp/ and schedule/: the streams of a session and their entries in the table of the scheduler.
use mathlib.Core.Path.{subst}
use fenice_1_12_with_h.Prelude.{
  ℕ, ◌^◌, ◌<◌, ◌≡◌, ◌≢◌, refl, sym, ap, ◌∙◌, Bool, true, false, List, [], ◌∷◌, some, All, length,
  length-set, get_or, get_or-set_self, get_or-set_ne, arith,
}
use fenice_1_12_with_h.Schedule.{Entry, Sched, empty, schedule_remove}
use fenice_1_12_with_h.Schedule.Count.{IsCounted, Step-IsCounted, remove}
use fenice_1_12_with_h.Rtsp.Sessions.{Stream}

-- The entry of a stream holds it, and is valid or not.
pub record HasEntry (valid : Bool) (memory : ℕ → Stream) (table : List Entry) (i : ℕ) : Type 0 where
  pub in_range : (memory i).sched_id < length table
  pub valid_is : (get_or table (memory i).sched_id empty).valid ≡ valid
  pub holds : (get_or table (memory i).sched_id empty).rtp_session ≡ some i

-- No address stands twice in a list.
abbrev pub IsDistinct : List ℕ → Type 0
IsDistinct [] = Unit
IsDistinct (i ∷ is) = All (λ j. i ≢ j) is × IsDistinct is

-- The streams of a session are served by a table of `n` entries.
pub record IsServed (n : ℕ) (memory : ℕ → Stream) (is : List ℕ) (k : Sched) : Type 0 where
  pub counted : IsCounted n k
  pub entries : All (HasEntry true memory k.table) is
  pub distinct : IsDistinct is

some_inj : {i j : ℕ} → some i ≡ some j → i ≡ j
some_inj e = ground (arith, e)

pub All-zip {ℓ} :
    {A : Type ℓ} (P Q R : A → Type 0) (xs : List A)
    → ((x : A) → P x → Q x → R x)
    → All P xs
    → All Q xs
    → All R xs
All-zip P Q R [] f p q = tt
All-zip P Q R (x ∷ xs) f (p, ps) (q, qs) = (f x p q, All-zip P Q R xs f ps qs)

module _ (memory : ℕ → Stream) where
  abbrev off : Sched → ℕ → Entry
  off k i = record (get_or k.table (memory i).sched_id empty) { valid = false }

  -- schedule_remove of one stream's entry marks it, and leaves those of the others as they are.
  pub HasEntry-remove :
      (v w : Bool) (k : Sched) (i j : ℕ)
      → HasEntry v memory k.table i
      → i ≢ j
      → HasEntry w memory k.table j
      → HasEntry w memory (schedule_remove (memory i).sched_id k).table j
  unfolding schedule_remove
  HasEntry-remove v w k i j a ne b =
      let apart : (memory i).sched_id ≢ (memory j).sched_id = λ e.
        ne
          (some_inj (sym a.holds ∙ ap (λ id. (get_or k.table id empty).rtp_session) e ∙ b.holds)) in
      let same =
        get_or-set_ne k.table (memory i).sched_id (memory j).sched_id (off k i) empty apart in
      let size = length-set k.table (memory i).sched_id (off k i) in
      record {
        in_range = omega (arith, b.in_range, size);
        valid_is = ap (λ (e : Entry). e.valid) same ∙ b.valid_is;
        holds = ap (λ (e : Entry). e.rtp_session) same ∙ b.holds;
      }

  pub HasEntry-removed :
      (v : Bool) (k : Sched) (i : ℕ)
      → HasEntry v memory k.table i
      → HasEntry false memory (schedule_remove (memory i).sched_id k).table i
  unfolding schedule_remove
  HasEntry-removed v k i a =
      let size = length-set k.table (memory i).sched_id (off k i) in
      let here = get_or-set_self k.table (memory i).sched_id (off k i) empty a.in_range in
      record {
        in_range = omega (arith, a.in_range, size);
        valid_is = ap (λ (e : Entry). e.valid) here;
        holds = ap (λ (e : Entry). e.rtp_session) here ∙ a.holds;
      }

  pub IsServed-remove :
      (n : ℕ) (k : Sched) (i : ℕ) (is : List ℕ)
      → n < 2 ^ 64
      → IsServed n memory (i ∷ is) k
      → IsServed n memory is (schedule_remove (memory i).sched_id k)
  IsServed-remove n k i is small s =
      let a = s.entries.0 in
      let id_lt : (memory i).sched_id < n = omega (arith, a.in_range, s.counted.size) in
      record {
        counted = Step-IsCounted small s.counted (remove (memory i).sched_id id_lt a.valid_is refl);
        entries =
            All-zip (λ j. i ≢ j) (HasEntry true memory k.table) _ is
              (λ j ne b. HasEntry-remove true true k i j a ne b) s.distinct.0 s.entries.1;
        distinct = s.distinct.1;
      }

  pub IsServed-tail :
      (n : ℕ) (k : Sched) (i : ℕ) (is : List ℕ)
      → IsServed n memory (i ∷ is) k
      → IsServed n memory is k
  IsServed-tail n k i is s = record {
    counted = s.counted;
    entries = s.entries.1;
    distinct = s.distinct.1;
  }

-- Entries are kept where the streams keep the number of theirs.
pub HasEntry-keep :
    (v : Bool) (memory memory' : ℕ → Stream) (table : List Entry) (is : List ℕ)
    → ((j : ℕ) → (memory' j).sched_id ≡ (memory j).sched_id)
    → All (HasEntry v memory table) is
    → All (HasEntry v memory' table) is
HasEntry-keep v memory memory' table [] same h = tt
HasEntry-keep v memory memory' table (j ∷ is) same (h, hs) =
    let back = sym (same j) in
    (
      record {
        in_range = subst (λ id. id < length table) back h.in_range;
        valid_is = subst (λ id. (get_or table id empty).valid ≡ v) back h.valid_is;
        holds = subst (λ id. (get_or table id empty).rtp_session ≡ some j) back h.holds;
      },
      HasEntry-keep v memory memory' table is same hs,
    )

pub IsServed-keep :
    (n : ℕ) (memory memory' : ℕ → Stream) (is : List ℕ) (k : Sched)
    → ((j : ℕ) → (memory' j).sched_id ≡ (memory j).sched_id)
    → IsServed n memory is k
    → IsServed n memory' is k
IsServed-keep n memory memory' is k same s = record {
  counted = s.counted;
  entries = HasEntry-keep true memory memory' k.table is same s.entries;
  distinct = s.distinct;
}
