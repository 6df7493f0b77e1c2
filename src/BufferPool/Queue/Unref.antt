-- ===== src/BufferPool/Queue/Unref.antt =====
-- OMSbuff_unref: the reader leaves the buffer.
use mathlib.Core.Path.{subst}
use mathlib.Core.List.{append_assoc, append-nil}
use fenice_1_12_with_h.Prelude.{
  ℕ, zero, suc, ◌<◌, ◌≡◌, refl, sym, ap, ◌∙◌, List, [], ◌∷◌, ◌++◌, Option, none, some, length,
  arith, Option-cases, inl, inr,
}
use fenice_1_12_with_h.BufferPool.{Buffer, Consumer, gotreader, choose, pass}
use fenice_1_12_with_h.BufferPool.Producer.{drain, unref}
use fenice_1_12_with_h.BufferPool.Queue.{IsQueue, Idle}
use fenice_1_12_with_h.BufferPool.Queue.Read.{choose-pending, choose-empty, pass-IsQueue}

drain-IsQueue :
    (fuel : ℕ) {b : Buffer} {c : Consumer} (free pending : List ℕ)
    → IsQueue b c free pending
    → length pending < fuel
    → (b' : Buffer) × (c' : Consumer) × (drain fuel b c ≡ some b')
      × IsQueue b' c' (free ++ pending) []
unfolding drain gotreader
drain-IsQueue zero free pending q h = absurd (omega arith)
drain-IsQueue (suc fuel) {b} {c} free [] q h = (
  b,
  c,
  ground (arith, choose-empty free q),
  subst (λ xs. IsQueue b c xs []) (sym (append-nil free)) q,
)
drain-IsQueue (suc fuel) {b} {c} free (p ∷ ps) q h =
    let (q', same) = pass-IsQueue free p ps q in
    let (b', c', e, done) = drain-IsQueue fuel (free ++ p ∷ []) ps q' (omega arith) in
    (
      b',
      c',
      ground (arith, choose-pending free p ps q, e),
      subst (λ xs. IsQueue b' c' xs []) (append_assoc free (p ∷ []) ps) done,
    )

-- The buffer with another count of consumers.
abbrev counted : ℕ → Option Buffer → Option Buffer
counted n none = none
counted n (some b) = some (record b { control_refs = n })

choose-counted :
    (n : ℕ) (b : Buffer) (c : Consumer) → choose (record b { control_refs = n }) c ≡ choose b c
unfolding choose
choose-counted n b c = refl

-- What the loop does once the slot is chosen.
abbrev after_choice : ℕ → Buffer → Consumer → Option ℕ → Option Buffer
after_choice fuel b c none = some b
after_choice fuel b c (some i) = let (c', b') = pass b c i in drain fuel b' c'

drain_step :
    (fuel : ℕ) (b : Buffer) (c : Consumer) (o : Option ℕ)
    → choose b c ≡ o
    → drain (suc fuel) b c ≡ after_choice fuel b c o
unfolding drain gotreader
drain_step fuel b c none e = ground (arith, e)
drain_step fuel b c (some i) e = ground (arith, e)

drain-counted :
    (fuel n : ℕ) (b : Buffer) (c : Consumer)
    → drain fuel (record b { control_refs = n }) c ≡ counted n (drain fuel b c)
unfolding drain
drain-counted zero n b c = refl
drain-counted (suc fuel) n b c = elim (Option-cases (choose b c)) [
  | inl e ↦
      drain_step fuel (record b { control_refs = n }) c none (choose-counted n b c ∙ e)
      ∙ ap (counted n) (sym (drain_step fuel b c none e))
  | inr (i, e) ↦
      let (c', b') = pass b c i in
      drain_step fuel (record b { control_refs = n }) c (some i) (choose-counted n b c ∙ e)
      ∙ drain-counted fuel n b' c'
      ∙ ap (counted n) (sym (drain_step fuel b c (some i) e))
]

-- OMSbuff_unref returns, for all fuel above the number of packets that wait, when the one consumer of
-- a buffer leaves it: no consumer is counted any more, and no slot waits for one.
pub unref-Idle :
    (fuel : ℕ) {b : Buffer} {c : Consumer} (free pending : List ℕ)
    → IsQueue b c free pending
    → length pending < fuel
    → (b' : Buffer) × (unref fuel b c ≡ some b')
      × (b'.control_refs ≡ 0)
      × Idle b'.slots (free ++ pending)
unfolding unref
unref-Idle fuel {b} {c} free pending q h =
    let (b', c', e, q') = drain-IsQueue fuel free pending q h in
    let left = drain-counted fuel 0 b c in
    (record b' { control_refs = 0 }, ground (arith, q.one, e, left), refl, q'.idle)
