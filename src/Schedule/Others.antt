-- ===== src/Schedule/Others.antt =====
-- schedule/schedule_do.c: the sessions that a pass leaves alone.
use fenice_1_12_with_h.Prelude.{
  ℕ, ◌≡◌, ◌≢◌, refl, ap, ◌∙◌, true, List, [], ◌∷◌, some, All, inl, inr, Bool-cases, Option-cases,
  update, arith,
}
use fenice_1_12_with_h.Prelude.Codes.{Code}
use fenice_1_12_with_h.Schedule.{Entry}
use fenice_1_12_with_h.Schedule.Timing.{Timed, serve, serve_all}

update_other : {A : Type 0} (f : ℕ → A) (i : ℕ) (v : A) (j : ℕ) → i ≢ j → update f i v j ≡ f j
update_other f i v j ne = ground (arith, ne)

-- A pass neither changes a session that no valid entry holds, nor does anything for it.
pub serve_all_others :
    (act : ℕ → Timed → Code × Timed) (clock : ℕ → ℕ) (i : ℕ) (es : List Entry)
    (sessions : ℕ → Timed)
    → All (λ e. (e.valid ≡ true) → (e.rtp_session ≢ some i)) es
    → ((serve_all act clock es sessions).1 i ≡ sessions i)
      × All (λ done. done.0 ≢ i) (serve_all act clock es sessions).0
unfolding serve_all
serve_all_others act clock i [] sessions a = (refl, tt)
serve_all_others act clock i (e ∷ es) sessions (h, a) = elim (Option-cases e.rtp_session) [
  | inl n ↦ rw n (serve_all_others act clock i es sessions a)
  | inr (j, f) ↦ elim (Bool-cases e.valid) [
    | inl v ↦
        let ne : j ≢ i = λ k. h v (f ∙ ap some k) in
        let (same, none_done) =
          serve_all_others act clock i es
            (update sessions j (serve (act j) (clock j) (sessions j)).1) a in
        rw (f, v) (same ∙ update_other sessions j _ i ne, (ne, none_done))
    | inr v ↦ rw (f, v) (serve_all_others act clock i es sessions a)
  ]
]
