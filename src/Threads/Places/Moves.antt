-- ===== src/Threads/Places/Moves.antt =====
-- A thread that has started goes on: the steps that keep the counters of the threads right.
use torc_lite.Common.{ℕ, ◌+◌, ◌≤◌, ◌<◌, ◌≡◌, ◌≢◌, sym, ap, ◌∙◌, ◌⊎◌, inr, update, arith, ℕ_discrete}
use mathlib.Core.Path.{subst}
use torc_lite.Threads.{Place, Threads, move}
use torc_lite.Tally.{tally-update, update_self, update_other}
use torc_lite.Threads.Places.{stage, counted, alive, IsSound}

module _ (k v : ℕ) (x : Place) (s : Threads) where
  pub stage_self : stage (update s.place v x v) ≡ stage x
  stage_self = ap stage (update_self s.place v x)

  pub stage_other : (u : ℕ) → v ≢ u → stage (update s.place v x u) ≡ stage (s.place u)
  stage_other u ne = ap stage (update_other s.place v u x ne)

  -- The thread `v`, past the start, moves to `x`, and the two counters become `c` and `a`.
  pub moved-IsSound :
      (c a : ℕ)
      → IsSound k s
      → v < k
      → 3 ≤ stage (s.place v)
      → stage (s.place v) < 7
      → 3 ≤ stage x
      → c + counted v (s.place v) ≡ s.created_workers + counted v x
      → a + alive v (s.place v) ≡ s.active_workers + alive v x
      → s.created_workers ≤ c
      → (5 ≤ stage x → k ≤ c)
      → (v ≡ 0 → stage x ≡ 7 → (u : ℕ) → 1 ≤ u → u < k → stage (s.place u) ≡ 7)
      → IsSound k (record (move v x s) { created_workers = c; active_workers = a })
  moved-IsSound c a i b from unended to ec ea more wk lst = record {
    counts = omega (arith, i.counts, tally-update counted s.place v k x b, ec);
    actives = λ h.
        omega (arith, i.actives (was 2 (omega arith) h), tally-update alive s.place v k x b, ea);
    main = elim (ℕ_discrete v 0) [
      | yes e ↦ omega (arith, ap (λ j. stage (update s.place v x j)) e, stage_self)
      | no ne ↦ omega (arith, stage_other 0 ne, i.main)
    ];
    workers = λ u ne. elim (ℕ_discrete v u) [
      | yes e ↦ inr (omega (arith, ap (λ j. stage (update s.place v x j)) e, stage_self))
      | no d ↦ subst (λ z. (z ≡ 0) ⊎ (3 ≤ z)) (sym (stage_other u d)) (i.workers u ne)
    ];
    outside = λ u h. omega (arith, stage_other u (λ e. omega arith), i.outside u h);
    left = λ j e. elim (ℕ_discrete v 0) [
      | yes z ↦
          absurd (omega (arith, ap stage e, ap (λ w. stage (update s.place v x w)) z, stage_self))
      | no ne ↦
          let l = i.left j (sym (update_other s.place v 0 x ne) ∙ e) in
          (l.0, λ u h. omega (arith, l.1 u h, stage_other u (apart j l.1 u h)))
    ];
    ready = λ h. i.ready (was 3 (omega arith) h);
    worked = λ u h. elim (ℕ_discrete v u) [
      | yes e ↦ wk (omega (arith, h, ap (λ w. stage (update s.place v x w)) e, stage_self))
      | no ne ↦ omega (arith, more, i.worked u (omega (arith, h, stage_other u ne)))
    ];
    last = λ h u lo hi. elim (ℕ_discrete v 0) [
      | yes e ↦
          let now = ap (λ w. stage (update s.place v x w)) e in
          omega (
            arith,
            stage_other u (λ z. omega arith),
            lst e (omega (arith, h, now, stage_self)) u lo hi,
          )
      | no ne ↦
          absurd
            (omega (arith, i.last (omega (arith, h, stage_other 0 ne)) v (omega arith) b, unended))
    ];
  }
    where
      was : (m : ℕ) → m ≤ 3 → m ≤ stage (update s.place v x 0) → m ≤ stage (s.place 0)
      was m le h = elim (ℕ_discrete v 0) [
        | yes e ↦ omega (arith, from, ap (λ w. stage (s.place w)) e)
        | no ne ↦ omega (arith, h, stage_other 0 ne)
      ]

      apart : (j : ℕ) → ((u : ℕ) → j ≤ u → stage (s.place u) ≡ 0) → (u : ℕ) → j ≤ u → v ≢ u
      apart j l u h e = omega (arith, l u h, from, ap (λ w. stage (s.place w)) e)
