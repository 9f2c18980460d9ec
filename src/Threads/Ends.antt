-- ===== src/Threads/Ends.antt =====
-- The end of the program on a node: no thread waits for ever.
use torc_lite.Common.{
  ℕ, zero, suc, ◌≤◌, ◌<◌, ◌≡◌, ◌≢◌, ◌⊎◌, inl, inr, refl, ap, ◌∙◌, Bool, Bool-cases, true, false,
  not, ◌&&◌, ◌==◌, ==_iff, ==_false, ltb, update, arith, ℕ_discrete, some,
}
use torc_lite.Threads.{
  Place, absent, starting, initialising, entering, waiting, working, ending, exited, Threads, move,
  decremented, torc_md_end, step_at, step,
}
use torc_lite.Tally.{tally, tally-update, tally-all}
use torc_lite.Threads.Places.{stage, counted, alive, IsSound}

-- How far the threads have come.
abbrev pub at_stage : ℕ → Place → ℕ
at_stage v p = stage p

abbrev pub progress : ℕ → Threads → ℕ
progress k s = tally at_stage s.place k

-- Some thread goes on.
pub record Advances (k : ℕ) (s : Threads) : Type 0 where
  pub thread : ℕ
  pub after : Threads
  pub goes : step k thread s ≡ some after
  pub further : progress k s < progress k after
  pub finished : after.appl_finished ≡ s.appl_finished

pub stage_le : (p : Place) → stage p ≤ 7
stage_le p = ground arith

module _ (k : ℕ) (s : Threads) where
  -- A step that moves one thread.
  pub moves :
      (v : ℕ) (x : Place) (a : Threads)
      → v < k
      → step k v s ≡ some a
      → a.place ≡ update s.place v x
      → stage (s.place v) < stage x
      → a.appl_finished ≡ s.appl_finished
      → Advances k s
  moves v x a b e p h f = record {
    thread = v;
    after = a;
    goes = e;
    further =
        let u = tally-update at_stage s.place v k x b in
        let z = ap (λ g. tally at_stage g k) p in omega (arith, u, z, h);
    finished = f;
  }

  pub step_from : (v : ℕ) (p : Place) → s.place v ≡ p → step k v s ≡ step_at k v p s
  unfolding step
  step_from v p e = ap (λ q. step_at k v q s) e

  pub not_less : (a b : ℕ) → b ≤ a → ltb a b ≡ false
  not_less a b h = ground arith

  -- A thread that has started, and does not wait for another one.
  advance_at :
      (v : ℕ) (p : Place)
      → v < k
      → s.place v ≡ p
      → 3 ≤ stage p
      → stage p < 7
      → s.appl_finished ≡ 1
      → (stage p ≡ 4 → k ≤ s.created_workers)
      → (stage p ≡ 6 → v ≡ 0 → s.active_workers ≡ 1)
      → Advances k s
  unfolding step_at torc_md_end
  advance_at v absent b e lo hi f c d = absurd (omega (arith, lo))
  advance_at v (starting i) b e lo hi f c d = absurd (omega (arith, lo))
  advance_at v initialising b e lo hi f c d = absurd (omega (arith, lo))
  advance_at v entering b e lo hi f c d =
      moves v waiting _ b (step_from v entering e) refl (omega (arith, ap stage e)) refl
  advance_at v waiting b e lo hi f c d =
      moves v working (move v working s) b
        (step_from v waiting e ∙ rw (not_less s.created_workers k (c refl)) refl) refl
        (omega (arith, ap stage e)) refl
  advance_at v working b e lo hi f c d =
      moves v ending (move v ending s) b (step_from v working e ∙ rw f refl) refl
        (omega (arith, ap stage e)) refl
  advance_at v ending b e lo hi f c d = elim (ℕ_discrete v 0) [
    | yes z ↦
        moves v exited (move v exited s) b
          (step_from v ending e ∙ rw ((==_iff v 0).1 z, d refl z) refl) refl
          (omega (arith, ap stage e)) refl
    | no nz ↦
        moves v exited (record (move v exited s) { active_workers = decremented s.active_workers })
          b (step_from v ending e ∙ rw (==_false v 0 nz) refl) refl (omega (arith, ap stage e)) refl
  ]
  advance_at v exited b e lo hi f c d = absurd (omega (arith, hi))

-- Whether a test succeeds below a bound.
search_below :
    (k : ℕ) (f : ℕ → Bool) → ((u : ℕ) × (u < k) × (f u ≡ true)) ⊎ ((u : ℕ) → u < k → f u ≡ false)
search_below zero f = inr (λ u b. absurd (omega (arith, b)))
search_below (suc k) f = elim (Bool-cases (f k)) [
  | inl e ↦ inl (k, omega arith, e)
  | inr e ↦ elim (search_below k f) [
    | inl (u, b, g) ↦ inl (u, omega (arith, b), g)
    | inr h ↦ inr (λ u b. elim (ℕ_discrete u k) [ yes z ↦ ap f z ∙ e | no nz ↦ h u (omega arith) ])
  ]
]

only_first :
    (w : ℕ → Place → ℕ) (g : ℕ → Place) (k : ℕ)
    → 0 < k
    → w 0 (g 0) ≡ 1
    → ((u : ℕ) → 1 ≤ u → u < k → w u (g u) ≡ 0)
    → tally w g k ≡ 1
unfolding tally
only_first w g zero b e h = absurd (omega arith)
only_first w g (suc zero) b e h = omega (arith, e)
only_first w g (suc (suc k)) b e h = omega (
  arith,
  only_first w g (suc k) (omega arith) e (λ u lo hi. h u lo (omega arith)),
  h (suc k) (omega arith) (omega arith),
)

module _ (k : ℕ) (s : Threads) (o : IsSound k s) (some_worker : 0 < k)
    (f : s.appl_finished ≡ 1) where
  stage_at : (u j : ℕ) → ltb (stage (s.place u)) j ≡ false → j ≤ stage (s.place u)
  stage_at u j e = ground (arith, e)

  stage_below : (u j : ℕ) → ltb (stage (s.place u)) j ≡ true → stage (s.place u) < j
  stage_below u j e = ground (arith, e)

  -- All other threads have exited.
  main_last :
      6 ≤ stage (s.place 0)
      → stage (s.place 0) ≢ 7
      → ((u : ℕ) → 1 ≤ u → u < k → 7 ≤ stage (s.place u))
      → Advances k s
  main_last six ne all =
      let alone : tally alive s.place k ≡ 1 =
        only_first alive s.place k some_worker refl
          (λ u lo hi. let h = all u lo hi in ground (arith, h)) in
      let active : s.active_workers ≡ 1 = o.actives (omega (arith, six)) ∙ alone in
      advance_at k s 0 (s.place 0) some_worker refl (omega (arith, six))
        (ground (arith, six, ne, stage_le (s.place 0))) f (λ e. absurd (omega (arith, e, six)))
        (λ e z. active)

  -- All threads have ended their work.
  all_ending : stage (s.place 0) ≢ 7 → ((u : ℕ) → u < k → 6 ≤ stage (s.place u)) → Advances k s
  all_ending ne all = elim (search_below k (λ u. not (u == 0) && ltb (stage (s.place u)) 7)) [
    | inl (u, b, e) ↦
        let hi : stage (s.place u) < 7 = ground (arith, e) in
        let nz : u ≢ 0 = λ z. ground (arith, e, z) in
        advance_at k s u (s.place u) b refl (omega (arith, all u b)) hi f
          (λ x. absurd (omega (arith, x, all u b))) (λ x z. absurd (nz z))
    | inr h ↦ main_last (all 0 some_worker) ne (λ u lo hi. let e = h u hi in ground (arith, e, lo))
  ]

  -- All threads are ready to work.
  all_counted : stage (s.place 0) ≢ 7 → ((u : ℕ) → u < k → 4 ≤ stage (s.place u)) → Advances k s
  all_counted ne all =
      let full : tally counted s.place k ≡ k =
        tally-all counted s.place k (λ u b. let h = all u b in ground (arith, h)) in
      let created : k ≤ s.created_workers = omega (arith, full, o.counts) in
      elim (search_below k (λ u. ltb (stage (s.place u)) 6)) [
        | inl (u, b, e) ↦
            let hi = stage_below u 6 e in
            advance_at k s u (s.place u) b refl (omega (arith, all u b)) (omega (arith, hi)) f
              (λ x. created) (λ x z. absurd (omega (arith, x, hi)))
        | inr h ↦ all_ending ne (λ u b. stage_at u 6 (h u b))
      ]

  -- All threads have been created.
  pub all_started : stage (s.place 0) ≢ 7 → ((u : ℕ) → u < k → 3 ≤ stage (s.place u)) → Advances k s
  all_started ne all = elim (search_below k (λ u. ltb (stage (s.place u)) 4)) [
    | inl (u, b, e) ↦
        let hi = stage_below u 4 e in
        advance_at k s u (s.place u) b refl (all u b) (omega (arith, hi)) f
          (λ x. absurd (omega (arith, x, hi))) (λ x z. absurd (omega (arith, x, hi)))
    | inr h ↦ all_counted ne (λ u b. stage_at u 4 (h u b))
  ]
