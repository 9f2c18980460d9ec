-- ===== src/Tally.antt =====
-- Sums over a table: the threads of a node, the entries of an array.
use torc_lite.Common.{ℕ, zero, suc, ◌+◌, ◌≤◌, ◌<◌, ◌≡◌, ◌≢◌, refl, ap, update, arith, ℕ_discrete}

module _ {A : Type 0} where
  pub update_self : (g : ℕ → A) (v : ℕ) (x : A) → update g v x v ≡ x
  update_self g v x = ground arith

  pub update_other : (g : ℕ → A) (v u : ℕ) (x : A) → v ≢ u → update g v x u ≡ g u
  update_other g v u x ne = ground arith

module _ {A : Type 0} (w : ℕ → A → ℕ) where
  -- The sum of `w v (g v)` over the `k` first threads.
  unfoldable pub tally : (ℕ → A) → ℕ → ℕ
  tally g zero = 0
  tally g (suc k) = tally g k + w k (g k)

  tally_past : (g : ℕ → A) (v k : ℕ) (x : A) → k ≤ v → tally (update g v x) k ≡ tally g k
  unfolding tally
  tally_past g v zero x b = refl
  tally_past g v (suc k) x b =
      rw (update_other g v k x (omega arith)) (omega (arith, tally_past g v k x (omega arith)))

  -- One thread changes.
  pub tally-update :
      (g : ℕ → A) (v k : ℕ) (x : A) → v < k → tally (update g v x) k + w v (g v) ≡ tally g k + w v x
  unfolding tally
  tally-update g v zero x b = absurd (omega arith)
  tally-update g v (suc k) x b = elim (ℕ_discrete v k) [
    | yes e ↦
        let now = ap (λ j. w j (update g v x j)) e in
        let then' = ap (λ j. w j (g j)) e in
        let new = ap (w v) (update_self g v x) in
        omega (arith, tally_past g v k x (omega arith), now, then', new)
    | no ne ↦
        let same = ap (w k) (update_other g v k x ne) in
        omega (arith, tally-update g v k x (omega arith), same)
  ]

  pub tally-all : (g : ℕ → A) (k : ℕ) → ((v : ℕ) → v < k → w v (g v) ≡ 1) → tally g k ≡ k
  unfolding tally
  tally-all g zero h = refl
  tally-all g (suc k) h = omega (arith, tally-all g k (λ v b. h v (omega arith)), h k (omega arith))

  pub tally-none : (g : ℕ → A) (k : ℕ) → ((v : ℕ) → v < k → w v (g v) ≡ 0) → tally g k ≡ 0
  unfolding tally
  tally-none g zero h = refl
  tally-none g (suc k) h =
      omega (arith, tally-none g k (λ v b. h v (omega arith)), h k (omega arith))

  pub tally-ge : (g : ℕ → A) (v k : ℕ) → v < k → w v (g v) ≤ tally g k
  unfolding tally
  tally-ge g v zero b = absurd (omega arith)
  tally-ge g v (suc k) b = elim (ℕ_discrete v k) [
    | yes e ↦ let same = ap (λ j. w j (g j)) e in omega (arith, same)
    | no ne ↦ omega (arith, tally-ge g v k (omega arith))
  ]

  -- Two threads.
  pub tally-two : (g : ℕ → A) (u v k : ℕ) → u < v → v < k → w u (g u) + w v (g v) ≤ tally g k
  unfolding tally
  tally-two g u v zero b c = absurd (omega arith)
  tally-two g u v (suc k) b c = elim (ℕ_discrete v k) [
    | yes e ↦ let same = ap (λ j. w j (g j)) e in omega (arith, same, tally-ge g u k (omega arith))
    | no ne ↦ omega (arith, tally-two g u v k b (omega arith))
  ]

  module _ (one : (v : ℕ) (a : A) → w v a ≤ 1) where
    pub tally-le : (g : ℕ → A) (k : ℕ) → tally g k ≤ k
    unfolding tally
    tally-le g zero = omega arith
    tally-le g (suc k) = omega (arith, tally-le g k, one k (g k))

    -- If all threads together count as many as they are, each counts.
    pub tally-full : (g : ℕ → A) (v k : ℕ) → v < k → k ≤ tally g k → w v (g v) ≡ 1
    unfolding tally
    tally-full g v zero b h = absurd (omega arith)
    tally-full g v (suc k) b h = elim (ℕ_discrete v k) [
      | yes e ↦ let same = ap (λ j. w j (g j)) e in omega (arith, same, tally-le g k, one k (g k))
      | no ne ↦ tally-full g v k (omega arith) (omega (arith, one k (g k)))
    ]

-- Sums that agree entry by entry.
pub tally-sum :
    {A : Type 0} (u v w : ℕ → A → ℕ) (f g h : ℕ → A) (k : ℕ)
    → ((j : ℕ) → j < k → u j (f j) + v j (g j) ≡ w j (h j))
    → tally u f k + tally v g k ≡ tally w h k
unfolding tally
tally-sum u v w f g h zero e = refl
tally-sum u v w f g h (suc k) e =
    omega (arith, tally-sum u v w f g h k (λ j b. e j (omega arith)), e k (omega arith))
