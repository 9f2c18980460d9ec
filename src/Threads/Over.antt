-- ===== src/Threads/Over.antt =====
-- The end of the program on a node: all its threads exit.
use torc_lite.Common.{ℕ, zero, suc, ◌+◌, ◌*◌, ◌^◌, ◌≤◌, ◌<◌, ◌≡◌, ◌∙◌, arith, ℕ_discrete}
use torc_lite.Threads.{Place, exited, Threads, Reach, goes_on, Steps, stays, takes}
use torc_lite.Tally.{tally}
use torc_lite.Threads.Places.{stage}
use torc_lite.Threads.Runs.{Reach-last, stage_exited}
use torc_lite.Threads.Ends.{at_stage, progress, stage_le}
use torc_lite.Threads.Live.{Reach-advances}

progress_le : (g : ℕ → Place) (k : ℕ) → tally at_stage g k ≤ 7 * k
unfolding tally
progress_le g zero = omega arith
progress_le g (suc k) = omega (arith, progress_le g k, stage_le (g k))

module _ (k : ℕ) (few : k < 2 ^ 32) (some_worker : 0 < k) where
  -- All threads have exited, some steps after `s`.
  abbrev Over : Threads → Type 0
  Over s = (s' : Threads) × (Steps k s s') × ((u : ℕ) → u < k → s'.place u ≡ exited)

  exited_all : {s : Threads} → Reach k s → s.place 0 ≡ exited → (u : ℕ) → u < k → s.place u ≡ exited
  exited_all r e zero b = e
  exited_all r e (suc u) b = Reach-last k few some_worker r e (suc u) (omega arith) b

  ends_within :
      (n : ℕ) {s : Threads} → Reach k s → s.appl_finished ≡ 1 → 7 * k < n + progress k s → Over s
  ends_within zero {s} r f b = absurd (omega (arith, b, progress_le s.place k))
  ends_within (suc n) {s} r f b = elim (ℕ_discrete (stage (s.place 0)) 7) [
    | yes e ↦ (s, stays, exited_all r (stage_exited (s.place 0) e))
    | no ne ↦
        let a = Reach-advances k few some_worker r f ne in
        let next = goes_on a.thread r a.goes in
        let (s', steps, all) = ends_within n next (a.finished ∙ f) (omega (arith, b, a.further)) in
        (s', takes a.thread a.goes steps, all)
  ]

  -- The threads of a node do not block one another: from every state that they reach, once the
  -- program has ended (`appl_finished` is 1), some steps of the threads alone lead to a state in
  -- which all `k` threads, the main thread included, have exited, for 0 < k < 2^32.
  pub Reach-ends :
      {s : Threads}
      → Reach k s
      → s.appl_finished ≡ 1
      → (s' : Threads) × (Steps k s s') × ((u : ℕ) → u < k → s'.place u ≡ exited)
  Reach-ends r f = ends_within (suc (7 * k)) r f (omega arith)
