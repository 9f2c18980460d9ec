-- ===== src/Threads/Places.antt =====
-- What holds of the threads of a node while they start, work and end, whatever the order of their
-- steps.
pub mod Moves
pub mod Starts
use torc_lite.Common.{
  ℕ, zero, suc, ◌≤◌, ◌<◌, ◌≡◌, ◌≢◌, Bool, true, ◌⊎◌, ◌==◌, ltb, if◌then◌else◌, arith,
}
use torc_lite.Threads.{
  Place, absent, starting, initialising, entering, waiting, working, ending, exited, Threads,
}
use torc_lite.Tally.{tally}

-- The places in their order.
abbrev pub stage : Place → ℕ
stage absent = 0
stage (starting i) = 1
stage initialising = 2
stage entering = 3
stage waiting = 4
stage working = 5
stage ending = 6
stage exited = 7

-- Whether a thread has been counted by `created_workers`, and whether it still is by
-- `active_workers`, which the main thread always is.
abbrev pub counted : ℕ → Place → ℕ
counted v p = if ltb 3 (stage p) then 1 else 0

abbrev pub alive : ℕ → Place → ℕ
alive v p = if v == 0 then 1 else if ltb (stage p) 7 then 1 else 0

pub counted-one : (v : ℕ) (p : Place) → counted v p ≤ 1
counted-one v p = ground arith

alive-one : (v : ℕ) (p : Place) → alive v p ≤ 1
alive-one v p = ground arith

pub record IsSound (k : ℕ) (s : Threads) : Type 0 where
  pub counts : s.created_workers ≡ tally counted s.place k
  pub actives : 2 ≤ stage (s.place 0) → s.active_workers ≡ tally alive s.place k
  pub main : 1 ≤ stage (s.place 0)
  pub workers : (v : ℕ) → v ≢ 0 → (stage (s.place v) ≡ 0) ⊎ (3 ≤ stage (s.place v))
  pub outside : (v : ℕ) → k ≤ v → stage (s.place v) ≡ 0
  pub left : (i : ℕ) → s.place 0 ≡ starting i → (1 ≤ i) × ((v : ℕ) → i ≤ v → stage (s.place v) ≡ 0)
  pub ready : 3 ≤ stage (s.place 0) → s.node_info_ready ≡ true
  pub worked : (v : ℕ) → 5 ≤ stage (s.place v) → k ≤ s.created_workers
  pub last : stage (s.place 0) ≡ 7 → (v : ℕ) → 1 ≤ v → v < k → stage (s.place v) ≡ 7
