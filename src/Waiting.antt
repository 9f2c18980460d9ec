-- ===== src/Waiting.antt =====
-- `torc_waitall` and `torc_waitall2`: `_torc_block` and `_torc_block2` of src/torc_runtime.c, which
-- run tasks while they wait.
pub mod Runs
pub mod Execution
pub mod Expected
pub mod Rounds
pub mod Leaves
pub mod Drains
pub mod Filled
pub mod Children
pub mod Family
pub mod Forks
pub mod Unseen
use torc_lite.Common.{
  ℕ, zero, suc, Bool, true, false, not, ◌&&◌, Option, none, some, if◌then◌else◌, ◌>>=◌,
}
use torc_lite.Common.Int.{pos, ltb_ℤ, eq_ℤ}
use torc_lite.Desc.{Ptr, Desc}
use torc_lite.Types.{Handles}
use torc_lite.Table.{Table}
use torc_lite.Deps.{block_enter, block_done}
use torc_lite.Node.{Node, Thread, set_desc}
use torc_lite.Exec.{Call}
use torc_lite.Scheduler.{torc_scheduler_loop}

module _ (h : Handles) (type_size : ℕ → ℕ) (answer : (target : ℕ) → Node → Desc) (t : Thread)
    (run : Thread → Call → Node → Node) (table : Table) (others : ℕ → Node → Node) where
  -- The loop, with `k` rounds of fuel; `others k` is what the other threads do before the test.
  unfoldable pub block_loop : (k : ℕ) → Node → Option Node
  unfolding block_done
  block_loop zero n = none
  block_loop (suc k) n =
      let n1 = others k n in
      if block_done (n1.desc t.currt)
      then some n1
      else torc_scheduler_loop h type_size answer t run table n1 >>= λ (n2, work). block_loop k n2

  unfoldable pub torc_block : (k : ℕ) → Node → Option Node
  unfolding block_loop block_enter
  torc_block k n = block_loop k (set_desc t.currt (block_enter (n.desc t.currt)) n)

-- `others k i` is what the other threads do in a round of `_torc_block2`: before the first reading of
-- the counter, before the lock is taken, and before the last reading.
module _ (h : Handles) (type_size : ℕ → ℕ) (answer : (target : ℕ) → Node → Desc) (t : Thread)
    (run : Thread → Call → Node → Node) (table : Table) (others : ℕ → ℕ → Node → Node) where
  -- The end of a round, with what comes after it.
  unfoldable pub after_work : (k : ℕ) → (Node → Option (Node × Bool)) → Node → Option (Node × Bool)
  after_work k rest n = torc_scheduler_loop h type_size answer t run table n >>= λ (m, work).
      let m1 = others k 2 m in
      if eq_ℤ (m1.desc t.currt).ndep (pos 0) && not work then some (m1, false) else rest m1

  unfoldable pub block2_loop : (k : ℕ) → Node → Option (Node × Bool)
  unfolding block_done after_work
  block2_loop zero n = none
  block2_loop (suc k) n =
      let n1 = others k 0 n in
      let n2 = others k 1 n1 in
      let d = n2.desc t.currt in
      if ltb_ℤ (pos 0) (n1.desc t.currt).ndep
      then (if block_done d
          then some (set_desc t.currt (record d { ndep = pos 0 }) n2, true)
          else after_work k (block2_loop k) n2)
      else after_work k (block2_loop k) n1

  -- The result says whether it returns 1.
  unfoldable pub torc_block2 : (k : ℕ) → Node → Option (Node × Bool)
  unfolding block2_loop block_enter
  torc_block2 k n = block2_loop k (set_desc t.currt (block_enter (n.desc t.currt)) n)
