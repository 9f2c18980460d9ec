-- ===== src/Worker.antt =====
-- The loop of a worker: `_torc_scheduler_loop` of src/torc_runtime.c, which `_torc_worker` of
-- src/torc_thread.c enters for ever, and the waits and the application once at a time.
pub mod Once
pub mod Finish
use torc_lite.Common.{
  ℕ, zero, suc, Bool, true, false, Option, none, some, ◌==◌, if◌then◌else◌, ◌>>=◌,
}
use torc_lite.Desc.{Ptr, null, Desc}
use torc_lite.Types.{Handles}
use torc_lite.Table.{Table}
use torc_lite.Node.{Node, Thread}
use torc_lite.Exec.{Call, torc_execute}
use torc_lite.Scheduler.{get_next_task}

-- How the search for a task ends: with a task; without one, in a call for one task; or in
-- `_torc_md_end`.
pub data Found : Type 0 where
  task : Node → Ptr → Found
  nothing : Node → Found
  finished : Node → Found

-- How the loop ends: it returns whether a task was run, or the thread is in `_torc_md_end`.
pub data LoopEnd : Type 0 where
  returned : Node → Bool → LoopEnd
  ended : Node → LoopEnd

-- `others k i` is what the other threads do before the test for the end of the program and in the
-- first sleep, when `k` rounds are left. `once` is the argument of the function.
module _ (h : Handles) (type_size : ℕ → ℕ) (answer : (target : ℕ) → Node → Desc) (t : Thread)
    (run : Thread → Call → Node → Node) (table : Table) (others : ℕ → ℕ → Node → Node)
    (once : Bool) where
  -- The inner loop, `while (desc_next == NULL)`.
  unfoldable pub search_loop : (k : ℕ) → Node → Option Found
  search_loop zero n = none
  search_loop (suc k) n =
      let n1 = others k 0 n in
      let rest = search_loop k in
      if n1.appl_finished == 1
      then some (finished n1)
      else get_next_task h type_size answer t (others k 1 n1) >>= λ (n2, p).
          if p == null then (if once then some (nothing n2) else rest n2) else some (task n2 p)

  -- The rest of a round, with what comes after it.
  unfoldable pub run_found : (Node → Option LoopEnd) → Found → Option LoopEnd
  run_found rest (task n p) =
      torc_execute run table t p n >>= λ m. if once then some (returned m true) else rest m
  run_found rest (nothing n) = some (returned n false)
  run_found rest (finished n) = some (ended n)

  -- The outer loop, with `r` rounds, each with at most `k` searches.
  unfoldable pub scheduler_loop : (k r : ℕ) → Node → Option LoopEnd
  unfolding search_loop run_found
  scheduler_loop k zero n = none
  scheduler_loop k (suc r) n = get_next_task h type_size answer t n >>= λ (n1, p).
      (if p == null then search_loop k n1 else some (task n1 p)) >>= run_found (scheduler_loop k r)
