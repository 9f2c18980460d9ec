-- ===== src/Tests/Worker.antt =====
-- The loop of a worker, on the second of three nodes.
use torc_lite.Common.{
  ◌≡◌, ◌≢◌, refl, sym, ◌∙◌, some, false, true, [], ◌∷◌, ◌++◌, update, arith, ◌>>=◌,
}
use torc_lite.Common.Int.{pos}
use torc_lite.Node.{Node, level_queue}
use torc_lite.Tally.{update_other}
use torc_lite.Scheduler.{torc_scheduler_loop}
use torc_lite.Waiting.Runs.{call_of, Runs}
use torc_lite.Waiting.Expected.{IsWaiting, IsLeaf-same}
use torc_lite.Worker.{ended, scheduler_loop}
use torc_lite.Worker.Once.{once_ended, scheduler_loop-once}
use torc_lite.Worker.Finish.{scheduler_loop-finishes}
use torc_lite.Tests.Machine.{alike, filled}
use torc_lite.Tests.Protocol.{thread, eight, task}
use torc_lite.Tests.Runtime.{refusal, with_task, idle, runnable}
use torc_lite.Tests.Waiting.{parent_waits, child-IsLeaf, allocate, allocate-Keeps}

scheduler_loop-once_example :
    scheduler_loop alike eight refusal thread idle filled (λ k i m. m) true 1 1 with_task
    ≡ torc_scheduler_loop alike eight refusal thread idle filled with_task
      >>= once_ended alike eight refusal thread idle filled
scheduler_loop-once_example =
    scheduler_loop-once alike eight refusal thread idle filled 0 0 with_task (λ e. ground arith)

-- The program has ended, and two tasks are left.
abbrev last_tasks : Node
last_tasks = record parent_waits {
  desc = update (λ p. runnable) 2 (record task { ndep = pos 2; level = 3 });
  appl_finished = 1;
}

last_tasks-IsWaiting : IsWaiting filled 2 2 3 (5 ∷ 6 ∷ []) last_tasks
unfolding level_queue
last_tasks-IsWaiting = record {
  counter = refl;
  level = refl;
  private = refl;
  queue = refl;
  other_queues = λ m ne. ground arith;
  distinct = (refl, (refl, tt));
  leaves = λ p is.
      let ne : 2 ≢ p = λ e. ground arith in
      IsLeaf-same filled 2 p parent_waits last_tasks
        (update_other (λ q. runnable) 2 p _ ne ∙ sym (update_other (λ q. runnable) 2 p _ ne)) refl
        (child-IsLeaf p (λ e. ground arith) (λ e. ground arith));
}

scheduler_loop-finishes_example :
    (n' : Node) × (scheduler_loop alike eight refusal thread allocate filled
        (λ k i m. m)
        false
        1
        3
        last_tasks
      ≡ some (ended n'))
    × IsWaiting filled 2 0 3 [] n'
    × (n'.reuse_q ≡ [] ++ 5 ∷ 6 ∷ [])
    × Runs allocate thread (call_of filled last_tasks) (5 ∷ 6 ∷ []) last_tasks.sent n'.sent
scheduler_loop-finishes_example =
    scheduler_loop-finishes alike eight refusal thread allocate filled 2 (λ e. ground arith)
      allocate-Keeps 3 0 (5 ∷ 6 ∷ []) last_tasks (omega arith) refl last_tasks-IsWaiting
