-- ===== src/Tests/Runtime.antt =====
-- Execution, the server thread and the search for work: the theorems at the node and the task of
-- `Tests.Protocol`.
use torc_lite.Common.{
  ◌≢◌, List, ℕ, ◌≤◌, ◌≡◌, refl, some, [], ◌∷◌, ◌++◌, map, true, update, arith, ◌↔◌,
}
use torc_lite.Common.Int.{minus_one}
use torc_lite.Desc.{Ptr, Desc, zero_desc, torc_no_work, reset_statistics}
use torc_lite.Args.{Packet, send_arguments}
use torc_lite.Node.{Node, Thread, descriptor, set_desc}
use torc_lite.Exec.{Call, task_function, torc_core_execution}
use torc_lite.Exec.Arguments.{exact_call, execution_exact}
use torc_lite.Server.{on_steal, torc_reset_statistics, process_a_received_descriptor}
use torc_lite.Server.Notices.{notice}
use torc_lite.Server.Resets.{Net, receive, Reach, here, next, resets, resets_never_end}
use torc_lite.Server.Steals.{Served, on_steal-Served}
use torc_lite.Scheduler.{get_next_task}
use torc_lite.Scheduler.Levels.{Finds, get_next_task-highest}
use torc_lite.Scheduler.Ring.{get_next_task-total}
use torc_lite.Tests.Machine.{alike, filled}
use torc_lite.Tests.Protocol.{node, thread, task, eight, task-IsSendable}
use torc_lite.Args.{envelope, send_results}
use torc_lite.Deps.{torc_depsatisfy}
use torc_lite.Server.{on_answer, recycle, goes_on}
use torc_lite.Broadcast.{torc_broadcast}
use torc_lite.Args.{address, Packet}
use torc_lite.Node.{Message, descriptor, argument}
use torc_lite.Desc.{max_nvps}
use torc_lite.Broadcast.Received.{broadcast_received}
use torc_lite.Tests.Machine.{double_code}
use torc_lite.Server.Answers.{on_answer-parent}

-- The task calls the function at address 77.
abbrev pub runnable : Desc
runnable = record task { work = 77; work_id = minus_one; parent = 2 }

pub runnable_function : task_function filled runnable ≡ some 77
unfolding task_function
runnable_function = refl

execution_exact_example :
    (torc_core_execution filled 1 runnable
      ≡ some (exact_call filled 1 runnable 77 runnable_function))
    ↔ (6 ≤ 17)
execution_exact_example = execution_exact filled 1 runnable 77 runnable_function

abbrev pub with_task : Node
with_task = record node { desc = update node.desc 1 runnable; internode_stealing = true }

-- Functions that do nothing.
abbrev pub idle : Thread → Call → Node → Node
idle t c n = n

abbrev reset_request : Desc
reset_request = record zero_desc { type = reset_statistics }

abbrev receiver : Node
receiver = set_desc 3 reset_request node

-- Three nodes, a request on its way to one of them; and the state after it has been received.
abbrev net : Net alike eight filled idle thread 4
net = record { nodes = λ j. node; flight = descriptor 1 64 reset_request ∷ [] }

abbrev net_after : Net alike eight filled idle thread 4
net_after = record {
  nodes = update (λ j. node) 1 (torc_reset_statistics thread receiver);
  flight = [] ++ [] ++ map (notice thread 1 zero_desc reset_statistics) (0 ∷ 2 ∷ []);
}

net_step : Reach alike eight filled idle thread 4 net net_after
unfolding process_a_received_descriptor torc_reset_statistics send_arguments
net_step = next here (
    receive [] [] (map (notice thread 1 zero_desc reset_statistics) (0 ∷ 2 ∷ [])) 1 64 3
      reset_request (torc_reset_statistics thread receiver) [] refl refl refl refl)

resets_never_end_example : 1 ≤ resets net_after.flight
resets_never_end_example =
    resets_never_end alike eight filled idle thread 4 (λ j. omega arith) (omega arith) net_step

-- The task at address 1 at level 3, and behind it that at address 5; one at level 7.
abbrev with_work : Node
with_work = record with_task { public_grq = update (update (λ l. []) 3 (1 ∷ 5 ∷ [])) 7 (6 ∷ []) }

on_steal-Served_example : Served 4 5 with_work 1 3 (5 ∷ []) (on_steal 4 5 with_work)
on_steal-Served_example =
    on_steal-Served 4 5 with_work 3 1 (5 ∷ []) (λ e. omega (arith, e)) (omega arith)
      (λ m b. ground arith) refl

-- Every other node refuses.
abbrev pub refusal : (target : ℕ) → Node → Desc
refusal target n = record zero_desc { type = torc_no_work }

get_next_task-highest_example :
    Finds alike eight refusal thread with_work 7 6 [] with_work
      (get_next_task alike eight refusal thread with_work)
get_next_task-highest_example =
    get_next_task-highest alike eight refusal thread with_work 7 6 [] refl (λ e. omega (arith, e))
      (omega arith) (λ m a b. ground arith) refl

get_next_task-total_example :
    (n' : Node) × (p : Ptr) × (get_next_task alike eight refusal thread with_task ≡ some (n', p))
get_next_task-total_example =
    get_next_task-total alike eight refusal thread (λ target n i b. absurd (omega (arith, b)))
      with_task (omega arith)

-- Numbers 1 to 6 of the task's arguments come back from another node; the task at 2 is its parent.
on_answer-parent_example :
    (n' : Node) × (ps : List Packet) × (recycle 1
        (on_answer alike eight filled idle thread 4 0 1 with_task)
      ≡ goes_on n' true ps)
    × (map envelope ps ≡ map envelope (send_results 0 runnable))
    × (n'.desc 2 ≡ (torc_depsatisfy task).0)
    × ((q : Ptr) → q ≢ 1 → q ≢ 2 → n'.desc q ≡ with_task.desc q)
    × (n'.reuse_q ≡ [] ++ 1 ∷ [])
on_answer-parent_example =
    on_answer-parent alike eight filled idle thread 4 0 1 with_task task-IsSendable
      (λ e. omega (arith, e)) (λ e. omega (arith, e))

broadcast_received_example :
    (n' : Node) × (d : Desc) × (q : Packet) × (before : List Message) × (after : List Message)
    × (torc_broadcast alike thread 900 7 9 node ≡ some n')
    × (n'.sent ≡ [] ++ (before ++ descriptor 2 max_nvps d ∷ argument q ∷ after))
    × (q.node ≡ 2)
    × (q.place ≡ address 900)
    × (process_a_received_descriptor alike eight filled idle thread 4 3 (set_desc 3 d node)
        ≡ goes_on (set_desc 3 d node) true (record q { node = 1 } ∷ []))
broadcast_received_example =
    broadcast_received alike thread 900 7 9 12 double_code eight filled idle thread 4 3 2 node node
      (omega arith) (omega arith) (λ e. omega (arith, e))
