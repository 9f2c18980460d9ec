-- ===== src/Tests/Owners.antt =====
-- Where descriptors are: the theorems at a node with one private task.
use torc_lite.Common.{
  ◌+◌, ◌≡◌, refl, Bool, true, false, update, Option, none, some, List, [], ◌∷◌, ◌==◌, if◌then◌else◌,
  arith,
}
use torc_lite.Desc.{Ptr, Desc, zero_desc, disable_internode_stealing}
use torc_lite.Types.{torc_mpi2b_type}
use torc_lite.Nodes.{global_thread_id_to_node_id, global_thread_id_to_local_thread_id}
use torc_lite.Node.{Node, torc_get_reused_desc, torc_i_pq_dequeue}
use torc_lite.Node.Ownership.Moves.{IsOwned, with}
use torc_lite.Routing.{torc_to_rq_end}
use torc_lite.Create.{create_child}
use torc_lite.Exec.{torc_execute, torc_core_execution, execute_enter, task_function}
use torc_lite.Server.{
  Outcome, goes_on, steal_loop, on_steal, server_round, process_a_received_descriptor,
}
use torc_lite.Scheduler.{torc_scheduler_loop, get_next_task}
use torc_lite.Owners.Tasks.{create_child-Uses}
use torc_lite.Owners.Stealing.{torc_scheduler_loop-Fetches}
use torc_lite.Owners.Received.{server_round-IsOwned, on_steal-loses}
use torc_lite.Stats.{torc_print_statistics, execute-counted}
use torc_lite.Tests.Machine.{alike, filled}
use torc_lite.Tests.Protocol.{node, thread, eight, env, specs, or_else}
use torc_lite.Tests.Runtime.{runnable, with_task, idle, refusal}

-- Three descriptors: a private task at 1, and two in use.
abbrev busy : Node
busy = record with_task { fresh_desc = 4; private_grq = 1 ∷ []; internode_stealing = false }

abbrev in_use : List Ptr
in_use = 2 ∷ 3 ∷ []

busy-IsOwned : IsOwned busy in_use
busy-IsOwned = record { places = λ a. ground arith; allocated = omega arith }

abbrev node_or : Node → Option (Node × Bool) → Node
node_or n none = n
node_or n (some (m, worked)) = m

abbrev after_round : Node
after_round = node_or node (torc_scheduler_loop alike eight refusal thread idle filled busy)

after_round-some :
    torc_scheduler_loop alike eight refusal thread idle filled busy ≡ some (after_round, true)
unfolding torc_scheduler_loop get_next_task torc_execute torc_core_execution task_function
    execute_enter torc_i_pq_dequeue
after_round-some = refl

torc_scheduler_loop-Fetches_example : IsOwned after_round in_use
torc_scheduler_loop-Fetches_example =
    torc_scheduler_loop-Fetches alike eight refusal thread in_use idle filled busy after_round true
      busy-IsOwned (λ p c m o. o) after_round-some

abbrev after_child : Node
after_child = or_else node (create_child env filled thread 1 true true none 77 specs busy)

after_child-some : create_child env filled thread 1 true true none 77 specs busy ≡ some after_child
unfolding create_child torc_mpi2b_type torc_to_rq_end torc_get_reused_desc
    global_thread_id_to_node_id global_thread_id_to_local_thread_id
after_child-some = refl

create_child-Uses_example : IsOwned after_child in_use
create_child-Uses_example =
    create_child-Uses env filled thread in_use 1 true true none 77 specs busy after_child
      busy-IsOwned after_child-some

-- A message that stops the stealing.
abbrev stop_request : Desc
stop_request = record zero_desc { type = disable_internode_stealing }

abbrev node_of : Outcome → Node
node_of (goes_on n reuse ps) = n
node_of _ = node

abbrev after_message : Node
after_message = node_of (server_round alike eight filled idle thread 4 stop_request busy)

after_message-some :
    server_round alike eight filled idle thread 4 stop_request busy ≡ goes_on after_message true []
unfolding server_round process_a_received_descriptor torc_get_reused_desc
after_message-some = refl

server_round-IsOwned_example : IsOwned after_message in_use
server_round-IsOwned_example =
    server_round-IsOwned alike eight filled idle thread 4 in_use stop_request busy after_message
      true [] (λ e. absurd (omega (arith, e))) (λ e. absurd (omega (arith, e))) busy-IsOwned
      after_message-some

-- The task at 1 is in the public queue of level 4, and the request to steal at 2.
abbrev with_public : Node
with_public = record busy { private_grq = []; public_grq = λ l. if l == 4 then 1 ∷ [] else [] }

with_public-IsOwned : IsOwned with_public in_use
with_public-IsOwned = record { places = λ a. ground arith; allocated = omega arith }

on_steal-loses_example :
    IsOwned
      (on_steal 4 2 with_public)
      (with (steal_loop 10 0 (record with_public { steal_attempts = 1 })).1 in_use)
on_steal-loses_example = on_steal-loses 4 2 with_public (3 ∷ []) with_public-IsOwned

-- The thread's own descriptor at 2 belongs to the worker 0; the task at 1 is a normal one.
abbrev with_normal : Node
with_normal = record busy { desc = update busy.desc 1 (record runnable { rte_type = 1 }) }

abbrev after_task : Node
after_task = or_else node (torc_execute idle filled thread 1 with_normal)

after_task-some : torc_execute idle filled thread 1 with_normal ≡ some after_task
unfolding torc_execute torc_core_execution task_function execute_enter
after_task-some = refl

execute-counted_example :
    (torc_print_statistics after_task).total_executed
    ≡ (torc_print_statistics with_normal).total_executed + 1
execute-counted_example =
    execute-counted idle filled thread 1 0 with_normal after_task
      (λ u c m. record { executed = refl; cluster = refl }) refl (omega arith) (omega arith)
      after_task-some
