-- ===== src/Tests/Protocol.antt =====
-- Waiting, arguments, routing and creation: the theorems at a task with one argument of each kind,
-- on the second of three nodes.
use torc_lite.Common.{
  ℕ, zero, suc, ◌+◌, ◌-◌, ◌<◌, ◌%◌, ◌≡◌, ◌≢◌, refl, Option, none, some, List, [], ◌∷◌, map, length,
  true, false, has, Distinct, arith, ◌↔◌, ◌++◌, sym,
}
use torc_lite.Common.Int.{pos}
use torc_lite.Desc.{Desc, zero_desc}
use torc_lite.Deps.{
  torc_depadd, first_child, block_enter, block_done, waitall3_enter, waitall3_done,
}
use torc_lite.Deps.Steps.{blocked, spinning, at, begin_task, add_child, enter, Reach, here, next}
use torc_lite.Deps.Waits.{fresh, block_returns_iff, waitall3_never_returns}
use torc_lite.Types.{torc_b2mpi_type}
use torc_lite.Args.{envelope, Received, send_arguments, receive_arguments, free_results}
use torc_lite.Args.Agree.{IsSendable, arguments_agree}
use torc_lite.Args.Buffers.{leaks_from, addresses, answer_frees}
use torc_lite.Nodes.Prefix.{before, Owns}
use torc_lite.Node.{Node, Thread}
use torc_lite.Routing.{torc_to_rq_end}
use torc_lite.Routing.Delivery.{Delivered}
use torc_lite.Routing.Workers.{aimed_private, rq_end-Delivered}
use torc_lite.Nodes.{torc_num_workers}
use torc_lite.Create.{Env, ArgSpec, fill_arguments, header_loop, header, value_loop, read_value}
use torc_lite.Types.{torc_mpi2b_type}
use torc_lite.Create.Sendable.{created_arguments_agree}
use torc_lite.Node.{set_desc}
use torc_lite.Exec.{torc_cleanup}
use torc_lite.Exec.Copies.{created_copies-freed}
use torc_lite.Tests.Machine.{alike, cluster}

-- A parent with one child left.
abbrev waiting : Desc
waiting = block_enter (torc_depadd (first_child zero_desc) (pos 1))

waiting_reached : Reach (fresh zero_desc) (at waiting 1 blocked)
waiting_reached = next (next (next here (begin_task _ 0)) (add_child _ 0)) (enter _ 1)

block_returns_iff_example : (block_done waiting ≡ true) ↔ (suc zero ≡ zero)
block_returns_iff_example = block_returns_iff zero_desc waiting 1 refl waiting_reached

waitall3_never_returns_example :
    (spinning ≡ spinning) × (waitall3_done (waitall3_enter zero_desc) ≡ false)
waitall3_never_returns_example =
    waitall3_never_returns zero_desc (at (waitall3_enter zero_desc) 0 spinning) refl here

-- Argument number i has i + 1 values of type double and is passed in the way number i + 1.
abbrev pub task : Desc
task = record zero_desc {
  narg = 6;
  homenode = 1;
  sourcenode = 1;
  args = λ i. record {
    btype = 12;
    dtype = 9;
    quantity = i + 1;
    callway = i + 1;
    localarg = 500 + i;
    temparg = 600 + i;
  };
}

pub task-IsSendable : (i : ℕ) → i < 6 → IsSendable alike (task.args i)
unfolding torc_b2mpi_type
task-IsSendable i b = record { typed = refl; from = omega arith; to = omega arith }

abbrev pub eight : ℕ → ℕ
eight t = 8

arguments_agree_example :
    (r : Received) × (receive_arguments alike eight 0 70 task ≡ some r)
    × (map envelope r.packets ≡ map envelope (send_arguments 2 0 task))
arguments_agree_example = arguments_agree alike eight 2 0 task 70 task-IsSendable

answer_frees_example :
    (r : Received) × (receive_arguments alike eight 0 70 task ≡ some r)
    × ((a : ℕ)
        → has a (free_results (record task { args = r.args })) ≡ true
        → has a (addresses r.blocks) ≡ true)
    × Distinct (free_results (record task { args = r.args }))
    × (length r.blocks
        ≡ length (free_results (record task { args = r.args })) + leaks_from task 6 0)
answer_frees_example = answer_frees alike eight 0 task 70 task-IsSendable

-- The second node, with the task at address 1; the turn is with the last worker.
abbrev pub node : Node
node = record {
  cluster = cluster;
  desc = λ p. task;
  fresh_desc = 9;
  reuse_q = [];
  private_grq = [];
  public_grq = λ l. [];
  internode_stealing = false;
  appl_finished = 0;
  termination_flag = false;
  invisible_flag = false;
  created = λ v. 0;
  executed = λ v. 0;
  steal_hits = 0;
  steal_served = 0;
  steal_attempts = 0;
  rq_node = none;
  rq_end_node = none;
  rq_end_worker = some 5;
  sent = [];
  fresh_block = 700;
  blocks = [];
  copies = [];
  freed = [];
}

abbrev pub thread : Thread
thread = record { is_server = false; vp_id = 0; currt = 2 }

-- Worker 5 is the only one of the third node.
worker_5-Owns : Owns cluster 5 2
unfolding before
worker_5-Owns = record { is_node = omega arith; from = omega arith; to = omega arith }

three_nodes : cluster.mpi_nodes ≢ 1
three_nodes e = omega (arith, e)

rq_end-Delivered_example :
    (n' : Node) × (torc_to_rq_end thread 1 node ≡ some n')
    × Delivered thread 2 1 (aimed_private (5 - before cluster 2) 5 1 node) false n'
    × (n'.rq_end_worker ≡ some ((5 + 1) % torc_num_workers cluster))
rq_end-Delivered_example = rq_end-Delivered thread 1 node three_nodes 2 worker_5-Owns

-- A value by copy, an array by copy and a result.
abbrev pub env : Env
env = record { handles = alike; type_size = eight; load32 = λ a. 0; load64 = λ a. a + 1 }

abbrev pub specs : List ArgSpec
specs =
    record { quantity = 1; dtype = 9; callway = 1; value = 300 }
    ∷ record { quantity = 4; dtype = 9; callway = 1; value = 400 }
    ∷ record { quantity = 2; dtype = 9; callway = 3; value = 800 }
    ∷ []

abbrev pub or_else : Node → Option Node → Node
or_else n none = n
or_else n (some m) = m

abbrev created_task : Node
created_task = or_else node (fill_arguments env true specs 1 node)

created_task-some : fill_arguments env true specs 1 node ≡ some created_task
unfolding fill_arguments header_loop header value_loop read_value torc_mpi2b_type
created_task-some = refl

created_arguments_agree_example :
    let d = record (created_task.desc 1) { narg = 3 } in
    (r : Received) × (receive_arguments alike eight 0 70 d ≡ some r)
    × (map envelope r.packets ≡ map envelope (send_arguments 2 0 d))
created_arguments_agree_example =
    created_arguments_agree env true specs 1 node created_task 2 0 70 (omega arith)
      created_task-some

abbrev fresh_node : Node
fresh_node = record node { fresh_block = 5 }

abbrev copied_task : Node
copied_task = or_else fresh_node (fill_arguments env true specs 1 fresh_node)

copied_task-some : fill_arguments env true specs 1 fresh_node ≡ some copied_task
unfolding fill_arguments header_loop header value_loop read_value torc_mpi2b_type
copied_task-some = refl

-- The task at its end.
abbrev ending_task : Node
ending_task = set_desc 1 (record (copied_task.desc 1) { narg = 3; homenode = 1 }) copied_task

ending_task-same :
    ((ending_task.desc 1).args ≡ (copied_task.desc 1).args) × (ending_task.cluster.mpi_rank ≡ 1)
unfolding fill_arguments header_loop header value_loop read_value torc_mpi2b_type
ending_task-same = (refl, refl)

created_copies-freed_example :
    (new : List (ℕ × ℕ)) × (copied_task.blocks ≡ fresh_node.blocks ++ new)
    × ((torc_cleanup thread 1 ending_task).freed ≡ ending_task.freed ++ addresses new)
created_copies-freed_example =
    created_copies-freed env thread true specs 1 fresh_node copied_task ending_task
      (λ e. omega (arith, e), (λ e. omega (arith, e), (λ e. omega (arith, e), tt))) (omega arith)
      copied_task-some ending_task-same.0 refl (sym ending_task-same.1)
