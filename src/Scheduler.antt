-- ===== src/Scheduler.antt =====
-- Looking for work: `get_next_task`, `torc_fetch_work` and `_torc_scheduler_loop(1)` of
-- src/torc_runtime.c, `direct_synchronous_stealing_request` of src/torc_server.c and
-- `receive_descriptor` of src/torc_comm.c, for an MPI library that is thread safe.
pub mod Levels
pub mod Ring
pub mod Finished
use torc_lite.Common.{
  ℕ, zero, suc, ◌+◌, ◌%◌, Bool, true, false, Option, none, some, List, [], ◌∷◌, ◌++◌, ◌==◌,
  if◌then◌else◌, update, ◌>>=◌,
}
use torc_lite.Desc.{Ptr, null, Arg, Desc, zero_arg, torc_no_work, direct_synchronous_stealing}
use torc_lite.Types.{Handles}
use torc_lite.Table.{Table}
use torc_lite.Nodes.{torc_node_id, torc_num_nodes}
use torc_lite.Args.{Received, receive_arguments}
use torc_lite.Node.{
  Node, Thread, set_desc, torc_get_reused_desc, torc_put_reused_desc, torc_i_pq_dequeue,
  torc_i_rq_dequeue, torc_to_i_pq_end,
}
use torc_lite.Send.{torc_thread_id, send_value}
use torc_lite.Exec.{Call, torc_execute}
use torc_lite.Server.{from_node}

-- `for (i = 9; i >= 0; i--)`, with the levels below `k` left.
unfoldable pub level_loop : (k : ℕ) → Node → Node × Ptr
level_loop zero n = (n, null)
level_loop (suc k) n =
    let (n', p) = torc_i_rq_dequeue k n in
    let rest = level_loop k n' in if p == null then rest else (n', p)

-- `answer` is the descriptor that a node sends back to a request of this one.
module _ (h : Handles) (type_size : ℕ → ℕ) (answer : (target : ℕ) → Node → Desc) (t : Thread) where
  -- The descriptor `d` arrives at `p`. `none` is the abort for an unsupported data type.
  unfoldable pub receive_descriptor : Desc → Ptr → Node → Option Node
  receive_descriptor d p n =
      if d.type == torc_no_work
      then some (set_desc p d n)
      else if d.homenode == torc_node_id n.cluster
      then some (set_desc p d n)
      else (do
        r ← receive_arguments h type_size (torc_thread_id t + 100) n.fresh_block d
        some (
            set_desc p (record d { args = r.args })
              (record n { fresh_block = r.fresh; blocks = n.blocks ++ r.blocks })))

  -- The end of the request: a refusal, or a task in the descriptor at `p`.
  unfoldable pub stolen : Ptr → Node → Node × Ptr
  stolen p n =
      if (n.desc p).type == torc_no_work
      then (torc_put_reused_desc p n, null)
      else (record n { steal_hits = n.steal_hits + 1 }, p)

  unfoldable pub direct_synchronous_stealing_request : (target : ℕ) → Node → Option (Node × Ptr)
  direct_synchronous_stealing_request target n = if n.termination_flag then some (n, null) else do
    let (n1, p) = torc_get_reused_desc n
    let n2 = send_value t target (from_node n) direct_synchronous_stealing n1
    n3 ← receive_descriptor (answer target n2) p n2
    some (stolen p n3)

  -- `while (node != self_node)`, with `k` rounds of fuel.
  unfoldable pub ring_loop : (k node : ℕ) → Node → Option (Node × Ptr)
  ring_loop zero node n = if node == torc_node_id n.cluster then some (n, null) else none
  ring_loop (suc k) node n = if node == torc_node_id n.cluster then some (n, null) else do
    (n', p) ← direct_synchronous_stealing_request node n
    let rest = ring_loop k ((node + 1) % torc_num_nodes n.cluster) n'
    if p == null then rest else some (n', p)

  abbrev stop_stealing : Node → Node × Ptr
  stop_stealing n = (record n { internode_stealing = false }, null)

  -- The second half: stealing, after a search of the own queues.
  unfoldable pub steal_if : Node × Ptr → Option (Node × Ptr)
  steal_if (n, p) =
      if n.internode_stealing
      then (if p == null
          then (do
            (n', q) ←
                ring_loop (torc_num_nodes n.cluster)
                  ((torc_node_id n.cluster + 1) % torc_num_nodes n.cluster) n
            some (if q == null then stop_stealing n' else (n', q)))
          else some (n, p))
      else some (n, p)

  unfoldable pub get_next_task : Node → Option (Node × Ptr)
  get_next_task n =
      let (n', p) = torc_i_pq_dequeue n in
      if p == null then steal_if (level_loop 10 n') else some (n', p)

  unfoldable pub torc_fetch_work : Node → Option (Node × Bool)
  torc_fetch_work n = do
    (n', p) ← get_next_task n
    some (if p == null then (n', false) else (torc_to_i_pq_end p n', true))

  -- The second look for a task, after the test for the end of the program. `none` is also the call of
  -- `_torc_md_end`, from which the thread does not come back.
  unfoldable pub search_again : Node → Option (Node × Ptr)
  search_again n = if n.appl_finished == 1 then none else get_next_task n

  -- `_torc_scheduler_loop(1)`: at most two looks for a task, the sleep between them left out, and its
  -- execution. The result says whether there was one.
  unfoldable pub torc_scheduler_loop :
      (run : Thread → Call → Node → Node) → Table → Node → Option (Node × Bool)
  unfolding search_again
  torc_scheduler_loop run table n = do
    (n1, p1) ← get_next_task n
    (n2, p2) ← if p1 == null then search_again n1 else some (n1, p1)
    if p2 == null
        then some (n2, false)
        else torc_execute run table t p2 n2 >>= λ n3. some (n3, true)
