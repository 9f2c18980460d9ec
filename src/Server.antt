-- ===== src/Server.antt =====
-- src/torc_server.c: requests to all other nodes, and what the server thread does with a descriptor
-- that it has received. The wait for the message is MPI's.
pub mod Notices
pub mod Resets
pub mod Steals
pub mod Answers
pub mod Control
use torc_lite.Common.{
  ℕ, zero, suc, ◌+◌, Bool, true, false, not, ◌&&◌, ◌||◌, Option, none, some, List, [], ◌∷◌, ◌++◌,
  ◌==◌, if◌then◌else◌, update, ◌>>=◌,
}
use torc_lite.Common.Int.{ℤ, pos, pos_part, ltb_ℤ}
use torc_lite.Desc.{
  Ptr, null, Arg, Desc, zero_arg, zero_desc, max_nvps, call_by_ref, call_by_res, call_by_cop2,
  terminate_local_server_thread, terminate_worker_threads, direct_synchronous_stealing,
  disable_internode_stealing, enable_internode_stealing, reset_statistics, torc_answer,
  torc_normal_enqueue, torc_bcast,
}
use torc_lite.Types.{Handles, torc_b2mpi_type}
use torc_lite.Table.{Table}
use torc_lite.Deps.{torc_depsatisfy}
use torc_lite.Nodes.{torc_node_id, torc_num_nodes}
use torc_lite.Args.{Packet, address, Received, receive_arguments, receive_results}
use torc_lite.Node.{
  Node, Thread, set_desc, torc_get_reused_desc, torc_put_reused_desc, torc_to_i_pq,
  torc_to_i_pq_end, torc_to_i_rq, torc_to_i_rq_end, torc_i_rq_dequeue,
}
use torc_lite.Send.{send_value, send_descriptor, direct_send_descriptor}
use torc_lite.Exec.{Call, torc_core_execution}

-- `for (node = 0; node < torc_num_nodes(); node++)`, with a message to each node but this one and
-- `here` for this one; `k` rounds are left.
unfoldable pub notify_loop :
    Thread → Desc → (type : ℕ) → (here : Node → Node) → (k node : ℕ) → Node → Node
notify_loop t d type here zero node n = n
notify_loop t d type here (suc k) node n =
    notify_loop t d type here k (suc node)
      (if node == torc_node_id n.cluster then here n else send_value t node d type n)

unfoldable pub notify : Thread → Desc → (type : ℕ) → (here : Node → Node) → Node → Node
unfolding notify_loop
notify t d type here n = notify_loop t d type here (torc_num_nodes n.cluster) 0 n

-- A descriptor on the stack that says which node it comes from.
abbrev pub from_node : Node → Desc
from_node n = record zero_desc {
  homenode = torc_node_id n.cluster;
  args = update (λ i. zero_arg) 0 (record zero_arg { localarg = torc_node_id n.cluster });
}

unfoldable pub terminate_workers : Thread → Node → Node
unfolding notify
terminate_workers t n = notify t (from_node n) terminate_worker_threads (λ m. m) n

unfoldable pub torc_disable_stealing : Thread → Node → Node
unfolding notify
torc_disable_stealing t n =
    notify t (record (from_node n) { sourcenode = torc_node_id n.cluster })
      disable_internode_stealing (λ m. m) (record n { internode_stealing = false })

unfoldable pub torc_enable_stealing : Thread → Node → Node
unfolding notify
torc_enable_stealing t n =
    notify t (record (from_node n) { sourcenode = torc_node_id n.cluster })
      enable_internode_stealing (λ m. m) (record n { internode_stealing = true })

-- `_torc_reset_statistics`
abbrev pub reset_here : Node → Node
reset_here n = record n { created = λ v. 0; executed = λ v. 0 }

unfoldable pub torc_reset_statistics : Thread → Node → Node
unfolding notify
torc_reset_statistics t n = notify t zero_desc reset_statistics reset_here n

-- The task that a steal request gets: `for (i = 0; i < 10; i++)`, with `k` rounds left.
unfoldable pub steal_loop : (k i : ℕ) → Node → Node × Ptr
unfolding torc_i_rq_dequeue
steal_loop zero i n = (n, null)
steal_loop (suc k) i n =
    let (n', p) = torc_i_rq_dequeue i n in
    let rest = steal_loop k (suc i) n' in if p == null then rest else (n', p)

-- The case DIRECT_SYNCHRONOUS_STEALING_REQUEST, for the request in the descriptor at `p`: the answer
-- with the task found. `no_work` is the address of `no_work_desc`.
unfoldable pub answer_steal : (no_work : Ptr) → Ptr → Node × Ptr → Node
answer_steal no_work p (n, stolen) =
    let d = n.desc p in
    if stolen == null
    then direct_send_descriptor d.sourcenode (pos_part d.sourcevpid) no_work n
    else (let n' = direct_send_descriptor d.sourcenode (pos_part d.sourcevpid) stolen n in
        record n' { steal_served = n'.steal_served + 1 })

unfoldable pub on_steal : (no_work : Ptr) → Ptr → Node → Node
on_steal no_work p n =
    answer_steal no_work p (steal_loop 10 0 (record n { steal_attempts = n.steal_attempts + 1 }))

-- Work that another node has sent: the queue to put it in.
unfoldable pub enqueue_received : Ptr → Node → Node
unfolding torc_to_i_pq torc_to_i_pq_end torc_to_i_rq torc_to_i_rq_end
enqueue_received p n =
    let d = n.desc p in
    if not (d.insert_private == 0)
    then (if not (d.insert_in_front == 0) then torc_to_i_pq p n else torc_to_i_pq_end p n)
    else (if not (d.insert_in_front == 0) then torc_to_i_rq p n else torc_to_i_rq_end p n)

-- What becomes of a received descriptor: the process aborts, the server thread exits, or the server
-- goes on; then whether it may use the descriptor again, and the receives it has posted.
pub data Outcome : Type 0 where
  aborts exits : Outcome
  goes_on : Node → (reuse : Bool) → List Packet → Outcome

abbrev pub or_abort {ℓ} : {A : Type ℓ} → Option A → (A → Outcome) → Outcome
or_abort none f = aborts
or_abort (some a) f = f a

-- The case TORC_ANSWER: what becomes of an argument of the descriptor, and what is freed.
unfoldable pub answer_argument : Handles → Arg → Option (Arg × List ℕ)
answer_argument h a =
    if a.quantity == 0
    then some (a, [])
    else if (a.callway == call_by_res) || (a.callway == call_by_ref)
    then (do dtype ← torc_b2mpi_type h a.btype; some (record a { dtype = dtype }, []))
    else if a.callway == call_by_cop2
    then some (record a { localarg = 0 }, a.localarg ∷ [])
    else some (a, [])

unfoldable pub answer_loop : Handles → (k i : ℕ) → (ℕ → Arg) → Option ((ℕ → Arg) × List ℕ)
unfolding answer_argument
answer_loop h zero i args = some (args, [])
answer_loop h (suc k) i args = do
  (a, freed) ← answer_argument h (args i)
  (args', later) ← answer_loop h k (suc i) (update args i a)
  some (args', freed ++ later)

-- `if (reuse) _torc_put_reused_desc(desc);`
unfoldable pub recycle : Ptr → Outcome → Outcome
recycle p (goes_on n true packets) = goes_on (torc_put_reused_desc p n) true packets
recycle p (goes_on n false packets) = goes_on n false packets
recycle p aborts = aborts
recycle p exits = exits

module _ (h : Handles) (type_size : ℕ → ℕ) (table : Table) (run : Thread → Call → Node → Node)
    (t : Thread) (no_work : Ptr) where
  unfoldable pub on_answer : (tag : ℕ) → Ptr → Node → Outcome
  unfolding answer_loop receive_results torc_depsatisfy
  on_answer tag p n =
      let d = n.desc p in
      or_abort (receive_results h tag d) λ packets.
        or_abort (answer_loop h d.narg 0 d.args) λ (args, freed).
          let n1 = set_desc p (record d { args = args }) (record n { freed = n.freed ++ freed }) in
          goes_on
            (if d.parent == null
              then n1
              else set_desc d.parent (torc_depsatisfy (n1.desc d.parent)).0 n1)
            true packets

  unfoldable pub on_work : (tag : ℕ) → Ptr → Node → Outcome
  unfolding enqueue_received torc_to_i_rq receive_arguments torc_core_execution send_descriptor
  on_work tag p n =
      let d = n.desc p in
      if d.homenode == torc_node_id n.cluster
      then goes_on (torc_to_i_rq p n) false []
      else or_abort (receive_arguments h type_size tag n.fresh_block d) λ r.
        let d1 = record d { args = r.args } in
        let n1 =
          set_desc p d1 (record n { fresh_block = r.fresh; blocks = n.blocks ++ r.blocks }) in
        if d.rte_type == 20
        then or_abort (torc_core_execution table (torc_node_id n.cluster) d1) (λ call.
          goes_on
            (send_descriptor t d.homenode p torc_answer
              (run t call (set_desc p (record d1 { work = call.function }) n1)))
            false r.packets)
        else goes_on (enqueue_received p n1) false r.packets

  unfoldable pub process_a_received_descriptor : Ptr → Node → Outcome
  unfolding on_answer on_work on_steal torc_reset_statistics
  process_a_received_descriptor p n =
      let d = n.desc p in
      let tag = pos_part d.sourcevpid in
      if ltb_ℤ d.sourcevpid (pos 0) || ltb_ℤ (pos max_nvps) d.sourcevpid
      then aborts
      else if d.type == torc_answer
      then on_answer tag p n
      else if d.type == torc_normal_enqueue
      then on_work tag p n
      else if d.type == direct_synchronous_stealing
      then goes_on (on_steal no_work p n) false []
      else if d.type == terminate_local_server_thread
      then exits
      else if d.type == terminate_worker_threads
      then goes_on
          (record n {
            termination_flag = true;
            appl_finished =
                if (d.args 0).localarg == torc_node_id n.cluster
                then n.appl_finished
                else n.appl_finished + 1;
          })
          true []
      else if d.type == enable_internode_stealing
      then goes_on (record n { internode_stealing = true }) true []
      else if d.type == disable_internode_stealing
      then goes_on (record n { internode_stealing = false }) true []
      else if d.type == reset_statistics
      then goes_on (torc_reset_statistics t n) true []
      else if d.type == torc_bcast
      then or_abort (torc_b2mpi_type h (d.args 3).localarg) (λ dtype. goes_on n true (
          record {
            place = address (d.args 1).localarg;
            count = (d.args 2).localarg;
            dtype = dtype;
            node = d.sourcenode;
            tag = tag;
          }
          ∷ []))
      else aborts

  -- A round of `server_loop`, for the message `d` and an MPI library that is thread safe: every
  -- round takes a descriptor, and recycles it if it may be used again.
  unfoldable pub server_round : Desc → Node → Outcome
  unfolding process_a_received_descriptor recycle
  server_round d n =
      let (n1, p) = torc_get_reused_desc n in
      recycle p (process_a_received_descriptor p (set_desc p d n1))
