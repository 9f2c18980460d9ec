-- ===== src/Owners/Received.antt =====
-- The descriptors that the server thread uses for the messages it receives: src/torc_server.c.
use mathlib.Core.Path.{subst}
use torc_lite.Common.{
  ap, sym, ◌∙◌, ℕ, zero, suc, ◌+◌, ◌≤◌, ◌≡◌, ◌≢◌, refl, List, ◌∷◌, ◌++◌, Bool, true, false, not,
  Option, none, some, ◌||◌, ◌==◌, ==_false, if◌then◌else◌, arith,
}
use torc_lite.Common.Int.{pos, pos_part, ltb_ℤ}
use torc_lite.Desc.{
  Ptr, null, Desc, zero_desc, max_nvps, terminate_local_server_thread, terminate_worker_threads,
  direct_synchronous_stealing, disable_internode_stealing, enable_internode_stealing,
  reset_statistics, torc_answer, torc_normal_enqueue, torc_bcast,
}
use torc_lite.Types.{Handles, torc_b2mpi_type}
use torc_lite.Table.{Table}
use torc_lite.Nodes.{torc_node_id, torc_num_nodes}
use torc_lite.Args.{Packet, receive_arguments, receive_results}
use torc_lite.Node.{Node, Thread, set_desc, torc_get_reused_desc, torc_i_rq_dequeue}
use torc_lite.Node.Ownership.Moves.{
  IsOwned, with, same-IsOwned, reused-IsOwned, Puts-IsOwned, pq-Puts, pq_end-Puts, rq-Puts,
  rq_end-Puts, Gives-IsOwned, i_rq-Gives,
}
use torc_lite.Node.Store.{set_desc_self}
use torc_lite.Send.{send_value, direct_send_descriptor}
use torc_lite.Exec.{Call}
use torc_lite.Server.{
  Outcome, aborts, exits, goes_on, or_abort, notify_loop, notify, reset_here, torc_reset_statistics,
  steal_loop, answer_steal, on_steal, enqueue_received, answer_loop, on_answer, on_work,
  process_a_received_descriptor, recycle, server_round,
}
use torc_lite.Owners.{recycled-IsOwned}
use torc_lite.Owners.Stealing.{Finds, search_on}

-- What the descriptor `p` of a message has become: it can be used again, or is in a queue.
abbrev pub Accounts : Ptr → List Ptr → Outcome → Type 0
Accounts p used aborts = Unit
Accounts p used exits = Unit
Accounts p used (goes_on n true ps) = IsOwned n (p ∷ used)
Accounts p used (goes_on n false ps) = IsOwned n used

module _ (p : Ptr) (used : List Ptr) where
  if-Accounts :
      (b : Bool) (x y : Outcome)
      → Accounts p used x
      → Accounts p used y
      → Accounts p used (if b then x else y)
  if-Accounts true x y a c = a
  if-Accounts false x y a c = c

  or_abort-Accounts :
      {A : Type 0} (o : Option A) (f : A → Outcome)
      → ((a : A) → Accounts p used (f a))
      → Accounts p used (or_abort o f)
  or_abort-Accounts none f h = tt
  or_abort-Accounts (some a) f h = h a

  kept :
      (b : Bool) (x y : Node) → IsOwned x used → IsOwned y used → IsOwned (if b then x else y) used
  kept true x y a c = a
  kept false x y a c = c

  enqueue_received-IsOwned : (n : Node) → IsOwned n (p ∷ used) → IsOwned (enqueue_received p n) used
  unfolding enqueue_received
  enqueue_received-IsOwned n o =
      kept (not ((n.desc p).insert_private == 0)) _ _
        (kept (not ((n.desc p).insert_in_front == 0)) _ _ (Puts-IsOwned (pq-Puts p n) o)
          (Puts-IsOwned (pq_end-Puts p n) o))
        (kept (not ((n.desc p).insert_in_front == 0)) _ _ (Puts-IsOwned (rq-Puts p n) o)
          (Puts-IsOwned (rq_end-Puts p n) o))

notify_loop-IsOwned :
    {used : List Ptr} (t : Thread) (d : Desc) (type : ℕ) (k node : ℕ) (n : Node)
    → IsOwned n used
    → IsOwned (notify_loop t d type reset_here k node n) used
unfolding notify_loop send_value
notify_loop-IsOwned t d type zero node n o = o
notify_loop-IsOwned {used} t d type (suc k) node n o = notify_loop-IsOwned t d type k (suc node) _ (
    kept 0 used (node == torc_node_id n.cluster) (reset_here n) (send_value t node d type n)
      (same-IsOwned refl refl o) (same-IsOwned refl refl o))

reset-IsOwned :
    {used : List Ptr} (t : Thread) (n : Node)
    → IsOwned n used
    → IsOwned (torc_reset_statistics t n) used
unfolding torc_reset_statistics notify
reset-IsOwned t n o =
    notify_loop-IsOwned t zero_desc reset_statistics (torc_num_nodes n.cluster) 0 n o

steal_loop-Finds :
    (used : List Ptr) (k i : ℕ) (n : Node)
    → i + k ≤ 10
    → IsOwned n used
    → Finds used (steal_loop k i n)
unfolding steal_loop
steal_loop-Finds used zero i n b o = o
steal_loop-Finds used (suc k) i n b o =
    let r = torc_i_rq_dequeue i n in
    search_on used r (steal_loop k (suc i) r.0) (Gives-IsOwned (i_rq-Gives n i (omega arith)) o)
      λ o'. steal_loop-Finds used k (suc i) r.0 (omega arith) o'

direct_sent-IsOwned :
    {used : List Ptr} (node vpid : ℕ) (p : Ptr) (n : Node)
    → IsOwned n used
    → IsOwned (direct_send_descriptor node vpid p n) used
unfolding direct_send_descriptor
direct_sent-IsOwned node vpid p n o = same-IsOwned refl refl o

answer_steal-IsOwned :
    (no_work p : Ptr) (used : List Ptr) (r : Node × Ptr)
    → Finds used r
    → IsOwned (answer_steal no_work p r) (with r.1 used)
unfolding answer_steal
answer_steal-IsOwned no_work p used (m, q) f =
    let d = m.desc p in
    kept 0 (with q used) (q == null) _ _
      (direct_sent-IsOwned d.sourcenode (pos_part d.sourcevpid) no_work m f)
      (same-IsOwned refl refl (direct_sent-IsOwned d.sourcenode (pos_part d.sourcevpid) q m f))

-- The node that answers a request to steal does not get back the descriptors that it uses: the one
-- that holds the request, and the one of the task that has gone, if there was one, are in use and in
-- no queue afterwards.
pub on_steal-loses :
    (no_work p : Ptr) (n : Node) (used : List Ptr)
    → IsOwned n (p ∷ used)
    → let stolen = (steal_loop 10 0 (record n { steal_attempts = n.steal_attempts + 1 })).1 in
      IsOwned (on_steal no_work p n) (with stolen (p ∷ used))
unfolding on_steal
on_steal-loses no_work p n used o =
    answer_steal-IsOwned no_work p (p ∷ used)
      (steal_loop 10 0 (record n { steal_attempts = n.steal_attempts + 1 }))
      (steal_loop-Finds (p ∷ used) 10 0 _ (omega arith) (same-IsOwned refl refl o))

module _ (h : Handles) (type_size : ℕ → ℕ) (table : Table) (run : Thread → Call → Node → Node)
    (t : Thread) (no_work : Ptr) (p : Ptr) (used : List Ptr) where
  on_answer-Accounts :
      (tag : ℕ) (n : Node)
      → IsOwned n (p ∷ used)
      → Accounts p used (on_answer h type_size table run t no_work tag p n)
  unfolding on_answer
  on_answer-Accounts tag n o =
      let d = n.desc p in
      or_abort-Accounts p used (receive_results h tag d) _ λ packets.
        or_abort-Accounts p used (answer_loop h d.narg 0 d.args) _ λ (args, freed).
          kept p (p ∷ used) (d.parent == null) _ _ (same-IsOwned refl refl o)
            (same-IsOwned refl refl o)

  on_work-Accounts :
      (tag : ℕ) (n : Node)
      → (n.desc p).rte_type ≢ 20
      → IsOwned n (p ∷ used)
      → Accounts p used (on_work h type_size table run t no_work tag p n)
  unfolding on_work
  on_work-Accounts tag n ne o =
      let d = n.desc p in
      if-Accounts p used (d.homenode == torc_node_id n.cluster) _ _ (Puts-IsOwned (rq-Puts p n) o) (
        or_abort-Accounts p used (receive_arguments h type_size tag n.fresh_block d) _ λ r.
          let n1 =
            set_desc p (record d { args = r.args })
              (record n { fresh_block = r.fresh; blocks = n.blocks ++ r.blocks }) in
          let o1 : IsOwned n1 (p ∷ used) = same-IsOwned refl refl o in
          rw (==_false d.rte_type 20 ne) (enqueue_received-IsOwned p used n1 o1))

  -- The server thread loses no descriptor, unless the message is a request to steal or a task of
  -- type 20: if the descriptor `p` of the message is in use, and it goes on, then `p` is still in
  -- use if it may be used again, and otherwise in one of the queues.
  pub received-Accounts :
      (n : Node)
      → (n.desc p).type ≢ direct_synchronous_stealing
      → (n.desc p).rte_type ≢ 20
      → IsOwned n (p ∷ used)
      → Accounts p used (process_a_received_descriptor h type_size table run t no_work p n)
  unfolding process_a_received_descriptor
  received-Accounts n ne direct o =
      let d = n.desc p in
      let tag = pos_part d.sourcevpid in
      let A = if-Accounts p used in
      rw (==_false d.type direct_synchronous_stealing ne) (
        A (ltb_ℤ d.sourcevpid (pos 0) || ltb_ℤ (pos max_nvps) d.sourcevpid) aborts _ tt (
          A (d.type == torc_answer) _ _ (on_answer-Accounts tag n o) (
            A (d.type == torc_normal_enqueue) _ _ (on_work-Accounts tag n direct o) (
              A (d.type == terminate_local_server_thread) _ _ tt (
                A (d.type == terminate_worker_threads) _ _ (same-IsOwned refl refl o) (
                  A (d.type == enable_internode_stealing) _ _ (same-IsOwned refl refl o) (
                    A (d.type == disable_internode_stealing) _ _ (same-IsOwned refl refl o) (
                      A (d.type == reset_statistics) _ _ (reset-IsOwned t n o) (
                        A (d.type == torc_bcast) _ aborts
                          (or_abort-Accounts p used (torc_b2mpi_type h (d.args 3).localarg) _
                            λ dtype. o)
                          tt)))))))))

module _ (h : Handles) (type_size : ℕ → ℕ) (table : Table) (run : Thread → Call → Node → Node)
    (t : Thread) (no_work : Ptr) (used : List Ptr) where
  abbrev AfterRound : Outcome → Type 0
  AfterRound aborts = Unit
  AfterRound exits = Unit
  AfterRound (goes_on n reuse ps) = IsOwned n used

  recycled-AfterRound : (p : Ptr) (o : Outcome) → Accounts p used o → AfterRound (recycle p o)
  unfolding recycle
  recycled-AfterRound p aborts a = tt
  recycled-AfterRound p exits a = tt
  recycled-AfterRound p (goes_on n true ps) a = recycled-IsOwned p n a
  recycled-AfterRound p (goes_on n false ps) a = a

  -- If every descriptor that has been allocated is in use or in one queue, exactly once, it is so
  -- after a round of the server thread for a message that is no request to steal and no task of type
  -- 20, if the server goes on, with the same descriptors in use: the one taken for the message has
  -- been recycled, or is in a queue as a task.
  pub server_round-IsOwned :
      (d : Desc) (n n' : Node) (reuse : Bool) (packets : List Packet)
      → d.type ≢ direct_synchronous_stealing
      → d.rte_type ≢ 20
      → IsOwned n used
      → server_round h type_size table run t no_work d n ≡ goes_on n' reuse packets
      → IsOwned n' used
  unfolding server_round
  server_round-IsOwned d n n' reuse packets ne direct o e =
      let n1 = (torc_get_reused_desc n).0 in
      let p = (torc_get_reused_desc n).1 in
      let same = set_desc_self p d n1 in
      let o1 : IsOwned (set_desc p d n1) (p ∷ used) =
        same-IsOwned refl refl (reused-IsOwned n used o) in
      subst AfterRound e (
        recycled-AfterRound p _ (
          received-Accounts h type_size table run t no_work p used (set_desc p d n1)
            (λ z. ne (ap (λ x. x.type) (sym same) ∙ z))
            (λ z. direct (ap (λ x. x.rte_type) (sym same) ∙ z)) o1))
