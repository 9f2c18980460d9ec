-- ===== src/Server/Control.antt =====
-- The start and the end of the server thread, and the end of the program for the other nodes:
-- `start_server_thread` and `shutdown_server_thread` of src/torc_server.c, `_torc_end` of
-- src/torc_runtime.c up to `_torc_md_end`.
use torc_lite.Common.{
  ℕ, ◌+◌, ◌≤◌, ◌||◌, ◌<◌, ◌≡◌, ◌≢◌, refl, sym, ap, ◌∙◌, Bool, true, false, Option, none, some, [],
  ◌∷◌, ◌++◌, map, ltb, lt→ltb, ==_false, if◌then◌else◌, arith,
}
use torc_lite.Common.Int.{ℤ, pos, negsuc, pos_part, ltb_ℤ}
use torc_lite.Desc.{
  Ptr, Desc, zero_desc, max_nvps, terminate_local_server_thread, terminate_worker_threads,
}
use torc_lite.Types.{Handles}
use torc_lite.Table.{Table}
use torc_lite.Nodes.{torc_node_id, torc_num_nodes}
use torc_lite.Args.{send_arguments, send_loop}
use torc_lite.Node.{Node, Thread, descriptor, set_desc}
use torc_lite.Node.Store.{set_desc_self}
use torc_lite.Send.{torc_thread_id, stamped, following, send_value}
use torc_lite.Exec.{Call}
use torc_lite.Server.Notices.{others, notify-sent}
use torc_lite.Server.{exits, goes_on, from_node, terminate_workers, process_a_received_descriptor}

-- `server_thread_alive`; `created` says whether `pthread_create` succeeds, and `none` is the abort.
unfoldable pub start_server_thread : (created : Bool) → (alive : Bool) → Option Bool
start_server_thread created true = some true
start_server_thread created false = if created then some true else none

-- For the MPI library of the node, thread safe or not; the wait for the server thread follows.
unfoldable pub shutdown_server_thread : Thread → (thread_safe : Bool) → Bool × Node → Bool × Node
unfolding send_value
shutdown_server_thread t thread_safe (false, n) = (false, n)
shutdown_server_thread t thread_safe (true, n) = (
  false,
  if thread_safe
      then send_value t (torc_node_id n.cluster) zero_desc terminate_local_server_thread n
      else record n { termination_flag = true },
)

-- `_torc_end` while MPI is still up.
unfoldable pub torc_end : Thread → Node → Node
unfolding terminate_workers
torc_end t n =
    let n' = record n { appl_finished = 1 } in
    if ltb 1 (torc_num_nodes n.cluster) then terminate_workers t n' else n'

in_range :
    (s : ℤ) (v : ℕ) → s ≡ pos v → v ≤ max_nvps → (ltb_ℤ s (pos 0) || ltb_ℤ (pos max_nvps) s) ≡ false
in_range (pos n) v e b = let same : n ≡ v = ap pos_part e in ground (arith, same)
in_range (negsuc n) v e b = absurd (not_negative n v e)
  where
    is_pos : ℤ → Bool
    is_pos (pos n) = true
    is_pos (negsuc n) = false

    not_negative : (n v : ℕ) → negsuc n ≢ pos v
    not_negative n v e = let f = ap is_pos e in cc

module _ (h : Handles) (type_size : ℕ → ℕ) (table : Table) (run : Thread → Call → Node → Node)
    (server : Thread) (no_work : Ptr) where
  exits_at :
      (v : ℕ) (p : Ptr) (m : Node)
      → (m.desc p).type ≡ terminate_local_server_thread
      → (m.desc p).sourcevpid ≡ pos v
      → v ≤ max_nvps
      → process_a_received_descriptor h type_size table run server no_work p m ≡ exits
  unfolding process_a_received_descriptor
  exits_at v p m e f b = rw (in_range (m.desc p).sourcevpid v f b, e) refl

  -- The shutdown of a server thread that runs, by a worker of the node and with a thread-safe MPI
  -- library, sends this node one message, and the server thread that receives it exits, whatever
  -- descriptor and whatever state it finds.
  pub shutdown-exits :
      (t : Thread) (n : Node)
      → torc_thread_id t ≤ max_nvps
      → (d : Desc) × ((shutdown_server_thread t true (true, n)).1.sent
          ≡ n.sent ++ descriptor n.cluster.mpi_rank max_nvps d ∷ [])
        × ((p : Ptr) (m : Node)
            → process_a_received_descriptor h type_size table run server no_work p (set_desc p d m)
              ≡ exits)
  unfolding shutdown_server_thread send_value following stamped send_arguments send_loop
  shutdown-exits t n b =
      let d = stamped t n zero_desc terminate_local_server_thread in
      (
        d,
        ground arith,
        λ p m.
            let self = set_desc_self p d m in
            exits_at (torc_thread_id t) p (set_desc p d m) (ap (λ x. x.type) self)
              (ap (λ x. x.sourcevpid) self) b,
      )

  received_end :
      (v : ℕ) (p : Ptr) (m : Node)
      → (m.desc p).type ≡ terminate_worker_threads
      → (m.desc p).sourcevpid ≡ pos v
      → v ≤ max_nvps
      → ((m.desc p).args 0).localarg ≢ m.cluster.mpi_rank
      → process_a_received_descriptor h type_size table run server no_work p m
        ≡ goes_on
            (record m { termination_flag = true; appl_finished = m.appl_finished + 1 })
            true
            []
  unfolding process_a_received_descriptor
  received_end v p m e f b ne =
      rw
        (
          in_range (m.desc p).sourcevpid v f b,
          e,
          ==_false ((m.desc p).args 0).localarg m.cluster.mpi_rank ne,
        )
        refl

  -- The end of the program on one of several nodes is told to every other node once, and each that
  -- receives the message raises its termination flag and counts one more end of the program; nothing
  -- else changes there.
  pub torc_end-told :
      (t : Thread) (n : Node)
      → 1 < n.cluster.mpi_nodes
      → torc_thread_id t ≤ max_nvps
      → let d = record (from_node n) {
        sourcenode = n.cluster.mpi_rank;
        sourcevpid = pos (torc_thread_id t);
        type = terminate_worker_threads;
      } in
        ((torc_end t n).sent
          ≡ n.sent
            ++ map (λ j. descriptor j max_nvps d) (others n.cluster.mpi_rank n.cluster.mpi_nodes 0))
        × ((p : Ptr) (m : Node)
            → n.cluster.mpi_rank ≢ m.cluster.mpi_rank
            → process_a_received_descriptor h type_size table run server no_work p (set_desc p d m)
              ≡ goes_on
                  (record (set_desc p d m) {
                    termination_flag = true;
                    appl_finished = m.appl_finished + 1;
                  })
                  true
                  [])
  unfolding torc_end terminate_workers
  torc_end-told t n several b =
      let d = record (from_node n) {
        sourcenode = n.cluster.mpi_rank;
        sourcevpid = pos (torc_thread_id t);
        type = terminate_worker_threads;
      } in
      (
        rw (lt→ltb 1 n.cluster.mpi_nodes several) (
            notify-sent t (from_node n) terminate_worker_threads (λ m. m) refl
              (λ e. absurd (omega (arith, e))) (λ m. refl) (λ m. refl)
              (record n { appl_finished = 1 })),
        λ p m ne.
            let self = set_desc_self p d m in
            received_end (torc_thread_id t) p (set_desc p d m) (ap (λ x. x.type) self)
              (ap (λ x. x.sourcevpid) self) b
              (λ e. ne (sym (ap (λ x. (x.args 0).localarg) self) ∙ e)),
      )
