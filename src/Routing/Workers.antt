-- ===== src/Routing/Workers.antt =====
-- `torc_to_lrq_end`, `torc_to_lrq` and `torc_to_rq_end` on several nodes.
use torc_lite.Common.{
  ℕ, ◌+◌, ◌-◌, ◌<◌, ◌%◌, ◌≡◌, ◌≢◌, refl, ap, ◌∙◌, Bool, true, false, Option, some, List, [], ◌∷◌,
  length, arith, ◌>>=◌, ==_false,
}
use torc_lite.Common.Int.{pos}
use native.Mathlib.Nat.{mod-lt, mod-eq_of_lt, mod-add-mod}
use torc_lite.Desc.{Ptr}
use torc_lite.Nodes.{Cluster, torc_num_workers, torc_worker_id, total_num_threads}
use torc_lite.Nodes.Prefix.{before, Owns}
use torc_lite.Nodes.Ids.{node_id-some, local_id-some, Owns-total, IsReady}
use torc_lite.Nodes.Workers.{num_workers-total}
use torc_lite.Node.{Node, Thread, set_desc}
use torc_lite.Routing.{deliver, static_or, torc_to_lrq_end, torc_to_lrq, torc_to_rq_end}
use torc_lite.Routing.Delivery.{Delivered, Delivered-worker, deliver-Delivered}

-- The node with the task's target entered, as the functions do before they deliver it.
abbrev pub aimed : (local : ℕ) → (front : Bool) → Ptr → Node → Node
aimed l true p n =
    set_desc p (record (n.desc p) { target_queue = pos l; inter_node = 1; insert_in_front = 1 }) n
aimed l false p n = set_desc p (record (n.desc p) { target_queue = pos l; inter_node = 1 }) n

module _ (t : Thread) (target j : ℕ) (p : Ptr) (n : Node) (several : n.cluster.mpi_nodes ≢ 1)
    (o : Owns n.cluster target j) where
  -- On several nodes, `torc_to_lrq_end` puts a task for the worker `target` at the tail of the
  -- queue for its level if that worker is on this node, and sends it to the worker's node as work
  -- if not; the worker's local number goes with it.
  lrq_end-Delivered :
      let n0 = aimed (target - before n.cluster j) false p n in
      (n' : Node) × (torc_to_lrq_end t target p n ≡ some n') × Delivered t j p n0 false n'
  unfolding torc_to_lrq_end
  lrq_end-Delivered =
      let n0 = aimed (target - before n.cluster j) false p n in
      (
        deliver t false j p n0,
        rw (
          ==_false n.cluster.mpi_nodes 1 several,
          node_id-some n.cluster target j o,
          local_id-some n.cluster target j o,
        ),
        deliver-Delivered t j p n0 false,
      )

  -- On several nodes, `torc_to_lrq` puts a task for the worker `target` at the head of the queue
  -- for its level if that worker is on this node, and sends it to the worker's node as work if not;
  -- the worker's local number goes with it.
  lrq-Delivered :
      let n0 = aimed (target - before n.cluster j) true p n in
      (n' : Node) × (torc_to_lrq t target p n ≡ some n') × Delivered t j p n0 true n'
  unfolding torc_to_lrq
  lrq-Delivered =
      let n0 = aimed (target - before n.cluster j) true p n in
      (
        deliver t true j p n0,
        rw (
          ==_false n.cluster.mpi_nodes 1 several,
          node_id-some n.cluster target j o,
          local_id-some n.cluster target j o,
        ),
        deliver-Delivered t j p n0 true,
      )

-- The worker that the next call of `torc_to_rq_end` will serve.
abbrev pub next_worker : Thread → Node → ℕ
next_worker t n = static_or n.rq_end_worker (torc_worker_id n.cluster t.vp_id)

-- What `torc_to_rq_end` enters in the task and in its own static variable before it delivers.
abbrev pub aimed_private : (local worker : ℕ) → Ptr → Node → Node
aimed_private l w p n =
    set_desc p (record (n.desc p) { target_queue = pos l; inter_node = 1; insert_private = 0 })
      (record n { rq_end_worker = some w })

module _ (t : Thread) (p : Ptr) (n : Node) (several : n.cluster.mpi_nodes ≢ 1) where
  -- On several nodes, if the worker whose turn it is belongs to the node `j`, `torc_to_rq_end`
  -- delivers the task there, to the tail of the queue for its level or by sending it, and passes
  -- the turn to the next worker.
  pub rq_end-Delivered :
      (j : ℕ)
      → Owns n.cluster (next_worker t n) j
      → let n0 = aimed_private (next_worker t n - before n.cluster j) (next_worker t n) p n in
        (n' : Node) × (torc_to_rq_end t p n ≡ some n')
        × Delivered t j p n0 false n'
        × (n'.rq_end_worker ≡ some ((next_worker t n + 1) % torc_num_workers n.cluster))
  unfolding torc_to_rq_end
  rq_end-Delivered j o =
      let n0 = aimed_private (next_worker t n - before n.cluster j) (next_worker t n) p n in
      let sent = deliver-Delivered t j p n0 false in
      (
        record (deliver t false j p n0) {
          rq_end_worker = some ((next_worker t n + 1) % torc_num_workers n.cluster);
        },
        rw (
          ==_false n.cluster.mpi_nodes 1 several,
          node_id-some n.cluster (next_worker t n) j o,
          local_id-some n.cluster (next_worker t n) j o,
        ),
        Delivered-worker t j p n0 false _ _ sent,
        refl,
      )

-- A thread hands over a sequence of tasks by `torc_to_rq_end`.
pub rq_end_all : Thread → List Ptr → Node → Option Node
rq_end_all t [] n = some n
rq_end_all t (p ∷ ps) n = torc_to_rq_end t p n >>= rq_end_all t ps

rq_end_turn :
    (t : Thread) (p : Ptr) (n : Node) (c : Cluster)
    → n.cluster ≡ c
    → IsReady c
    → c.mpi_nodes ≢ 1
    → next_worker t n < torc_num_workers c
    → (n1 : Node) × (torc_to_rq_end t p n ≡ some n1)
      × (n1.cluster ≡ c)
      × (next_worker t n1 ≡ (next_worker t n + 1) % torc_num_workers c)
rq_end_turn t p n c e ready several b =
    let several' : n.cluster.mpi_nodes ≢ 1 = rw e several in
    let b' : next_worker t n < total_num_threads n.cluster =
      rw (ap total_num_threads e) (omega (arith, num_workers-total c ready several)) in
    let (j, o) = Owns-total n.cluster (next_worker t n) b' in
    let (n1, s, d, turn) = rq_end-Delivered t p n several' j o in
    (
      n1,
      s,
      d.machine ∙ e,
      ap (λ w. static_or w (torc_worker_id n1.cluster t.vp_id)) turn
          ∙ ap (λ (k : Cluster). (next_worker t n + 1) % torc_num_workers k) e,
    )

-- On several nodes, with consistent numbers of workers and the turn at some worker, handing over
-- any number of tasks one by one fails nowhere, and moves the turn on round the ring of all workers
-- by as many places.
rq_end_ring :
    (t : Thread) (ps : List Ptr) (n : Node) (c : Cluster)
    → n.cluster ≡ c
    → IsReady c
    → c.mpi_nodes ≢ 1
    → next_worker t n < torc_num_workers c
    → (n' : Node) × (rq_end_all t ps n ≡ some n')
      × (n'.cluster ≡ c)
      × (next_worker t n' ≡ (next_worker t n + length ps) % torc_num_workers c)
unfolding rq_end_all
rq_end_ring t [] n c e ready several b =
    let r : (next_worker t n + 0) % torc_num_workers c ≡ next_worker t n + 0 =
      mod-eq_of_lt (omega arith) in
    (n, refl, e, omega (arith, r))
rq_end_ring t (p ∷ ps) n c e ready several b =
    let (n1, s, e1, w) = rq_end_turn t p n c e ready several b in
    let m : (next_worker t n + 1) % torc_num_workers c < torc_num_workers c =
      mod-lt (next_worker t n + 1) (omega arith) in
    let (n', s', e', w') = rq_end_ring t ps n1 c e1 ready several (rw w m) in
    (
      n',
      ap (λ o. o >>= rq_end_all t ps) s ∙ s',
      e',
      w'
          ∙ ap (λ (x : ℕ). (x + length ps) % torc_num_workers c) w
          ∙ mod-add-mod (next_worker t n + 1) (torc_num_workers c) (length ps)
          ∙ ap (λ (x : ℕ). x % torc_num_workers c) (omega arith),
    )
