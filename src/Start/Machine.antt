-- ===== src/Start/Machine.antt =====
-- What the nodes know of each other after their start.
use mathlib.Core.Path.{subst}
use torc_lite.Common.{
  ℕ, zero, suc, ◌+◌, ◌≤◌, ◌<◌, ◌≡◌, refl, ap, sym, ◌∙◌, true, Option, none, some, ltb, update,
  arith, ◌>>=◌, dec_lt,
}
use torc_lite.Common.Int.{ℤ, pos, negsuc}
use torc_lite.Nodes.{
  Cluster, global_thread_id_to_node_id, global_thread_id_to_local_thread_id,
  local_thread_id_to_global_thread_id,
}
use torc_lite.Nodes.Prefix.{before, Owns}
use torc_lite.Nodes.Ids.{IsReady, local_to_global-before, node_id-some, local_id-some}
use torc_lite.Start.{
  Variables, Mpi, positive_or, torc_opt, Info, info_loop, torc_comm_init, max_nodes,
}

positive_or-positive : (o : Option ℤ) (x : ℕ) → 1 ≤ x → 1 ≤ positive_or o x
unfolding positive_or
positive_or-positive none x b = b
positive_or-positive (some (pos n)) x b = ground arith
positive_or-positive (some (negsuc n)) x b = ground arith

-- Whatever the environment variables are, a node has a worker at least, and its threads sleep at
-- least 1 ms while they wait.
pub torc_opt-positive :
    (v : Variables) (m : Mpi) → (1 ≤ (torc_opt v m).kthreads) × (1 ≤ (torc_opt v m).yieldtime)
unfolding torc_opt
torc_opt-positive v m = (
  positive_or-positive v.torc_workers _ (positive_or-positive v.omp_num_threads 1 (omega arith)),
  positive_or-positive v.torc_yieldtime 10 (omega arith),
)

abbrev Filled : (workers : ℕ → ℕ) → (k i : ℕ) → (ℕ → ℕ) → Option (ℕ → ℕ) → Type 0
Filled workers k i info none = ⊥
Filled workers k i info (some g) =
    ((j : ℕ) → i ≤ j → j < i + k → g j ≡ workers j) × ((j : ℕ) → j < i → g j ≡ info j)

Filled-step :
    (workers : ℕ → ℕ) (k i : ℕ) (info : ℕ → ℕ) (o : Option (ℕ → ℕ))
    → Filled workers k (suc i) (update info i (workers i)) o
    → Filled workers (suc k) i info o
Filled-step workers k i info none f = f
Filled-step workers k i info (some g) f = (
  λ j a b. elim (dec_lt i j) [
    | yes later ↦ f.0 j later (omega arith)
    | no now ↦ let same : j ≡ i = omega arith in rw (f.1 j (omega arith)) (rw same (ground arith))
  ],
  λ j a. f.1 j (omega arith) ∙ ground arith,
)

info_loop-Filled :
    (workers : ℕ → ℕ) (k i : ℕ) (info : ℕ → ℕ)
    → i + k ≤ max_nodes
    → Filled workers k i info (info_loop workers k i info)
unfolding info_loop
info_loop-Filled workers zero i info b = (λ j a c. absurd (omega arith), λ j a. refl)
info_loop-Filled workers (suc k) i info b =
    let here : ltb i max_nodes ≡ true = ground arith in
    rw here (
      Filled-step workers k i info _
        (info_loop-Filled workers k (suc i) (update info i (workers i)) (omega arith)))

-- The processes of a communicator, and the arrays that each gets from the others: what MPI's manual
-- says of the rank, of the size, and of MPI_Iallgather; and a number of nodes that the tables hold.
pub record IsMachine (vars : ℕ → Variables) (mpi : ℕ → Mpi) (workers : ℕ → ℕ → ℕ) (size : ℕ)
    : Type 0 where
  pub ranks : (r : ℕ) → r < size → (mpi r).rank ≡ r
  pub sizes : (r : ℕ) → r < size → (mpi r).size ≡ size
  pub gathered :
      (r i : ℕ) → r < size → i < size → workers r i ≡ (torc_opt (vars i) (mpi i)).kthreads
  pub fits : size ≤ max_nodes

-- What the node `r` knows of the machine.
pub record Knows (threads : ℕ → ℕ) (size r : ℕ) (c : Cluster) : Type 0 where
  pub rank : c.mpi_rank ≡ r
  pub nodes : c.mpi_nodes ≡ size
  pub own : c.kthreads ≡ threads r
  pub others : (i : ℕ) → i < size → c.nworkers i ≡ threads i

before-Knows :
    (threads : ℕ → ℕ) (size r q : ℕ) (c d : Cluster)
    → Knows threads size r c
    → Knows threads size q d
    → (n : ℕ) → n ≤ size
    → before c n ≡ before d n
unfolding before
before-Knows threads size r q c d k l zero b = refl
before-Knows threads size r q c d k l (suc n) b = omega (
  arith,
  before-Knows threads size r q c d k l n (omega arith),
  k.others n (omega arith),
  l.others n (omega arith),
)

-- Every node resolves the number that a worker of another node has there.
numbers-Knows :
    (threads : ℕ → ℕ) (size r q l : ℕ) (c d : Cluster)
    → Knows threads size r c
    → Knows threads size q d
    → r < size
    → l < threads r
    → (global_thread_id_to_node_id d (local_thread_id_to_global_thread_id c l) ≡ some r)
      × (global_thread_id_to_local_thread_id d (local_thread_id_to_global_thread_id c l) ≡ some l)
unfolding before
numbers-Knows threads size r q l c d k m b lt =
    let same = before-Knows threads size r q c d k m r (omega arith) in
    let g : local_thread_id_to_global_thread_id c l ≡ before d r + l =
      local_to_global-before c l ∙ ap (λ z. before c z + l) k.rank ∙ ap (λ z. z + l) same in
    let o : Owns d (before d r + l) r = record {
      is_node = omega (arith, m.nodes);
      from = omega arith;
      to = omega (arith, m.others r b);
    } in
    rw g (node_id-some d _ r o, local_id-some d _ r o ∙ ap some (omega arith))

opt-rank : (v : Variables) (m : Mpi) → (torc_opt v m).mpi_rank ≡ m.rank
unfolding torc_opt
opt-rank v m = refl

opt-nodes : (v : Variables) (m : Mpi) → (torc_opt v m).mpi_nodes ≡ m.size
unfolding torc_opt
opt-nodes v m = refl

module _ (vars : ℕ → Variables) (mpi : ℕ → Mpi) (workers : ℕ → ℕ → ℕ) (size : ℕ)
    (is : IsMachine vars mpi workers size) where
  abbrev threads : ℕ → ℕ
  threads i = (torc_opt (vars i) (mpi i)).kthreads

  abbrev Starts : (r : ℕ) → Option (Info × Cluster) → Type 0
  Starts r none = ⊥
  Starts r (some (s, c)) = Knows threads size r c

  comm_init-Starts :
      (r : ℕ) (s : Info)
      → r < size
      → Starts r (torc_comm_init (workers r) (torc_opt (vars r) (mpi r)) s)
  unfolding torc_comm_init
  comm_init-Starts r s b = known _ (
      info_loop-Filled (workers r) (torc_opt (vars r) (mpi r)).mpi_nodes 0 s.node_info
        (omega (arith, nodes, is.fits)))
    where
      nodes : (torc_opt (vars r) (mpi r)).mpi_nodes ≡ size
      nodes = opt-nodes (vars r) (mpi r) ∙ is.sizes r b

      known :
          (o : Option (ℕ → ℕ))
          → Filled (workers r) (torc_opt (vars r) (mpi r)).mpi_nodes 0 s.node_info o
          → Starts r (
              o >>= λ info. some (
                record s { node_info = info },
                record {
                  mpi_rank = (torc_opt (vars r) (mpi r)).mpi_rank;
                  mpi_nodes = (torc_opt (vars r) (mpi r)).mpi_nodes;
                  kthreads = (torc_opt (vars r) (mpi r)).kthreads;
                  nworkers = info;
                },
              ))
      known none f = f
      known (some g) f = record {
        rank = opt-rank (vars r) (mpi r) ∙ is.ranks r b;
        nodes = nodes;
        own = refl;
        others = λ i h. f.0 i (omega arith) (omega (arith, h, nodes)) ∙ is.gathered r i b h;
      }

  Starts-some :
      (r : ℕ) (o : Option (Info × Cluster))
      → Starts r o
      → (s : Info) × (c : Cluster) × (o ≡ some (s, c)) × Knows threads size r c
  Starts-some r none h = absurd h
  Starts-some r (some (s, c)) k = (s, c, refl, k)

  Knows-IsReady : (r : ℕ) (c : Cluster) → r < size → Knows threads size r c → IsReady c
  Knows-IsReady r c b k = record {
    is_node = omega (arith, k.rank, k.nodes);
    has_worker = omega (arith, k.own, (torc_opt-positive (vars r) (mpi r)).0);
    counted = ap c.nworkers k.rank ∙ k.others r b ∙ sym k.own;
  }

  -- If MPI gives the processes of a communicator of at most MAX_NODES their ranks, its size, and the
  -- numbers that all have sent, then `_torc_comm_init` ends on every node, in bounds; the node is
  -- one of the nodes, it has a worker, and its table holds for every node the number of threads that
  -- the environment variables of that node ask for.
  pub comm_init-IsReady :
      (r : ℕ) (s : Info)
      → r < size
      → (s' : Info) × (c : Cluster) × (torc_comm_init (workers r) (torc_opt (vars r) (mpi r)) s
          ≡ some (s', c))
        × IsReady c
        × ((i : ℕ) → i < size → c.nworkers i ≡ (torc_opt (vars i) (mpi i)).kthreads)
  comm_init-IsReady r s b =
      let (s', c, e, k) = Starts-some r _ (comm_init-Starts r s b) in
      (s', c, e, Knows-IsReady r c b k, k.others)

  Starts-at :
      (r : ℕ) (o : Option (Info × Cluster)) (s : Info) (c : Cluster)
      → Starts r o
      → o ≡ some (s, c)
      → Knows threads size r c
  Starts-at r o s c h e = subst (Starts r) e h

  -- After the start, under the same conditions, all nodes agree on the numbers of the workers: what
  -- the node `r` computes as the number of its worker `l`, every node `q` resolves to the node `r`
  -- and its worker `l`.
  pub comm_init-numbers :
      (r q l : ℕ) (s s' t t' : Info) (c d : Cluster)
      → r < size
      → q < size
      → l < (torc_opt (vars r) (mpi r)).kthreads
      → torc_comm_init (workers r) (torc_opt (vars r) (mpi r)) s ≡ some (s', c)
      → torc_comm_init (workers q) (torc_opt (vars q) (mpi q)) t ≡ some (t', d)
      → (global_thread_id_to_node_id d (local_thread_id_to_global_thread_id c l) ≡ some r)
        × (global_thread_id_to_local_thread_id d (local_thread_id_to_global_thread_id c l) ≡ some l)
  comm_init-numbers r q l s s' t t' c d b k h e f =
      numbers-Knows threads size r q l c d (Starts-at r _ s' c (comm_init-Starts r s b) e)
        (Starts-at q _ t' d (comm_init-Starts q t k) f) b h
