-- ===== src/Nodes/Ids.antt =====
-- Worker numbers of src/torc_comm.c: global to node and local, and back.
use torc_lite.Common.{
  ℕ, zero, suc, ◌+◌, ◌-◌, ◌≤◌, ◌<◌, ◌≡◌, refl, ap, ◌∙◌, ◌↔◌, Option, none, some, arith,
}
use torc_lite.Nodes.{
  Cluster, total_num_threads, global_thread_id_to_node_id, global_thread_id_to_local_thread_id,
  local_thread_id_to_global_thread_id,
}
use torc_lite.Nodes.Prefix.{before, Owns, before_le, sum_loop-before, node_loop-Found, Found}

-- The same machine, seen from the node `r`.
abbrev pub at_node : Cluster → ℕ → Cluster
at_node c r = record c { mpi_rank = r }

-- What initialisation establishes: the node is one of the nodes, it has a worker, and the table
-- that all nodes share holds its number of workers.
pub record IsReady (c : Cluster) : Type 0 where
  pub is_node : c.mpi_rank < c.mpi_nodes
  pub has_worker : 0 < c.kthreads
  pub counted : c.nworkers c.mpi_rank ≡ c.kthreads

-- Where the workers stand does not depend on the node that counts them.
before-at_node : (c : Cluster) (r n : ℕ) → before (at_node c r) n ≡ before c n
unfolding before
before-at_node c r zero = refl
before-at_node c r (suc n) = rw (before-at_node c r n)

module _ (c : Cluster) where
  pub total-before : total_num_threads c ≡ before c c.mpi_nodes
  unfolding total_num_threads before
  total-before = sum_loop-before c c.mpi_nodes 0 c.mpi_nodes (omega arith)

  pub node_id-Found : (g : ℕ) → Found c g c.mpi_nodes (global_thread_id_to_node_id c g)
  unfolding global_thread_id_to_node_id before
  node_id-Found g = node_loop-Found c g c.mpi_nodes 0 c.mpi_nodes (omega arith) (omega arith)

  pub local_to_global-before :
      (l : ℕ) → local_thread_id_to_global_thread_id c l ≡ before c c.mpi_rank + l
  unfolding local_thread_id_to_global_thread_id before
  local_to_global-before l = rw (sum_loop-before c c.mpi_rank 0 c.mpi_rank (omega arith))

  Owns-order : (g i j : ℕ) → Owns c g i → Owns c g j → ¬ (i < j)
  Owns-order g i j p q h = omega (arith, before_le c (suc i) j h, p.to, q.from)

  Owns-unique : (g i j : ℕ) → Owns c g i → Owns c g j → i ≡ j
  Owns-unique g i j p q = omega (arith, Owns-order g i j p q, Owns-order g j i q p)

  Found-Owns : (g j : ℕ) (o : Option ℕ) → Owns c g j → Found c g c.mpi_nodes o → o ≡ some j
  Found-Owns g j none o f = absurd (omega (arith, before_le c (suc j) c.mpi_nodes o.is_node, o.to))
  Found-Owns g j (some i) o f =
      ap some (Owns-unique g i j (record { is_node = f.0; from = f.1; to = f.2 }) o)

  pub node_id-some : (g j : ℕ) → Owns c g j → global_thread_id_to_node_id c g ≡ some j
  node_id-some g j o = Found-Owns g j _ o (node_id-Found g)

  pub local_id-some :
      (g j : ℕ) → Owns c g j → global_thread_id_to_local_thread_id c g ≡ some (g - before c j)
  unfolding global_thread_id_to_local_thread_id before
  local_id-some g j o = rw (node_id-some g j o) (rw (sum_loop-before c j 0 j (omega arith)))

  Found-none :
      (g : ℕ) (o : Option ℕ) → Found c g c.mpi_nodes o → (o ≡ none) ↔ (before c c.mpi_nodes ≤ g)
  Found-none g none f = (λ _. f, λ _. refl)
  Found-none g (some j) f =
      (λ e. cc, λ h. absurd (omega (arith, before_le c (suc j) c.mpi_nodes f.0, f.2)))

  -- The lookup of a worker's node aborts exactly for the numbers from the total number of workers
  -- on.
  pub node_id-none : (g : ℕ) → (global_thread_id_to_node_id c g ≡ none) ↔ (total_num_threads c ≤ g)
  node_id-none g = rw total-before (Found-none g _ (node_id-Found g))

  Found-total :
      (g : ℕ) (o : Option ℕ)
      → Found c g c.mpi_nodes o
      → g < before c c.mpi_nodes
      → (j : ℕ) × Owns c g j
  Found-total g none f h = absurd (omega arith)
  Found-total g (some j) f h = (j, record { is_node = f.0; from = f.1; to = f.2 })

  pub Owns-total : (g : ℕ) → g < total_num_threads c → (j : ℕ) × Owns c g j
  Owns-total g h = Found-total g _ (node_id-Found g) (rw total-before at h)

  pub Owns-local :
      (l : ℕ)
      → c.mpi_rank < c.mpi_nodes
      → l < c.nworkers c.mpi_rank
      → Owns c (before c c.mpi_rank + l) c.mpi_rank
  unfolding before
  Owns-local l h k = record { is_node = h; from = omega arith; to = omega arith }

module _ (c : Cluster) where
  -- Every worker number below the total belongs to a node and to a local number on it, and that
  -- node's own numbering gives it back.
  pub global_to_local_to_global :
      (g : ℕ)
      → g < total_num_threads c
      → (node l : ℕ) × (global_thread_id_to_node_id c g ≡ some node)
        × (global_thread_id_to_local_thread_id c g ≡ some l)
        × (node < c.mpi_nodes)
        × (l < c.nworkers node)
        × (local_thread_id_to_global_thread_id (at_node c node) l ≡ g)
  unfolding before
  global_to_local_to_global g h =
      let (j, o) = Owns-total c g h in
      (
        j,
        g - before c j,
        node_id-some c g j o,
        local_id-some c g j o,
        o.is_node,
        omega (arith, o.to, o.from),
        rw (local_to_global-before (at_node c j), before-at_node c j j) (omega (arith, o.from)),
      )

  -- The global number of a worker of this node leads back to the node and to the local number.
  pub local_to_global_to_local :
      (l : ℕ)
      → c.mpi_rank < c.mpi_nodes
      → l < c.nworkers c.mpi_rank
      → (global_thread_id_to_node_id c (local_thread_id_to_global_thread_id c l) ≡ some c.mpi_rank)
        × (global_thread_id_to_local_thread_id c (local_thread_id_to_global_thread_id c l) ≡ some l)
  local_to_global_to_local l h k =
      let o = Owns-local c l h k in
      rw (local_to_global-before c l)
        (node_id-some c _ _ o, local_id-some c _ _ o ∙ ap some (omega arith))
