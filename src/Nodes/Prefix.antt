-- ===== src/Nodes/Prefix.antt =====
-- The number of workers on the nodes below a node, and the loops that add them up.
use torc_lite.Common.{
  ℕ, zero, suc, ◌+◌, ◌-◌, ◌≤◌, ◌<◌, ◌≡◌, Option, none, some, inl, inr, Bool-cases, ltb, tests,
  arith,
}
use torc_lite.Nodes.{Cluster, num_threads, sum_loop, node_loop}

-- The workers of the nodes 0, …, n - 1.
unfoldable pub before : Cluster → ℕ → ℕ
before c zero = 0
before c (suc n) = before c n + c.nworkers n

-- The node `j` holds the worker `g`.
pub record Owns (c : Cluster) (g j : ℕ) : Type 0 where
  pub is_node : j < c.mpi_nodes
  pub from : before c j ≤ g
  pub to : g < before c (suc j)

module _ (c : Cluster) where
  pub before_mono : (i k n : ℕ) → n ≡ i + k → before c i ≤ before c n
  unfolding before
  before_mono i k zero e = ground arith
  before_mono i zero n e = ground arith
  before_mono i (suc k) (suc n) e = omega (arith, before_mono i k n (omega arith))

  pub before_le : (i n : ℕ) → i ≤ n → before c i ≤ before c n
  before_le i n h = before_mono i (n - i) n (omega arith)

  pub sum_loop-before : (k i n : ℕ) → n ≡ i + k → sum_loop c k i (before c i) ≡ before c n
  unfolding sum_loop num_threads before
  sum_loop-before zero i n e = ground arith
  sum_loop-before (suc k) i n e = sum_loop-before k (suc i) n (omega arith)

  -- The loop finds the node that holds the worker, and none only past the last worker.
  abbrev pub Found : (g n : ℕ) → Option ℕ → Type 0
  Found g n none = before c n ≤ g
  Found g n (some j) = (j < n) × (before c j ≤ g) × (g < before c (suc j))

  pub node_loop-Found :
      (g k i n : ℕ) → n ≡ i + k → before c i ≤ g → Found g n (node_loop c g k i (before c i))
  unfolding node_loop num_threads before
  node_loop-Found g zero i n e h = ground arith
  node_loop-Found g (suc k) i n e h = elim (Bool-cases (ltb g (before c i + c.nworkers i))) [
    | inl t ↦ rw t (omega tests)
    | inr f ↦ rw f (node_loop-Found g k (suc i) n (omega arith) (omega tests))
  ]
