-- ===== src/Registration/Targets.antt =====
-- The workers that `torc_register_task` of src/torc_comm.c creates its tasks for.
use torc_lite.Common.{ℕ, zero, suc, ◌-◌, ◌*◌, ◌≤◌, ◌<◌, ◌≡◌, ap, ◌∙◌, some, arith}
use torc_lite.Nodes.{Cluster, global_thread_id_to_node_id, global_thread_id_to_local_thread_id}
use torc_lite.Nodes.Prefix.{before, Owns}
use torc_lite.Nodes.Ids.{node_id-some, local_id-some}
use torc_lite.Registration.{register_target}

module _ (c : Cluster) (equal : (j : ℕ) → j < c.mpi_nodes → c.nworkers j ≡ c.kthreads) where
  before-times : (n : ℕ) → n ≤ c.mpi_nodes → before c n ≡ n * c.kthreads
  unfolding before
  before-times zero b = ground arith
  before-times (suc n) b = grind (arith, before-times n (omega arith), equal n (omega arith))

  target-Owns : (i : ℕ) → i < c.mpi_nodes → 0 < c.kthreads → Owns c (register_target c i) i
  unfolding register_target before
  target-Owns i b w = record {
    is_node = b;
    from = omega (arith, before-times i (omega arith));
    to = omega (arith, before-times i (omega arith), equal i b);
  }

  -- If all nodes have as many workers as this one, and it has some, then the task of
  -- `torc_register_task` for the node `i` is for the first worker of the node `i`.
  pub register_target-first :
      (i : ℕ)
      → i < c.mpi_nodes
      → 0 < c.kthreads
      → (global_thread_id_to_node_id c (register_target c i) ≡ some i)
        × (global_thread_id_to_local_thread_id c (register_target c i) ≡ some 0)
  register_target-first i b w =
      let o = target-Owns i b w in
      let first : register_target c i - before c i ≡ 0 =
        unfold register_target in omega (arith, before-times i (omega arith)) in
      (
        node_id-some c (register_target c i) i o,
        local_id-some c (register_target c i) i o ∙ ap some first,
      )
