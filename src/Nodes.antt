-- ===== src/Nodes.antt =====
-- src/torc_comm.c and src/torc.c: nodes, workers, and the numbering of the workers of all nodes.
-- `_torc_comm_init` fills `node_info[i].nworkers` from all nodes; here it is a field.
pub mod Prefix
pub mod Ids
pub mod Workers
use torc_lite.Common.{
  ℕ, zero, suc, ◌+◌, ◌-◌, ◌%◌, Bool, Option, none, some, ltb, if◌then◌else◌, ◌>>=◌,
}
use torc_lite.Common.Int.{ℤ, pos, negsuc, minus_one, eq_ℤ, ◌+ℤ◌}

-- What a node knows of the machine: its rank, the number of nodes, of its own threads, and of the
-- threads of every node.
pub record Cluster : Type 0 where
  pub mpi_rank : ℕ
  pub mpi_nodes : ℕ
  pub kthreads : ℕ
  pub nworkers : ℕ → ℕ

abbrev pub torc_node_id : Cluster → ℕ
torc_node_id c = c.mpi_rank

abbrev pub torc_num_nodes : Cluster → ℕ
torc_num_nodes c = c.mpi_nodes

abbrev pub torc_i_num_workers : Cluster → ℕ
torc_i_num_workers c = c.kthreads

unfoldable pub num_threads : Cluster → ℕ → ℕ
num_threads c node_id = c.nworkers node_id

-- `for (i = …; i < …; i++) sum_vp += _torc_num_threads(i);` with `k` rounds left.
unfoldable pub sum_loop : Cluster → (k i sum_vp : ℕ) → ℕ
unfolding num_threads
sum_loop c zero i sum_vp = sum_vp
sum_loop c (suc k) i sum_vp = sum_loop c k (suc i) (sum_vp + num_threads c i)

unfoldable pub total_num_threads : Cluster → ℕ
unfolding sum_loop
total_num_threads c = sum_loop c (torc_num_nodes c) 0 0

-- `none` is the abort by `Error`.
unfoldable pub node_loop : Cluster → (global_thread_id k i sum_vp : ℕ) → Option ℕ
unfolding num_threads
node_loop c g zero i sum_vp = none
node_loop c g (suc k) i sum_vp =
    let sum_vp' = sum_vp + num_threads c i in
    let rest = node_loop c g k (suc i) sum_vp' in if ltb g sum_vp' then some i else rest

unfoldable pub global_thread_id_to_node_id : Cluster → ℕ → Option ℕ
unfolding node_loop
global_thread_id_to_node_id c g = node_loop c g (torc_num_nodes c) 0 0

unfoldable pub local_thread_id_to_global_thread_id : Cluster → ℕ → ℕ
unfolding sum_loop
local_thread_id_to_global_thread_id c l = sum_loop c (torc_node_id c) 0 0 + l

unfoldable pub global_thread_id_to_local_thread_id : Cluster → ℕ → Option ℕ
unfolding global_thread_id_to_node_id sum_loop
global_thread_id_to_local_thread_id c g = do
  mynode ← global_thread_id_to_node_id c g
  some (g - sum_loop c mynode 0 0)

unfoldable pub torc_num_workers : Cluster → ℕ
unfolding total_num_threads
torc_num_workers c = if ltb 1 (torc_num_nodes c) then total_num_threads c else torc_i_num_workers c

-- `vp_id` is the number of the calling thread on its node.
unfoldable pub torc_worker_id : Cluster → (vp_id : ℕ) → ℕ
unfolding local_thread_id_to_global_thread_id
torc_worker_id c vp_id =
    if ltb 1 (torc_num_nodes c) then local_thread_id_to_global_thread_id c vp_id else vp_id

-- C's remainder of an `int` by a positive number: it has the sign of the dividend.
abbrev pub rem_int : ℤ → ℕ → ℤ
rem_int (pos n) m = pos (n % m)
rem_int (negsuc n) m = elim (suc n % m) [ zero ↦ pos 0 | suc r ↦ negsuc r ]

unfoldable pub torc_sched_nextcpu : Cluster → (vp_id : ℕ) → (cpu stride : ℤ) → ℤ
unfolding torc_worker_id torc_num_workers
torc_sched_nextcpu c vp_id cpu stride =
    if eq_ℤ cpu minus_one
    then pos (torc_worker_id c vp_id)
    else rem_int (cpu +ℤ stride) (torc_num_workers c)
