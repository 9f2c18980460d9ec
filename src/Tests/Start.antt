-- ===== src/Tests/Start.antt =====
-- Two nodes start, the first with two workers and the second with one; and the end of the second.
use torc_lite.Common.{ℕ, zero, suc, ◌<◌, ◌≡◌, refl, Option, none, some, arith}
use torc_lite.Common.Int.{pos}
use torc_lite.Nodes.{
  Cluster, global_thread_id_to_node_id, global_thread_id_to_local_thread_id,
  local_thread_id_to_global_thread_id,
}
use torc_lite.Nodes.Ids.{IsReady}
use torc_lite.Start.{Variables, Mpi, Info, no_info, torc_opt, torc_comm_init, zero_data}
use torc_lite.Start.Machine.{IsMachine, comm_init-IsReady, comm_init-numbers}

abbrev vars : ℕ → Variables
vars zero = record {
  omp_num_threads = some (pos 8);
  torc_workers = some (pos 2);
  torc_yieldtime = none;
  torc_throttling_factor = none;
}
vars (suc i) = record {
  omp_num_threads = none;
  torc_workers = none;
  torc_yieldtime = none;
  torc_throttling_factor = none;
}

abbrev mpi : ℕ → Mpi
mpi r = record { rank = r; size = 2; provided = 3; thread_multiple = 3 }

abbrev workers : ℕ → ℕ
workers zero = 2
workers (suc i) = 1

gathered : (i : ℕ) → workers i ≡ (torc_opt (vars i) (mpi i)).kthreads
unfolding torc_opt
gathered zero = refl
gathered (suc i) = refl

two_nodes : IsMachine vars mpi (λ r. workers) 2
two_nodes = record {
  ranks = λ r b. refl;
  sizes = λ r b. refl;
  gathered = λ r i a b. gathered i;
  fits = omega arith;
}

comm_init-IsReady_example :
    (s' : Info) × (c : Cluster) × (torc_comm_init workers (torc_opt (vars 1) (mpi 1)) no_info
      ≡ some (s', c))
    × IsReady c
    × ((i : ℕ) → i < 2 → c.nworkers i ≡ (torc_opt (vars i) (mpi i)).kthreads)
comm_init-IsReady_example =
    comm_init-IsReady vars mpi (λ r. workers) 2 two_nodes 1 no_info (omega arith)

abbrev cluster_of : Option (Info × Cluster) → Info × Cluster
cluster_of none = (no_info, zero_data.cluster)
cluster_of (some r) = r

abbrev started : ℕ → Info × Cluster
started r = cluster_of (torc_comm_init workers (torc_opt (vars r) (mpi r)) no_info)

started-some_0 : torc_comm_init workers (torc_opt (vars 0) (mpi 0)) no_info ≡ some (started 0)
unfolding torc_comm_init torc_opt
started-some_0 = refl

started-some_1 : torc_comm_init workers (torc_opt (vars 1) (mpi 1)) no_info ≡ some (started 1)
unfolding torc_comm_init torc_opt
started-some_1 = refl

comm_init-numbers_example :
    (global_thread_id_to_node_id (started 1).1 (local_thread_id_to_global_thread_id (started 0).1 1)
      ≡ some 0)
    × (global_thread_id_to_local_thread_id
          (started 1).1
          (local_thread_id_to_global_thread_id (started 0).1 1)
        ≡ some 1)
comm_init-numbers_example =
    comm_init-numbers vars mpi (λ r. workers) 2 two_nodes 0 1 1 no_info (started 0).0 no_info
      (started 1).0 (started 0).1 (started 1).1 (omega arith) (omega arith)
      (omega (arith, gathered 0)) started-some_0 started-some_1
