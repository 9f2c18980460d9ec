-- ===== src/Tests/Machine.antt =====
-- Worker numbers, data types and the table of functions: runs, and the theorems at small inputs.
use torc_lite.Common.{ℕ, zero, suc, ◌+◌, ◌<◌, update, ◌≡◌, refl, List, [], ◌∷◌, some, arith}
use torc_lite.Common.Int.{pos}
use torc_lite.Nodes.{
  Cluster, global_thread_id_to_node_id, global_thread_id_to_local_thread_id,
  local_thread_id_to_global_thread_id, torc_num_workers, total_num_threads,
}
use torc_lite.Nodes.Ids.{IsReady, at_node, global_to_local_to_global}
use torc_lite.Types.{Handles, torc_mpi2b_type}
use torc_lite.Table.{Table, empty, register, getfuncnum}
use torc_lite.Table.Order.{register_all}

-- Three nodes with 2, 3 and 1 workers, seen from the second.
abbrev pub cluster : Cluster
cluster = record {
  mpi_rank = 1;
  mpi_nodes = 3;
  kthreads = 3;
  nworkers = elim [ zero ↦ 2 | suc k ↦ elim k [ zero ↦ 3 | suc _ ↦ 1 ] ];
}

pub cluster-IsReady : IsReady cluster
cluster-IsReady = omega arith

abbrev node_of_4 : ℕ
node_of_4 = 1

worker_4 : global_thread_id_to_node_id cluster 4 ≡ some node_of_4
unfolding global_thread_id_to_node_id
worker_4 = refl

total_6 : total_num_threads cluster ≡ 6
unfolding total_num_threads
total_6 = refl

pub workers_6 : torc_num_workers cluster ≡ 6
unfolding torc_num_workers
workers_6 = refl

global_to_local_to_global_example :
    (node l : ℕ) × (global_thread_id_to_node_id cluster 4 ≡ some node)
    × (global_thread_id_to_local_thread_id cluster 4 ≡ some l)
    × (node < 3)
    × (l < cluster.nworkers node)
    × (local_thread_id_to_global_thread_id (at_node cluster node) l ≡ 4)
global_to_local_to_global_example = global_to_local_to_global cluster 4 (omega (arith, total_6))

-- Handles of which two agree: MPI_CHARACTER is MPI_CHAR.
abbrev pub alike : Handles
alike = record {
  mpi_char = 1;
  mpi_int = 2;
  mpi_long = 3;
  mpi_long_long = 4;
  mpi_unsigned = 5;
  mpi_unsigned_long = 6;
  mpi_unsigned_long_long = 7;
  mpi_float = 8;
  mpi_double = 9;
  mpi_long_double = 10;
  mpi_real = 11;
  mpi_double_precision = 12;
  mpi_integer = 13;
  mpi_character = 1;
}

pub double_code : torc_mpi2b_type alike 9 ≡ some 12
unfolding torc_mpi2b_type
double_code = refl

abbrev functions : List ℕ
functions = 40 ∷ 50 ∷ 60 ∷ 50 ∷ []

-- What registering them gives, and a function's number.
abbrev pub filled : Table
filled = record {
  number_of_functions = 4;
  internode_function_table = update (update (update (update (λ _. 0) 0 40) 1 50) 2 60) 3 50;
}

filled_by_registering : register_all functions empty ≡ some filled
unfolding register_all register
filled_by_registering = refl

number_of_50 : getfuncnum 50 filled ≡ pos 1
unfolding getfuncnum
number_of_50 = refl

abbrev moved : ℕ → ℕ
moved f = f + 1000

moved_injective : (a b : ℕ) → moved a ≡ moved b → a ≡ b
moved_injective a b e = omega arith
