-- ===== src/Start.antt =====
-- The start of the program on a node: `__torc_opt` and `_torc_env_init` of src/torc_runtime.c,
-- `_torc_comm_pre_init` and `_torc_comm_init` of src/torc_comm.c, `torc_init` of src/torc.c. What MPI
-- and the environment say is a parameter.
pub mod Machine
use torc_lite.Common.{
  ℕ, zero, suc, ◌+◌, Bool, true, false, not, Option, none, some, List, [], ◌∷◌, ◌==◌, ltb,
  if◌then◌else◌, update, ◌>>=◌,
}
use torc_lite.Common.Int.{ℤ, pos, minus_one, pos_part, ltb_ℤ, eq_ℤ, ◌+ℤ◌}
use torc_lite.Desc.{Ptr, Desc, zero_desc, max_nvps}
use torc_lite.Table.{Table, register}
use torc_lite.Nodes.{Cluster}
use torc_lite.Node.{Node, set_desc, rq_init}

-- The environment variables: `none` is one that is not set, or does not start with a number.
pub record Variables : Type 0 where
  pub omp_num_threads : Option ℤ
  pub torc_workers : Option ℤ
  pub torc_yieldtime : Option ℤ
  pub torc_throttling_factor : Option ℤ

-- What MPI says of a process, and the level of thread support that means any number of threads.
pub record Mpi : Type 0 where
  pub rank : ℕ
  pub size : ℕ
  pub provided : ℕ
  pub thread_multiple : ℕ

pub record Options : Type 0 where
  pub mpi_rank : ℕ
  pub mpi_nodes : ℕ
  pub thread_safe : Bool
  pub kthreads : ℕ
  pub yieldtime : ℕ
  pub throttling_factor : ℤ

abbrev pub torc_def_cpus : ℕ
torc_def_cpus = 1

abbrev pub torc_def_yieldtime : ℕ
torc_def_yieldtime = 10

abbrev pub max_nodes : ℕ
max_nodes = 1024

-- `if (s != 0 && sscanf(s, "%d", &val) == 1 && val > 0) x = val;`
unfoldable pub positive_or : Option ℤ → ℕ → ℕ
positive_or none x = x
positive_or (some val) x = if ltb_ℤ (pos 0) val then pos_part val else x

-- The same, where `x` is -1 before.
unfoldable pub throttling : Option ℤ → ℤ
throttling none = minus_one
throttling (some val) = if ltb_ℤ (pos 0) val then val else minus_one

-- `__torc_opt`
unfoldable pub torc_opt : Variables → Mpi → Options
unfolding positive_or throttling
torc_opt v m = record {
  mpi_rank = m.rank;
  mpi_nodes = m.size;
  thread_safe = m.provided == m.thread_multiple;
  kthreads = positive_or v.torc_workers (positive_or v.omp_num_threads torc_def_cpus);
  yieldtime = positive_or v.torc_yieldtime torc_def_yieldtime;
  throttling_factor = throttling v.torc_throttling_factor;
}

-- The static variables of src/torc_comm.c for the nodes.
pub record Info : Type 0 where
  pub already_called : ℤ
  pub node_info : ℕ → ℕ

abbrev pub no_info : Info
no_info = record { already_called = minus_one; node_info = λ _. 0 }

unfoldable pub torc_comm_pre_init : Info → Info
torc_comm_pre_init s =
    let called = s.already_called +ℤ pos 1 in
    if eq_ℤ called (pos 0)
    then record { already_called = called; node_info = λ _. 0 }
    else record s { already_called = called }

-- `for (i = 0; i < torc_num_nodes(); i++) node_info[i].nworkers = workers[i];`, with `k` rounds left.
-- Both arrays have MAX_NODES entries: `none` is an access behind the end.
unfoldable pub info_loop : (workers : ℕ → ℕ) → (k i : ℕ) → (ℕ → ℕ) → Option (ℕ → ℕ)
info_loop workers zero i info = some info
info_loop workers (suc k) i info =
    let rest = info_loop workers k (suc i) (update info i (workers i)) in
    if ltb i max_nodes then rest else none

-- `_torc_comm_init`; `workers` is what MPI has gathered of the nodes.
unfoldable pub torc_comm_init : (workers : ℕ → ℕ) → Options → Info → Option (Info × Cluster)
unfolding info_loop
torc_comm_init workers o s = do
  info ← info_loop workers o.mpi_nodes 0 s.node_info
  some (
    record s { node_info = info },
    record {
      mpi_rank = o.mpi_rank;
      mpi_nodes = o.mpi_nodes;
      kthreads = o.kthreads;
      nworkers = info;
    },
  )

-- The data of the process when `torc_data` has been filled with zeros. The first descriptor and the
-- first buffer that the process allocates have the address 1.
abbrev pub zero_data : Node
zero_data = record {
  cluster = record { mpi_rank = 0; mpi_nodes = 0; kthreads = 0; nworkers = λ _. 0 };
  desc = λ _. zero_desc;
  fresh_desc = 1;
  reuse_q = [];
  private_grq = [];
  public_grq = λ _. [];
  internode_stealing = false;
  appl_finished = 0;
  termination_flag = false;
  invisible_flag = false;
  created = λ _. 0;
  executed = λ _. 0;
  steal_hits = 0;
  steal_served = 0;
  steal_attempts = 0;
  rq_node = none;
  rq_end_node = none;
  rq_end_worker = none;
  sent = [];
  fresh_block = 1;
  blocks = [];
  copies = [];
  freed = [];
}

-- The start of `_torc_worker`: the descriptor of the worker `vp_id`, its current task.
unfoldable pub worker_desc : (scheduler_loop vp_id : ℕ) → Node → Node × Ptr
worker_desc scheduler_loop vp_id n = (
  set_desc n.fresh_desc (record zero_desc { vp_id = pos vp_id; work = scheduler_loop })
      (record n { fresh_desc = n.fresh_desc + 1 }),
  n.fresh_desc,
)

-- The state of the process before and after its start; `torc_data` is a pointer that is NULL at
-- first.
pub record Program : Type 0 where
  pub torc_initialized : Bool
  pub table : Table
  pub info : Info
  pub torc_data : Option Node
  pub options : Option Options

-- `torc_init_comm`, and `torc_init` for MPI_COMM_WORLD, up to `_torc_worker(0)`, less the threads that
-- `_torc_env_init` starts: the workers and the server thread, which take their descriptors themselves. `internal` is the address of `torc_register_task_internal`, `mpi` what MPI
-- says for the communicator; `none` is an access behind the end of a table.
unfoldable pub torc_init_comm :
    (internal : ℕ) → Variables → Mpi → (workers : ℕ → ℕ) → Program → Option Program
unfolding register torc_opt torc_comm_pre_init torc_comm_init rq_init
torc_init_comm internal v mpi workers p = if p.torc_initialized then some p else do
  table ← register internal p.table
  let o = torc_opt v mpi
  (info, cluster) ← torc_comm_init workers o (torc_comm_pre_init p.info)
  some (record {
    torc_initialized = true;
    table = table;
    info = info;
    torc_data = some (record (rq_init zero_data) { cluster = cluster });
    options = some o;
  })

-- The workers 0, …, k - 1 start, in an order that does not matter: the descriptors of the workers.
unfoldable workers_started : (scheduler_loop k : ℕ) → Node → Node × List Ptr
unfolding worker_desc
workers_started f zero n = (n, [])
workers_started f (suc k) n =
    let (n1, ps) = workers_started f k n in let (n2, p) = worker_desc f k n1 in (n2, p ∷ ps)
