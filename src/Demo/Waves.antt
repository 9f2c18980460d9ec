-- ===== src/Demo/Waves.antt =====
-- The demo programs that create tasks in a loop and wait for them: demo/masterslave.c,
-- demo/struct.c, demo/zerolength.c, demo/mbench1.c and demo/broadcast.c. The addresses of functions
-- and variables, what memory holds when task number i is created, and what the other threads of the
-- node do during a wait (`others`) are parameters.
pub mod Jobs
pub mod Runs
use torc_lite.Common.{
  ℕ, zero, suc, ◌+◌, ◌*◌, Bool, Option, none, some, List, [], ◌∷◌, ◌==◌, if◌then◌else◌, ◌>>=◌,
}
use torc_lite.Desc.{Ptr, null, Desc, call_by_cop, call_by_ref, call_by_res}
use torc_lite.Types.{Handles}
use torc_lite.Table.{Table}
use torc_lite.Nodes.{torc_num_workers}
use torc_lite.Node.{Node, Thread}
use torc_lite.Exec.{Call}
use torc_lite.Create.{Env, ArgSpec, torc_task}
use torc_lite.Server.{torc_enable_stealing, torc_disable_stealing}
use torc_lite.Broadcast.{torc_broadcast}
use torc_lite.Waiting.{torc_block}
use torc_lite.Waiting.Forks.{Job}

-- An argument of one value, or of `quantity`.
abbrev pub argument_of : (quantity dtype callway value : ℕ) → ArgSpec
argument_of quantity dtype callway value = record {
  quantity = quantity;
  dtype = dtype;
  callway = callway;
  value = value;
}

-- The call of `torc_create` for the task number `i`: masterslave.c, with the variable `di` at the
-- address `di` and the array `result` of values of type double.
unfoldable pub masterslave_job : (env : ℕ → Env) (slave di result : ℕ) → ℕ → Job
masterslave_job env slave di result i = record {
  env = env i;
  queue = none;
  work = slave;
  specs =
      argument_of 1 (env i).handles.mpi_double call_by_cop di
      ∷ argument_of 1 (env i).handles.mpi_double call_by_res (result + 8 * i)
      ∷ [];
}

-- struct.c: a structure of 272 bytes is passed as 34 values of type long.
unfoldable pub struct_job : (env : ℕ → Env) (slave ttd result : ℕ) → ℕ → Job
struct_job env slave ttd result i = record {
  env = env i;
  queue = none;
  work = slave;
  specs =
      argument_of 34 (env i).handles.mpi_long call_by_ref (ttd + 272 * i)
      ∷ argument_of 1 (env i).handles.mpi_double call_by_res (result + 8 * i)
      ∷ [];
}

-- zerolength.c: `x i` is what `malloc` returns for the vector number `i`, of `sz` values.
unfoldable pub zerolength_job :
    (env : ℕ → Env) (slave di result : ℕ) (x : ℕ → ℕ) (sz sz_address : ℕ) → ℕ → Job
zerolength_job env slave di result x sz sz_address i = record {
  env = env i;
  queue = none;
  work = slave;
  specs =
      argument_of 1 (env i).handles.mpi_double call_by_cop di
      ∷ argument_of 1 (env i).handles.mpi_double call_by_res (result + 8 * i)
      ∷ argument_of sz (env i).handles.mpi_double call_by_res (if sz == 0 then null else x i)
      ∷ argument_of 1 (env i).handles.mpi_int call_by_cop sz_address
      ∷ [];
}

-- mbench1.c: the counter of the loop itself, at the address `i_address`.
unfoldable pub mbench_job : (env : ℕ → Env) (slave i_address : ℕ) → ℕ → Job
mbench_job env slave i_address i = record {
  env = env i;
  queue = none;
  work = slave;
  specs = argument_of 1 (env i).handles.mpi_long call_by_cop i_address ∷ [];
}

-- broadcast.c
unfoldable pub broadcast_job : (env : ℕ → Env) (slave bstate : ℕ) → ℕ → Job
broadcast_job env slave bstate i = record {
  env = env i;
  queue = none;
  work = slave;
  specs = argument_of 1 (env i).handles.mpi_int call_by_cop bstate ∷ [];
}

-- `for (i = …; i < cnt; i++)` around a creation, with `k` rounds left.
unfoldable pub create_loop : Table → Thread → (job : ℕ → Job) → (k i : ℕ) → Node → Option Node
create_loop table t job zero i n = some n
create_loop table t job (suc k) i n =
    let j = job i in
    torc_task j.env table t j.queue j.work j.specs n >>= create_loop table t job k (suc i)

module _ (h : Handles) (type_size : ℕ → ℕ) (answer : (target : ℕ) → Node → Desc) (t : Thread)
    (run : Thread → Call → Node → Node) (table : Table) (others : ℕ → Node → Node) where
  -- A loop and the wait behind it, with one test of the counter more than there are tasks.
  unfoldable pub wave : (job : ℕ → Job) → (cnt : ℕ) → Node → Option Node
  unfolding create_loop
  wave job cnt n =
      create_loop table t job cnt 0 n >>= torc_block h type_size answer t run table others (suc cnt)

  unfoldable pub masterslave : (job : ℕ → Job) → Node → Option Node
  unfolding wave
  masterslave job n = wave job 4 (torc_enable_stealing t n)

  unfoldable pub struct_main : (job : ℕ → Job) → Node → Option Node
  unfolding create_loop
  struct_main job n = do
    n1 ← create_loop table t job 4 0 n
    n2 ← torc_block h type_size answer t run table others 5 (torc_enable_stealing t n1)
    some (torc_disable_stealing t n2)

  unfoldable pub zerolength : (job : ℕ → Job) → Node → Option Node
  unfolding wave
  zerolength job n = wave job 4 n

  -- `for (iteration = 0; iteration < niterations; iteration++)`, with `k` rounds left.
  unfoldable pub my_main : (job : ℕ → Job) → (count k : ℕ) → Node → Option Node
  unfolding wave
  my_main job count zero n = some n
  my_main job count (suc k) n = wave job count n >>= my_main job count k

  -- `gi`, `gd`, `gti` and `gtd` are the addresses of the global variables.
  unfoldable pub broadcast_main : (before after : ℕ → Job) (gi gd gti gtd : ℕ) → Node → Option Node
  unfolding wave
  broadcast_main before after gi gd gti gtd n = do
    let ntasks = torc_num_workers n.cluster
    n1 ← wave before ntasks n
    n2 ← torc_broadcast h t gi 1 h.mpi_int n1
    n3 ← torc_broadcast h t gd 1 h.mpi_double n2
    n4 ← torc_broadcast h t gti 16 h.mpi_int n3
    n5 ← torc_broadcast h t gtd 16 h.mpi_double n4
    wave after ntasks n5
