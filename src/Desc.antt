-- ===== src/Desc.antt =====
-- The task descriptor `torc_t` and the constants of include/torc.h, include/torc_internal.h and
-- include/torc_mpi_internal.h. The mutex `lock` has no field: a critical section is one operation.
use torc_lite.Common.{ℕ}
use torc_lite.Common.Int.{ℤ, pos}

-- An address in the memory of a node; `null` is NULL.
abbrev pub Ptr : Type 0
Ptr = ℕ

abbrev pub null : Ptr
null = 0

-- Ways to call with an argument.
abbrev pub call_by_cop : ℕ
call_by_cop = 1

abbrev pub call_by_ref : ℕ
call_by_ref = 2

abbrev pub call_by_res : ℕ
call_by_res = 3

abbrev pub call_by_ptr : ℕ
call_by_ptr = 4

abbrev pub call_by_cop2 : ℕ
call_by_cop2 = 5

abbrev pub call_by_vad : ℕ
call_by_vad = 6

-- Sizes of the fixed tables.
abbrev pub max_nvps : ℕ
max_nvps = 64

abbrev pub max_torc_args : ℕ
max_torc_args = 24

abbrev pub max_torc_tasks : ℕ
max_torc_tasks = 128

-- Request types.
abbrev pub terminate_local_server_thread : ℕ
terminate_local_server_thread = 120

abbrev pub terminate_worker_threads : ℕ
terminate_worker_threads = 121

abbrev pub direct_synchronous_stealing : ℕ
direct_synchronous_stealing = 123

abbrev pub disable_internode_stealing : ℕ
disable_internode_stealing = 124

abbrev pub enable_internode_stealing : ℕ
enable_internode_stealing = 125

abbrev pub reset_statistics : ℕ
reset_statistics = 126

abbrev pub torc_answer : ℕ
torc_answer = 140

abbrev pub torc_normal_enqueue : ℕ
torc_normal_enqueue = 141

abbrev pub torc_no_work : ℕ
torc_no_work = 142

abbrev pub torc_bcast : ℕ
torc_bcast = 145

-- The entries number i of the six argument arrays. `localarg` and `temparg` hold a value or an
-- address, as 64-bit patterns.
pub record Arg : Type 0 where
  pub btype : ℕ
  pub dtype : ℕ
  pub quantity : ℕ
  pub callway : ℕ
  pub localarg : ℕ
  pub temparg : ℕ

-- The links `prev` and `next` of every descriptor stand apart, in `Links` of Queue.
pub record Desc : Type 0 where
  pub parent : Ptr
  pub vp_id : ℤ
  pub work : ℕ
  pub work_id : ℤ
  pub narg : ℕ
  pub ndep : ℤ
  pub homenode : ℕ
  pub sourcenode : ℕ
  pub sourcevpid : ℤ
  pub target_queue : ℤ
  pub inter_node : ℕ
  pub insert_in_front : ℕ
  pub insert_private : ℕ
  pub rte_type : ℕ
  pub type : ℕ
  pub level : ℕ
  pub args : ℕ → Arg

-- What `memset(ptr, 0, size)` and `calloc` leave.
abbrev pub zero_arg : Arg
zero_arg = record { btype = 0; dtype = 0; quantity = 0; callway = 0; localarg = 0; temparg = 0 }

abbrev pub zero_desc : Desc
zero_desc = record {
  parent = null;
  vp_id = pos 0;
  work = 0;
  work_id = pos 0;
  narg = 0;
  ndep = pos 0;
  homenode = 0;
  sourcenode = 0;
  sourcevpid = pos 0;
  target_queue = pos 0;
  inter_node = 0;
  insert_in_front = 0;
  insert_private = 0;
  rte_type = 0;
  type = 0;
  level = 0;
  args = λ _. zero_arg;
}
