-- ===== src/Registration.antt =====
-- `torc_register_task` of src/torc_comm.c: before initialisation it writes the table of functions;
-- after it, it creates one task for each node, which registers the function there.
pub mod Targets
pub mod Alone
use torc_lite.Common.{
  ℕ, zero, suc, ◌*◌, Bool, Option, some, true, List, [], ◌∷◌, ◌>>=◌, if◌then◌else◌,
}
use torc_lite.Desc.{Desc, call_by_cop}
use torc_lite.Table.{Table, register}
use torc_lite.Nodes.{Cluster, torc_num_nodes, torc_i_num_workers}
use torc_lite.Node.{Node, Thread}
use torc_lite.Exec.{Call}
use torc_lite.Waiting.{torc_block}
use torc_lite.Create.{Env, ArgSpec, torc_task_ex}

-- The worker that gets the task for the node `i`.
unfoldable pub register_target : Cluster → ℕ → ℕ
register_target c i = i * torc_i_num_workers c

-- The argument: the 64-bit word `F` at an address.
abbrev pub register_argument : Env → (address : ℕ) → ArgSpec
register_argument env address = record {
  quantity = 1;
  dtype = env.handles.mpi_long_long;
  callway = call_by_cop;
  value = address;
}

-- `internal` is the address of the function `torc_register_task_internal`.
unfoldable pub register_loop :
    Env → Table → Thread → (internal address : ℕ) → (k i : ℕ) → Node → Option Node
unfolding register_target
register_loop env table t internal address zero i n = some n
register_loop env table t internal address (suc k) i n =
    torc_task_ex env table t (some (register_target n.cluster i)) true internal
      (register_argument env address ∷ []) n
    >>= register_loop env table t internal address k (suc i)

-- `others` is what the other threads of the node do during the wait.
module _ (env : Env) (answer : (target : ℕ) → Node → Desc) (t : Thread)
    (run : Thread → Call → Node → Node) (others : ℕ → Node → Node) (internal address : ℕ) where
  -- The loop, for `nodes` nodes, and the wait for its tasks, with one test of the counter more than
  -- there are tasks.
  unfoldable pub register_everywhere : (nodes : ℕ) → Table → Node → Option Node
  unfolding register_loop
  register_everywhere nodes table n =
      register_loop env table t internal address nodes 0 n
      >>= torc_block env.handles env.type_size answer t run table others (suc nodes)

  -- After initialisation it is the task for this node that writes the table, before the wait ends.
  unfoldable pub torc_register_task :
      (torc_initialized : Bool) (f : ℕ) → Table → Node → Option (Table × Node)
  unfolding register_everywhere
  torc_register_task torc_initialized f table n = do
    m ← if torc_initialized then register_everywhere (torc_num_nodes n.cluster) table n else some n
    u ← register f table
    some (u, m)
