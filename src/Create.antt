-- ===== src/Create.antt =====
-- Creating tasks: the functions `torc_task…` of src/torc.c. The arguments of the variadic calls
-- come as a list. What memory holds at an address, and the sizes and handles of MPI's data types,
-- are parameters.
pub mod Sendable
pub mod Parent
pub mod Total
use torc_lite.Common.{
  ℕ, zero, suc, ◌+◌, ◌-◌, ◌*◌, ◌^◌, Bool, true, false, ◌&&◌, ◌||◌, not, Option, none, some, List,
  [], ◌∷◌, ◌++◌, ◌==◌, ltb, if◌then◌else◌, length, update, ◌>>=◌,
}
use torc_lite.Common.Int.{ℤ, pos, minus_one, pos_part}
use torc_lite.Desc.{Ptr, null, Arg, Desc, max_torc_args, call_by_cop, call_by_cop2}
use torc_lite.Types.{Handles, torc_mpi2b_type}
use torc_lite.Table.{Table, getfuncnum}
use torc_lite.Deps.{first_child, torc_depadd}
use torc_lite.Nodes.{torc_node_id, torc_worker_id}
use torc_lite.Node.{Node, Thread, set_desc, torc_get_reused_desc}
use torc_lite.Routing.{torc_to_rq_end, torc_to_lrq_end}

pub record Env : Type 0 where
  pub handles : Handles
  pub type_size : ℕ → ℕ
  -- the 32-bit and the 64-bit word at an address
  pub load32 : ℕ → ℕ
  pub load64 : ℕ → ℕ

-- One argument of a call: count, data type, way to call, and the value or address.
pub record ArgSpec : Type 0 where
  pub quantity : ℕ
  pub dtype : ℕ
  pub callway : ℕ
  pub value : ℕ

-- An INT32 becomes an INT64.
unfoldable pub sign_extend : ℕ → ℕ
sign_extend x = if ltb x (2 ^ 31) then x else x + (2 ^ 64 - 2 ^ 32)

-- `_torc_set_work_routine`
unfoldable pub torc_set_work_routine : ℕ → Table → Desc → Desc
torc_set_work_routine work t d = record d { work = work; work_id = getfuncnum work t }

module _ (env : Env) where
  -- The first loop over the arguments. `none` is the abort for an unsupported type.
  unfoldable pub header : ArgSpec → Arg → Option Arg
  header s a = do
    btype ← torc_mpi2b_type env.handles s.dtype
    some (record a {
      quantity = s.quantity;
      dtype = s.dtype;
      btype = btype;
      callway = if (s.callway == call_by_cop) && ltb 1 s.quantity then call_by_cop2 else s.callway;
    })

  unfoldable pub header_loop : List ArgSpec → (i : ℕ) → (ℕ → Arg) → Option (ℕ → Arg)
  unfolding header
  header_loop [] i f = some f
  header_loop (s ∷ ss) i f = do a ← header s (f i); header_loop ss (suc i) (update f i a)

  -- The second loop: the value of one argument. `none` is the abort for a single value by copy
  -- whose size is neither 4 nor 8. `skips` is whether an argument of no values is passed over.
  unfoldable pub read_value : (skips : Bool) → ArgSpec → (i : ℕ) → Arg → Node → Option (Arg × Node)
  unfolding sign_extend
  read_value skips s i a n =
      if skips && (a.quantity == 0)
      then some (a, n)
      else if a.callway == call_by_cop
      then (if env.type_size a.dtype == 4
          then some (record a { localarg = sign_extend (env.load32 s.value) }, n)
          else if env.type_size a.dtype == 8
          then some (record a { localarg = env.load64 s.value }, n)
          else none)
      else if a.callway == call_by_cop2
      then some (
        record a { localarg = n.fresh_block },
        record n {
          fresh_block = n.fresh_block + 1;
          blocks = n.blocks ++ (n.fresh_block, a.quantity * env.type_size a.dtype) ∷ [];
          copies = n.copies ++ (n.fresh_block, s.value, a.quantity * env.type_size a.dtype) ∷ [];
        },
      )
      else some (record a { localarg = s.value }, n)

  unfoldable pub value_loop :
      (skips : Bool) → List ArgSpec → (i : ℕ) → (ℕ → Arg) → Node → Option ((ℕ → Arg) × Node)
  unfolding read_value
  value_loop skips [] i f n = some (f, n)
  value_loop skips (s ∷ ss) i f n = do
    (a, n) ← read_value skips s i (f i) n
    value_loop skips ss (suc i) (update f i a) n

  -- Both loops, on the descriptor at `p`.
  unfoldable pub fill_arguments : (skips : Bool) → List ArgSpec → Ptr → Node → Option Node
  unfolding header_loop value_loop
  fill_arguments skips specs p n = do
    f ← header_loop specs 0 (n.desc p).args
    (f, n) ← value_loop skips specs 0 f n
    some (set_desc p (record (n.desc p) { args = f }) n)

-- The queue of a call: `none` is -1, any worker.
unfoldable pub submit : Thread → (queue : Option ℕ) → Ptr → Node → Option Node
submit t none p n = torc_to_rq_end t p n
submit t (some q) p n = torc_to_lrq_end t q p n

-- The fields that every creation sets in a descriptor filled with zeros.
unfoldable pub new_task : (parent : Ptr) (work narg node rte_type level : ℕ) → Table → Desc → Desc
unfolding torc_set_work_routine
new_task parent work narg node rte_type level t d =
    record (torc_set_work_routine work t (record d { parent = parent; vp_id = minus_one })) {
      work_id = minus_one;
      narg = narg;
      homenode = node;
      sourcenode = node;
      target_queue = minus_one;
      inter_node = 1;
      rte_type = rte_type;
      level = level;
    }

module _ (env : Env) (table : Table) (t : Thread) where
  -- What the creations of a child task have in common. `visible` is whether the task is counted as
  -- created by the worker. `none` is an abort. `created` has `MAX_NVPS` places, and the model holds
  -- for creators with a worker number from 0 on and below that.
  unfoldable pub create_child :
      (rte_type : ℕ) (visible skips : Bool) (queue : Option ℕ) (work : ℕ)
      → List ArgSpec
      → Node
      → Option Node
  unfolding new_task fill_arguments submit
  create_child rte_type visible skips queue work specs n =
      if ltb max_torc_args (length specs) then none else do
        let self = t.currt
        let n1 = set_desc self (torc_depadd (first_child (n.desc self)) (pos 1)) n
        let (n2, p) = torc_get_reused_desc n1
        let level = (n2.desc self).level + 1
        let vp = pos_part (n2.desc self).vp_id
        let d =
            new_task self work (length specs) (torc_node_id n.cluster) rte_type level table
              (n2.desc p)
        let n3 = set_desc p d n2
        n4 ← fill_arguments env skips specs p (
            if visible
            then record n3 { created = update n3.created vp (n3.created vp + 1) }
            else n3)
        submit t queue p n4

  unfoldable pub torc_task : (queue : Option ℕ) (work : ℕ) → List ArgSpec → Node → Option Node
  unfolding create_child
  torc_task queue work specs n =
      create_child (if n.invisible_flag then 2 else 1) (not n.invisible_flag) true queue work specs
        n

  unfoldable pub torc_task_ex :
      (queue : Option ℕ) (invisible : Bool) (work : ℕ) → List ArgSpec → Node → Option Node
  unfolding create_child
  torc_task_ex queue invisible work specs n =
      create_child (if invisible then 2 else 1) (not invisible) true queue work specs n

  -- A task of type 20 is executed directly by the server thread of another node.
  unfoldable pub torc_task_direct :
      (queue : Option ℕ) (work : ℕ) → List ArgSpec → Node → Option Node
  unfolding create_child
  torc_task_direct queue work specs n = create_child 20 false true queue work specs n

  -- The Fortran entry `torc_createf`.
  unfoldable pub torc_createf : (queue : Option ℕ) (work : ℕ) → List ArgSpec → Node → Option Node
  unfolding create_child
  torc_createf queue work specs n =
      create_child (if n.invisible_flag then 2 else 1) (not n.invisible_flag) false queue work specs
        n

  -- The Fortran entry `torc_taskf`: the task goes to the worker that creates it.
  unfoldable pub torc_taskf : (work type : ℕ) → List ArgSpec → Node → Option Node
  unfolding create_child
  torc_taskf work type specs n =
      let invisible = n.invisible_flag || not (type == 0) in
      create_child (if invisible then 2 else 1) (not invisible) false
        (some (torc_worker_id n.cluster t.vp_id)) work specs n

  -- A task without a parent.
  unfoldable pub torc_task_detached :
      (queue : Option ℕ) (work : ℕ) → List ArgSpec → Node → Option Node
  unfolding new_task fill_arguments submit
  torc_task_detached queue work specs n = if ltb max_torc_args (length specs) then none else do
    let (n2, p) = torc_get_reused_desc n
    let d = new_task null work (length specs) (torc_node_id n.cluster) 1 0 table (n2.desc p)
    n4 ← fill_arguments env true specs p (set_desc p d n2)
    submit t queue p n4
