-- ===== src/Exec.antt =====
-- Running a task: `_torc_core_execution`, `_torc_execute` and `_torc_cleanup` of
-- src/torc_runtime.c, and `torc_getarg_addr` of src/torc.c.
-- The function that a task runs is the user's: a parameter that changes the node as it likes.
pub mod Copies
pub mod Arguments
pub mod Cleanup
pub mod Accessors
use torc_lite.Common.{
  ℕ, zero, suc, ◌+◌, ◌-◌, Bool, true, false, ◌&&◌, not, Option, none, some, List, [], ◌∷◌, ◌++◌,
  map, ◌==◌, ltb, leb, if◌then◌else◌, update, ◌>>=◌,
}
use torc_lite.Common.Int.{ℤ, pos, pos_part, leb_ℤ}
use torc_lite.Desc.{Ptr, null, Arg, Desc, call_by_cop, call_by_cop2, torc_answer}
use torc_lite.Table.{Table, getfuncptr}
use torc_lite.Deps.{torc_depsatisfy}
use torc_lite.Nodes.{torc_node_id}
use torc_lite.Node.{Node, Thread, set_desc, torc_put_reused_desc}
use torc_lite.Send.{send_descriptor}

-- What a function gets for an argument: the address of the descriptor's own slot number i, or the
-- value or address that the slot holds.
pub data Passed : Type 0 where
  local_slot temp_slot value : ℕ → Passed

-- A call of a task's function. `none` is an entry of the array `args` that is not set.
pub record Call : Type 0 where
  pub function : ℕ
  pub arguments : List (Option Passed)

-- The body of the two loops that fill the array `args`.
unfoldable pub argument : (node : ℕ) → Desc → ℕ → Passed
argument node d i =
    let a = d.args i in
    if node == d.homenode
    then (if a.callway == call_by_cop then local_slot i else value a.localarg)
    else (if a.callway == call_by_cop then temp_slot i else value a.temparg)

unfoldable pub argument_loop :
    (node : ℕ) → Desc → (k i : ℕ) → (ℕ → Option Passed) → ℕ → Option Passed
unfolding argument
argument_loop node d zero i args = args
argument_loop node d (suc k) i args =
    argument_loop node d k (suc i) (update args i (some (argument node d i)))

-- The macros A1, …, A17: `args[0], …, args[n - 1]`.
unfoldable pub first_args : ℕ → List ℕ
first_args zero = []
first_args (suc n) = first_args n ++ n ∷ []

-- The positions of `args` that `DO_CASE(n)` passes; `none` is the abort of the default case.
unfoldable pub do_case : ℕ → Option (List ℕ)
unfolding first_args
do_case n =
    if leb n 17
    then some (first_args n)
    else if n == 18
    then some (first_args 17 ++ 18 ∷ [])
    else if n == 19
    then some (first_args 15 ++ 19 ∷ [])
    else if n == 20
    then some (first_args 16 ++ 20 ∷ [])
    else if n == 21
    then some (first_args 17 ++ 21 ∷ [])
    else if n == 22
    then some (first_args 16 ++ 22 ∷ [])
    else if n == 23
    then some (first_args 17 ++ 23 ∷ [])
    else none

-- The function to call: found by its number if the descriptor has one.
unfoldable pub task_function : Table → Desc → Option ℕ
task_function t d = if leb_ℤ (pos 0) d.work_id then getfuncptr d.work_id t else some d.work

unfoldable pub torc_core_execution : Table → (node : ℕ) → Desc → Option Call
unfolding task_function argument_loop do_case
torc_core_execution t node d = do
  function ← task_function t d
  positions ← do_case d.narg
  some (record {
    function = function;
    arguments = map (argument_loop node d d.narg 0 (λ i. none)) positions;
  })

-- The buffers that `_torc_cleanup` frees on the task's own node.
unfoldable pub free_copies : Desc → (k i : ℕ) → List ℕ
free_copies d zero i = []
free_copies d (suc k) i =
    let a = d.args i in
    (if ((a.callway == call_by_cop2) && ltb 1 a.quantity) && not (a.localarg == null)
      then a.localarg ∷ []
      else [])
    ++ free_copies d k (suc i)

unfoldable pub torc_cleanup : Thread → Ptr → Node → Node
unfolding free_copies
torc_cleanup t p n =
    let d = n.desc p in
    torc_put_reused_desc p (
      if d.homenode == torc_node_id n.cluster
      then (let n' = record n { freed = n.freed ++ free_copies d d.narg 0 } in
          if d.parent == null
          then n'
          else set_desc d.parent (torc_depsatisfy (n.desc d.parent)).0 n')
      else send_descriptor t d.homenode p torc_answer n)

-- The part of `_torc_execute` before the call: the descriptor's worker and the statistics. `executed`
-- has `MAX_NVPS` places, and the model holds for worker numbers below that.
unfoldable pub execute_enter : Thread → Ptr → Node → Node
execute_enter t p n =
    let vp = (n.desc t.currt).vp_id in
    let d = record (n.desc p) { vp_id = vp } in
    let n' = set_desc p d n in
    if d.rte_type == 1
    then record n' { executed = update n.executed (pos_part vp) (n.executed (pos_part vp) + 1) }
    else n'

-- The descriptor gets the function found for it before the function runs with the descriptor as
-- the thread's current task.
unfoldable pub torc_execute :
    (run : Thread → Call → Node → Node) → Table → Thread → Ptr → Node → Option Node
unfolding execute_enter torc_core_execution torc_cleanup task_function
torc_execute run table t p n = do
  let n1 = execute_enter t p n
  let self = record t { currt = p }
  call ← torc_core_execution table (torc_node_id n.cluster) (n1.desc p)
  some (
      torc_cleanup self p
        (run self call (set_desc p (record (n1.desc p) { work = call.function }) n1)))

-- `torc_getarg_addr`, which a task's function may call for its argument number `arg`.
unfoldable pub torc_getarg_addr : (node : ℕ) → Desc → (arg : ℕ) → Passed
torc_getarg_addr node d arg =
    let a = d.args arg in
    if node == d.homenode
    then (if a.callway == call_by_cop then local_slot arg else value a.localarg)
    else (if a.callway == call_by_cop then temp_slot arg else value a.temparg)
