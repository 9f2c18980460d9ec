-- ===== src/Exec/Accessors.antt =====
-- What a running task can ask of its own descriptor: the accessors of src/torc.c.
use torc_lite.Common.{ℕ, Bool}
use torc_lite.Desc.{Desc}
use torc_lite.Node.{Node, Thread}

-- `_torc_self`: the descriptor of the current task.
abbrev pub torc_self : Thread → Node → Desc
torc_self t n = n.desc t.currt

abbrev pub torc_getlevel : Thread → Node → ℕ
torc_getlevel t n = (torc_self t n).level

abbrev pub torc_i_worker_id : Thread → ℕ
torc_i_worker_id t = t.vp_id

abbrev pub torc_get_num_args : Thread → Node → ℕ
torc_get_num_args t n = (torc_self t n).narg

abbrev pub torc_getarg_callway : Thread → Node → (arg : ℕ) → ℕ
torc_getarg_callway t n arg = ((torc_self t n).args arg).callway

abbrev pub torc_getarg_count : Thread → Node → (arg : ℕ) → ℕ
torc_getarg_count t n arg = ((torc_self t n).args arg).quantity

-- `type_size` is `MPI_Type_size`.
abbrev pub torc_getarg_size : (type_size : ℕ → ℕ) → Thread → Node → (arg : ℕ) → ℕ
torc_getarg_size type_size t n arg = type_size ((torc_self t n).args arg).dtype

abbrev pub torc_set_invisible : (flag : Bool) → Node → Node
torc_set_invisible flag n = record n { invisible_flag = flag }
