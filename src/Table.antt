-- ===== src/Table.antt =====
-- The table of registered task functions, src/torc_comm.c. Functions are addresses.
pub mod Numbers
pub mod Order
use torc_lite.Common.{
  ℕ, zero, suc, ◌+◌, Bool, Option, none, some, List, [], ◌∷◌, ◌==◌, ltb, if◌then◌else◌, update,
  ◌>>=◌,
}
use torc_lite.Common.Int.{ℤ, pos, negsuc, minus_one}
use torc_lite.Desc.{max_torc_tasks}

pub record Table : Type 0 where
  pub number_of_functions : ℕ
  pub internode_function_table : ℕ → ℕ

-- The static table before the program starts.
abbrev pub empty : Table
empty = record { number_of_functions = 0; internode_function_table = λ _. 0 }

-- The body of `torc_register_task_internal`, and of `torc_register_task` before initialisation.
-- The source does not test the bound: `none` is the write past the end of the table.
unfoldable pub register : ℕ → Table → Option Table
register f t =
    if ltb t.number_of_functions max_torc_tasks
    then some (record {
      number_of_functions = t.number_of_functions + 1;
      internode_function_table = update t.internode_function_table t.number_of_functions f;
    })
    else none

unfoldable pub find_loop : (k i : ℕ) → ℕ → Table → ℤ
find_loop zero i f t = minus_one
find_loop (suc k) i f t =
    let rest = find_loop k (suc i) f t in if f == t.internode_function_table i then pos i else rest

unfoldable pub getfuncnum : ℕ → Table → ℤ
unfolding find_loop
getfuncnum f t = find_loop t.number_of_functions 0 f t

-- `none` is a read in front of the table, at a negative position.
unfoldable pub getfuncptr : ℤ → Table → Option ℕ
getfuncptr (pos n) t = some (if ltb n max_torc_tasks then t.internode_function_table n else 0)
getfuncptr (negsuc n) t = none
