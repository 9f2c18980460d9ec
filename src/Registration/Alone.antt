-- ===== src/Registration/Alone.antt =====
-- `torc_register_task` of src/torc_comm.c on a single node, with its wait.
use torc_lite.Common.{ℕ, ◌≤◌, ◌<◌, ◌≡◌, none, some, ◌⊎◌}
use torc_lite.Desc.{Desc, max_torc_tasks}
use torc_lite.Table.{Table, register, getfuncptr}
use torc_lite.Common.Int.{pos}
use torc_lite.Node.{Node}

-- There is a place in the table, or there is none.
abbrev Registers : ℕ → Table → Type 0
Registers f table =
    ((table.number_of_functions < max_torc_tasks)
      × ((u : Table) × (register f table ≡ some u)
          × (getfuncptr (pos table.number_of_functions) u ≡ some f)))
    ⊎ ((max_torc_tasks ≤ table.number_of_functions) × (register f table ≡ none))
