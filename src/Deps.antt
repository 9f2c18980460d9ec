-- ===== src/Deps.antt =====
-- Waiting for child tasks: the counter `ndep` of a descriptor, src/torc_runtime.c and src/torc.c.
-- Each function here is one critical section under the descriptor's lock.
pub mod Steps
pub mod Waits
use torc_lite.Common.{ℕ, Bool, not, if◌then◌else◌}
use torc_lite.Common.Int.{ℤ, pos, ◌+ℤ◌, ◌-ℤ◌, ltb_ℤ, leb_ℤ, eq_ℤ}
use torc_lite.Desc.{Desc}

-- `_torc_depadd`
unfoldable pub torc_depadd : Desc → ℤ → Desc
torc_depadd d ndeps = record d { ndep = d.ndep +ℤ ndeps }

-- `_torc_depsatisfy`: the result says whether that was the last dependency.
unfoldable pub torc_depsatisfy : Desc → Desc × Bool
torc_depsatisfy d = let deps = d.ndep -ℤ pos 1 in (record d { ndep = deps }, eq_ℤ deps (pos 0))

-- The first critical section of `torc_task`: a task counts itself while it creates children.
unfoldable pub first_child : Desc → Desc
first_child d = if eq_ℤ d.ndep (pos 0) then record d { ndep = pos 1 } else d

-- The first critical section of `_torc_block` and of `_torc_block2`.
unfoldable pub block_enter : Desc → Desc
block_enter d = let n = d.ndep -ℤ pos 1 in record d { ndep = if ltb_ℤ n (pos 0) then pos 0 else n }

-- The test in the loop of `_torc_block`.
unfoldable pub block_done : Desc → Bool
block_done d = leb_ℤ d.ndep (pos 0)

-- The first critical section of `torc_waitall3`, which does not stop at 0.
unfoldable pub waitall3_enter : Desc → Desc
waitall3_enter d = record d { ndep = d.ndep -ℤ pos 1 }

-- The test in the loop of `torc_waitall3`.
unfoldable pub waitall3_done : Desc → Bool
waitall3_done d = eq_ℤ d.ndep (pos 0)
