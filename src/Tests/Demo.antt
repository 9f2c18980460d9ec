-- ===== src/Tests/Demo.antt =====
-- The demo programs: runs and the theorems at concrete inputs.
use torc_lite.Common.{ℕ, ◌≤◌, ◌<◌, ◌≡◌, refl, Option, none, some, arith}
use torc_lite.Common.Int.{ℤ, pos}
use torc_lite.Demo.Async.{Async, cnt, data_entries, pending, main_starts, callback}
use torc_lite.Demo.Async.Table.{used}
use torc_lite.Demo.Async.Runs.{at_first, Run, begins, main_step, returns, Run-in_bounds}

-- Numbers for values of type double.
abbrev whole : ℤ → ℤ
whole x = x

abbrev start : Async ℤ
start = at_first (pos 0)

abbrev or_else : Async ℤ → Option (Async ℤ) → Async ℤ
or_else s none = s
or_else s (some s') = s'

abbrev one_task : Async ℤ
one_task = or_else start (main_starts whole 3 start)

one_task-Run : Run whole 3 1 one_task
unfolding main_starts
one_task-Run = main_step begins (omega arith) refl

-- It is done, with the square root of 0.
abbrev one_done : Async ℤ
one_done = or_else start (callback whole 0 2 (pos 0) one_task)

one_done-Run : Run whole 3 1 one_done
unfolding main_starts callback
one_done-Run = returns 0 2 (pos 0) one_task-Run (omega arith) refl refl

Run-in_bounds_example :
    (used one_done.state ≤ cnt)
    × (1 < cnt → (s' : Async ℤ) × (main_starts whole 3 one_done ≡ some s'))
    × ((tid node_id : ℕ) (out : ℤ)
        → tid < data_entries
        → one_done.state tid ≡ pending
        → (s' : Async ℤ) × (callback whole tid node_id out one_done ≡ some s'))
Run-in_bounds_example = Run-in_bounds whole 3 one_done-Run
