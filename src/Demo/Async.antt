-- ===== src/Demo/Async.antt =====
-- demo/async.c: a master keeps a table of tasks, and starts new ones from the callback of those that
-- are done. A critical section is one operation; `D` stands for the type `double`.
pub mod Table
pub mod Runs
use torc_lite.Common.{
  ℕ, zero, suc, ◌+◌, ◌*◌, ◌-◌, ◌%◌, ◌<◌, ◌≡◌, Bool, true, false, Option, none, some, List, [], ◌∷◌,
  ◌++◌, ◌==◌, leb, if◌then◌else◌, update, ◌>>=◌,
}
use torc_lite.Common.Int.{ℤ, pos, minus_one}

abbrev pub lambda : ℕ
lambda = 4

-- DATA_ENTRIES
abbrev pub data_entries : ℕ
data_entries = 11

-- The number of tasks that the main program starts.
abbrev pub cnt : ℕ
cnt = 7

-- The states of an entry.
abbrev pub free : ℕ
free = 0

abbrev pub pending : ℕ
pending = 1

abbrev pub done : ℕ
done = 2

-- The fields `state`, `in`, `out` and `node_id` of the array `result`, the other global variables,
-- and the tasks that have been started: for a worker, with an entry and a value.
pub record Async (D : Type 0) : Type 0 where
  pub state : ℕ → ℕ
  pub input : ℕ → D
  pub output : ℕ → D
  pub node_id : ℕ → ℕ
  pub taskid : ℕ
  pub completed : ℕ
  pub exit_flag : Bool
  pub started : List (ℕ × ℕ × ℕ)

-- `find_tid` with `k` entries left, of which the first is `i`; `none` is -1.
unfoldable pub find_loop : (k i : ℕ) → (ℕ → ℕ) → Option ((ℕ → ℕ) × ℕ)
find_loop zero i state = none
find_loop (suc k) i state =
    let rest = find_loop k (suc i) state in
    if state i == free then some (update state i pending, i) else rest

unfoldable pub find_tid : (ℕ → ℕ) → Option ((ℕ → ℕ) × ℕ)
unfolding find_loop
find_tid state = find_loop data_entries 0 state

module _ {D : Type 0} (of_int : ℤ → D) where
  -- A task is started for an entry that is free. `none` is a write to `result[-1]`.
  unfoldable pub start_task : (worker : Async D → ℕ → ℕ) → Async D → Option (Async D)
  unfolding find_tid
  start_task worker s = do
    (state, tid) ← find_tid s.state
    some (record s {
      state = state;
      input = update s.input tid (of_int (pos s.taskid));
      taskid = s.taskid + 1;
      started = s.started ++ (worker s tid, tid, s.taskid) ∷ [];
    })

  -- The body of the loop in `main`.
  unfoldable pub main_starts : (num_workers : ℕ) → Async D → Option (Async D)
  unfolding start_task
  main_starts num_workers s = start_task (λ s tid. tid % num_workers) s

  -- `for (i = 0; i < lambda; i++)` of the callback, with `k` rounds left.
  unfoldable pub start_loop : (k : ℕ) → Async D → Option (Async D)
  unfolding start_task
  start_loop zero s = some s
  start_loop (suc k) s = start_task (λ s tid. s.node_id tid) s >>= start_loop k

  -- The body of the loop that frees the entries that are done.
  unfoldable pub free_entry : ℕ → Async D → Async D
  free_entry i s =
      if s.state i == done
      then record s {
        state = update s.state i free;
        input = update s.input i (of_int minus_one);
        output = update s.output i (of_int minus_one);
      }
      else s

  unfoldable pub free_loop : (k i : ℕ) → Async D → Async D
  unfolding free_entry
  free_loop zero i s = s
  free_loop (suc k) i s = free_loop k (suc i) (free_entry i s)

  -- The first half of `callback`: the task of the entry `tid` has been done.
  unfoldable pub complete : (tid node_id : ℕ) (out : D) → Async D → Async D
  complete tid node_id out s = record s {
    completed = s.completed + 1;
    exit_flag = if leb 20 (s.completed + 1) then true else s.exit_flag;
    output = update s.output tid out;
    node_id = update s.node_id tid node_id;
    state = update s.state tid done;
  }

  -- The second half: after every fourth task the entries done are free again, and new tasks start.
  unfoldable pub renew : Async D → Option (Async D)
  unfolding free_loop start_loop
  renew s =
      if s.completed % lambda == 0
      then (let s' = free_loop data_entries 0 s in
          if s.exit_flag then some s' else start_loop lambda s')
      else some s

  unfoldable pub callback : (tid node_id : ℕ) (out : D) → Async D → Option (Async D)
  unfolding complete renew
  callback tid node_id out s = renew (complete tid node_id out s)
