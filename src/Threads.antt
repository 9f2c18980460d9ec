-- ===== src/Threads.antt =====
-- src/torc_thread.c: the threads of a node from their start to their end, and the calls of
-- src/torc.c and src/torc_runtime.c that bring them there. Each thread is at one of a few places, and
-- one step takes it from one critical section to the next.
pub mod Places
pub mod Runs
pub mod Sleep
pub mod Ends
pub mod Live
pub mod Over
use torc_lite.Common.{
  ℕ, zero, suc, ◌+◌, ◌-◌, ◌%◌, ◌^◌, ◌≡◌, Bool, true, false, Option, none, some, ◌==◌, ltb,
  if◌then◌else◌, update,
}

-- Where the thread `vp_id` is: not created; the main thread (0) in the loop of `_torc_md_init` at
-- the worker `i`, or in `_torc_comm_init`; at the start of `_torc_worker`; in the loop that waits for
-- all workers; in the application or in `_torc_scheduler_loop`; in `_torc_md_end`; at its end.
pub data Place : Type 0 where
  absent : Place
  starting : ℕ → Place
  initialising : Place
  entering : Place
  waiting : Place
  working : Place
  ending : Place
  exited : Place

pub record Threads : Type 0 where
  pub place : ℕ → Place
  pub created_workers : ℕ
  pub active_workers : ℕ
  -- whether `_torc_comm_init` has filled the table of the nodes
  pub node_info_ready : Bool
  pub appl_finished : ℕ

abbrev pub move : ℕ → Place → Threads → Threads
move v x s = record s { place = update s.place v x }

-- The arithmetic of `unsigned int`.
abbrev pub incremented : ℕ → ℕ
incremented n = (n + 1) % 2 ^ 32

abbrev pub decremented : ℕ → ℕ
decremented n = if n == 0 then 2 ^ 32 - 1 else n - 1

-- `_torc_md_end` of the thread `v`: a worker exits, the main thread waits for the others.
unfoldable pub torc_md_end : ℕ → Threads → Threads
torc_md_end v s =
    if v == 0
    then (if s.active_workers == 1 then move v exited s else s)
    else record (move v exited s) { active_workers = decremented s.active_workers }

-- One step of the thread `v`, of `k` threads, at the place where it is; `none` if it does not run.
unfoldable pub step_at : (k v : ℕ) → Place → Threads → Option Threads
unfolding torc_md_end
step_at k v absent s = none
step_at k v (starting i) s =
    if ltb i k
    then some (move v (starting (suc i)) (move i entering s))
    else some (record (move v initialising s) { active_workers = k })
step_at k v initialising s = some (record (move v entering s) { node_info_ready = true })
step_at k v entering s =
    some (record (move v waiting s) { created_workers = incremented s.created_workers })
step_at k v waiting s = some (if ltb s.created_workers k then s else move v working s)
step_at k v working s = some (if s.appl_finished == 1 then move v ending s else s)
step_at k v ending s = some (torc_md_end v s)
step_at k v exited s = none

unfoldable pub step : (k v : ℕ) → Threads → Option Threads
unfolding step_at
step k v s = step_at k v (s.place v) s

-- `_torc_end` of a thread that works, up to `_torc_md_end`.
unfoldable pub torc_end : ℕ → Threads → Threads
torc_end v s = record (move v ending s) { appl_finished = 1 }

-- The main thread calls `_torc_md_init`.
abbrev pub before_start : Threads
before_start = record {
  place = λ v. if v == 0 then starting 1 else absent;
  created_workers = 0;
  active_workers = 0;
  node_info_ready = false;
  appl_finished = 0;
}

-- The state that follows from another by steps of the threads alone.
pub data Steps (k : ℕ) : Threads → Threads → Type 0 where
  stays : {s : Threads} → Steps k s s
  takes : {s a b : Threads} (v : ℕ) → step k v s ≡ some a → Steps k a b → Steps k s b

-- The states that the threads reach, in any order of their steps: a thread goes on, a thread that
-- works ends the program, or the server thread hears that another node has ended it.
pub data Reach (k : ℕ) : Threads → Type 0 where
  begins : Reach k before_start
  goes_on : {s s' : Threads} (v : ℕ) → Reach k s → step k v s ≡ some s' → Reach k s'
  finalizes : {s : Threads} (v : ℕ) → Reach k s → s.place v ≡ working → Reach k (torc_end v s)
  told : {s : Threads} → Reach k s → Reach k (record s { appl_finished = s.appl_finished + 1 })
