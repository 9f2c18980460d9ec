-- ===== src/Worker/Once.antt =====
-- `_torc_scheduler_loop(1)` of an application that goes on.
use torc_lite.Common.{
  ℕ, suc, ◌≡◌, ◌≢◌, refl, sym, ◌∙◌, Bool, Bool-cases, inl, inr, true, false, Option, Option-cases,
  some, ◌==◌, ==_false, if◌then◌else◌, ◌>>=◌,
}
use torc_lite.Desc.{Ptr, null, Desc}
use torc_lite.Types.{Handles}
use torc_lite.Table.{Table}
use torc_lite.Node.{Node, Thread}
use torc_lite.Exec.{Call, torc_execute}
use torc_lite.Scheduler.{get_next_task, search_again, torc_scheduler_loop}
use torc_lite.Scheduler.Finished.{get_next_task-Counts}
use torc_lite.Worker.{task, returned, LoopEnd, search_loop, run_found, scheduler_loop}

module _ (h : Handles) (type_size : ℕ → ℕ) (answer : (target : ℕ) → Node → Desc) (t : Thread)
    (run : Thread → Call → Node → Node) (table : Table) where
  -- The end of a call for one task.
  abbrev pub once_ended : Node × Bool → Option LoopEnd
  once_ended (n, work) = some (returned n work)

  -- The execution of a task that has been found, in the two ways to write it.
  executed :
      (k r : ℕ) (n : Node) (p : Ptr)
      → run_found h type_size answer t run table
          (λ k i m. m)
          true
          (scheduler_loop h type_size answer t run table (λ k i m. m) true k r)
          (task n p)
        ≡ (torc_execute run table t p n >>= λ m. some (m, true)) >>= once_ended
  unfolding run_found
  executed k r n p = elim (Option-cases (torc_execute run table t p n)) [
    | inl e ↦ rw e refl
    | inr (m, e) ↦ rw e refl
  ]

  -- The part of a round after the first search.
  second_half :
      (k r : ℕ) (n : Node) (p : Ptr)
      → n.appl_finished ≢ 1
      → ((if p == null
            then search_loop h type_size answer t run table (λ k i m. m) true (suc k) n
            else some (task n p))
          >>= run_found h type_size answer t run table
              (λ k i m. m)
              true
              (scheduler_loop h type_size answer t run table (λ k i m. m) true (suc k) r))
        ≡ ((if p == null then search_again h type_size answer t n else some (n, p)) >>= λ (n2, p2).
            (if p2 == null
              then some (n2, false)
              else torc_execute run table t p2 n2 >>= λ n3. some (n3, true)))
          >>= once_ended
  unfolding search_loop run_found search_again
  second_half k r n p ne = elim (Bool-cases (p == null)) [
    | inr e ↦ rw e (rw e (executed (suc k) r n p))
    | inl e ↦
        rw (e, ==_false n.appl_finished 1 ne)
          (elim (Option-cases (get_next_task h type_size answer t n)) [
            | inl g ↦ rw g refl
            | inr ((m, q), g) ↦ rw g (elim (Bool-cases (q == null)) [
              | inl z ↦ rw z refl
              | inr z ↦ rw z (executed (suc k) r m q)
            ])
          ])
  ]

  -- As long as no notice of the end of the program has come, and the other threads leave the node as
  -- it is, `_torc_scheduler_loop(1)` looks for a task at most twice, and returns 1 after it has run
  -- the one that it finds, and 0 without one.
  pub scheduler_loop-once :
      (k r : ℕ) (n : Node)
      → n.appl_finished ≢ 1
      → scheduler_loop h type_size answer t run table (λ k i m. m) true (suc k) (suc r) n
        ≡ torc_scheduler_loop h type_size answer t run table n >>= once_ended
  unfolding scheduler_loop torc_scheduler_loop
  scheduler_loop-once k r n ne = elim (Option-cases (get_next_task h type_size answer t n)) [
    | inl g ↦ rw g refl
    | inr ((m, q), g) ↦
        let same = get_next_task-Counts h type_size answer t n.appl_finished n refl (m, q) g in
        rw g (second_half k r m q (λ z. ne (sym same ∙ z)))
  ]
