-- ===== src/Demo/Async/Runs.antt =====
-- The master of demo/async.c and its callbacks in any order.
use mathlib.Core.Path.{subst}
use torc_lite.Common.{
  ℕ, zero, suc, ◌+◌, ◌%◌, ◌≤◌, ◌<◌, ◌≡◌, ◌≢◌, refl, sym, ap, ◌∙◌, Bool, true, false, some, [], ◌∷◌,
  ◌++◌, ==_iff, ==_false, if◌then◌else◌, update, arith, ℕ_discrete,
}
use torc_lite.Common.Int.{ℤ, pos}
use torc_lite.Tally.{tally-none}
use torc_lite.Demo.Async.{
  lambda, data_entries, cnt, free, pending, Async, start_task, main_starts, start_loop, free_loop,
  complete, renew, callback,
}
use torc_lite.Demo.Async.Table.{
  in_use, is_done, used, finished, find_tid-some, done-table, free_loop-rest, free_loop-table,
}

some_eq : {A : Type 0} {a b : A} → some a ≡ some b → a ≡ b
some_eq e = cc

-- Some tasks have been started.
pub record Started {D : Type 0} (k : ℕ) (s s' : Async D) : Type 0 where
  pub used_more : used s'.state ≡ used s.state + k
  pub as_finished : finished s'.state ≡ finished s.state
  pub as_completed : s'.completed ≡ s.completed

-- At most `j` entries are in use, and those done are fewer than four.
pub record IsBalanced {D : Type 0} (j : ℕ) (s : Async D) : Type 0 where
  pub room : used s.state ≤ j
  pub cycle : finished s.state ≡ s.completed % lambda

module _ {D : Type 0} (of_int : ℤ → D) where
  start_task-Started :
      (worker : Async D → ℕ → ℕ) (s : Async D)
      → used s.state < data_entries
      → (s' : Async D) × (start_task of_int worker s ≡ some s') × Started 1 s s'
  unfolding start_task
  start_task-Started worker s b =
      let (r, e, f) = find_tid-some s.state b in
      (
        record s {
          state = r.0;
          input = update s.input r.1 (of_int (pos s.taskid));
          taskid = s.taskid + 1;
          started = s.started ++ (worker s r.1, r.1, s.taskid) ∷ [];
        },
        rw e refl,
        record { used_more = f.used_more; as_finished = f.as_finished; as_completed = refl },
      )

  start_loop-Started :
      (k : ℕ) (s : Async D)
      → used s.state + k ≤ data_entries
      → (s' : Async D) × (start_loop of_int k s ≡ some s') × Started k s s'
  unfolding start_loop
  start_loop-Started zero s b =
      (s, refl, record { used_more = omega arith; as_finished = refl; as_completed = refl })
  start_loop-Started (suc k) s b =
      let (s1, e1, f1) = start_task-Started (λ s tid. s.node_id tid) s (omega arith) in
      let (s2, e2, f2) = start_loop-Started k s1 (omega (arith, b, f1.used_more)) in
      (
        s2,
        rw e1 e2,
        record {
          used_more = omega (arith, f1.used_more, f2.used_more);
          as_finished = f2.as_finished ∙ f1.as_finished;
          as_completed = f2.as_completed ∙ f1.as_completed;
        },
      )

  Renewed : ℕ → Async D → Type 0
  Renewed j s = (s' : Async D) × (renew of_int s ≡ some s') × IsBalanced j s'

  renew-IsBalanced :
      (j : ℕ) (s : Async D)
      → j ≤ cnt
      → used s.state ≤ j
      → (s.completed % lambda ≡ 0 → finished s.state ≡ lambda)
      → (s.completed % lambda ≢ 0 → finished s.state ≡ s.completed % lambda)
      → Renewed j s
  unfolding Renewed renew
  renew-IsBalanced j s most b full part = elim (ℕ_discrete (s.completed % lambda) 0) [
    | yes e ↦ rw ((==_iff (s.completed % lambda) 0).1 e) (renewed s.exit_flag e)
    | no ne ↦
        rw (==_false (s.completed % lambda) 0 ne) (s, refl, record { room = b; cycle = part ne })
  ]
    where
      s1 : Async D
      s1 = free_loop of_int data_entries 0 s

      t : (used s1.state + finished s.state ≡ used s.state) × (finished s1.state ≡ 0)
      t = free_loop-table of_int s

      same : s1.completed ≡ s.completed
      same = (free_loop-rest of_int data_entries 0 s).0

      renewed :
          (x : Bool)
          → s.completed % lambda ≡ 0
          → (s' : Async D) × ((if x then some s1 else start_loop of_int lambda s1) ≡ some s')
            × IsBalanced j s'
      renewed true e = (
        s1,
        refl,
        record {
          room = omega (arith, b, t.0);
          cycle = t.1 ∙ sym e ∙ ap (λ c. c % lambda) (sym same);
        },
      )
      renewed false e =
          let (s2, e2, f) = start_loop-Started lambda s1 (omega (arith, b, t.0, most)) in
          (
            s2,
            e2,
            record {
              room = omega (arith, f.used_more, b, t.0, full e);
              cycle =
                  f.as_finished ∙ t.1 ∙ sym e ∙ ap (λ c. c % lambda) (sym (f.as_completed ∙ same));
            },
          )

  callback-IsBalanced :
      (j tid node_id : ℕ) (out : D) (s : Async D)
      → j ≤ cnt
      → IsBalanced j s
      → tid < data_entries
      → s.state tid ≡ pending
      → (s' : Async D) × (callback of_int tid node_id out s ≡ some s') × IsBalanced j s'
  unfolding callback complete Renewed
  callback-IsBalanced j tid node_id out s most i b e =
      let d = done-table s.state tid b e in
      renew-IsBalanced j (complete of_int tid node_id out s) most (omega (arith, i.room, d.0))
        (λ z. omega (arith, d.1, i.cycle, z)) (λ z. omega (arith, d.1, i.cycle, z))

  main_starts-IsBalanced :
      (num_workers j : ℕ) (s : Async D)
      → j < cnt
      → IsBalanced j s
      → (s' : Async D) × (main_starts of_int num_workers s ≡ some s') × IsBalanced (suc j) s'
  unfolding main_starts
  main_starts-IsBalanced num_workers j s b i =
      let (s', e, f) =
        start_task-Started (λ s tid. tid % num_workers) s (omega (arith, i.room, b)) in
      (
        s',
        e,
        record {
          room = omega (arith, f.used_more, i.room);
          cycle = f.as_finished ∙ i.cycle ∙ ap (λ c. c % lambda) (sym f.as_completed);
        },
      )

-- The table when the program starts, with all entries zero.
abbrev pub at_first : {D : Type 0} → D → Async D
at_first zero_D = record {
  state = λ i. free;
  input = λ i. zero_D;
  output = λ i. zero_D;
  node_id = λ i. 0;
  taskid = 0;
  completed = 0;
  exit_flag = false;
  started = [];
}

module _ {D : Type 0} (of_int : ℤ → D) (num_workers : ℕ) where
  -- The states of the program, when `main` has gone through its loop `j` times: `main` goes on, or
  -- the callback of a pending task runs.
  pub data Run : (j : ℕ) → Async D → Type 0 where
    begins : Run 0 (at_first (of_int (pos 0)))
    main_step :
        {j : ℕ} {s s' : Async D}
        → Run j s
        → j < cnt
        → main_starts of_int num_workers s ≡ some s'
        → Run (suc j) s'
    returns :
        {j : ℕ} {s s' : Async D} (tid node_id : ℕ) (out : D)
        → Run j s
        → tid < data_entries
        → s.state tid ≡ pending
        → callback of_int tid node_id out s ≡ some s'
        → Run j s'

  Run-IsBalanced : {j : ℕ} {s : Async D} → Run j s → (j ≤ cnt) × IsBalanced j s
  Run-IsBalanced begins = (
    omega arith,
    record {
      room = omega (arith, tally-none in_use (λ i. free) data_entries (λ i b. refl));
      cycle = tally-none is_done (λ i. free) data_entries (λ i b. refl);
    },
  )
  Run-IsBalanced (main_step {j} {s} {s'} r b e) =
      let i = Run-IsBalanced r in
      let (s1, e1, i1) = main_starts-IsBalanced of_int num_workers j s b i.1 in
      (omega arith, subst (IsBalanced (suc j)) (some_eq (sym e1 ∙ e)) i1)
  Run-IsBalanced (returns {j} {s} {s'} tid node_id out r b p e) =
      let i = Run-IsBalanced r in
      let (s1, e1, i1) = callback-IsBalanced of_int j tid node_id out s i.0 i.1 b p in
      (i.0, subst (IsBalanced j) (some_eq (sym e1 ∙ e)) i1)

  -- Whatever the order in which tasks end, at most 7 of the 11 entries are in use, the next task
  -- that the main program starts finds a free entry, and so does every task that the callback of a
  -- pending task starts: neither writes to the entry -1.
  pub Run-in_bounds :
      {j : ℕ} {s : Async D}
      → Run j s
      → (used s.state ≤ cnt)
        × (j < cnt → (s' : Async D) × (main_starts of_int num_workers s ≡ some s'))
        × ((tid node_id : ℕ) (out : D)
            → tid < data_entries
            → s.state tid ≡ pending
            → (s' : Async D) × (callback of_int tid node_id out s ≡ some s'))
  Run-in_bounds {j} {s} r =
      let i = Run-IsBalanced r in
      (
        omega (arith, i.0, i.1.room),
        λ b. let m = main_starts-IsBalanced of_int num_workers j s b i.1 in (m.0, m.1),
        λ tid node_id out b p.
            let m = callback-IsBalanced of_int j tid node_id out s i.0 i.1 b p in (m.0, m.1),
      )
