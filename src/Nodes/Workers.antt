-- ===== src/Nodes/Workers.antt =====
-- Worker numbers as the program hands them out: `torc_worker_id`, `torc_sched_nextcpu`.
use torc_lite.Common.{
  ℕ, zero, suc, ◌+◌, ◌%◌, ◌<◌, ◌≡◌, ◌≢◌, ap, ◌∙◌, Bool-cases, ltb, inl, inr, ◌⊎◌, arith,
}
use torc_lite.Common.Int.{ℤ, pos, negsuc, minus_one}
use torc_lite.Nodes.{
  Cluster, total_num_threads, torc_num_workers, torc_worker_id, torc_sched_nextcpu,
}
use torc_lite.Nodes.Prefix.{before, before_le}
use torc_lite.Nodes.Ids.{IsReady, total-before, local_to_global-before}
use native.Mathlib.Nat.{mod-lt, mod-eq_of_lt, mod-add-mod}

-- `torc_sched_nextcpu(cpu, stride)` again and again.
pub next_cpus : Cluster → (vp_id : ℕ) → (stride : ℤ) → ℕ → ℤ → ℤ
next_cpus c vp stride zero cpu = cpu
next_cpus c vp stride (suc k) cpu = next_cpus c vp stride k (torc_sched_nextcpu c vp cpu stride)

-- The number of a global worker: an `int` in the range of the workers.
abbrev pub IsWorker : Cluster → ℤ → Type 0
IsWorker c (pos n) = n < torc_num_workers c
IsWorker c (negsuc n) = ⊥

nextcpu_pos :
    (c : Cluster) (vp n stride : ℕ)
    → torc_sched_nextcpu c vp (pos n) (pos stride) ≡ pos ((n + stride) % torc_num_workers c)
unfolding torc_sched_nextcpu
nextcpu_pos c vp n stride = ground arith

module _ (c : Cluster) (vp : ℕ) (ready : IsReady c) (is : vp < c.kthreads) where
  -- The calling thread's worker number is one of the workers, on one node and on several.
  pub worker_id-lt : torc_worker_id c vp < torc_num_workers c
  unfolding torc_worker_id torc_num_workers before
  worker_id-lt = elim (Bool-cases (ltb 1 c.mpi_nodes)) [
    | inl t ↦ rw t (
        rw (total-before c, local_to_global-before c vp)
          (omega (arith, before_le c (suc c.mpi_rank) c.mpi_nodes ready.is_node, ready.counted)))
    | inr f ↦ rw f is
  ]

  -- On a machine with consistent numbers of workers, a worker gets the number of a worker from
  -- `torc_sched_nextcpu`, for the start value -1 and for the number of any worker, with any stride
  -- that is not negative.
  pub sched_nextcpu-IsWorker :
      (cpu : ℤ) (stride : ℕ)
      → (cpu ≡ minus_one) ⊎ IsWorker c cpu
      → IsWorker c (torc_sched_nextcpu c vp cpu (pos stride))
  sched_nextcpu-IsWorker cpu stride (inl e) = rw e (unfold torc_sched_nextcpu in worker_id-lt)
  sched_nextcpu-IsWorker (pos n) stride (inr h) =
      rw (nextcpu_pos c vp n stride) (mod-lt (n + stride) (omega arith))
  sched_nextcpu-IsWorker (negsuc n) stride (inr h) = absurd h

  -- On a machine with consistent numbers of workers, `k` calls of `torc_sched_nextcpu` with stride
  -- 1 lead from any worker `k` workers on, round the ring of all workers.
  pub next_cpus-mod :
      (k n : ℕ)
      → n < torc_num_workers c
      → next_cpus c vp (pos 1) k (pos n) ≡ pos ((n + k) % torc_num_workers c)
  unfolding next_cpus
  next_cpus-mod zero n h =
      let e : (n + 0) % torc_num_workers c ≡ n + 0 = mod-eq_of_lt (omega arith) in
      ap pos (omega (arith, e))
  next_cpus-mod (suc k) n h = rw (nextcpu_pos c vp n 1) (
      next_cpus-mod k ((n + 1) % torc_num_workers c) (mod-lt (n + 1) (omega arith))
      ∙ ap pos (
          mod-add-mod (n + 1) (torc_num_workers c) k
          ∙ ap (λ (x : ℕ). x % torc_num_workers c) (omega arith)))

-- On several nodes the workers of all nodes count.
pub num_workers-total :
    (c : Cluster) → IsReady c → c.mpi_nodes ≢ 1 → torc_num_workers c ≡ total_num_threads c
unfolding torc_num_workers
num_workers-total c ready several = ground arith
