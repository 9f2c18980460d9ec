-- ===== src/Tests/Waves.antt =====
-- Waves of children on a single node, and the programs that create them.
use torc_lite.Common.{
  ℕ, ◌+◌, ◌≡◌, refl, Option, some, [], ◌∷◌, ◌++◌, List, length, arith, ◌==◌, if◌then◌else◌,
}
use torc_lite.Common.Int.{pos}
use torc_lite.Desc.{Ptr}
use torc_lite.Nodes.{Cluster}
use torc_lite.Node.{Node, level_queue}
use torc_lite.Create.{Env}
use torc_lite.Table.{Table}
use torc_lite.Waiting.{torc_block}
use torc_lite.Waiting.Family.{IsForking}
use torc_lite.Waiting.Forks.{Job, Made, create_all, create_all-joined}
use torc_lite.Waiting.Runs.{call_of, Runs}
use torc_lite.Demo.Waves.{
  masterslave_job, struct_job, zerolength_job, mbench_job, broadcast_job, masterslave, struct_main,
  zerolength, my_main, broadcast_main,
}
use torc_lite.Demo.Waves.Jobs.{HasSizes, IsRunnable, masterslave_job-IsRunnable}
use torc_lite.Demo.Waves.Runs.{Returns, demos-Return}
use torc_lite.Tests.Machine.{alike, filled}
use torc_lite.Tests.Protocol.{node, thread, eight, task}
use torc_lite.Tests.Runtime.{refusal}
use torc_lite.Tests.Waiting.{allocate, allocate-Keeps}

abbrev alone : Cluster
alone = record { mpi_nodes = 1; mpi_rank = 0; kthreads = 1; nworkers = λ i. 1 }

-- One worker, whose main task is at 2; the server thread has the descriptor at 1.
abbrev main_task : Node
main_task = record node {
  cluster = alone;
  desc = λ p. record task { ndep = pos 0; level = 0 };
  fresh_desc = 3;
}

abbrev in_use : List Ptr
in_use = 1 ∷ 2 ∷ []

main_task-IsForking : IsForking filled 2 in_use 0 [] main_task
unfolding level_queue
main_task-IsForking = record {
  owned = record { places = λ a. ground arith; allocated = omega arith };
  in_use = omega arith;
  single = refl;
  waiting = record {
    counter = refl;
    level = refl;
    private = refl;
    queue = refl;
    other_queues = λ m ne. refl;
    distinct = tt;
    leaves = λ p is. ground arith;
  };
}

abbrev memory : ℕ → Env
memory i = record {
  handles = alike;
  type_size = λ d. if d == alike.mpi_int then 4 else 8;
  load32 = λ a. i;
  load64 = λ a. i;
}

memory-HasSizes : (i : ℕ) → HasSizes (memory i)
memory-HasSizes i = record { double_size = refl; long_size = refl; int_size = refl }

runnable : IsRunnable (masterslave_job memory 77 400 500)
runnable = masterslave_job-IsRunnable memory memory-HasSizes 77 400 500

abbrev two_jobs : List Job
two_jobs = masterslave_job memory 77 400 500 0 ∷ masterslave_job memory 77 400 500 1 ∷ []

create_all-joined_example :
    (m : Node) × (ps : List Ptr) × (n' : Node) × (create_all filled thread two_jobs main_task
      ≡ some m)
    × (length ps ≡ 2)
    × (m.public_grq 0 ≡ ps)
    × (torc_block alike eight refusal thread allocate filled (λ k m. m) 3 m ≡ some n')
    × (n'.reuse_q ≡ m.reuse_q ++ ps)
    × IsForking filled 2 in_use 0 [] n'
    × Made filled m ps two_jobs
    × Runs allocate thread (call_of filled m) ps m.sent n'.sent
create_all-joined_example =
    create_all-joined alike eight refusal thread allocate filled in_use (λ e. ground arith)
      allocate-Keeps two_jobs 0 main_task (omega arith)
      ((runnable 0).0, (runnable 0).1, ((runnable 1).0, (runnable 1).1, tt)) main_task-IsForking

abbrev Ends : Option Node → Type 0
Ends = Returns filled 2 in_use 0

demos-Return_example :
    Ends (
      masterslave alike eight refusal thread allocate filled
        (λ k m. m)
        (masterslave_job memory 77 400 500)
        main_task)
    × Ends (
        struct_main alike eight refusal thread allocate filled
          (λ k m. m)
          (struct_job memory 77 600 500)
          main_task)
    × Ends (
        zerolength alike eight refusal thread allocate filled
          (λ k m. m)
          (zerolength_job memory 77 400 500 (λ i. 900 + i) 0 800)
          main_task)
    × Ends (
        my_main alike eight refusal thread allocate filled
          (λ k m. m)
          (mbench_job memory 77 400)
          100
          10
          main_task)
    × Ends (
        broadcast_main alike eight refusal thread allocate filled
          (λ k m. m)
          (broadcast_job memory 77 400)
          (broadcast_job memory 77 400)
          10
          20
          30
          40
          main_task)
demos-Return_example =
    demos-Return alike eight refusal thread allocate filled in_use 0 (omega arith)
      (λ e. ground arith) allocate-Keeps memory main_task memory-HasSizes main_task-IsForking 77 400
      500 600 0 800 100 10 (λ i. 900 + i) 10 20 30 40
