-- ===== src/Demo/Waves/Runs.antt =====
-- The demo programs with loops of tasks return, on a single node.
use torc_lite.Common.{
  ℕ, zero, suc, ◌<◌, ◌≡◌, ◌≢◌, refl, sym, ap, ◌∙◌, true, Option, none, some, List, [], has, ◌>>=◌,
  arith,
}
use torc_lite.Desc.{Ptr, null, Desc}
use torc_lite.Types.{Handles}
use torc_lite.Types.Codes.{codes, handles}
use torc_lite.Table.{Table}
use torc_lite.Nodes.{torc_num_workers, torc_node_id, torc_num_nodes}
use torc_lite.Node.{Node, Thread}
use torc_lite.Exec.{Call}
use torc_lite.Create.{Env}
use torc_lite.Server.{torc_enable_stealing, torc_disable_stealing}
use torc_lite.Broadcast.{torc_broadcast, bcast_desc, bcast_loop}
use torc_lite.Waiting.{torc_block}
use torc_lite.Waiting.Execution.{Keeps}
use torc_lite.Waiting.Family.{IsForking}
use torc_lite.Waiting.Forks.{Job, create_all-IsForking, joined-IsForking, create_all-joined}
use torc_lite.Waiting.Unseen.{
  Unseen-IsForking, enable_stealing-Unseen, disable_stealing-Unseen, bcast_loop-Unseen,
}
use torc_lite.Demo.Waves.{
  masterslave_job, struct_job, zerolength_job, mbench_job, broadcast_job, create_loop, wave,
  masterslave, struct_main, zerolength, my_main, broadcast_main,
}
use torc_lite.Demo.Waves.Jobs.{
  coded, jobs, length-jobs, IsRunnable, jobs-AllRunnable, create_loop-all, HasSizes,
  masterslave_job-IsRunnable, struct_job-IsRunnable, zerolength_job-IsRunnable,
  mbench_job-IsRunnable, broadcast_job-IsRunnable,
}

-- The program returns, and its main task, at `parent`, is without children again.
abbrev pub Returns : Table → (parent : Ptr) → (used : List Ptr) → (l : ℕ) → Option Node → Type 0
Returns table parent used l none = ⊥
Returns table parent used l (some n) = IsForking table parent used l [] n

module _ (h : Handles) (type_size : ℕ → ℕ) (answer : (target : ℕ) → Node → Desc) (t : Thread)
    (run : Thread → Call → Node → Node) (table : Table) (used : List Ptr) (l : ℕ) (level : l < 10)
    (real : t.currt ≢ null) (leaf : (u : Thread) (c : Call) (m : Node) → Keeps m (run u c m)) where
  abbrev Ready : Node → Type 0
  Ready n = IsForking table t.currt used l [] n

  wave-Returns :
      (job : ℕ → Job) (cnt : ℕ) (n : Node)
      → IsRunnable job
      → Ready n
      → (n' : Node) × (wave h type_size answer t run table (λ k m. m) job cnt n ≡ some n')
        × Ready n'
  unfolding wave
  wave-Returns job cnt n r f =
      let js = jobs job cnt 0 in
      let len = length-jobs job cnt 0 in
      let (m, ps, n', e, _, _, u, _, g, _, _) =
        create_all-joined h type_size answer t run table used real leaf js l n level
          (jobs-AllRunnable job cnt 0 r) f in
      (
        n',
        ap (λ o. o >>= torc_block h type_size answer t run table (λ k m. m) (suc cnt))
              (create_loop-all table t job cnt 0 n ∙ e)
            ∙ ap (λ k. torc_block h type_size answer t run table (λ k m. m) (suc k) m) (sym len)
            ∙ u,
        g,
      )

  masterslave-Returns :
      (job : ℕ → Job) (n : Node)
      → IsRunnable job
      → Ready n
      → (n' : Node) × (masterslave h type_size answer t run table (λ k m. m) job n ≡ some n')
        × Ready n'
  unfolding masterslave
  masterslave-Returns job n r f =
      wave-Returns job 4 (torc_enable_stealing t n) r
        (Unseen-IsForking table t.currt used l [] n _ (enable_stealing-Unseen t n) f)

  struct_rest :
      (job : ℕ → Job) (n m n1 : Node)
      → create_loop table t job 4 0 n ≡ some m
      → torc_block h type_size answer t run table (λ k m. m) 5 (torc_enable_stealing t m) ≡ some n1
      → struct_main h type_size answer t run table (λ k m. m) job n
        ≡ some (torc_disable_stealing t n1)
  unfolding struct_main
  struct_rest job n m n1 e u = rw e (rw u refl)

  struct_main-Returns :
      (job : ℕ → Job) (n : Node)
      → IsRunnable job
      → Ready n
      → (n' : Node) × (struct_main h type_size answer t run table (λ k m. m) job n ≡ some n')
        × Ready n'
  struct_main-Returns job n r f =
      let js = jobs job 4 0 in
      let (m, ps, e, k, g, _, _) =
        create_all-IsForking table t js used l [] n level (jobs-AllRunnable job 4 0 r) f in
      let m1 = torc_enable_stealing t m in
      let g1 = Unseen-IsForking table t.currt used l ps m m1 (enable_stealing-Unseen t m) g in
      let (n1, u, _, d, _) =
        joined-IsForking h type_size answer t run table used real leaf l ps m1 level g1 in
      (
        torc_disable_stealing t n1,
        struct_rest job n m n1 (create_loop-all table t job 4 0 n ∙ e)
            (ap (λ j. torc_block h type_size answer t run table (λ k m. m) (suc j) m1) (sym k) ∙ u),
        Unseen-IsForking table t.currt used l [] n1 _ (disable_stealing-Unseen t n1) d,
      )

  zerolength-Returns :
      (job : ℕ → Job) (n : Node)
      → IsRunnable job
      → Ready n
      → (n' : Node) × (zerolength h type_size answer t run table (λ k m. m) job n ≡ some n')
        × Ready n'
  unfolding zerolength
  zerolength-Returns job n r f = wave-Returns job 4 n r f

  pub my_main-Returns :
      (job : ℕ → Job) (count k : ℕ) (n : Node)
      → IsRunnable job
      → Ready n
      → (n' : Node) × (my_main h type_size answer t run table (λ k m. m) job count k n ≡ some n')
        × Ready n'
  unfolding my_main
  my_main-Returns job count zero n r f = (n, refl, f)
  my_main-Returns job count (suc k) n r f =
      let (m, e, g) = wave-Returns job count n r f in
      let (n', u, d) = my_main-Returns job count k m r g in (n', rw e u, d)

  broadcast-Ready :
      (buffer count dtype : ℕ) (n : Node)
      → has dtype (handles (codes h)) ≡ true
      → Ready n
      → (n' : Node) × (torc_broadcast h t buffer count dtype n ≡ some n') × Ready n'
  unfolding torc_broadcast
  broadcast-Ready buffer count dtype n s f =
      let (c, e) = coded h dtype s in
      let d = bcast_desc (torc_node_id n.cluster) buffer count c in
      let k = torc_num_nodes n.cluster in
      let u = bcast_loop-Unseen t d buffer count dtype k 0 n in
      (
        bcast_loop t d buffer count dtype k 0 n,
        rw e refl,
        Unseen-IsForking table t.currt used l [] n _ u f,
      )

  broadcast_main-Returns :
      (before after : ℕ → Job) (gi gd gti gtd : ℕ) (n : Node)
      → IsRunnable before
      → IsRunnable after
      → Ready n
      → (n' : Node) × (broadcast_main h type_size answer t run table
            (λ k m. m)
            before
            after
            gi
            gd
            gti
            gtd
            n
          ≡ some n')
        × Ready n'
  unfolding broadcast_main
  broadcast_main-Returns before after gi gd gti gtd n r s f =
      let cnt = torc_num_workers n.cluster in
      let (n1, e1, f1) = wave-Returns before cnt n r f in
      let (n2, e2, f2) = broadcast-Ready gi 1 h.mpi_int n1 (ground arith) f1 in
      let (n3, e3, f3) = broadcast-Ready gd 1 h.mpi_double n2 (ground arith) f2 in
      let (n4, e4, f4) = broadcast-Ready gti 16 h.mpi_int n3 (ground arith) f3 in
      let (n5, e5, f5) = broadcast-Ready gtd 16 h.mpi_double n4 (ground arith) f4 in
      let (n6, e6, f6) = wave-Returns after cnt n5 s f5 in
      (n6, rw e1 (rw e2 (rw e3 (rw e4 (rw e5 e6)))), f6)

  -- A demo program runs on a single node that has no tasks, with its main task, not NULL, in use,
  -- with a counter of 0 and children of a level `l` below 10; its worker is the only thread that takes
  -- tasks, and the other threads leave the node as it is; every descriptor that has been allocated is
  -- in use or in one queue, exactly once; MPI_DOUBLE and MPI_LONG have 8 bytes and MPI_INT has 4; the functions of the tasks change
  -- neither the descriptors, allocated or not, nor the queues nor the machine nor the flags of the
  -- node. Then masterslave.c, struct.c, zerolength.c for any length of its vectors, mbench1.c for any
  -- number of tasks and of iterations, and broadcast.c get from `torc_init` to `torc_finalize`: no
  -- creation and no broadcast aborts, every `torc_waitall` returns, and at the end the node is as
  -- described at the start.
  pub demos-Return :
      (env : ℕ → Env) (n : Node)
      → ((i : ℕ) → HasSizes (env i))
      → IsForking table t.currt used l [] n
      → (slave di result ttd sz sz_address count iterations : ℕ) (x : ℕ → ℕ) (gi gd gti gtd : ℕ)
      → Returns table t.currt used l (
          masterslave h type_size answer t run table
            (λ k m. m)
            (masterslave_job env slave di result)
            n)
        × Returns table t.currt used l (
            struct_main h type_size answer t run table
              (λ k m. m)
              (struct_job env slave ttd result)
              n)
        × Returns table t.currt used l (
            zerolength h type_size answer t run table
              (λ k m. m)
              (zerolength_job env slave di result x sz sz_address)
              n)
        × Returns table t.currt used l (
            my_main h type_size answer t run table
              (λ k m. m)
              (mbench_job env slave di)
              count
              iterations
              n)
        × Returns table t.currt used l (
            broadcast_main h type_size answer t run table
              (λ k m. m)
              (broadcast_job env slave di)
              (broadcast_job env slave di)
              gi
              gd
              gti
              gtd
              n)
  demos-Return env n z f slave di result ttd sz sz_address count iterations x gi gd gti gtd = (
    returned (masterslave-Returns _ n (masterslave_job-IsRunnable env z slave di result) f),
    returned (struct_main-Returns _ n (struct_job-IsRunnable env z slave ttd result) f),
    returned (
        zerolength-Returns _ n (zerolength_job-IsRunnable env z slave di result x sz sz_address) f),
    returned (my_main-Returns _ count iterations n (mbench_job-IsRunnable env z slave di) f),
    returned (
        broadcast_main-Returns _ _ gi gd gti gtd n (broadcast_job-IsRunnable env z slave di)
          (broadcast_job-IsRunnable env z slave di) f),
  )
    where
      returned :
          {o : Option Node}
          → (n' : Node) × (o ≡ some n') × Ready n'
          → Returns table t.currt used l o
      returned (n', e, g) = rw e g
