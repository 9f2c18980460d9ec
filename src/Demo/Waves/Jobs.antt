-- ===== src/Demo/Waves/Jobs.antt =====
-- The creations of the demo programs are accepted.
use torc_lite.Common.{
  ℕ, zero, suc, ◌≤◌, ◌≡◌, refl, sym, ◌∙◌, inl, inr, true, Option-cases, some, List, [], ◌∷◌, length,
  has, arith, true≢false,
}
use torc_lite.Types.{Handles, torc_mpi2b_type}
use torc_lite.Types.Codes.{mpi2b-none, codes, handles}
use torc_lite.Table.{Table}
use torc_lite.Node.{Node, Thread}
use torc_lite.Create.{Env, torc_task}
use torc_lite.Create.Total.{IsAccepted, AllAccepted}
use torc_lite.Waiting.Forks.{Job, AllRunnable, create_all}
use torc_lite.Demo.Waves.{
  argument_of, masterslave_job, struct_job, zerolength_job, mbench_job, broadcast_job, create_loop,
}

abbrev pub jobs : (ℕ → Job) → (k i : ℕ) → List Job
jobs job zero i = []
jobs job (suc k) i = job i ∷ jobs job k (suc i)

pub length-jobs : (job : ℕ → Job) (k i : ℕ) → length (jobs job k i) ≡ k
length-jobs job zero i = refl
length-jobs job (suc k) i = omega (arith, length-jobs job k (suc i))

-- Every call is accepted.
abbrev pub IsRunnable : (ℕ → Job) → Type 0
IsRunnable job = (i : ℕ) → (length (job i).specs ≤ 17) × AllAccepted (job i).env (job i).specs

pub jobs-AllRunnable : (job : ℕ → Job) (k i : ℕ) → IsRunnable job → AllRunnable (jobs job k i)
jobs-AllRunnable job zero i r = tt
jobs-AllRunnable job (suc k) i r = ((r i).0, (r i).1, jobs-AllRunnable job k (suc i) r)

pub create_loop-all :
    (table : Table) (t : Thread) (job : ℕ → Job) (k i : ℕ) (n : Node)
    → create_loop table t job k i n ≡ create_all table t (jobs job k i) n
unfolding create_loop create_all
create_loop-all table t job zero i n = refl
create_loop-all table t job (suc k) i n =
    let j = job i in
    elim (Option-cases (torc_task j.env table t j.queue j.work j.specs n)) [
      | inl e ↦ rw e refl
      | inr (m, e) ↦ rw e (create_loop-all table t job k (suc i) m)
    ]

-- A supported data type has a code.
pub coded :
    (h : Handles) (dtype : ℕ)
    → has dtype (handles (codes h)) ≡ true
    → (c : ℕ) × (torc_mpi2b_type h dtype ≡ some c)
coded h dtype s = elim (Option-cases (torc_mpi2b_type h dtype)) [
  | inl e ↦ absurd (true≢false (sym s ∙ (mpi2b-none h dtype).0 e))
  | inr r ↦ r
]

double-coded : (h : Handles) → (c : ℕ) × (torc_mpi2b_type h h.mpi_double ≡ some c)
double-coded h = coded h h.mpi_double (ground arith)

long-coded : (h : Handles) → (c : ℕ) × (torc_mpi2b_type h h.mpi_long ≡ some c)
long-coded h = coded h h.mpi_long (ground arith)

int-coded : (h : Handles) → (c : ℕ) × (torc_mpi2b_type h h.mpi_int ≡ some c)
int-coded h = coded h h.mpi_int (ground arith)

-- The sizes of the data types that the programs use.
pub record HasSizes (e : Env) : Type 0 where
  pub double_size : e.type_size e.handles.mpi_double ≡ 8
  pub long_size : e.type_size e.handles.mpi_long ≡ 8
  pub int_size : e.type_size e.handles.mpi_int ≡ 4

module _ (e : Env) (z : HasSizes e) (quantity callway value : ℕ) where
  IsAccepted-double : IsAccepted e (argument_of quantity e.handles.mpi_double callway value)
  IsAccepted-double =
      let (c, k) = double-coded e.handles in
      record { code = c; coded = k; sized = inr z.double_size }

  IsAccepted-long : IsAccepted e (argument_of quantity e.handles.mpi_long callway value)
  IsAccepted-long =
      let (c, k) = long-coded e.handles in record { code = c; coded = k; sized = inr z.long_size }

  IsAccepted-int : IsAccepted e (argument_of quantity e.handles.mpi_int callway value)
  IsAccepted-int =
      let (c, k) = int-coded e.handles in record { code = c; coded = k; sized = inl z.int_size }

module _ (env : ℕ → Env) (z : (i : ℕ) → HasSizes (env i)) (slave : ℕ) where
  pub masterslave_job-IsRunnable :
      (di result : ℕ) → IsRunnable (masterslave_job env slave di result)
  unfolding masterslave_job
  masterslave_job-IsRunnable di result i = (
    omega arith,
    (IsAccepted-double (env i) (z i) 1 _ _, (IsAccepted-double (env i) (z i) 1 _ _, tt)),
  )

  pub struct_job-IsRunnable : (ttd result : ℕ) → IsRunnable (struct_job env slave ttd result)
  unfolding struct_job
  struct_job-IsRunnable ttd result i = (
    omega arith,
    (IsAccepted-long (env i) (z i) 34 _ _, (IsAccepted-double (env i) (z i) 1 _ _, tt)),
  )

  pub zerolength_job-IsRunnable :
      (di result : ℕ) (x : ℕ → ℕ) (sz sz_address : ℕ)
      → IsRunnable (zerolength_job env slave di result x sz sz_address)
  unfolding zerolength_job
  zerolength_job-IsRunnable di result x sz sz_address i = (
    omega arith,
    (
      IsAccepted-double (env i) (z i) 1 _ _,
      (
        IsAccepted-double (env i) (z i) 1 _ _,
        (IsAccepted-double (env i) (z i) sz _ _, (IsAccepted-int (env i) (z i) 1 _ _, tt)),
      ),
    ),
  )

  pub mbench_job-IsRunnable : (i_address : ℕ) → IsRunnable (mbench_job env slave i_address)
  unfolding mbench_job
  mbench_job-IsRunnable i_address i = (omega arith, (IsAccepted-long (env i) (z i) 1 _ _, tt))

  pub broadcast_job-IsRunnable : (bstate : ℕ) → IsRunnable (broadcast_job env slave bstate)
  unfolding broadcast_job
  broadcast_job-IsRunnable bstate i = (omega arith, (IsAccepted-int (env i) (z i) 1 _ _, tt))
