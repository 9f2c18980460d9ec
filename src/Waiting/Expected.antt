-- ===== src/Waiting/Expected.antt =====
-- The tasks of one level that wait for their execution, and their parent, which waits for them.
use torc_lite.Common.{
  ℕ, suc, ◌+◌, ◌≡◌, ◌≢◌, refl, sym, ap, ◌∙◌, true, false, List, [], ◌∷◌, length, has, Distinct,
  arith, true≢false,
}
use torc_lite.Common.Int.{pos}
use torc_lite.Desc.{Ptr, Desc}
use torc_lite.Table.{Table}
use torc_lite.Nodes.{Cluster}
use torc_lite.Deps.{torc_depsatisfy, block_enter, block_done}
use torc_lite.Node.{Node, set_desc, level_queue}
use torc_lite.Node.Store.{set_desc_self, set_desc_other}
use torc_lite.Exec.{torc_core_execution}
use torc_lite.Waiting.Runs.{call_of}
use torc_lite.Waiting.Execution.{IsLeaf}

-- The tasks of the queue `l`, which is the one for the children of `parent`, wait for their
-- execution; the parent waits for `k` notices.
pub record IsWaiting (table : Table) (parent : Ptr) (k l : ℕ) (tasks : List Ptr) (n : Node)
    : Type 0 where
  pub counter : (n.desc parent).ndep ≡ pos k
  pub level : level_queue ((n.desc parent).level + 1) ≡ l
  pub private : n.private_grq ≡ []
  pub queue : n.public_grq l ≡ tasks
  pub other_queues : (m : ℕ) → m ≢ l → n.public_grq m ≡ []
  pub distinct : Distinct tasks
  pub leaves : (p : Ptr) → has p tasks ≡ true → IsLeaf table parent n p

pub IsLeaf-same :
    (table : Table) (parent q : Ptr) (n m : Node)
    → m.desc q ≡ n.desc q
    → m.cluster ≡ n.cluster
    → IsLeaf table parent n q
    → IsLeaf table parent m q
IsLeaf-same table parent q n m e c l = record {
  is_task = l.is_task;
  not_parent = l.not_parent;
  child = ap (λ (d : Desc). d.parent) e ∙ l.child;
  home = ap (λ (d : Desc). d.homenode) e ∙ l.home ∙ ap (λ (k : Cluster). k.mpi_rank) (sym c);
  call = l.call;
  callable =
      ap (λ (k : Cluster). torc_core_execution table k.mpi_rank (m.desc q)) c
      ∙ ap (torc_core_execution table n.cluster.mpi_rank) e
      ∙ l.callable;
}

pub has_first : (p : Ptr) (ps : List Ptr) → has p (p ∷ ps) ≡ true
has_first p ps = ground arith

pub has_later : (q p : Ptr) (ps : List Ptr) → has q ps ≡ true → has q (p ∷ ps) ≡ true
has_later q p ps e = ground arith

pub depsatisfy_suc : (k : ℕ) (d : Desc) → d.ndep ≡ pos (suc k) → (torc_depsatisfy d).0.ndep ≡ pos k
unfolding torc_depsatisfy
depsatisfy_suc k d e = rw e (ground arith)

enter_suc : (k : ℕ) (d : Desc) → d.ndep ≡ pos (suc k) → (block_enter d).ndep ≡ pos k
unfolding block_enter
enter_suc k d e = rw e (ground arith)

-- The counter of a task without children stays at 0.
enter_none : (d : Desc) → d.ndep ≡ pos 0 → (block_enter d).ndep ≡ pos 0
unfolding block_enter
enter_none d e = rw e refl

enter-level : (d : Desc) → (block_enter d).level ≡ d.level
unfolding block_enter
enter-level d = refl

pub satisfied-level : (d : Desc) → (torc_depsatisfy d).0.level ≡ d.level
unfolding torc_depsatisfy
satisfied-level d = refl

pub waits : (k : ℕ) (d : Desc) → d.ndep ≡ pos (suc k) → block_done d ≡ false
unfolding block_done
waits k d e = rw e (ground arith)

pub ended : (d : Desc) → d.ndep ≡ pos 0 → block_done d ≡ true
unfolding block_done
ended d e = rw e refl

-- The first critical section of the wait.
pub enter-IsWaiting :
    (table : Table) (parent : Ptr) (l : ℕ) (ps : List Ptr) (n : Node)
    → IsWaiting table parent (suc (length ps)) l ps n
    → IsWaiting table parent (length ps) l ps (set_desc parent (block_enter (n.desc parent)) n)
enter-IsWaiting table parent l ps n w = record {
  counter =
      ap (λ (d : Desc). d.ndep) (set_desc_self parent _ n)
      ∙ enter_suc (length ps) (n.desc parent) w.counter;
  level =
      ap (λ (d : Desc). level_queue (d.level + 1)) (set_desc_self parent _ n)
      ∙ ap (λ (j : ℕ). level_queue (j + 1)) (enter-level (n.desc parent))
      ∙ w.level;
  private = w.private;
  queue = w.queue;
  other_queues = w.other_queues;
  distinct = w.distinct;
  leaves = λ q is.
      let old = w.leaves q is in
      IsLeaf-same table parent q n (set_desc parent (block_enter (n.desc parent)) n)
        (set_desc_other parent q _ n old.not_parent) refl old;
}

-- It changes no call of a child.
pub entered-calls :
    (table : Table) (parent : Ptr) {k l : ℕ} (ps : List Ptr) (n : Node)
    → IsWaiting table parent k l ps n
    → (q : Ptr) → has q ps ≡ true
    → call_of table (set_desc parent (block_enter (n.desc parent)) n) q ≡ call_of table n q
entered-calls table parent ps n w q is =
    ap (torc_core_execution table n.cluster.mpi_rank)
      (set_desc_other parent q (block_enter (n.desc parent)) n (w.leaves q is).not_parent)

pub enter_none-IsWaiting :
    (table : Table) (parent : Ptr) (l : ℕ) (n : Node)
    → IsWaiting table parent 0 l [] n
    → IsWaiting table parent 0 l [] (set_desc parent (block_enter (n.desc parent)) n)
enter_none-IsWaiting table parent l n w = record {
  counter =
      ap (λ (d : Desc). d.ndep) (set_desc_self parent _ n) ∙ enter_none (n.desc parent) w.counter;
  level =
      ap (λ (d : Desc). level_queue (d.level + 1)) (set_desc_self parent _ n)
      ∙ ap (λ (j : ℕ). level_queue (j + 1)) (enter-level (n.desc parent))
      ∙ w.level;
  private = w.private;
  queue = w.queue;
  other_queues = w.other_queues;
  distinct = w.distinct;
  leaves = λ q is. absurd (true≢false (sym is));
}
