-- ===== src/Waiting/Execution.antt =====
-- The execution of a task whose function does not use the runtime, on the node that created it.
use torc_lite.Common.{
  ℕ, ◌+◌, ◌≡◌, ◌≢◌, refl, sym, ap, ◌∙◌, Bool, true, false, some, [], ◌∷◌, ◌++◌, ◌==◌, if◌then◌else◌,
  update, arith, List, has,
}
use torc_lite.Common.Int.{ℤ, pos_part}
use torc_lite.Desc.{Ptr, null, Desc}
use torc_lite.Table.{Table}
use torc_lite.Nodes.{Cluster}
use torc_lite.Deps.{torc_depsatisfy}
use torc_lite.Node.{Node, Thread, set_desc, torc_put_reused_desc, torc_to_i_reuseq_end}
use torc_lite.Node.Store.{set_desc_other, set_desc_self}
use torc_lite.Tally.{update_self, update_other}
use torc_lite.Send.{send_descriptor, send_value}
use torc_lite.Exec.{
  Call, torc_cleanup, execute_enter, task_function, torc_core_execution, torc_execute,
}
use torc_lite.Waiting.Runs.{IsNext}
use torc_lite.Exec.Cleanup.{EndsHome, cleanup-IsEnded}

-- The flag for stealing, and the count of the notices that the program has ended.
abbrev pub flags : Node → Bool × ℕ
flags n = (n.internode_stealing, n.appl_finished)

-- Two nodes with the same machine, the same queues and the same flags.
pub record SameQueues (n n' : Node) : Type 0 where
  pub cluster : n'.cluster ≡ n.cluster
  pub private : n'.private_grq ≡ n.private_grq
  pub public : n'.public_grq ≡ n.public_grq
  pub kept : flags n' ≡ flags n

pub SameQueues-trans : {n m o : Node} → SameQueues n m → SameQueues m o → SameQueues n o
SameQueues-trans a b = record {
  cluster = b.cluster ∙ a.cluster;
  private = b.private ∙ a.private;
  public = b.public ∙ a.public;
  kept = b.kept ∙ a.kept;
}

cleanup-SameQueues : (t : Thread) (p : Ptr) (n : Node) → SameQueues n (torc_cleanup t p n)
unfolding torc_cleanup torc_put_reused_desc torc_to_i_reuseq_end send_descriptor send_value
cleanup-SameQueues t p n = record {
  cluster = ground arith;
  private = ground arith;
  public = ground arith;
  kept = ground arith;
}

-- What a function may do that does not use the runtime: it writes to the memory of the program.
pub record Keeps (n n' : Node) : Type 0 where
  pub desc : n'.desc ≡ n.desc
  pub fresh : n'.fresh_desc ≡ n.fresh_desc
  pub reuse : n'.reuse_q ≡ n.reuse_q
  pub queues : SameQueues n n'

-- What a task has become when its function runs.
pub record Entered (p : Ptr) (v : ℤ) (n n' : Node) : Type 0 where
  pub desc : n'.desc ≡ update n.desc p (record (n.desc p) { vp_id = v })
  pub reuse : n'.reuse_q ≡ n.reuse_q
  pub sent : n'.sent ≡ n.sent
  pub queues : SameQueues n n'

enter-Entered :
    (t : Thread) (p : Ptr) (n : Node) → Entered p (n.desc t.currt).vp_id n (execute_enter t p n)
unfolding execute_enter
enter-Entered t p n = entered ((n.desc p).rte_type == 1)
  where
    v : ℤ
    v = (n.desc t.currt).vp_id

    n1 : Node
    n1 = set_desc p (record (n.desc p) { vp_id = v }) n

    same : SameQueues n n1
    same = record { cluster = refl; private = refl; public = refl; kept = refl }

    entered :
        (b : Bool)
        → Entered p v n (
            if b
            then record n1 {
              executed = update n.executed (pos_part v) (n.executed (pos_part v) + 1);
            }
            else n1)
    entered true = record {
      desc = refl;
      reuse = refl;
      sent = refl;
      queues = record { cluster = refl; private = refl; public = refl; kept = refl };
    }
    entered false = record { desc = refl; reuse = refl; sent = refl; queues = same }

-- A task of this node that a worker can run: a child of the task `parent`.
pub record IsLeaf (table : Table) (parent : Ptr) (n : Node) (p : Ptr) : Type 0 where
  pub is_task : p ≢ null
  pub not_parent : p ≢ parent
  pub child : (n.desc p).parent ≡ parent
  pub home : (n.desc p).homenode ≡ n.cluster.mpi_rank
  pub call : Call
  pub callable : torc_core_execution table n.cluster.mpi_rank (n.desc p) ≡ some call

-- The task has ended.
pub record IsRun (parent p : Ptr) (n n' : Node) : Type 0 where
  pub told : n'.desc parent ≡ (torc_depsatisfy (n.desc parent)).0
  pub others : (q : Ptr) → q ≢ p → q ≢ parent → n'.desc q ≡ n.desc q
  pub recycled : n'.reuse_q ≡ n.reuse_q ++ p ∷ []
  pub queues : SameQueues n n'

module _ (run : Thread → Call → Node → Node) (table : Table) (t : Thread)
    (leaf : (u : Thread) (c : Call) (m : Node) → Keeps m (run u c m)) where
  called :
      (v : ℤ) (node : ℕ) (d : Desc)
      → torc_core_execution table node (record d { vp_id = v }) ≡ torc_core_execution table node d
  unfolding torc_core_execution task_function
  called v node d = refl

  pub execute-IsRun :
      (parent p : Ptr) (n : Node)
      → parent ≢ null
      → IsLeaf table parent n p
      → (n' : Node) × (torc_execute run table t p n ≡ some n')
        × IsRun parent p n n'
        × ((ps : List Ptr)
            → ((q : Ptr) → has q ps ≡ true → (q ≢ p) × (q ≢ parent))
            → IsNext run t table p ps n n')
  unfolding torc_execute
  execute-IsRun parent p n real l = (
    torc_cleanup self p y,
    rw core refl,
    record {
      told =
          ap (torc_cleanup self p y).desc (sym par)
          ∙ ends.parent (λ z. real (sym par ∙ z))
          ∙ ap (λ q. (torc_depsatisfy (y.desc q)).0) par
          ∙ ap (λ d. (torc_depsatisfy d).0) (other parent (λ z. l.not_parent (sym z)));
      others = λ q np nc. ends.others q (λ z. nc (z ∙ par)) ∙ other q np;
      recycled = ends.recycled ∙ ap (λ r. r ++ p ∷ []) (keeps.reuse ∙ e.reuse);
      queues = SameQueues-trans same (cleanup-SameQueues self p y);
    },
    λ ps differ. record {
      call = l.call;
      before = x;
      callable = l.callable;
      start = e.sent;
      end' = ends.sent;
      later = λ q is.
          let (np, nc) = differ q is in
          ap
            (λ (c : Cluster). torc_core_execution table c.mpi_rank ((torc_cleanup self p y).desc q))
            (SameQueues-trans same (cleanup-SameQueues self p y)).cluster
          ∙ ap (torc_core_execution table n.cluster.mpi_rank)
              (ends.others q (λ z. nc (z ∙ par)) ∙ other q np);
    },
  )
    where
      self : Thread
      self = record t { currt = p }

      v : ℤ
      v = (n.desc t.currt).vp_id

      e : Entered p v n (execute_enter t p n)
      e = enter-Entered t p n

      d : Desc
      d = record ((execute_enter t p n).desc p) { work = l.call.function }

      x : Node
      x = set_desc p d (execute_enter t p n)

      y : Node
      y = run self l.call x

      keeps : Keeps x y
      keeps = leaf self l.call x

      entered : (execute_enter t p n).desc p ≡ record (n.desc p) { vp_id = v }
      entered = ap (λ k. k p) e.desc ∙ update_self n.desc p (record (n.desc p) { vp_id = v })

      core :
          torc_core_execution table n.cluster.mpi_rank ((execute_enter t p n).desc p) ≡ some l.call
      core =
          ap (torc_core_execution table n.cluster.mpi_rank) entered
          ∙ called v n.cluster.mpi_rank (n.desc p)
          ∙ l.callable

      self_y : y.desc p ≡ d
      self_y = ap (λ k. k p) keeps.desc ∙ set_desc_self p d (execute_enter t p n)

      par : (y.desc p).parent ≡ parent
      par = ap (λ (z : Desc). z.parent) self_y ∙ ap (λ (z : Desc). z.parent) entered ∙ l.child

      other : (q : Ptr) → q ≢ p → y.desc q ≡ n.desc q
      other q ne =
          ap (λ k. k q) keeps.desc
          ∙ set_desc_other p q d (execute_enter t p n) ne
          ∙ ap (λ k. k q) e.desc
          ∙ update_other n.desc p q (record (n.desc p) { vp_id = v }) (λ z. ne (sym z))

      same : SameQueues n y
      same = record {
        cluster = keeps.queues.cluster ∙ e.queues.cluster;
        private = keeps.queues.private ∙ e.queues.private;
        public = keeps.queues.public ∙ e.queues.public;
        kept = keeps.queues.kept ∙ e.queues.kept;
      }

      home : (y.desc p).homenode ≡ y.cluster.mpi_rank
      home =
          ap (λ (z : Desc). z.homenode) self_y
          ∙ ap (λ (z : Desc). z.homenode) entered
          ∙ l.home
          ∙ ap (λ (c : Cluster). c.mpi_rank) (sym same.cluster)

      ends : EndsHome p y (torc_cleanup self p y)
      ends = (cleanup-IsEnded self p y).home home
