-- ===== src/Waiting/Rounds.antt =====
-- A round of the scheduler on a node with tasks of one level, whose functions do not use the
-- runtime.
use torc_lite.Common.{
  ℕ, zero, suc, ◌+◌, ◌<◌, ◌≡◌, ◌≢◌, refl, sym, ap, ◌∙◌, Bool, true, false, some, List, [], ◌∷◌,
  ◌++◌, length, has, ◌==◌, ==_false, if◌then◌else◌, arith, true≢false,
}
use torc_lite.Desc.{Ptr, null, Desc}
use torc_lite.Types.{Handles}
use torc_lite.Table.{Table}
use torc_lite.Node.{Node, Thread, level_queue, torc_i_pq_dequeue, torc_i_rq_dequeue}
use torc_lite.Node.Search.{Taken, Taken-after, SameBut}
use torc_lite.Queue.Deque.{spec_step}
use torc_lite.Exec.{Call, torc_execute, torc_core_execution}
use torc_lite.Scheduler.{level_loop, steal_if, get_next_task, torc_scheduler_loop}
use torc_lite.Scheduler.Levels.{level_loop-Taken, pq_empty, pq_Untouched, either_way}
use torc_lite.Nodes.{Cluster}
use torc_lite.Waiting.Runs.{call_of, IsNext}
use torc_lite.Waiting.Execution.{flags, Keeps, execute-IsRun}
use torc_lite.Waiting.Expected.{
  depsatisfy_suc, satisfied-level, IsWaiting, IsLeaf-same, has_later, has_first,
}

either_private :
    {v : List Ptr} (b : Bool) (x y : Node × Ptr)
    → x.0.private_grq ≡ v
    → y.0.private_grq ≡ v
    → (if b then x else y).0.private_grq ≡ v
either_private true x y f g = f
either_private false x y f g = g

pub level_loop-private : (k : ℕ) (n : Node) → (level_loop k n).0.private_grq ≡ n.private_grq
unfolding level_loop torc_i_rq_dequeue
level_loop-private zero n = refl
level_loop-private (suc k) n =
    let r = torc_i_rq_dequeue k n in
    either_private (r.1 == null) (level_loop k r.0) r (level_loop-private k r.0) refl

pub pq-private : (n : Node) → n.private_grq ≡ [] → (torc_i_pq_dequeue n).0.private_grq ≡ []
unfolding torc_i_pq_dequeue spec_step
pq-private n e = rw e refl

either_flags :
    {v : Bool × ℕ} (b : Bool) (x y : Node × Ptr)
    → flags x.0 ≡ v
    → flags y.0 ≡ v
    → flags (if b then x else y).0 ≡ v
either_flags true x y f g = f
either_flags false x y f g = g

pub level_loop-flags : (k : ℕ) (n : Node) → flags (level_loop k n).0 ≡ flags n
unfolding level_loop torc_i_rq_dequeue
level_loop-flags zero n = refl
level_loop-flags (suc k) n =
    let r = torc_i_rq_dequeue k n in
    either_flags (r.1 == null) (level_loop k r.0) r (level_loop-flags k r.0) refl

pub pq-flags : (n : Node) → flags (torc_i_pq_dequeue n).0 ≡ flags n
unfolding torc_i_pq_dequeue
pq-flags n = refl

-- A worker that has found a task in a public queue, and none of its own.
pub record FindsFirst (l : ℕ) (p : Ptr) (q : List Ptr) (n n' : Node) : Type 0 where
  pub taken : Taken l p q n n'
  pub private : n'.private_grq ≡ []
  pub kept : flags n' ≡ flags n

-- The search before the execution changes neither the log nor the calls.
found-IsNext :
    (run : Thread → Call → Node → Node) (t : Thread) (table : Table) (p : Ptr) (ps : List Ptr)
    (n m o : Node)
    → SameBut n m
    → IsNext run t table p ps m o
    → IsNext run t table p ps n o
found-IsNext run t table p ps n m o s i = record {
  call = i.call;
  before = i.before;
  callable = sym (same p) ∙ i.callable;
  start = i.start ∙ s.sent;
  end' = i.end';
  later = λ q is. i.later q is ∙ same q;
}
  where
    same : (q : Ptr) → call_of table m q ≡ call_of table n q
    same q =
        ap (λ (c : Cluster). torc_core_execution table c.mpi_rank (m.desc q)) s.cluster
        ∙ ap (λ g. torc_core_execution table n.cluster.mpi_rank (g q)) s.desc

scheduler_step :
    (h : Handles) (type_size : ℕ → ℕ) (answer : (target : ℕ) → Node → Desc) (t : Thread)
    (run : Thread → Call → Node → Node) (table : Table) (n m o : Node) (p : Ptr)
    → p ≢ null
    → get_next_task h type_size answer t n ≡ some (m, p)
    → torc_execute run table t p m ≡ some o
    → torc_scheduler_loop h type_size answer t run table n ≡ some (o, true)
unfolding torc_scheduler_loop
scheduler_step h type_size answer t run table n m o p ne e f =
    rw (e, ==_false p null ne) (rw (==_false p null ne, f) refl)

module _ (h : Handles) (type_size : ℕ → ℕ) (answer : (target : ℕ) → Node → Desc) (t : Thread) where
  finds_first :
      (l : ℕ) (p : Ptr) (q : List Ptr) (n : Node)
      → p ≢ null
      → l < 10
      → n.private_grq ≡ []
      → n.public_grq l ≡ p ∷ q
      → ((m : ℕ) → m ≢ l → n.public_grq m ≡ [])
      → (n' : Node) × (get_next_task h type_size answer t n ≡ some (n', p)) × FindsFirst l p q n n'
  unfolding get_next_task steal_if
  finds_first l p q n ne b w e o =
      let u = pq_Untouched n in
      let n1 = (torc_i_pq_dequeue n).0 in
      let f =
        level_loop-Taken 10 l n1 p q ne b
          (λ m x y. u.all m ∙ o m (λ z. absurd (omega (arith, x, z)))) (u.all l ∙ e) in
      let r = level_loop 10 n1 in
      (
        r.0,
        rw (pq_empty n w) (
            either_way r.0.internode_stealing (r.1 == null) _ (some r)
              (==_false r.1 null (λ z. ne (sym f.0 ∙ z)))
            ∙ ap (λ x. some (r.0, x)) f.0),
        record {
          taken = Taken-after l p q u f.1;
          private = level_loop-private 10 n1 ∙ pq-private n w;
          kept = level_loop-flags 10 n1 ∙ pq-flags n;
        },
      )

  module _ (run : Thread → Call → Node → Node) (table : Table) (parent : Ptr) (real : parent ≢ null)
      (leaf : (u : Thread) (c : Call) (m : Node) → Keeps m (run u c m)) where
    -- The first task is taken and run.
    pub first_task :
        (l : ℕ) (p : Ptr) (ps : List Ptr) (n : Node)
        → l < 10
        → IsWaiting table parent (suc (length ps)) l (p ∷ ps) n
        → (m : Node) × (n' : Node) × (get_next_task h type_size answer t n ≡ some (m, p))
          × (torc_execute run table t p m ≡ some n')
          × IsWaiting table parent (length ps) l ps n'
          × (n'.reuse_q ≡ n.reuse_q ++ p ∷ [])
          × (flags n' ≡ flags n)
          × (n'.cluster ≡ n.cluster)
          × IsNext run t table p ps n n'
    first_task l p ps n b w =
        let first = w.leaves p (has_first p ps) in
        let (m, e, f) = finds_first l p ps n first.is_task b w.private w.queue w.other_queues in
        let same : (q : Ptr) → m.desc q ≡ n.desc q = λ q. ap (λ g. g q) f.taken.same.desc in
        let leaf_m = IsLeaf-same table parent p n m (same p) f.taken.same.cluster first in
        let (n', e', r, i) = execute-IsRun run table t leaf parent p m real leaf_m in
        (
          m,
          n',
          e,
          e',
          record {
            counter =
                ap (λ (d : Desc). d.ndep) r.told
                ∙ depsatisfy_suc (length ps) (m.desc parent)
                    (ap (λ (d : Desc). d.ndep) (same parent) ∙ w.counter);
            level =
                ap (λ (d : Desc). level_queue (d.level + 1)) r.told
                ∙ ap (λ (j : ℕ). level_queue (j + 1)) (satisfied-level (m.desc parent))
                ∙ ap (λ (d : Desc). level_queue (d.level + 1)) (same parent)
                ∙ w.level;
            private = r.queues.private ∙ f.private;
            queue = ap (λ g. g l) r.queues.public ∙ f.taken.taken;
            other_queues =
                λ j ne. ap (λ g. g j) r.queues.public ∙ f.taken.others j ne ∙ w.other_queues j ne;
            distinct = w.distinct.1;
            leaves = λ q is.
                let old = w.leaves q (has_later q p ps is) in
                IsLeaf-same table parent q n n'
                  (r.others q (λ z. true≢false (sym is ∙ ap (λ x. has x ps) z ∙ w.distinct.0))
                      old.not_parent
                    ∙ same q)
                  (r.queues.cluster ∙ f.taken.same.cluster) old;
          },
          r.recycled ∙ ap (λ z. z ++ p ∷ []) f.taken.same.reuse,
          r.queues.kept ∙ f.kept,
          r.queues.cluster ∙ f.taken.same.cluster,
          found-IsNext run t table p ps n m n' f.taken.same (
              i ps (λ q is. (
                λ z. true≢false (sym is ∙ ap (λ x. has x ps) z ∙ w.distinct.0),
                (w.leaves q (has_later q p ps is)).not_parent,
              ))),
        )

    -- One round of the loop of a wait: the first task is run.
    pub round :
        (l : ℕ) (p : Ptr) (ps : List Ptr) (n : Node)
        → l < 10
        → IsWaiting table parent (suc (length ps)) l (p ∷ ps) n
        → (n' : Node) × (torc_scheduler_loop h type_size answer t run table n ≡ some (n', true))
          × IsWaiting table parent (length ps) l ps n'
          × (n'.reuse_q ≡ n.reuse_q ++ p ∷ [])
          × (flags n' ≡ flags n)
          × (n'.cluster ≡ n.cluster)
          × IsNext run t table p ps n n'
    round l p ps n b w =
        let (m, n', e, e', v, r, k, c, i) = first_task l p ps n b w in
        let real_p = (w.leaves p (has_first p ps)).is_task in
        (n', scheduler_step h type_size answer t run table n m n' p real_p e e', v, r, k, c, i)
