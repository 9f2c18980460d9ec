-- ===== src/Waiting/Family.antt =====
-- A task creates children on a single node and waits for them: `torc_task` and `torc_waitall`.
use mathlib.Core.Path.{subst}
use torc_lite.Common.{
  ℕ, zero, suc, ◌+◌, ◌≤◌, ◌<◌, ◌≡◌, ◌≢◌, refl, sym, ap, ◌∙◌, Bool, true, false, Option, some, List,
  [], ◌∷◌, ◌++◌, length, has, Distinct, count, count-append, update, arith, ℕ_discrete, true≢false,
}
use torc_lite.Common.Int.{pos, minus_one}
use torc_lite.Desc.{Ptr, null, Desc}
use torc_lite.Table.{Table}
use torc_lite.Deps.{first_child, torc_depadd}
use torc_lite.Nodes.{Cluster}
use torc_lite.Node.{Node, Thread, level_queue, torc_get_reused_desc}
use torc_lite.Node.Ownership.{held, levels, count-held, one_at}
use torc_lite.Node.Ownership.Moves.{IsOwned, same-IsOwned, reused-IsOwned, used-free}
use torc_lite.Create.{Env, ArgSpec, new_task, create_child}
use torc_lite.Create.Total.{AllAccepted}
use torc_lite.Create.Parent.{create_child-parent, reused-set_desc}
use torc_lite.Owners.Tasks.{create_child-Uses}
use torc_lite.Exec.{Call, task_function, torc_core_execution}
use torc_lite.Exec.Arguments.{exact_call, execution_exact}
use torc_lite.Waiting.Runs.{call_of}
use torc_lite.Waiting.Execution.{flags, IsLeaf}
use torc_lite.Waiting.Expected.{IsWaiting, IsLeaf-same}
use torc_lite.Waiting.Children.{
  torc_get_reused_desc-IsTaken, creating-level, creating, next_child, IsCreated,
  create_child-IsCreated,
}

-- What the counter of a task says that has created these children: a task counts itself as long as
-- it has any.
abbrev pub notices : List Ptr → ℕ
notices [] = 0
notices (p ∷ ps) = suc (length (p ∷ ps))

notices_next : (ps : List Ptr) (p : Ptr) → notices (ps ++ p ∷ []) ≡ suc (suc (length ps))
notices_next [] p = refl
notices_next (q ∷ ps) p = omega (arith, length_next ps p)
  where
    length_next : (ps : List Ptr) (p : Ptr) → length (ps ++ p ∷ []) ≡ suc (length ps)
    length_next [] p = refl
    length_next (q ∷ ps) p = omega (arith, length_next ps p)

counted :
    (ps : List Ptr) (p : Ptr) (d : Desc)
    → d.ndep ≡ pos (notices ps)
    → (torc_depadd (first_child d) (pos 1)).ndep ≡ pos (notices (ps ++ p ∷ []))
unfolding torc_depadd first_child
counted [] p d e = rw e refl
counted (q ∷ ps) p d e = rw (e, notices_next (q ∷ ps) p) (ground arith)

-- A task on a single node with the children `ps`, all in the queue `l`.
pub record IsForking (table : Table) (parent : Ptr) (used : List Ptr) (l : ℕ) (ps : List Ptr)
    (n : Node) : Type 0 where
  pub owned : IsOwned n used
  pub in_use : 1 ≤ count parent used
  pub single : n.cluster.mpi_nodes ≡ 1
  pub waiting : IsWaiting table parent (notices ps) l ps n

has_not : (p : Ptr) (ps : List Ptr) → count p ps ≡ 0 → has p ps ≡ false
has_not p [] e = refl
has_not p (q ∷ ps) e = let rest = has_not p ps in ground arith

level_part : (k l a : ℕ) (g : ℕ → List Ptr) → l < k → count a (g l) ≤ count a (levels k g)
level_part zero l a g b = absurd (omega arith)
level_part (suc k) l a g b = elim (ℕ_discrete l k) [
  | yes e ↦ omega (arith, count-append a (levels k g) (g k), ap (λ j. count a (g j)) e)
  | no ne ↦ omega (arith, count-append a (levels k g) (g k), level_part k l a g (omega arith))
]

has_absent : (ps : List Ptr) (p q : Ptr) → q ≢ p → has q ps ≡ false → has q (ps ++ p ∷ []) ≡ false
has_absent [] p q ne e = ground arith
has_absent (x ∷ ps) p q ne e = let rest = has_absent ps p q ne in ground arith

Distinct-next : (ps : List Ptr) (p : Ptr) → Distinct ps → has p ps ≡ false → Distinct (ps ++ p ∷ [])
Distinct-next [] p d h = (refl, tt)
Distinct-next (q ∷ ps) p d h =
    (has_absent ps p q (λ z. ground arith) d.0, Distinct-next ps p d.1 (ground arith))

has_next : (ps : List Ptr) (p q : Ptr) → q ≢ p → has q (ps ++ p ∷ []) ≡ true → has q ps ≡ true
has_next [] p q ne e = ground arith
has_next (x ∷ ps) p q ne e = let rest = has_next ps p q ne in ground arith

at_level : (l m : ℕ) (g : ℕ → List Ptr) (xs : List Ptr) → m ≡ l → update g m xs l ≡ xs
at_level l m g xs e = ground arith

off_level : (l m : ℕ) (g : ℕ → List Ptr) (xs : List Ptr) → m ≢ l → update g m xs l ≡ g l
off_level l m g xs e = ground arith

-- The child will call the function that it was created for, and the other children what they
-- would have called before.
pub record IsBorn (table : Table) (t : Thread) (work : ℕ) (ps : List Ptr) (n m : Node)
    : Type 0 where
  pub call : Call
  pub callable : call_of table m (next_child t n) ≡ some call
  pub function : call.function ≡ work
  pub earlier : (q : Ptr) → has q ps ≡ true → call_of table m q ≡ call_of table n q

module _ (env : Env) (table : Table) (t : Thread) (rte_type : ℕ) (visible skips : Bool)
    (queue : Option ℕ) (work : ℕ) (specs : List ArgSpec) where
  -- The descriptor of the child is none that is in use or queued.
  record IsFresh (used : List Ptr) (l : ℕ) (ps : List Ptr) (n : Node) : Type 0 where
    real : next_child t n ≢ null
    not_parent : next_child t n ≢ t.currt
    not_queued : has (next_child t n) ps ≡ false

  next_child-IsFresh :
      (used : List Ptr) (l : ℕ) (ps : List Ptr) (n : Node)
      → l < 10
      → IsForking table t.currt used l ps n
      → IsFresh used l ps n
  next_child-IsFresh used l ps n b f =
      let n1 = creating t n in
      let p = next_child t n in
      let o = reused-IsOwned n1 used (same-IsOwned refl refl f.owned) in
      let m = (torc_get_reused_desc n1).0 in
      let own : one_at p p ≡ 1 = ground arith in
      let none_held : count p (held m) ≡ 0 = used-free p o in
      let queues = (torc_get_reused_desc-IsTaken n1).queues in
      let part = level_part 10 l p m.public_grq b in
      let same = ap (count p) (ap (λ g. g l) queues.public ∙ f.waiting.queue) in
      record {
        real =
            λ e. let z : one_at p null ≡ 1 = ground (arith, e) in omega (arith, o.places null, z);
        not_parent =
            λ e. let z = ap (λ x. count x used) e in ground (arith, o.places p, own, z, f.in_use);
        not_queued = has_not p ps (omega (arith, count-held p m, none_held, part, same));
      }

  -- A task that has no number for its function is called by its address.
  direct : (d : Desc) → d.work ≡ work → d.work_id ≡ minus_one → task_function table d ≡ some work
  unfolding task_function
  direct d e w = rw (w, e) refl

  child-callable :
      (n : Node) (d : Desc)
      → length specs ≤ 17
      → d.narg ≡ length specs
      → d.work ≡ work
      → d.work_id ≡ minus_one
      → (c : Call) × (torc_core_execution table n.cluster.mpi_rank d ≡ some c)
  child-callable n d few a e w = (
    exact_call table n.cluster.mpi_rank d work (direct d e w),
    (execution_exact table n.cluster.mpi_rank d work (direct d e w)).1 (omega (arith, a, few)),
  )

  child-IsLeaf :
      (used : List Ptr) (l : ℕ) (ps : List Ptr) (n m : Node)
      → length specs ≤ 17
      → IsFresh used l ps n
      → IsCreated env table t rte_type visible skips queue work specs n m
      → IsLeaf table t.currt m (next_child t n)
  unfolding new_task
  child-IsLeaf used l ps n m few f c =
      let call =
        child-callable m (m.desc (next_child t n)) few (ap (λ (d : Desc). d.narg) c.task)
          (ap (λ (d : Desc). d.work) c.task) (ap (λ (d : Desc). d.work_id) c.task) in
      record {
        is_task = f.real;
        not_parent = f.not_parent;
        child = ap (λ (d : Desc). d.parent) c.task;
        home =
            ap (λ (d : Desc). d.homenode) c.task ∙ ap (λ (k : Cluster). k.mpi_rank) (sym c.cluster);
        call = call.0;
        callable = call.1;
      }

  -- What waits for the creator after a creation: the child, behind its other children.
  created-IsWaiting :
      (used : List Ptr) (l : ℕ) (ps : List Ptr) (n m : Node)
      → length specs ≤ 17
      → IsFresh used l ps n
      → IsCreated env table t rte_type visible skips queue work specs n m
      → m.desc t.currt ≡ torc_depadd (first_child (n.desc t.currt)) (pos 1)
      → IsWaiting table t.currt (notices ps) l ps n
      → IsWaiting table t.currt
          (notices (ps ++ next_child t n ∷ []))
          l
          (ps ++ next_child t n ∷ [])
          m
  unfolding new_task
  created-IsWaiting used l ps n m few fresh c parent w =
      let p = next_child t n in
      record {
        counter = ap (λ (d : Desc). d.ndep) parent ∙ counted ps p (n.desc t.currt) w.counter;
        level =
            ap (λ (d : Desc). level_queue (d.level + 1)) parent
            ∙ ap (λ (j : ℕ). level_queue (j + 1)) (creating-level (n.desc t.currt))
            ∙ w.level;
        private = c.private ∙ w.private;
        queue =
            ap (λ g. g l) c.public
            ∙ at_level l _ n.public_grq _ w.level
            ∙ ap (λ j. n.public_grq j ++ p ∷ []) w.level
            ∙ ap (λ z. z ++ p ∷ []) w.queue;
        other_queues = λ j ne.
            ap (λ g. g j) c.public
            ∙ off_level j _ n.public_grq _ (λ z. ne (sym z ∙ w.level))
            ∙ w.other_queues j ne;
        distinct = Distinct-next ps p w.distinct fresh.not_queued;
        leaves = λ q is. elim (ℕ_discrete q p) [
          | yes z ↦ subst (IsLeaf table t.currt m) (sym z) (child-IsLeaf used l ps n m few fresh c)
          | no ne ↦
              let old = w.leaves q (has_next ps p q ne is) in
              IsLeaf-same table t.currt q n m (c.others q ne old.not_parent) c.cluster old
        ];
      }

  created-IsBorn :
      (used : List Ptr) (l : ℕ) (ps : List Ptr) (n m : Node)
      → length specs ≤ 17
      → IsFresh used l ps n
      → IsCreated env table t rte_type visible skips queue work specs n m
      → IsWaiting table t.currt (notices ps) l ps n
      → IsBorn table t work ps n m
  unfolding child-IsLeaf child-callable
  created-IsBorn used l ps n m few fresh c w =
      let leaf = child-IsLeaf used l ps n m few fresh c in
      record {
        call = leaf.call;
        callable = leaf.callable;
        function = refl;
        earlier = λ q is.
            ap (λ (k : Cluster). torc_core_execution table k.mpi_rank (m.desc q)) c.cluster
            ∙ ap (torc_core_execution table n.cluster.mpi_rank) (
                c.others q (λ z. true≢false (sym is ∙ ap (λ x. has x ps) z ∙ fresh.not_queued))
                  (w.leaves q is).not_parent);
      }

  -- One creation.
  pub create_child-IsForking :
      (used : List Ptr) (l : ℕ) (ps : List Ptr) (n : Node)
      → l < 10
      → length specs ≤ 17
      → AllAccepted env specs
      → IsForking table t.currt used l ps n
      → (m : Node) × (create_child env table t rte_type visible skips queue work specs n ≡ some m)
        × IsForking table t.currt used l (ps ++ next_child t n ∷ []) m
        × (flags m ≡ flags n)
        × IsBorn table t work ps n m
  create_child-IsForking used l ps n b few ok f =
      let p = next_child t n in
      let fresh = next_child-IsFresh used l ps n b f in
      let not_parent : t.currt ≢ p = λ z. fresh.not_parent (sym z) in
      let (m, e, c) =
        create_child-IsCreated env table t rte_type visible skips queue work specs n f.single
          (omega (arith, few)) ok not_parent in
      let parent =
        create_child-parent env table t rte_type visible skips queue work specs n m
          (λ z. not_parent (z ∙ sym (reused-set_desc env table t t.currt _ n))) e in
      (
        m,
        e,
        record {
          owned =
              create_child-Uses env table t used rte_type visible skips queue work specs n m f.owned
                e;
          in_use = f.in_use;
          single = ap (λ (k : Cluster). k.mpi_nodes) c.cluster ∙ f.single;
          waiting = created-IsWaiting used l ps n m few fresh c parent f.waiting;
        },
        c.kept,
        created-IsBorn used l ps n m few fresh c f.waiting,
      )
