-- ===== src/Waiting/Forks.antt =====
-- Waves of children on a single node: a task creates some, waits for all, and goes on.
use mathlib.Core.List.{append_assoc, append-nil}
use mathlib.Core.Path.{subst}
use torc_lite.Common.{
  ℕ, zero, suc, ◌≤◌, ◌<◌, ◌≡◌, ◌≢◌, refl, sym, ap, ◌∙◌, Bool, true, not, Option, some, List, [],
  ◌∷◌, ◌++◌, length, ◌>>=◌, arith, if◌then◌else◌, Always, Always-none, Always-some, Always-if,
  Always-bind, true≢false, has, ℕ_discrete,
}
use torc_lite.Desc.{Ptr, null, Desc}
use torc_lite.Types.{Handles}
use torc_lite.Table.{Table}
use torc_lite.Deps.{block_enter, block_done}
use torc_lite.Nodes.{Cluster}
use torc_lite.Node.{Node, Thread, set_desc}
use torc_lite.Node.Ownership.Moves.{IsOwned, same-IsOwned}
use torc_lite.Owners.{Uses}
use torc_lite.Owners.Tasks.{Minds}
use torc_lite.Owners.Stealing.{torc_scheduler_loop-Fetches}
use torc_lite.Create.{Env, ArgSpec, torc_task}
use torc_lite.Create.Total.{AllAccepted}
use torc_lite.Exec.{Call}
use torc_lite.Scheduler.{torc_scheduler_loop}
use torc_lite.Waiting.{block_loop, torc_block}
use torc_lite.Waiting.Runs.{call_of, Runs, Runs-same}
use torc_lite.Waiting.Execution.{Keeps}
use torc_lite.Waiting.Expected.{IsWaiting, enter_none-IsWaiting}
use torc_lite.Waiting.Leaves.{block_loop-leaves, torc_block-leaves}
use torc_lite.Waiting.Children.{next_child}
use torc_lite.Waiting.Family.{IsForking, IsBorn, create_child-IsForking, notices}

-- A call of `torc_task`: what memory holds then, the queue, the function and the arguments.
pub record Job : Type 0 where
  pub env : Env
  pub queue : Option ℕ
  pub work : ℕ
  pub specs : List ArgSpec

-- The arguments of every call are accepted, and there are 17 at most.
abbrev pub AllRunnable : List Job → Type 0
AllRunnable [] = Unit
AllRunnable (j ∷ js) = (length j.specs ≤ 17) × AllAccepted j.env j.specs × AllRunnable js

-- One task for each call, in the same order: its execution calls the function that was passed.
abbrev pub Made : Table → Node → List Ptr → List Job → Type 0
Made table n [] [] = Unit
Made table n (p ∷ ps) (j ∷ js) =
    ((c : Call) × (call_of table n p ≡ some c) × (c.function ≡ j.work)) × Made table n ps js
Made table n [] (j ∷ js) = ⊥
Made table n (p ∷ ps) [] = ⊥

has_last : (ps : List Ptr) (p : Ptr) → has p (ps ++ p ∷ []) ≡ true
has_last [] p = ground arith
has_last (q ∷ ps) p = let rest = has_last ps p in ground arith

has_before : (ps : List Ptr) (p q : Ptr) → has q ps ≡ true → has q (ps ++ p ∷ []) ≡ true
has_before [] p q e = absurd (true≢false (sym e))
has_before (x ∷ ps) p q e = elim (ℕ_discrete q x) [
  | yes z ↦ ground (arith, z)
  | no ne ↦ let rest = has_before ps p q (ground (arith, e, ne)) in ground (arith, rest)
]

module _ (table : Table) (t : Thread) where
  -- Calls of `torc_task`, one after the other.
  unfoldable pub create_all : List Job → Node → Option Node
  create_all [] n = some n
  create_all (j ∷ js) n = torc_task j.env table t j.queue j.work j.specs n >>= create_all js

  created :
      (j : Job) (used : List Ptr) (l : ℕ) (ps : List Ptr) (n : Node)
      → l < 10
      → length j.specs ≤ 17
      → AllAccepted j.env j.specs
      → IsForking table t.currt used l ps n
      → (m : Node) × (torc_task j.env table t j.queue j.work j.specs n ≡ some m)
        × IsForking table t.currt used l (ps ++ next_child t n ∷ []) m
        × IsBorn table t j.work ps n m
  unfolding torc_task
  created j used l ps n b few ok f =
      let (m, e, g, _, c) =
        create_child-IsForking j.env table t (if n.invisible_flag then 2 else 1)
          (not n.invisible_flag) true j.queue j.work j.specs used l ps n b few ok f in
      (m, e, g, c)

  pub create_all-IsForking :
      (js : List Job) (used : List Ptr) (l : ℕ) (ps : List Ptr) (n : Node)
      → l < 10
      → AllRunnable js
      → IsForking table t.currt used l ps n
      → (m : Node) × (qs : List Ptr) × (create_all js n ≡ some m)
        × (length qs ≡ length js)
        × IsForking table t.currt used l (ps ++ qs) m
        × Made table m qs js
        × ((q : Ptr) → has q ps ≡ true → call_of table m q ≡ call_of table n q)
  unfolding create_all
  create_all-IsForking [] used l ps n b r f = (
    n,
    [],
    refl,
    refl,
    subst (λ x. IsForking table t.currt used l x n) (sym (append-nil ps)) f,
    tt,
    λ q is. refl,
  )
  create_all-IsForking (j ∷ js) used l ps n b (few, ok, r) f =
      let (m, e, g, c) = created j used l ps n b few ok f in
      let (o, qs, u, k, d, v, w) =
        create_all-IsForking js used l (ps ++ next_child t n ∷ []) m b r g in
      (
        o,
        next_child t n ∷ qs,
        rw e u,
        omega (arith, k),
        subst (λ x. IsForking table t.currt used l x o) (append_assoc ps (next_child t n ∷ []) qs)
            d,
        ((c.call, w (next_child t n) (has_last ps (next_child t n)) ∙ c.callable, c.function), v),
        λ q is. w q (has_before ps (next_child t n) q is) ∙ c.earlier q is,
      )

module _ (h : Handles) (type_size : ℕ → ℕ) (answer : (target : ℕ) → Node → Desc) (t : Thread)
    (run : Thread → Call → Node → Node) (table : Table) (used : List Ptr) where
  block_loop-Uses :
      (k : ℕ) (n : Node)
      → IsOwned n used
      → ((p : Ptr) → Minds run t p used)
      → Always (Uses used) (block_loop h type_size answer t run table (λ k m. m) k n)
  unfolding block_loop
  block_loop-Uses zero n o m = Always-none (Uses used)
  block_loop-Uses (suc k) n o m =
      let P = Uses used in
      Always-if P (block_done (n.desc t.currt)) _ _ (Always-some P n o) (
        Always-bind (λ (r : Node × Bool). IsOwned r.0 used) P
          (torc_scheduler_loop h type_size answer t run table n) _
          (λ (n', w) e.
            torc_scheduler_loop-Fetches h type_size answer t used run table n n' w o m e)
          λ (n', w) o'. block_loop-Uses k n' o' m)

  Keeps-Minds :
      ((u : Thread) (c : Call) (m : Node) → Keeps m (run u c m)) → (p : Ptr) → Minds run t p used
  Keeps-Minds leaf p c m o =
      let k = leaf (record t { currt = p }) c m in
      same-IsOwned (rw (k.reuse, k.queues.private, k.queues.public) refl) k.fresh o

  module _ (real : t.currt ≢ null)
      (leaf : (u : Thread) (c : Call) (m : Node) → Keeps m (run u c m)) where
    joined :
        (l : ℕ) (ps : List Ptr) (n : Node)
        → l < 10
        → IsWaiting table t.currt (notices ps) l ps n
        → (n' : Node) × (torc_block h type_size answer t run table (λ k m. m) (suc (length ps)) n
            ≡ some n')
          × IsWaiting table t.currt 0 l [] n'
          × (n'.reuse_q ≡ n.reuse_q ++ ps)
          × (n'.cluster ≡ n.cluster)
          × Runs run t (call_of table n) ps n.sent n'.sent
    unfolding torc_block
    joined l [] n b w =
        let (n', e, u, r, c, j) =
          block_loop-leaves h type_size answer t run table real leaf l []
            (set_desc t.currt (block_enter (n.desc t.currt)) n) b
            (enter_none-IsWaiting table t.currt l n w) in
        (n', e, u, r, c, Runs-same run t [] (λ q is. absurd (true≢false (sym is))) j)
    joined l (p ∷ ps) n b w =
        torc_block-leaves h type_size answer t run table real leaf l (p ∷ ps) n b w

    block-Owned :
        (k : ℕ) (n : Node)
        → IsOwned n used
        → Always (Uses used) (torc_block h type_size answer t run table (λ k m. m) k n)
    unfolding torc_block
    block-Owned k n o =
        block_loop-Uses k (set_desc t.currt (block_enter (n.desc t.currt)) n)
          (same-IsOwned refl refl o) (Keeps-Minds leaf)

    -- A task waits for the children that it has created.
    pub joined-IsForking :
        (l : ℕ) (ps : List Ptr) (n : Node)
        → l < 10
        → IsForking table t.currt used l ps n
        → (n' : Node) × (torc_block h type_size answer t run table (λ k m. m) (suc (length ps)) n
            ≡ some n')
          × (n'.reuse_q ≡ n.reuse_q ++ ps)
          × IsForking table t.currt used l [] n'
          × Runs run t (call_of table n) ps n.sent n'.sent
    joined-IsForking l ps n b f =
        let (n', u, w, q, c, ran) = joined l ps n b f.waiting in
        (
          n',
          u,
          q,
          record {
            owned = block-Owned (suc (length ps)) n f.owned n' u;
            in_use = f.in_use;
            single = ap (λ (z : Cluster). z.mpi_nodes) c ∙ f.single;
            waiting = w;
          },
          ran,
        )

    -- The program runs on one node. A task, not NULL and in use, without children and with a
    -- counter of 0, creates a child by each of the calls `js`, which pass at most 17 arguments, all
    -- of supported types with values of 4 or 8 bytes; the queues for tasks are empty before; every
    -- descriptor that has been allocated is in use or in one queue, exactly once; the functions of
    -- the children change neither the descriptors, allocated or not, nor the queues nor the machine
    -- nor the flags of the node; the other threads leave the node as it is. Then no creation
    -- aborts, and `torc_waitall` returns, after one test of the counter more than there are
    -- children. There is one child for each call, with the function that was passed; the log of
    -- messages is what the functions of the children have made of it, called each once, one after
    -- the other, with the child as the current task, and their descriptors have been recycled, each
    -- once, both in the order of the creations; and the node and the counter are such that the task
    -- can go on to create children in the same way.
    pub create_all-joined :
        (js : List Job) (l : ℕ) (n : Node)
        → l < 10
        → AllRunnable js
        → IsForking table t.currt used l [] n
        → (m : Node) × (ps : List Ptr) × (n' : Node) × (create_all table t js n ≡ some m)
          × (length ps ≡ length js)
          × (m.public_grq l ≡ ps)
          × (torc_block h type_size answer t run table (λ k m. m) (suc (length js)) m ≡ some n')
          × (n'.reuse_q ≡ m.reuse_q ++ ps)
          × IsForking table t.currt used l [] n'
          × Made table m ps js
          × Runs run t (call_of table m) ps m.sent n'.sent
    create_all-joined js l n b r f =
        let (m, ps, e, k, g, v, _) = create_all-IsForking table t js used l [] n b r f in
        let (n', u, q, d, ran) = joined-IsForking l ps m b g in
        (
          m,
          ps,
          n',
          e,
          k,
          g.waiting.queue,
          ap (λ j. torc_block h type_size answer t run table (λ k m. m) (suc j) m) (sym k) ∙ u,
          q,
          d,
          v,
          ran,
        )
