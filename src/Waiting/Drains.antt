-- ===== src/Waiting/Drains.antt =====
-- `_torc_block2`, on a node that does not steal, for children whose functions do not use the runtime.
use mathlib.Core.List.{append_assoc, append-nil}
use torc_lite.Common.{
  ℕ, zero, suc, ◌+◌, ◌<◌, ◌≡◌, ◌≢◌, refl, sym, ap, ◌∙◌, Bool, true, false, not, ◌&&◌, some, List,
  [], ◌∷◌, ◌++◌, length, arith, ℕ_discrete, Option, true≢false, ==_false,
}
use torc_lite.Common.Int.{pos, ltb_ℤ, eq_ℤ}
use torc_lite.Desc.{Ptr, null, Desc}
use torc_lite.Types.{Handles}
use torc_lite.Table.{Table}
use torc_lite.Deps.{block_enter}
use torc_lite.Node.{Node, Thread, set_desc, level_queue, torc_i_pq_dequeue, torc_i_rq_dequeue}
use torc_lite.Node.Search.{Untouched, Untouched-after, dequeue_empty}
use torc_lite.Exec.{Call}
use torc_lite.Scheduler.{level_loop, steal_if, get_next_task, search_again, torc_scheduler_loop}
use torc_lite.Scheduler.Levels.{pq_empty, pq_Untouched}
use torc_lite.Waiting.{after_work, block2_loop, torc_block2}
use torc_lite.Waiting.Runs.{call_of, Runs, no_more, Runs-same, IsNext-Runs}
use torc_lite.Waiting.Execution.{flags, Keeps}
use torc_lite.Waiting.Expected.{IsWaiting, waits, enter-IsWaiting, entered-calls}
use torc_lite.Waiting.Rounds.{round, level_loop-private, pq-private, level_loop-flags, pq-flags}

level_loop-Untouched :
    (k : ℕ) (n : Node)
    → ((m : ℕ) → n.public_grq m ≡ [])
    → ((level_loop k n).1 ≡ null) × Untouched n (level_loop k n).0
unfolding level_loop
level_loop-Untouched zero n e = (
  refl,
  record {
    all = λ m. refl;
    same = record {
      cluster = refl;
      desc = refl;
      sent = refl;
      reuse = refl;
      attempts = refl;
      served = refl;
    };
  },
)
level_loop-Untouched (suc k) n e =
    let f = dequeue_empty k n (e k) in
    let r = level_loop-Untouched k (torc_i_rq_dequeue k n).0 (λ m. f.1.all m ∙ e m) in
    rw f.0 (r.0, Untouched-after f.1 r.1)

-- A worker has looked for a task in vain, and does not steal.
pub record FindsNone (n n' : Node) : Type 0 where
  pub untouched : Untouched n n'
  pub private : n'.private_grq ≡ []
  pub public : (m : ℕ) → n'.public_grq m ≡ []
  pub kept : flags n' ≡ flags n

-- A node without tasks.
pub record IsIdle (n : Node) : Type 0 where
  pub private : n.private_grq ≡ []
  pub public : (m : ℕ) → n.public_grq m ≡ []
  pub stealing : n.internode_stealing ≡ false

pub IsWaiting-IsIdle :
    (table : Table) (parent : Ptr) (k l : ℕ) (n : Node)
    → n.internode_stealing ≡ false
    → IsWaiting table parent k l [] n
    → IsIdle n
IsWaiting-IsIdle table parent k l n s w = record {
  private = w.private;
  public = λ m. elim (ℕ_discrete m l) [
    | yes e ↦ ap n.public_grq e ∙ w.queue
    | no ne ↦ w.other_queues m ne
  ];
  stealing = s;
}

pub FindsNone-IsWaiting :
    (table : Table) (parent : Ptr) (k l : ℕ) (n m : Node)
    → FindsNone n m
    → IsWaiting table parent k l [] n
    → IsWaiting table parent k l [] m
FindsNone-IsWaiting table parent k l n m f w = record {
  counter = ap (λ g. (g parent).ndep) f.untouched.same.desc ∙ w.counter;
  level = ap (λ g. level_queue ((g parent).level + 1)) f.untouched.same.desc ∙ w.level;
  private = f.private;
  queue = f.public l;
  other_queues = λ j ne. f.public j;
  distinct = tt;
  leaves = λ q is. absurd (true≢false (sym is));
}

worked : (b : Bool) → (b && not true) ≡ false
worked true = refl
worked false = refl

above : (j : ℕ) (d : Desc) → d.ndep ≡ pos (suc j) → ltb_ℤ (pos 0) d.ndep ≡ true
above j d e = rw e (ground arith)

module _ (h : Handles) (type_size : ℕ → ℕ) (answer : (target : ℕ) → Node → Desc) (t : Thread) where
  pub finds_none :
      (n : Node)
      → IsIdle n
      → (n' : Node) × (get_next_task h type_size answer t n ≡ some (n', null)) × FindsNone n n'
  unfolding get_next_task steal_if
  finds_none n w =
      let u = pq_Untouched n in
      let n1 = (torc_i_pq_dequeue n).0 in
      let f = level_loop-Untouched 10 n1 (λ m. u.all m ∙ w.public m) in
      let k = level_loop-flags 10 n1 ∙ pq-flags n in
      let s = ap (λ f. f.0) k ∙ w.stealing in
      let r = level_loop 10 n1 in
      (
        r.0,
        rw (pq_empty n w.private) (rw s (ap (λ x. some (r.0, x)) f.0)),
        record {
          untouched = Untouched-after u f.1;
          private = level_loop-private 10 n1 ∙ pq-private n w.private;
          public = λ m. f.1.all m ∙ u.all m ∙ w.public m;
          kept = k;
        },
      )

  module _ (run : Thread → Call → Node → Node) (table : Table) where
    idle_step :
        (n : Node)
        → IsIdle n
        → n.appl_finished ≢ 1
        → (n' : Node) × (torc_scheduler_loop h type_size answer t run table n ≡ some (n', false))
          × FindsNone n n'
    unfolding torc_scheduler_loop search_again
    idle_step n w goes =
        let (m, e, f) = finds_none n w in
        let (o, e', f') = finds_none m (record {
          private = f.private;
          public = f.public;
          stealing = ap (λ k. k.0) f.kept ∙ w.stealing;
        }) in
        (
          o,
          rw (e, ==_false m.appl_finished 1 (λ z. goes (sym (ap (λ k. k.1) f.kept) ∙ z)))
              (rw e' refl),
          record {
            untouched = Untouched-after f.untouched f'.untouched;
            private = f'.private;
            public = f'.public;
            kept = f'.kept ∙ f.kept;
          },
        )

    last_round :
        (k : ℕ) (n m : Node)
        → (n.desc t.currt).ndep ≡ pos 0
        → torc_scheduler_loop h type_size answer t run table n ≡ some (m, false)
        → (m.desc t.currt).ndep ≡ pos 0
        → block2_loop h type_size answer t run table (λ k i m. m) (suc k) n ≡ some (m, false)
    unfolding block2_loop after_work
    last_round k n m c e d = rw (c, e) (rw d refl)

    after_step :
        (k : ℕ) (rest : Node → Option (Node × Bool)) (n m : Node)
        → torc_scheduler_loop h type_size answer t run table n ≡ some (m, true)
        → after_work h type_size answer t run table (λ k i m. m) k rest n ≡ rest m
    unfolding after_work
    after_step k rest n m e = rw e (rw (worked (eq_ℤ (m.desc t.currt).ndep (pos 0))) refl)

    work_round :
        (k j : ℕ) (n m : Node)
        → (n.desc t.currt).ndep ≡ pos (suc j)
        → torc_scheduler_loop h type_size answer t run table n ≡ some (m, true)
        → block2_loop h type_size answer t run table (λ k i m. m) (suc k) n
          ≡ block2_loop h type_size answer t run table (λ k i m. m) k m
    unfolding block2_loop
    work_round k j n m c e =
        rw (above j (n.desc t.currt) c, waits j (n.desc t.currt) c)
          (after_step k (λ x. block2_loop h type_size answer t run table (λ k i m. m) k x) n m e)

    module _ (real : t.currt ≢ null)
        (leaf : (u : Thread) (c : Call) (m : Node) → Keeps m (run u c m)) where
      drain :
          (l : ℕ) (ps : List Ptr) (n : Node)
          → l < 10
          → n.internode_stealing ≡ false
          → n.appl_finished ≢ 1
          → IsWaiting table t.currt (length ps) l ps n
          → (n' : Node) × (block2_loop h type_size answer t run table
                (λ k i m. m)
                (suc (length ps))
                n
              ≡ some (n', false))
            × IsWaiting table t.currt 0 l [] n'
            × (n'.reuse_q ≡ n.reuse_q ++ ps)
            × Runs run t (call_of table n) ps n.sent n'.sent
      drain l [] n b s goes w =
          let (m, e, f) = idle_step n (IsWaiting-IsIdle table t.currt 0 l n s w) goes in
          let v = FindsNone-IsWaiting table t.currt 0 l n m f w in
          (
            m,
            last_round 0 n m w.counter e v.counter,
            v,
            f.untouched.same.reuse ∙ sym (append-nil n.reuse_q),
            no_more (sym f.untouched.same.sent),
          )
      drain l (p ∷ ps) n b s goes w =
          let (m, e, v, r, z, _, i) =
            round h type_size answer t run table t.currt real leaf l p ps n b w in
          let (n', f, u, g, j) =
            drain l ps m b (ap (λ k. k.0) z ∙ s) (λ y. goes (sym (ap (λ k. k.1) z) ∙ y)) v in
          (
            n',
            work_round (suc (length ps)) (length ps) n m w.counter e ∙ f,
            u,
            g ∙ ap (λ z. z ++ ps) r ∙ append_assoc n.reuse_q (p ∷ []) ps,
            IsNext-Runs run t i j,
          )

      -- No notice of the end of the program has come (`appl_finished` is not 1), and none comes in
      -- the meantime. A worker of a node that does not steal waits in `torc_waitall2` for the
      -- children of the task `t.currt`, which is not NULL. They are the tasks `ps`, all different,
      -- created on this node and in its queue `l`, 0 to 9, the one for the level below the waiting
      -- task's; each belongs to a function of the table or has an address, and this function
      -- changes neither the descriptors, allocated or not, nor the queues nor the machine nor the
      -- flags of the node; all other queues are empty; the counter of the waiting task is one more
      -- than their number; the other threads leave the node as it is. Then `_torc_block2` returns
      -- 0, after one round more than there are children, in which no work is found: the queues of
      -- the node are empty, the counter is 0, the log of messages is what the functions of the
      -- children have made of it, called each once, one after the other, and the descriptors of the
      -- children have been recycled, each once, both in the order of the queue.
      pub torc_block2-drains :
          (l : ℕ) (ps : List Ptr) (n : Node)
          → l < 10
          → n.internode_stealing ≡ false
          → n.appl_finished ≢ 1
          → IsWaiting table t.currt (suc (length ps)) l ps n
          → (n' : Node) × (torc_block2 h type_size answer t run table
                (λ k i m. m)
                (suc (length ps))
                n
              ≡ some (n', false))
            × IsWaiting table t.currt 0 l [] n'
            × (n'.reuse_q ≡ n.reuse_q ++ ps)
            × Runs run t (call_of table n) ps n.sent n'.sent
      unfolding torc_block2
      torc_block2-drains l ps n b s goes w =
          let m = set_desc t.currt (block_enter (n.desc t.currt)) n in
          let (n', e, u, r, j) = drain l ps m b s goes (enter-IsWaiting table t.currt l ps n w) in
          (n', e, u, r, Runs-same run t ps (entered-calls table t.currt ps n w) j)
