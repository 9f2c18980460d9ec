-- ===== src/Waiting/Leaves.antt =====
-- A task that waits for children of the same node, whose functions do not use the runtime.
use mathlib.Core.List.{append_assoc, append-nil}
use torc_lite.Common.{ℕ, suc, ◌<◌, ◌≡◌, ◌≢◌, refl, sym, ap, ◌∙◌, some, List, [], ◌∷◌, ◌++◌, length}
use torc_lite.Desc.{Ptr, null, Desc}
use torc_lite.Types.{Handles}
use torc_lite.Table.{Table}
use torc_lite.Deps.{block_enter}
use torc_lite.Node.{Node, Thread, set_desc}
use torc_lite.Exec.{Call}
use torc_lite.Waiting.{block_loop, torc_block}
use torc_lite.Waiting.Runs.{call_of, Runs, no_more, Runs-same, IsNext-Runs}
use torc_lite.Waiting.Execution.{Keeps}
use torc_lite.Waiting.Expected.{IsWaiting, waits, ended, enter-IsWaiting, entered-calls}
use torc_lite.Waiting.Rounds.{round}

module _ (h : Handles) (type_size : ℕ → ℕ) (answer : (target : ℕ) → Node → Desc) (t : Thread) where
  module _ (run : Thread → Call → Node → Node) (table : Table) (real : t.currt ≢ null)
      (leaf : (u : Thread) (c : Call) (m : Node) → Keeps m (run u c m)) where
    pub block_loop-leaves :
        (l : ℕ) (ps : List Ptr) (n : Node)
        → l < 10
        → IsWaiting table t.currt (length ps) l ps n
        → (n' : Node) × (block_loop h type_size answer t run table (λ k m. m) (suc (length ps)) n
            ≡ some n')
          × IsWaiting table t.currt 0 l [] n'
          × (n'.reuse_q ≡ n.reuse_q ++ ps)
          × (n'.cluster ≡ n.cluster)
          × Runs run t (call_of table n) ps n.sent n'.sent
    unfolding block_loop
    block_loop-leaves l [] n b w = (
      n,
      rw (ended (n.desc t.currt) w.counter) refl,
      w,
      sym (append-nil n.reuse_q),
      refl,
      no_more refl,
    )
    block_loop-leaves l (p ∷ ps) n b w =
        let (m, e, v, r, _, c, i) =
          round h type_size answer t run table t.currt real leaf l p ps n b w in
        let (n', f, u, g, d, j) = block_loop-leaves l ps m b v in
        (
          n',
          rw (waits (length ps) (n.desc t.currt) w.counter, e) f,
          u,
          g ∙ ap (λ z. z ++ ps) r ∙ append_assoc n.reuse_q (p ∷ []) ps,
          d ∙ c,
          IsNext-Runs run t i j,
        )

    -- A worker waits in `torc_waitall` for the children of the task `t.currt`, which is not NULL.
    -- They are the tasks `ps`, all different, created on this node and in its queue `l`, 0 to 9,
    -- the one for the level below the waiting task's; each belongs to a function of the table or
    -- has an address, and this function changes neither the descriptors, allocated or not, nor the
    -- queues nor the machine nor the flags of the node; all other queues are empty; the counter of
    -- the waiting task is one more than their number; the other threads leave the node as it is.
    -- Then `_torc_block` returns, after one test of the counter more than there are children: the
    -- queues of the node are empty, the counter is 0, the machine is as it was, the log of messages
    -- is what the functions of the children have made of it, called each once, one after the other,
    -- and the descriptors of the children have been recycled, each once, both in the order of the
    -- queue.
    pub torc_block-leaves :
        (l : ℕ) (ps : List Ptr) (n : Node)
        → l < 10
        → IsWaiting table t.currt (suc (length ps)) l ps n
        → (n' : Node) × (torc_block h type_size answer t run table (λ k m. m) (suc (length ps)) n
            ≡ some n')
          × IsWaiting table t.currt 0 l [] n'
          × (n'.reuse_q ≡ n.reuse_q ++ ps)
          × (n'.cluster ≡ n.cluster)
          × Runs run t (call_of table n) ps n.sent n'.sent
    unfolding torc_block
    torc_block-leaves l ps n b w =
        let m = set_desc t.currt (block_enter (n.desc t.currt)) n in
        let (n', e, u, r, c, j) =
          block_loop-leaves l ps m b (enter-IsWaiting table t.currt l ps n w) in
        (n', e, u, r, c, Runs-same run t ps (entered-calls table t.currt ps n w) j)
