-- ===== src/Worker/Finish.antt =====
-- The endless loop of a worker, after the notice that the program has ended.
use mathlib.Core.List.{append_assoc, append-nil}
use torc_lite.Common.{
  ℕ, suc, ◌<◌, ◌≡◌, ◌≢◌, refl, sym, ap, ◌∙◌, false, some, List, [], ◌∷◌, ◌++◌, length, ==_false,
}
use torc_lite.Desc.{Ptr, null, Desc}
use torc_lite.Types.{Handles}
use torc_lite.Table.{Table}
use torc_lite.Node.{Node, Thread}
use torc_lite.Exec.{Call, torc_execute}
use torc_lite.Scheduler.{get_next_task}
use torc_lite.Waiting.Runs.{call_of, Runs, no_more, IsNext-Runs}
use torc_lite.Waiting.Execution.{flags, Keeps}
use torc_lite.Waiting.Expected.{IsWaiting, has_first}
use torc_lite.Waiting.Rounds.{first_task}
use torc_lite.Waiting.Drains.{IsWaiting-IsIdle, FindsNone-IsWaiting, finds_none}
use torc_lite.Worker.{ended, search_loop, run_found, scheduler_loop}

module _ (h : Handles) (type_size : ℕ → ℕ) (answer : (target : ℕ) → Node → Desc) (t : Thread)
    (run : Thread → Call → Node → Node) (table : Table) where
  a_task :
      (k r : ℕ) (n m o : Node) (p : Ptr)
      → p ≢ null
      → get_next_task h type_size answer t n ≡ some (m, p)
      → torc_execute run table t p m ≡ some o
      → scheduler_loop h type_size answer t run table (λ k i m. m) false k (suc r) n
        ≡ scheduler_loop h type_size answer t run table (λ k i m. m) false k r o
  unfolding scheduler_loop run_found
  a_task k r n m o p ne e f = rw (e, ==_false p null ne) (rw f refl)

  no_task :
      (k r : ℕ) (n m : Node)
      → get_next_task h type_size answer t n ≡ some (m, null)
      → m.appl_finished ≡ 1
      → scheduler_loop h type_size answer t run table (λ k i m. m) false (suc k) (suc r) n
        ≡ some (ended m)
  unfolding scheduler_loop search_loop run_found
  no_task k r n m e f = rw e (rw f refl)

  module _ (parent : Ptr) (real : parent ≢ null)
      (leaf : (u : Thread) (c : Call) (m : Node) → Keeps m (run u c m)) where
    -- The notice that the program has ended has come to a node that does not steal; the tasks `ps`,
    -- all different, still wait in its queue `l`, 0 to 9, and all other queues are empty. They are
    -- the children of the task `parent`, not NULL, created on this node, as many as its counter
    -- says, and `l` is the queue for the level below the parent's; each belongs to a function of
    -- the table or has an address, and this function changes neither the descriptors, allocated or
    -- not, nor the queues nor the machine nor the flags of the node; the other threads leave the
    -- node as it is. Then a worker in its endless loop calls the function of each of them, once,
    -- which makes the log of messages what it is at the end, and recycles their descriptors, both
    -- in the order of the queue, tells the parent of each, and then ends.
    pub scheduler_loop-finishes :
        (l k : ℕ) (ps : List Ptr) (n : Node)
        → l < 10
        → flags n ≡ (false, 1)
        → IsWaiting table parent (length ps) l ps n
        → (n' : Node) × (scheduler_loop h type_size answer t run table
              (λ k i m. m)
              false
              (suc k)
              (suc (length ps))
              n
            ≡ some (ended n'))
          × IsWaiting table parent 0 l [] n'
          × (n'.reuse_q ≡ n.reuse_q ++ ps)
          × Runs run t (call_of table n) ps n.sent n'.sent
    scheduler_loop-finishes l k [] n b s w =
        let idle = IsWaiting-IsIdle table parent 0 l n (ap (λ f. f.0) s) w in
        let (m, e, f) = finds_none h type_size answer t n idle in
        (
          m,
          no_task k 0 n m e (ap (λ f. f.1) (f.kept ∙ s)),
          FindsNone-IsWaiting table parent 0 l n m f w,
          f.untouched.same.reuse ∙ sym (append-nil n.reuse_q),
          no_more (sym f.untouched.same.sent),
        )
    scheduler_loop-finishes l k (p ∷ ps) n b s w =
        let (m, o, e, f, v, r, z, _, i) =
          first_task h type_size answer t run table parent real leaf l p ps n b w in
        let (n', g, u, q, j) = scheduler_loop-finishes l k ps o b (z ∙ s) v in
        let real_p = (w.leaves p (has_first p ps)).is_task in
        (
          n',
          a_task (suc k) (suc (length ps)) n m o p real_p e f ∙ g,
          u,
          q ∙ ap (λ z. z ++ ps) r ∙ append_assoc n.reuse_q (p ∷ []) ps,
          IsNext-Runs run t i j,
        )
