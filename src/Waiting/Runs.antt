-- ===== src/Waiting/Runs.antt =====
-- Which functions of tasks have run, and in which order: seen in the log of messages, which the
-- functions write and `_torc_execute` of src/torc_runtime.c itself does not, for tasks that end at
-- home.
use mathlib.Core.Path.{subst}
use torc_lite.Common.{◌≡◌, sym, ◌∙◌, true, Option, some, List, [], ◌∷◌, has, arith}
use torc_lite.Desc.{Ptr}
use torc_lite.Table.{Table}
use torc_lite.Node.{Node, Thread, Message}
use torc_lite.Exec.{Call, torc_core_execution}

-- The call that the execution of the task at `p` makes.
abbrev pub call_of : Table → Node → Ptr → Option Call
call_of table n p = torc_core_execution table n.cluster.mpi_rank (n.desc p)

module _ (run : Thread → Call → Node → Node) (t : Thread) where
  -- The function of each task has run, once, with the task as the thread's current one, one after
  -- the other: each on a node with the log that the one before has left, from the log `a` to `b`.
  pub data Runs (call : Ptr → Option Call) : List Ptr → (a b : List Message) → Type 0 where
    no_more : {a b : List Message} → a ≡ b → Runs call [] a b
    runs :
        {p : Ptr} {ps : List Ptr} {a b : List Message} (c : Call) (x : Node)
        → call p ≡ some c
        → x.sent ≡ a
        → Runs call ps (run (record t { currt = p }) c x).sent b
        → Runs call (p ∷ ps) a b

  pub Runs-same :
      {call call' : Ptr → Option Call} (ps : List Ptr) {a b : List Message}
      → ((q : Ptr) → has q ps ≡ true → call' q ≡ call q)
      → Runs call' ps a b
      → Runs call ps a b
  Runs-same [] e (no_more s) = no_more s
  Runs-same (p ∷ ps) e (runs c x k s r) =
      runs c x (sym (e p (ground arith)) ∙ k) s (Runs-same ps (λ q h. e q (ground (arith, h))) r)

  -- The execution of one task: its function has run, and the calls of the tasks that wait are the
  -- same.
  pub record IsNext (table : Table) (p : Ptr) (ps : List Ptr) (n n' : Node) : Type 0 where
    pub call : Call
    pub before : Node
    pub callable : call_of table n p ≡ some call
    pub start : before.sent ≡ n.sent
    pub end' : n'.sent ≡ (run (record t { currt = p }) call before).sent
    pub later : (q : Ptr) → has q ps ≡ true → call_of table n' q ≡ call_of table n q

  pub IsNext-Runs :
      {table : Table} {p : Ptr} {ps : List Ptr} {n m : Node} {b : List Message}
      → IsNext table p ps n m
      → Runs (call_of table m) ps m.sent b
      → Runs (call_of table n) (p ∷ ps) n.sent b
  IsNext-Runs {table} {p} {ps} {n} {m} {b} i r =
      runs i.call i.before i.callable i.start
        (subst (λ s. Runs (call_of table n) ps s b) i.end' (Runs-same ps i.later r))
