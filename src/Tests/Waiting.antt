-- ===== src/Tests/Waiting.antt =====
-- A task that waits for two children, on the second of three nodes.
use torc_lite.Common.{◌≡◌, ◌≢◌, refl, false, sym, ap, ◌∙◌, some, [], ◌∷◌, ◌++◌, update, arith, ◌+◌}
use torc_lite.Common.Int.{pos}
use torc_lite.Desc.{Ptr, null, Desc}
use torc_lite.Exec.{Call, torc_core_execution}
use torc_lite.Exec.Arguments.{exact_call, execution_exact}
use torc_lite.Tally.{update_other}
use torc_lite.Node.{Node, Thread, level_queue}
use torc_lite.Waiting.{torc_block, torc_block2}
use torc_lite.Waiting.Execution.{Keeps, IsLeaf}
use torc_lite.Waiting.Runs.{call_of, Runs}
use torc_lite.Waiting.Expected.{IsWaiting}
use torc_lite.Waiting.Leaves.{torc_block-leaves}
use torc_lite.Waiting.Drains.{torc_block2-drains}
use torc_lite.Tests.Machine.{alike, filled}
use torc_lite.Tests.Protocol.{node, thread, task, eight}
use torc_lite.Tests.Runtime.{runnable, runnable_function, refusal}

abbrev family : Ptr → Desc
family = update (λ p. runnable) 2 (record task { ndep = pos 3; level = 3 })

-- The children at 5 and 6, with the level 3.
abbrev pub parent_waits : Node
parent_waits = record node { desc = family; public_grq = update (λ m. []) 3 (5 ∷ 6 ∷ []) }

-- The functions allocate one block each.
abbrev pub allocate : Thread → Call → Node → Node
allocate t c m = record m { fresh_block = m.fresh_block + 1 }

pub allocate-Keeps : (t : Thread) (c : Call) (m : Node) → Keeps m (allocate t c m)
allocate-Keeps t c m = record {
  desc = refl;
  fresh = refl;
  reuse = refl;
  queues = record { cluster = refl; private = refl; public = refl; kept = refl };
}

pub child-IsLeaf : (p : Ptr) → p ≢ null → p ≢ 2 → IsLeaf filled 2 parent_waits p
child-IsLeaf p real ne =
    let e : family p ≡ runnable = update_other (λ p. runnable) 2 p _ (λ z. ne (sym z)) in
    record {
      is_task = real;
      not_parent = ne;
      child = ap (λ (d : Desc). d.parent) e;
      home = ap (λ (d : Desc). d.homenode) e;
      call = exact_call filled 1 runnable 77 runnable_function;
      callable =
          ap (torc_core_execution filled 1) e
          ∙ (execution_exact filled 1 runnable 77 runnable_function).1 (omega arith);
    }

two-IsWaiting : IsWaiting filled 2 3 3 (5 ∷ 6 ∷ []) parent_waits
unfolding level_queue
two-IsWaiting = record {
  counter = refl;
  level = refl;
  private = refl;
  queue = refl;
  other_queues = λ m ne. ground arith;
  distinct = (refl, (refl, tt));
  leaves = λ p is. child-IsLeaf p (λ e. ground arith) (λ e. ground arith);
}

torc_block-leaves_example :
    (n' : Node) × (torc_block alike eight refusal thread allocate filled (λ k m. m) 3 parent_waits
      ≡ some n')
    × IsWaiting filled 2 0 3 [] n'
    × (n'.reuse_q ≡ [] ++ 5 ∷ 6 ∷ [])
    × (n'.cluster ≡ parent_waits.cluster)
    × Runs allocate thread (call_of filled parent_waits) (5 ∷ 6 ∷ []) parent_waits.sent n'.sent
torc_block-leaves_example =
    torc_block-leaves alike eight refusal thread allocate filled (λ e. ground arith) allocate-Keeps
      3 (5 ∷ 6 ∷ []) parent_waits (omega arith) two-IsWaiting

torc_block2-drains_example :
    (n' : Node) × (torc_block2 alike eight refusal thread allocate filled
        (λ k i m. m)
        3
        parent_waits
      ≡ some (n', false))
    × IsWaiting filled 2 0 3 [] n'
    × (n'.reuse_q ≡ [] ++ 5 ∷ 6 ∷ [])
    × Runs allocate thread (call_of filled parent_waits) (5 ∷ 6 ∷ []) parent_waits.sent n'.sent
torc_block2-drains_example =
    torc_block2-drains alike eight refusal thread allocate filled (λ e. ground arith) allocate-Keeps
      3 (5 ∷ 6 ∷ []) parent_waits (omega arith) refl (λ e. omega (arith, e)) two-IsWaiting
