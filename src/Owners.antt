-- ===== src/Owners.antt =====
-- Where descriptors go when the operations of src/torc_queue.c are composed: routing, the creation
-- and the execution of tasks, the scheduler.
pub mod Tasks
pub mod Stealing
pub mod Received
use torc_lite.Common.{
  ℕ, ◌+◌, ◌%◌, ◌≡◌, refl, List, ◌∷◌, Bool, true, false, Option, none, some, ◌>>=◌, ◌==◌,
  if◌then◌else◌, arith, Always, Always-none, Always-some, Always-if, Always-bind, Always-then,
}
use torc_lite.Desc.{Ptr, torc_normal_enqueue}
use torc_lite.Nodes.{
  torc_node_id, torc_num_workers, global_thread_id_to_node_id, global_thread_id_to_local_thread_id,
}
use torc_lite.Node.{
  Node, Thread, set_desc, torc_put_reused_desc, torc_to_i_reuseq_end, torc_to_i_rq,
  torc_to_i_rq_end,
}
use torc_lite.Node.Ownership.{held}
use torc_lite.Node.Ownership.Moves.{
  IsOwned, Puts-IsOwned, same-IsOwned, reuseq_end-Puts, rq-Puts, rq_end-Puts,
}
use torc_lite.Send.{send_descriptor, send_value}
use torc_lite.Routing.{deliver, read_arguments, torc_to_rq_end, torc_to_lrq_end, torc_to_nrq}
use torc_lite.Routing.Workers.{aimed, aimed_private, next_worker}
use torc_lite.Create.{submit}

-- The descriptors in use are `used`.
abbrev pub Uses : List Ptr → Node → Type 0
Uses used n = IsOwned n used

pub sent-IsOwned :
    {used : List Ptr} (t : Thread) (j type : ℕ) (q : Ptr) (n : Node)
    → IsOwned n used
    → IsOwned (send_descriptor t j q type n) used
unfolding send_descriptor send_value
sent-IsOwned t j type q n o = same-IsOwned refl refl o

pub recycled-IsOwned :
    {used : List Ptr} (p : Ptr) (n : Node)
    → IsOwned n (p ∷ used)
    → IsOwned (torc_put_reused_desc p n) used
unfolding torc_put_reused_desc
recycled-IsOwned p n o = Puts-IsOwned (reuseq_end-Puts p n) o

read_arguments-IsOwned :
    {used : List Ptr} (p : Ptr) (n : Node) → IsOwned n used → IsOwned (read_arguments p n) used
unfolding read_arguments
read_arguments-IsOwned p n o = same-IsOwned refl refl o

module _ (t : Thread) (p : Ptr) (used : List Ptr) where
  -- A task that is delivered is no longer in use: it is in a queue of this node, or its descriptor
  -- is recycled.
  deliver-IsOwned :
      (front : Bool) (j : ℕ) (n : Node)
      → IsOwned n (p ∷ used)
      → IsOwned (deliver t front j p n) used
  unfolding deliver
  deliver-IsOwned front j n o = delivered front (torc_node_id n.cluster == j)
    where
      r : IsOwned (read_arguments p n) (p ∷ used)
      r = read_arguments-IsOwned p n o

      delivered :
          (f b : Bool)
          → IsOwned
              (if b
                then (if f
                    then torc_to_i_rq p (read_arguments p n)
                    else torc_to_i_rq_end p (read_arguments p n))
                else torc_put_reused_desc p (send_descriptor t j p torc_normal_enqueue n))
              used
      delivered true true = Puts-IsOwned (rq-Puts p (read_arguments p n)) r
      delivered false true = Puts-IsOwned (rq_end-Puts p (read_arguments p n)) r
      delivered f false = recycled-IsOwned p _ (sent-IsOwned t j torc_normal_enqueue p n o)

  routed-Uses :
      (b : Bool) (here : Node) (o u : Option ℕ) (f : ℕ → ℕ → Node)
      → IsOwned here used
      → ((j l : ℕ) → IsOwned (f j l) used)
      → Always (Uses used) (if b then some here else (o >>= λ j. u >>= λ l. some (f j l)))
  routed-Uses b here o u f h g =
      let P = Uses used in
      Always-if P b (some here) (o >>= λ j. u >>= λ l. some (f j l)) (Always-some P here h) (
        Always-then P o (λ j. u >>= λ l. some (f j l))
          λ j. Always-then P u (λ l. some (f j l)) λ l. Always-some P (f j l) (g j l))

  rq_end-Uses : (n : Node) → IsOwned n (p ∷ used) → Always (Uses used) (torc_to_rq_end t p n)
  unfolding torc_to_rq_end
  rq_end-Uses n o =
      let w = next_worker t n in
      let n1 = record n { rq_end_worker = some w } in
      routed-Uses (n.cluster.mpi_nodes == 1) (torc_to_i_rq_end p n1)
        (global_thread_id_to_node_id n.cluster w) (global_thread_id_to_local_thread_id n.cluster w)
        (λ j l. record (deliver t false j p (aimed_private l w p n)) {
          rq_end_worker = some ((w + 1) % torc_num_workers n.cluster);
        })
        (Puts-IsOwned (rq_end-Puts p n1) (same-IsOwned refl refl o))
        λ j l.
          same-IsOwned refl refl
            (deliver-IsOwned false j (aimed_private l w p n) (same-IsOwned refl refl o))

  lrq_end-Uses :
      (w : ℕ) (n : Node) → IsOwned n (p ∷ used) → Always (Uses used) (torc_to_lrq_end t w p n)
  unfolding torc_to_lrq_end
  lrq_end-Uses w n o =
      routed-Uses (n.cluster.mpi_nodes == 1) (torc_to_i_rq_end p n)
        (global_thread_id_to_node_id n.cluster w) (global_thread_id_to_local_thread_id n.cluster w)
        (λ j l. deliver t false j p (aimed l false p n)) (Puts-IsOwned (rq_end-Puts p n) o)
        λ j l. deliver-IsOwned false j (aimed l false p n) (same-IsOwned refl refl o)

  -- The same of a task that is submitted for a worker, or for the next one in turn.
  pub submit-Uses :
      (queue : Option ℕ) (n : Node) → IsOwned n (p ∷ used) → Always (Uses used) (submit t queue p n)
  unfolding submit
  submit-Uses none n o = rq_end-Uses n o
  submit-Uses (some w) n o = lrq_end-Uses w n o
