-- ===== src/Routing.antt =====
-- src/torc_queue.c from line 167 on: a task goes to a queue of this node or to another node.
pub mod Delivery
pub mod Workers
use torc_lite.Common.{
  ℕ, zero, suc, ◌+◌, ◌%◌, Bool, true, false, Option, none, some, ◌==◌, if◌then◌else◌, update, ◌>>=◌,
}
use torc_lite.Common.Int.{ℤ, pos, minus_one}
use torc_lite.Desc.{Ptr, Arg, Desc, torc_normal_enqueue}
use torc_lite.Nodes.{
  torc_node_id, torc_num_nodes, torc_num_workers, torc_worker_id, global_thread_id_to_node_id,
  global_thread_id_to_local_thread_id,
}
use torc_lite.Node.{Node, Thread, set_desc, torc_put_reused_desc, torc_to_i_rq, torc_to_i_rq_end}
use torc_lite.Send.{send_descriptor}

-- `for (i = 0; i < narg; i++) temparg[i] = localarg[i];`
unfoldable pub read_loop : (k i : ℕ) → (ℕ → Arg) → ℕ → Arg
read_loop zero i as' = as'
read_loop (suc k) i as' =
    read_loop k (suc i) (update as' i (record (as' i) { temparg = (as' i).localarg }))

unfoldable pub read_arguments : Ptr → Node → Node
unfolding read_loop
read_arguments p n =
    let d = n.desc p in set_desc p (record d { args = read_loop d.narg 0 d.args }) n

-- The end of each function below: the task goes away and its descriptor is recycled, or it goes to
-- the head (`front`) or to the tail of a public queue of this node.
unfoldable pub deliver : Thread → (front : Bool) → (target_node : ℕ) → Ptr → Node → Node
unfolding read_arguments
deliver t front target_node p n =
    if torc_node_id n.cluster == target_node
    then (if front
        then torc_to_i_rq p (read_arguments p n)
        else torc_to_i_rq_end p (read_arguments p n))
    else torc_put_reused_desc p (send_descriptor t target_node p torc_normal_enqueue n)

unfoldable pub torc_to_nrq : Thread → (target_node : ℕ) → Ptr → Node → Node
unfolding deliver
torc_to_nrq t target_node p n = deliver t true target_node p (
    set_desc p (record (n.desc p) { target_queue = minus_one; inter_node = 1; insert_in_front = 1 })
      n)

unfoldable pub torc_to_nrq_end : Thread → (target_node : ℕ) → Ptr → Node → Node
unfolding deliver
torc_to_nrq_end t target_node p n =
    deliver t false target_node p
      (set_desc p (record (n.desc p) { target_queue = minus_one; inter_node = 1 }) n)

-- The value of a static variable that the first call sets.
abbrev pub static_or : Option ℕ → ℕ → ℕ
static_or none first = first
static_or (some v) first = v

unfoldable pub torc_to_rq : Thread → Ptr → Node → Node
unfolding deliver
torc_to_rq t p n =
    let target_node = static_or n.rq_node (torc_node_id n.cluster) in
    let n' = deliver t true target_node p (
      set_desc p
        (record (n.desc p) {
          target_queue = minus_one;
          inter_node = 1;
          insert_in_front = 1;
          insert_private = 0;
        })
        n) in
    record n' { rq_node = some ((target_node + 1) % torc_num_nodes n.cluster) }

-- `torc_to_rq_end__`
unfoldable pub torc_to_rq_end_node : Thread → Ptr → Node → Node
unfolding deliver
torc_to_rq_end_node t p n =
    let target_node = static_or n.rq_end_node (torc_node_id n.cluster) in
    let n' = deliver t false target_node p (
      set_desc p
        (record (n.desc p) { target_queue = minus_one; inter_node = 1; insert_private = 0 }) n) in
    record n' { rq_end_node = some ((target_node + 1) % torc_num_nodes n.cluster) }

-- `none`, here and below, is the abort for a worker number out of range.
unfoldable pub torc_to_rq_end : Thread → Ptr → Node → Option Node
unfolding deliver
torc_to_rq_end t p n0 =
    let target_worker = static_or n0.rq_end_worker (torc_worker_id n0.cluster t.vp_id) in
    let n = record n0 { rq_end_worker = some target_worker } in
    if torc_num_nodes n.cluster == 1 then some (torc_to_i_rq_end p n) else do
      target_node ← global_thread_id_to_node_id n.cluster target_worker
      target_queue ← global_thread_id_to_local_thread_id n.cluster target_worker
      some
          (record (deliver t false target_node p (
            set_desc p
              (record (n.desc p) {
                target_queue = pos target_queue;
                inter_node = 1;
                insert_private = 0;
              })
              n)) { rq_end_worker = some ((target_worker + 1) % torc_num_workers n.cluster) })

unfoldable pub torc_to_lrq_end : Thread → (target : ℕ) → Ptr → Node → Option Node
unfolding deliver
torc_to_lrq_end t target p n =
    if torc_num_nodes n.cluster == 1 then some (torc_to_i_rq_end p n) else do
      target_node ← global_thread_id_to_node_id n.cluster target
      target_queue ← global_thread_id_to_local_thread_id n.cluster target
      some (
          deliver t false target_node p
            (set_desc p (record (n.desc p) { target_queue = pos target_queue; inter_node = 1 }) n))

unfoldable pub torc_to_lrq : Thread → (target : ℕ) → Ptr → Node → Option Node
unfolding deliver
torc_to_lrq t target p n = if torc_num_nodes n.cluster == 1 then some (torc_to_i_rq p n) else do
  target_node ← global_thread_id_to_node_id n.cluster target
  target_queue ← global_thread_id_to_local_thread_id n.cluster target
  some (
      deliver t true target_node p (
        set_desc p
          (record (n.desc p) {
            target_queue = pos target_queue;
            inter_node = 1;
            insert_in_front = 1;
          })
          n))
