-- ===== src/Scheduler/Finished.antt =====
-- The search for a task does not change the count of the notices that the program has ended.
use torc_lite.Common.{
  ℕ, zero, suc, ◌+◌, ◌%◌, ◌≡◌, Bool, Bool-cases, inl, inr, true, false, ◌==◌, if◌then◌else◌, update,
  Always, Always-none, Always-some, Always-if, Always-bind, Always-then,
}
use torc_lite.Desc.{Ptr, null, Desc, zero_desc, torc_no_work, direct_synchronous_stealing}
use torc_lite.Types.{Handles}
use torc_lite.Nodes.{torc_node_id, torc_num_nodes}
use torc_lite.Args.{receive_arguments}
use torc_lite.Node.{
  Node, Thread, set_desc, torc_get_reused_desc, torc_put_reused_desc, torc_i_pq_dequeue,
  torc_i_reuseq_dequeue, torc_i_rq_dequeue,
}
use torc_lite.Send.{torc_thread_id, send_value}
use torc_lite.Server.{from_node}
use torc_lite.Scheduler.{
  level_loop, receive_descriptor, stolen, direct_synchronous_stealing_request, ring_loop, steal_if,
  get_next_task,
}

-- The notices that the program has ended are `f`.
abbrev pub Counts : ℕ → Node → Type 0
Counts f n = n.appl_finished ≡ f

abbrev pub CountsIn : ℕ → Node × Ptr → Type 0
CountsIn f r = r.0.appl_finished ≡ f

level_loop-Counts : (f k : ℕ) (n : Node) → Counts f n → CountsIn f (level_loop k n)
unfolding level_loop torc_i_rq_dequeue
level_loop-Counts f zero n e = e
level_loop-Counts f (suc k) n e =
    let r = level_loop-Counts f k (torc_i_rq_dequeue k n).0 e in
    elim (Bool-cases ((torc_i_rq_dequeue k n).1 == null)) [ inl z ↦ rw z r | inr z ↦ rw z e ]

dequeued-Counts : (f : ℕ) (n : Node) → Counts f n → CountsIn f (torc_i_reuseq_dequeue n)
unfolding torc_i_reuseq_dequeue
dequeued-Counts f n e = e

reused-Counts : (f : ℕ) (n : Node) → Counts f n → CountsIn f (torc_get_reused_desc n)
unfolding torc_get_reused_desc
reused-Counts f n e = reused ((torc_i_reuseq_dequeue n).1 == null)
  where
    m : Node
    m = (torc_i_reuseq_dequeue n).0

    reused :
        (b : Bool)
        → CountsIn f (
            if b
            then (
              record m {
                desc = update m.desc m.fresh_desc zero_desc;
                fresh_desc = m.fresh_desc + 1;
              },
              m.fresh_desc,
            )
            else (set_desc (torc_i_reuseq_dequeue n).1 zero_desc m, (torc_i_reuseq_dequeue n).1))
    reused true = dequeued-Counts f n e
    reused false = dequeued-Counts f n e

module _ (h : Handles) (type_size : ℕ → ℕ) (answer : (target : ℕ) → Node → Desc) (t : Thread)
    (f : ℕ) where
  receive_descriptor-Counts :
      (d : Desc) (p : Ptr) (n : Node)
      → Counts f n
      → Always (Counts f) (receive_descriptor h type_size answer t d p n)
  unfolding receive_descriptor
  receive_descriptor-Counts d p n e =
      let P = Counts f in
      Always-if P (d.type == torc_no_work) _ _ (Always-some P (set_desc p d n) e) (
        Always-if P (d.homenode == torc_node_id n.cluster) _ _ (Always-some P (set_desc p d n) e) (
          Always-then P (receive_arguments h type_size (torc_thread_id t + 100) n.fresh_block d) _
            λ r. Always-some P _ e))

  stolen-Counts : (p : Ptr) (n : Node) → Counts f n → CountsIn f (stolen h type_size answer t p n)
  unfolding stolen torc_put_reused_desc
  stolen-Counts p n e = elim (Bool-cases ((n.desc p).type == torc_no_work)) [
    | inl z ↦ rw z e
    | inr z ↦ rw z e
  ]

  request-Counts :
      (target : ℕ) (n : Node)
      → Counts f n
      → Always (CountsIn f) (direct_synchronous_stealing_request h type_size answer t target n)
  unfolding direct_synchronous_stealing_request send_value
  request-Counts target n e =
      let P = CountsIn f in
      let n1 = (torc_get_reused_desc n).0 in
      let p = (torc_get_reused_desc n).1 in
      let n2 = send_value t target (from_node n) direct_synchronous_stealing n1 in
      Always-if P n.termination_flag _ _ (Always-some P (n, null) e) (
        Always-bind (Counts f) P (receive_descriptor h type_size answer t (answer target n2) p n2) _
          (receive_descriptor-Counts (answer target n2) p n2 (reused-Counts f n e))
          λ m k. Always-some P _ (stolen-Counts p m k))

  ring_loop-Counts :
      (k node : ℕ) (n : Node)
      → Counts f n
      → Always (CountsIn f) (ring_loop h type_size answer t k node n)
  unfolding ring_loop
  ring_loop-Counts zero node n e =
      let P = CountsIn f in
      Always-if P (node == torc_node_id n.cluster) _ _ (Always-some P (n, null) e) (Always-none P)
  ring_loop-Counts (suc k) node n e =
      let P = CountsIn f in
      Always-if P (node == torc_node_id n.cluster) _ _ (Always-some P (n, null) e) (
        Always-bind P P (direct_synchronous_stealing_request h type_size answer t node n) _
          (request-Counts node n e)
          λ (m, p) i.
            Always-if P (p == null) _ _
              (ring_loop-Counts k ((node + 1) % torc_num_nodes n.cluster) m i)
              (Always-some P (m, p) i))

  steal_if-Counts :
      (n : Node) (p : Ptr) → Counts f n → Always (CountsIn f) (steal_if h type_size answer t (n, p))
  unfolding steal_if
  steal_if-Counts n p e =
      let P = CountsIn f in
      let own = Always-some P (n, p) e in
      Always-if P n.internode_stealing _ _
        (Always-if P (p == null) _ _
          (Always-bind P P
            (ring_loop h type_size answer t (torc_num_nodes n.cluster)
              ((torc_node_id n.cluster + 1) % torc_num_nodes n.cluster) n)
            _
            (ring_loop-Counts (torc_num_nodes n.cluster)
              ((torc_node_id n.cluster + 1) % torc_num_nodes n.cluster) n e)
            λ (m, q) i. Always-some P _ (stopped (q == null) m q i))
          own)
        own
    where
      stopped :
          (b : Bool) (m : Node) (q : Ptr)
          → Counts f m
          → CountsIn f (if b then (record m { internode_stealing = false }, null) else (m, q))
      stopped true m q i = i
      stopped false m q i = i

  pub get_next_task-Counts :
      (n : Node) → Counts f n → Always (CountsIn f) (get_next_task h type_size answer t n)
  unfolding get_next_task torc_i_pq_dequeue
  get_next_task-Counts n e =
      let P = CountsIn f in
      let r = torc_i_pq_dequeue n in
      let s = level_loop 10 r.0 in
      Always-if P (r.1 == null) _ _ (steal_if-Counts s.0 s.1 (level_loop-Counts f 10 r.0 e))
        (Always-some P r e)
