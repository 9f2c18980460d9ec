-- ===== src/Create/Parent.antt =====
-- What the creation of a child task does to its parent.
use torc_lite.Common.{
  ℕ, ◌+◌, ◌%◌, ◌≡◌, ◌≢◌, refl, ap, ◌∙◌, Bool, true, false, Option, none, some, List, length, ltb,
  ◌==◌, if◌then◌else◌, update, ◌>>=◌, arith, ℕ_discrete, Always, Always-none, Always-some,
  Always-if, Always-bind, Always-then,
}
use torc_lite.Common.Int.{pos, pos_part}
use torc_lite.Desc.{Ptr, Arg, Desc, max_torc_args}
use torc_lite.Table.{Table}
use torc_lite.Nodes.{
  torc_node_id, torc_num_workers, global_thread_id_to_node_id, global_thread_id_to_local_thread_id,
}
use torc_lite.Routing.Workers.{aimed, aimed_private, next_worker}
use torc_lite.Deps.{first_child, torc_depadd}
use torc_lite.Node.{
  Node, Thread, set_desc, torc_get_reused_desc, torc_i_reuseq_dequeue, torc_to_i_rq_end,
}
use torc_lite.Routing.{deliver, torc_to_rq_end, torc_to_lrq_end}
use torc_lite.Routing.Delivery.{deliver-Delivered}
use torc_lite.Node.Store.{set_desc_other, set_desc_self}
use torc_lite.Create.{Env, ArgSpec, fill_arguments, new_task, submit, create_child}
use torc_lite.Create.Sendable.{ValuesDone, value_loop-ValuesDone}

-- The descriptor `q` holds `d`.
abbrev At : Ptr → Desc → Node → Type 0
At q d n = n.desc q ≡ d

-- It does after a computation that does not fail.
abbrev pub Holds : Ptr → Desc → Option Node → Type 0
Holds q d = Always (At q d)

Holds-at : {d d' : Desc} (q : Ptr) (o : Option Node) → Holds q d o → d ≡ d' → Holds q d' o
Holds-at q o h e m f = h m f ∙ e

module _ (t : Thread) (p q : Ptr) (ne : q ≢ p) where
  deliver-desc : (front : Bool) (j : ℕ) (n : Node) → (deliver t front j p n).desc q ≡ n.desc q
  deliver-desc front j n =
      let r = deliver-Delivered t j p n front in
      elim (ℕ_discrete n.cluster.mpi_rank j) [
        | yes e ↦ (r.here e).descriptors q ne
        | no e ↦ (r.away e).descriptors q ne
      ]

  aimed-desc : (l : ℕ) (n : Node) → (aimed l false p n).desc q ≡ n.desc q
  aimed-desc l n = ground arith

  aimed_private-desc : (l w : ℕ) (n : Node) → (aimed_private l w p n).desc q ≡ n.desc q
  aimed_private-desc l w n = ground arith

  routed-Holds :
      (b : Bool) (d : Desc) (here : Node) (o u : Option ℕ) (f : ℕ → ℕ → Node)
      → here.desc q ≡ d
      → ((j l : ℕ) → (f j l).desc q ≡ d)
      → Holds q d (if b then some here else (o >>= λ j. u >>= λ l. some (f j l)))
  routed-Holds b d here o u f e g =
      Always-if (At q d) b (some here) (o >>= λ j. u >>= λ l. some (f j l))
        (Always-some (At q d) here e)
        (Always-then (At q d) o (λ j. u >>= λ l. some (f j l))
          λ j. Always-then (At q d) u (λ l. some (f j l)) λ l. Always-some (At q d) (f j l) (g j l))

  rq_end-Holds : (n : Node) → Holds q (n.desc q) (torc_to_rq_end t p n)
  unfolding torc_to_rq_end torc_to_i_rq_end
  rq_end-Holds n =
      let w = next_worker t n in
      routed-Holds (n.cluster.mpi_nodes == 1) (n.desc q)
        (torc_to_i_rq_end p (record n { rq_end_worker = some w }))
        (global_thread_id_to_node_id n.cluster w) (global_thread_id_to_local_thread_id n.cluster w)
        (λ j l. record (deliver t false j p (aimed_private l w p n)) {
          rq_end_worker = some ((w + 1) % torc_num_workers n.cluster);
        })
        refl (λ j l. deliver-desc false j (aimed_private l w p n) ∙ aimed_private-desc l w n)

  lrq_end-Holds : (w : ℕ) (n : Node) → Holds q (n.desc q) (torc_to_lrq_end t w p n)
  unfolding torc_to_lrq_end torc_to_i_rq_end
  lrq_end-Holds w n =
      routed-Holds (n.cluster.mpi_nodes == 1) (n.desc q) (torc_to_i_rq_end p n)
        (global_thread_id_to_node_id n.cluster w) (global_thread_id_to_local_thread_id n.cluster w)
        (λ j l. deliver t false j p (aimed l false p n)) refl
        (λ j l. deliver-desc false j (aimed l false p n) ∙ aimed-desc l n)

  submit-Holds : (queue : Option ℕ) (n : Node) → Holds q (n.desc q) (submit t queue p n)
  unfolding submit
  submit-Holds none n = rq_end-Holds n
  submit-Holds (some w) n = lrq_end-Holds w n

module _ (env : Env) where
  values_stored :
      (p q : Ptr) (f : ℕ → Arg) (n : Node) (o : Option ((ℕ → Arg) × Node))
      → q ≢ p
      → ValuesDone env f n o
      → Holds q (n.desc q) (o >>= λ (g, m). some (set_desc p (record (m.desc p) { args = g }) m))
  values_stored p q f n none ne v = Always-none (At q (n.desc q))
  values_stored p q f n (some (g, m)) ne v =
      Always-some (At q (n.desc q)) _ (set_desc_other p q _ m ne ∙ ap (λ k. k q) v.1)

  fill_arguments-Holds :
      (skips : Bool) (specs : List ArgSpec) (p q : Ptr) (n : Node)
      → q ≢ p
      → Holds q (n.desc q) (fill_arguments env skips specs p n)
  unfolding fill_arguments
  fill_arguments-Holds skips specs p q n ne =
      Always-then (At q (n.desc q)) _ _
        λ f. values_stored p q f n _ ne (value_loop-ValuesDone env skips specs 0 f n)

module _ (env : Env) (table : Table) (t : Thread) where
  -- The descriptor that the creation of a task will use.
  abbrev pub next_desc : Node → Ptr
  next_desc n = (torc_get_reused_desc n).1

  reused-desc :
      (q : Ptr) (n : Node)
      → q ≢ (torc_get_reused_desc n).1
      → (torc_get_reused_desc n).0.desc q ≡ n.desc q
  unfolding torc_get_reused_desc torc_i_reuseq_dequeue
  reused-desc q n ne = ground arith

  pub reused-set_desc :
      (q : Ptr) (d : Desc) (n : Node)
      → (torc_get_reused_desc (set_desc q d n)).1 ≡ (torc_get_reused_desc n).1
  unfolding torc_get_reused_desc torc_i_reuseq_dequeue
  reused-set_desc q d n = ground arith

  counted-desc :
      (b : Bool) (c : ℕ → ℕ) (n : Node) (q : Ptr)
      → (if b then record n { created = c } else n).desc q ≡ n.desc q
  counted-desc true c n q = refl
  counted-desc false c n q = refl

  -- If the creation of a child ends without an abort, and the child gets another descriptor than
  -- the task that creates it has, then that task's descriptor has changed in its counter only: it
  -- has become 1 if it was 0, and then been increased by 1.
  pub create_child-parent :
      (rte_type : ℕ) (visible skips : Bool) (queue : Option ℕ) (work : ℕ) (specs : List ArgSpec)
      (n n' : Node)
      → t.currt ≢ next_desc n
      → create_child env table t rte_type visible skips queue work specs n ≡ some n'
      → n'.desc t.currt ≡ torc_depadd (first_child (n.desc t.currt)) (pos 1)
  unfolding create_child
  create_child-parent rte_type visible skips queue work specs n n' ne =
      let parent = torc_depadd (first_child (n.desc t.currt)) (pos 1) in
      let n1 = set_desc t.currt parent n in
      let n2 = (torc_get_reused_desc n1).0 in
      let p = (torc_get_reused_desc n1).1 in
      let other : t.currt ≢ p = λ e. ne (e ∙ reused-set_desc t.currt parent n) in
      let vp = pos_part (n2.desc t.currt).vp_id in
      let d =
        new_task t.currt work (length specs) (torc_node_id n.cluster) rte_type
          ((n2.desc t.currt).level + 1) table (n2.desc p) in
      let n3 = set_desc p d n2 in
      let c = update n3.created vp (n3.created vp + 1) in
      let n4 = if visible then record n3 { created = c } else n3 in
      let kept : n4.desc t.currt ≡ parent =
        counted-desc visible c n3 t.currt
        ∙ set_desc_other p t.currt d n2 other
        ∙ reused-desc t.currt n1 other
        ∙ set_desc_self t.currt parent n in
      let Parent = At t.currt parent in
      Always-if Parent (ltb max_torc_args (length specs)) none
        (fill_arguments env skips specs p n4 >>= submit t queue p) (Always-none Parent)
        (Always-bind Parent Parent (fill_arguments env skips specs p n4) (submit t queue p)
          (Holds-at t.currt _ (fill_arguments-Holds env skips specs p t.currt n4 other) kept)
          (λ m e. Holds-at t.currt _ (submit-Holds t p t.currt other queue m) e))
        n'
