-- ===== src/Waiting/Children.antt =====
-- The creation of a child on a single node: the child waits in a public queue of this node.
use torc_lite.Common.{
  ℕ, ◌+◌, ◌≤◌, ◌≡◌, ◌≢◌, refl, sym, ap, ap₂, ◌∙◌, Bool, true, false, Option, some, List, [], ◌∷◌,
  ◌++◌, length, ltb, if◌then◌else◌, update, arith,
}
use torc_lite.Common.Int.{pos, pos_part}
use torc_lite.Desc.{Ptr, Arg, Desc, zero_desc, max_torc_args}
use torc_lite.Table.{Table}
use torc_lite.Deps.{first_child, torc_depadd}
use torc_lite.Nodes.{Cluster, torc_node_id}
use torc_lite.Node.{
  Node, Thread, set_desc, level_queue, torc_get_reused_desc, torc_i_reuseq_dequeue,
}
use torc_lite.Node.Store.{set_desc_self, set_desc_other}
use torc_lite.Create.Total.{AllAccepted, fill_arguments-some}
use torc_lite.Create.{Env, ArgSpec, new_task, create_child}
use torc_lite.Waiting.Execution.{flags, SameQueues}
use torc_lite.Waiting.Filled.{fill_arguments-IsFilled, submit-IsQueued}

-- The descriptor that a creation has taken.
pub record IsTaken (n : Node) : Type 0 where
  pub empty : (torc_get_reused_desc n).0.desc (torc_get_reused_desc n).1 ≡ zero_desc
  pub others :
      (q : Ptr) → q ≢ (torc_get_reused_desc n).1 → (torc_get_reused_desc n).0.desc q ≡ n.desc q
  pub queues : SameQueues n (torc_get_reused_desc n).0

pub torc_get_reused_desc-IsTaken : (n : Node) → IsTaken n
unfolding torc_get_reused_desc torc_i_reuseq_dequeue
torc_get_reused_desc-IsTaken n = record {
  empty = ground arith;
  others = λ q ne. ground arith;
  queues = record {
    cluster = ground arith;
    private = ground arith;
    public = ground arith;
    kept = ground arith;
  };
}

not_more : (k : ℕ) → k ≤ max_torc_args → ltb max_torc_args k ≡ false
not_more k b = ground arith

module _ (t : Thread) where
  -- The creator while it creates a child, and the descriptor that the child gets.
  abbrev pub creating : Node → Node
  creating n = set_desc t.currt (torc_depadd (first_child (n.desc t.currt)) (pos 1)) n

  abbrev pub next_child : Node → Ptr
  next_child n = (torc_get_reused_desc (creating n)).1

pub creating-level : (d : Desc) → (torc_depadd (first_child d) (pos 1)).level ≡ d.level
unfolding torc_depadd first_child
creating-level d = ground arith

counted-IsSame :
    (b : Bool) (c : ℕ → ℕ) (n : Node)
    → (n.desc ≡ (if b then record n { created = c } else n).desc)
      × SameQueues n (if b then record n { created = c } else n)
counted-IsSame true c n =
    (refl, record { cluster = refl; private = refl; public = refl; kept = refl })
counted-IsSame false c n =
    (refl, record { cluster = refl; private = refl; public = refl; kept = refl })

module _ (env : Env) (table : Table) (t : Thread) (rte_type : ℕ) (visible skips : Bool)
    (queue : Option ℕ) (work : ℕ) (specs : List ArgSpec) where
  -- The fields of the child.
  abbrev pub child : Node → Desc
  child n =
      new_task t.currt work (length specs) n.cluster.mpi_rank rte_type ((n.desc t.currt).level + 1)
        table zero_desc

  -- What the creation writes in the child's descriptor before the arguments.
  child_fields :
      (n : Node)
      → t.currt ≢ next_child t n
      → let n2 = (torc_get_reused_desc (creating t n)).0 in
        new_task t.currt work
          (length specs)
          (torc_node_id n.cluster)
          rte_type
          ((n2.desc t.currt).level + 1)
          table
          (n2.desc (next_child t n))
        ≡ child n
  child_fields n ne =
      let r = torc_get_reused_desc-IsTaken (creating t n) in
      ap₂
        (λ (l : ℕ) (z : Desc).
          new_task t.currt work (length specs) (torc_node_id n.cluster) rte_type (l + 1) table z)
        (ap (λ (x : Desc). x.level) (r.others t.currt ne ∙ set_desc_self t.currt _ n)
          ∙ creating-level (n.desc t.currt))
        r.empty

  -- The child has a descriptor and is at the end of the queue for its level; the creator's
  -- descriptor apart, the others are as they were.
  pub record IsCreated (n m : Node) : Type 0 where
    pub args : ℕ → Arg
    pub task : m.desc (next_child t n) ≡ record (child n) { args = args }
    pub others : (q : Ptr) → q ≢ next_child t n → q ≢ t.currt → m.desc q ≡ n.desc q
    pub cluster : m.cluster ≡ n.cluster
    pub private : m.private_grq ≡ n.private_grq
    pub public :
        let l = level_queue (child n).level in
        m.public_grq ≡ update n.public_grq l (n.public_grq l ++ next_child t n ∷ [])
    pub kept : flags m ≡ flags n

  pub create_child-IsCreated :
      (n : Node)
      → n.cluster.mpi_nodes ≡ 1
      → length specs ≤ max_torc_args
      → AllAccepted env specs
      → t.currt ≢ next_child t n
      → (m : Node) × (create_child env table t rte_type visible skips queue work specs n ≡ some m)
        × IsCreated n m
  unfolding create_child
  create_child-IsCreated n single few c ne =
      let n1 = creating t n in
      let n2 = (torc_get_reused_desc n1).0 in
      let p = next_child t n in
      let r = torc_get_reused_desc-IsTaken n1 in
      let vp = pos_part (n2.desc t.currt).vp_id in
      let d =
        new_task t.currt work (length specs) (torc_node_id n.cluster) rte_type
          ((n2.desc t.currt).level + 1) table (n2.desc p) in
      let n3 = set_desc p d n2 in
      let cs = update n3.created vp (n3.created vp + 1) in
      let n4 = if visible then record n3 { created = cs } else n3 in
      let same = counted-IsSame visible cs n3 in
      let (m, e) = fill_arguments-some env skips specs p n4 c in
      let f = fill_arguments-IsFilled env skips specs p n4 m e in
      let one = f.queues.cluster ∙ same.1.cluster ∙ r.queues.cluster in
      let (o, e', q) =
        submit-IsQueued t queue p m (ap (λ (k : Cluster). k.mpi_nodes) one ∙ single) in
      let at_p : m.desc p ≡ record (child n) { args = f.args } =
        f.filled
        ∙ ap (λ (x : Desc). record x { args = f.args })
            (ap (λ k. k p) (sym same.0) ∙ set_desc_self p d n2 ∙ child_fields n ne) in
      (
        o,
        rw (not_more (length specs) few) (rw e e'),
        record {
          args = f.args;
          task = ap (λ k. k p) q.desc ∙ at_p;
          others = λ x np nt.
              ap (λ k. k x) q.desc
              ∙ f.others x np
              ∙ ap (λ k. k x) (sym same.0)
              ∙ set_desc_other p x d n2 np
              ∙ r.others x np
              ∙ set_desc_other t.currt x _ n nt;
          cluster = q.cluster ∙ one;
          private = q.private ∙ f.queues.private ∙ same.1.private ∙ r.queues.private;
          public =
              q.public
              ∙ ap₂
                  (λ (g : ℕ → List Ptr) (l : ℕ).
                    update g (level_queue l) (g (level_queue l) ++ p ∷ []))
                  (f.queues.public ∙ same.1.public ∙ r.queues.public)
                  (ap (λ (x : Desc). x.level) at_p);
          kept = q.kept ∙ f.queues.kept ∙ same.1.kept ∙ r.queues.kept;
        },
      )
