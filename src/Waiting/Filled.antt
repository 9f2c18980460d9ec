-- ===== src/Waiting/Filled.antt =====
-- What the arguments and the queue of a new task leave as they are, on a single node.
use torc_lite.Common.{
  ℕ, suc, ◌≡◌, ◌≢◌, refl, ap, ◌∙◌, Bool, Option, none, some, List, [], ◌∷◌, ◌++◌, ==_iff, update,
  arith, Always, Always-none, Always-some, Always-bind, Always-then,
}
use torc_lite.Desc.{Ptr, Arg}
use torc_lite.Node.{Node, Thread, set_desc, level_queue, torc_to_i_rq_end}
use torc_lite.Node.Store.{set_desc_self, set_desc_other}
use torc_lite.Routing.{torc_to_rq_end, torc_to_lrq_end}
use torc_lite.Routing.Workers.{next_worker}
use torc_lite.Create.{Env, ArgSpec, read_value, value_loop, header_loop, fill_arguments, submit}
use torc_lite.Queue.Deque.{spec_step}
use torc_lite.Waiting.Execution.{flags, SameQueues, SameQueues-trans}

module _ (env : Env) (skips : Bool) where
  -- Reading an argument allocates memory for the program at most.
  abbrev Unmoved : Node → Option (Arg × Node) → Type 0
  Unmoved n none = Unit
  Unmoved n (some (a, m)) =
      (m.desc ≡ n.desc)
      × (m.cluster ≡ n.cluster)
      × (m.private_grq ≡ n.private_grq)
      × (m.public_grq ≡ n.public_grq)
      × (m.internode_stealing ≡ n.internode_stealing)
      × (m.appl_finished ≡ n.appl_finished)

  read_value-Unmoved :
      (s : ArgSpec) (i : ℕ) (a : Arg) (n : Node) → Unmoved n (read_value env skips s i a n)
  unfolding read_value
  read_value-Unmoved s i a n = ground arith

  record IsRead (n m : Node) : Type 0 where
    desc : m.desc ≡ n.desc
    queues : SameQueues n m

  abbrev Read : Node → Arg × Node → Type 0
  Read n r = IsRead n r.1

  abbrev AllRead : Node → (ℕ → Arg) × Node → Type 0
  AllRead n r = IsRead n r.1

  Unmoved-Read : (n : Node) (o : Option (Arg × Node)) → Unmoved n o → Always (Read n) o
  Unmoved-Read n none u = Always-none (Read n)
  Unmoved-Read n (some (a, m)) (d, c, p, g, s, f) =
      Always-some (Read n) (a, m)
        (record {
          desc = d;
          queues = record { cluster = c; private = p; public = g; kept = rw (s, f) refl };
        })

  value_loop-Read :
      (ss : List ArgSpec) (i : ℕ) (f : ℕ → Arg) (n : Node)
      → Always (AllRead n) (value_loop env skips ss i f n)
  unfolding value_loop
  value_loop-Read [] i f n =
      Always-some (AllRead n) (f, n)
        (record {
          desc = refl;
          queues = record { cluster = refl; private = refl; public = refl; kept = refl };
        })
  value_loop-Read (s ∷ ss) i f n =
      Always-bind (Read n) (AllRead n) (read_value env skips s i (f i) n) _
        (Unmoved-Read n _ (read_value-Unmoved s i (f i) n))
        λ (a, m) k r e.
          let l = value_loop-Read ss (suc i) (update f i a) m r e in
          record { desc = l.desc ∙ k.desc; queues = SameQueues-trans k.queues l.queues }

  -- The descriptor `p` has got its arguments.
  pub record IsFilled (p : Ptr) (n m : Node) : Type 0 where
    pub args : ℕ → Arg
    pub filled : m.desc p ≡ record (n.desc p) { args = args }
    pub others : (q : Ptr) → q ≢ p → m.desc q ≡ n.desc q
    pub queues : SameQueues n m

  pub fill_arguments-IsFilled :
      (specs : List ArgSpec) (p : Ptr) (n : Node)
      → Always (IsFilled p n) (fill_arguments env skips specs p n)
  unfolding fill_arguments
  fill_arguments-IsFilled specs p n =
      let P = IsFilled p n in
      Always-then P (header_loop env specs 0 (n.desc p).args) _ λ f.
        Always-bind (AllRead n) P (value_loop env skips specs 0 f n) _ (value_loop-Read specs 0 f n)
          λ (g, m) k. Always-some P (set_desc p (record (m.desc p) { args = g }) m) (record {
            args = g;
            filled = set_desc_self p _ m ∙ ap (λ d. record (d p) { args = g }) k.desc;
            others = λ q ne. set_desc_other p q _ m ne ∙ ap (λ d. d q) k.desc;
            queues =
                SameQueues-trans k.queues
                  (record { cluster = refl; private = refl; public = refl; kept = refl });
          })

-- The task `p` is at the end of the queue for its level.
pub record IsQueued (p : Ptr) (n m : Node) : Type 0 where
  pub desc : m.desc ≡ n.desc
  pub cluster : m.cluster ≡ n.cluster
  pub private : m.private_grq ≡ n.private_grq
  pub public :
      m.public_grq
      ≡ update n.public_grq
          (level_queue (n.desc p).level)
          (n.public_grq (level_queue (n.desc p).level) ++ p ∷ [])
  pub kept : flags m ≡ flags n

rq_end-IsQueued : (p : Ptr) (n : Node) → IsQueued p n (torc_to_i_rq_end p n)
unfolding torc_to_i_rq_end spec_step
rq_end-IsQueued p n = record {
  desc = refl;
  cluster = refl;
  private = refl;
  public = refl;
  kept = refl;
}

pub submit-IsQueued :
    (t : Thread) (queue : Option ℕ) (p : Ptr) (n : Node)
    → n.cluster.mpi_nodes ≡ 1
    → (m : Node) × (submit t queue p n ≡ some m) × IsQueued p n m
unfolding submit torc_to_rq_end torc_to_lrq_end
submit-IsQueued t none p n e =
    let n1 = record n { rq_end_worker = some (next_worker t n) } in
    let q = rq_end-IsQueued p n1 in
    (
      torc_to_i_rq_end p n1,
      rw ((==_iff n.cluster.mpi_nodes 1).1 e) refl,
      record {
        desc = q.desc;
        cluster = q.cluster;
        private = q.private;
        public = q.public;
        kept = q.kept;
      },
    )
submit-IsQueued t (some w) p n e =
    (torc_to_i_rq_end p n, rw ((==_iff n.cluster.mpi_nodes 1).1 e) refl, rq_end-IsQueued p n)
