-- ===== src/Server/Steals.antt =====
-- The task that a request to steal gets from this node.
use mathlib.Core.Path.{subst}
use torc_lite.Common.{
  ℕ, zero, suc, ◌+◌, ◌≤◌, ◌<◌, ◌≡◌, ◌≢◌, refl, sym, ap, ◌∙◌, List, [], ◌∷◌, ◌++◌, map, ap₂, ◌==◌,
  if◌then◌else◌, arith, ==_false, ℕ_discrete,
}
use torc_lite.Common.Int.{pos, pos_part}
use torc_lite.Desc.{Ptr, null, Desc, max_nvps}
use torc_lite.Args.{send_arguments}
use torc_lite.Nodes.{Cluster}
use torc_lite.Node.{Node, Message, descriptor, argument, torc_i_rq_dequeue}
use torc_lite.Node.Search.{
  SameBut, SameBut-queues, Taken, Untouched, Taken-after, Untouched-after, dequeue_empty,
  dequeue_first,
}
use torc_lite.Send.{answer_tag, direct_send_descriptor}
use torc_lite.Server.{steal_loop, answer_steal, on_steal}

steal_loop-Taken :
    (k i l : ℕ) (n : Node) (p : Ptr) (q : List Ptr)
    → p ≢ null
    → i ≤ l
    → l < i + k
    → ((m : ℕ) → i ≤ m → m < l → n.public_grq m ≡ [])
    → n.public_grq l ≡ p ∷ q
    → ((steal_loop k i n).1 ≡ p) × Taken l p q n (steal_loop k i n).0
unfolding steal_loop
steal_loop-Taken zero i l n p q ne a b c e = absurd (omega arith)
steal_loop-Taken (suc k) i l n p q ne a b c e = elim (ℕ_discrete i l) [
  | yes is ↦
      let f = dequeue_first i n p q (ap n.public_grq is ∙ e) in
      let g = ==_false _ null (λ z. ne (sym f.0 ∙ z)) in
      rw g (f.0, subst (λ j. Taken j p q n (torc_i_rq_dequeue i n).0) is f.1)
  | no is ↦
      let f = dequeue_empty i n (c i (omega arith) (omega arith)) in
      let r =
        steal_loop-Taken k (suc i) l (torc_i_rq_dequeue i n).0 p q ne (omega arith) (omega arith)
          (λ m x y. f.1.all m ∙ c m (omega arith) y) (f.1.all l ∙ e) in
      rw f.0 (r.0, Taken-after l p q f.1 r.1)
]

steal_loop-Untouched :
    (k i : ℕ) (n : Node)
    → ((m : ℕ) → i ≤ m → m < i + k → n.public_grq m ≡ [])
    → ((steal_loop k i n).1 ≡ null) × Untouched n (steal_loop k i n).0
unfolding steal_loop
steal_loop-Untouched zero i n c =
    (refl, record { all = λ m. refl; same = SameBut-queues n n.public_grq })
steal_loop-Untouched (suc k) i n c =
    let f = dequeue_empty i n (c i (omega arith) (omega arith)) in
    let r =
      steal_loop-Untouched k (suc i) (torc_i_rq_dequeue i n).0
        (λ m x y. f.1.all m ∙ c m (omega arith) (omega arith)) in
    rw f.0 (r.0, Untouched-after f.1 r.1)

-- The message from the node `rank` that answers a request `r` with the task `d0`, and its data.
abbrev pub reply : Desc → Desc → (rank : ℕ) → List Message
reply d0 r rank =
    let d = record d0 { sourcenode = rank; sourcevpid = pos max_nvps } in
    descriptor r.sourcenode (answer_tag (pos_part r.sourcevpid)) d
    ∷ (if d0.homenode == r.sourcenode
        then []
        else map argument (send_arguments r.sourcenode (answer_tag (pos_part r.sourcevpid)) d))

direct_send-reply :
    (r p : Ptr) (n m : Node)
    → SameBut n m
    → (direct_send_descriptor (m.desc r).sourcenode (pos_part (m.desc r).sourcevpid) p m).sent
      ≡ n.sent ++ reply (n.desc p) (n.desc r) n.cluster.mpi_rank
unfolding direct_send_descriptor
direct_send-reply r p n m s =
    ap (λ l. l ++ reply (m.desc p) (m.desc r) m.cluster.mpi_rank) s.sent
    ∙ ap₂ (λ (k : Ptr → Desc) (c : Cluster). n.sent ++ reply (k p) (k r) c.mpi_rank) s.desc
        s.cluster

module _ (no_work : Ptr) (r : Ptr) (n : Node) where
  -- What a request to steal, in the descriptor at `r`, does when the task `p` is found at level `l`.
  pub record Served (p : Ptr) (l : ℕ) (q : List Ptr) (n' : Node) : Type 0 where
    pub sent : n'.sent ≡ n.sent ++ reply (n.desc p) (n.desc r) n.cluster.mpi_rank
    pub taken : n'.public_grq l ≡ q
    pub others : (m : ℕ) → m ≢ l → n'.public_grq m ≡ n.public_grq m
    pub served : n'.steal_served ≡ n.steal_served + 1
    pub attempts : n'.steal_attempts ≡ n.steal_attempts + 1
    pub unrecycled : n'.reuse_q ≡ n.reuse_q

  answer_steal-Served :
      (l : ℕ) (p : Ptr) (q : List Ptr) (m : Node) (x : Ptr)
      → p ≢ null
      → x ≡ p
      → Taken l p q (record n { steal_attempts = n.steal_attempts + 1 }) m
      → Served p l q (answer_steal no_work r (m, x))
  unfolding answer_steal direct_send_descriptor
  answer_steal-Served l p q m x ne e t =
      rw (e, ==_false p null ne)
        (record {
          sent =
              direct_send-reply r p (record n { steal_attempts = n.steal_attempts + 1 }) m t.same;
          taken = t.taken;
          others = t.others;
          served = ap (λ k. k + 1) t.same.served;
          attempts = t.same.attempts;
          unrecycled = t.same.reuse;
        })

  none-answer :
      (m : Node) (x : Ptr)
      → x ≡ null
      → Untouched (record n { steal_attempts = n.steal_attempts + 1 }) m
      → ((answer_steal no_work r (m, x)).sent
          ≡ n.sent ++ reply (n.desc no_work) (n.desc r) n.cluster.mpi_rank)
        × ((k : ℕ) → (answer_steal no_work r (m, x)).public_grq k ≡ n.public_grq k)
        × ((answer_steal no_work r (m, x)).steal_served ≡ n.steal_served)
  unfolding answer_steal direct_send_descriptor
  none-answer m x e u = rw e (
    direct_send-reply r no_work (record n { steal_attempts = n.steal_attempts + 1 }) m u.same,
    u.all,
    u.same.served,
  )

  -- If the lowest non-empty level of a node begins with the task `p`, not NULL, a request to steal
  -- gets this task, with its data unless the thief is the node that created it; the task leaves its
  -- queue, and no other does. The server's descriptor is not recycled.
  pub on_steal-Served :
      (l : ℕ) (p : Ptr) (q : List Ptr)
      → p ≢ null
      → l < 10
      → ((m : ℕ) → m < l → n.public_grq m ≡ [])
      → n.public_grq l ≡ p ∷ q
      → Served p l q (on_steal no_work r n)
  unfolding on_steal
  on_steal-Served l p q ne b c e =
      let n1 = record n { steal_attempts = n.steal_attempts + 1 } in
      let f = steal_loop-Taken 10 0 l n1 p q ne (omega arith) (omega arith) (λ m x y. c m y) e in
      answer_steal-Served l p q _ _ ne f.0 f.1

  -- A request to steal from a node whose public queues are empty gets the descriptor that says so,
  -- and leaves the queues as they are.
  pub on_steal-none :
      ((m : ℕ) → m < 10 → n.public_grq m ≡ [])
      → ((on_steal no_work r n).sent
          ≡ n.sent ++ reply (n.desc no_work) (n.desc r) n.cluster.mpi_rank)
        × ((m : ℕ) → (on_steal no_work r n).public_grq m ≡ n.public_grq m)
        × ((on_steal no_work r n).steal_served ≡ n.steal_served)
  unfolding on_steal
  on_steal-none c =
      let n1 = record n { steal_attempts = n.steal_attempts + 1 } in
      let f = steal_loop-Untouched 10 0 n1 (λ m x y. c m (omega arith)) in none-answer _ _ f.0 f.1
