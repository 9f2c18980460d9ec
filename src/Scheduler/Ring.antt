-- ===== src/Scheduler/Ring.antt =====
-- The loop of `get_next_task` over the other nodes, and where it stops.
use torc_lite.Common.{
  ℕ, zero, suc, ◌+◌, ◌%◌, ◌≤◌, ◌<◌, ◌≡◌, refl, sym, ap, ◌∙◌, Bool, Bool-cases, inl, inr, Option,
  some, none, true, false, ◌==◌, if◌then◌else◌, arith, true≢false, ◌>>=◌, ℕ_discrete, ==_iff,
}
use mathlib.Core.Path.{subst}
use native.Mathlib.Nat.{mod-eq_of_lt, mod-add-mod, mod_self}
use torc_lite.Desc.{Ptr, null, Desc, direct_synchronous_stealing}
use torc_lite.Types.{Handles}
use torc_lite.Nodes.{Cluster}
use torc_lite.Args.Agree.{IsSendable, arguments_agree}
use torc_lite.Node.{
  Node, Thread, torc_get_reused_desc, torc_put_reused_desc, torc_i_pq_dequeue, torc_i_rq_dequeue,
}
use torc_lite.Send.{torc_thread_id, send_value}
use torc_lite.Server.{from_node}
use torc_lite.Scheduler.{
  receive_descriptor, stolen, direct_synchronous_stealing_request, ring_loop, steal_if,
  get_next_task, level_loop,
}

-- A result, on the same machine.
abbrev Ends : Cluster → Option (Node × Ptr) → Type 0
Ends c none = ⊥
Ends c (some (n, p)) = n.cluster ≡ c

abbrev Arrives : Cluster → Option Node → Type 0
Arrives c none = ⊥
Arrives c (some n) = n.cluster ≡ c

Ends-cond :
    (c : Cluster) (b : Bool) (x y : Option (Node × Ptr))
    → (b ≡ true → Ends c x)
    → (b ≡ false → Ends c y)
    → Ends c (if b then x else y)
Ends-cond c true x y f g = f refl
Ends-cond c false x y f g = g refl

Ends-bind :
    (c : Cluster) (o : Option (Node × Ptr)) (f : Node × Ptr → Option (Node × Ptr))
    → Ends c o
    → ((n : Node) (p : Ptr) → n.cluster ≡ c → Ends c (f (n, p)))
    → Ends c (o >>= f)
Ends-bind c none f e g = absurd e
Ends-bind c (some (n, p)) f e g = g n p e

Ends-some :
    (c : Cluster) (o : Option (Node × Ptr)) → Ends c o → (n : Node) × (p : Ptr) × (o ≡ some (n, p))
Ends-some c none e = absurd e
Ends-some c (some (n, p)) e = (n, p, refl)

sent-cluster :
    (t : Thread) (j : ℕ) (d : Desc) (type : ℕ) (n : Node)
    → (send_value t j d type n).cluster ≡ n.cluster
unfolding send_value
sent-cluster t j d type n = refl

level_loop-cluster : (k : ℕ) (n : Node) → (level_loop k n).0.cluster ≡ n.cluster
unfolding level_loop torc_i_rq_dequeue
level_loop-cluster zero n = refl
level_loop-cluster (suc k) n =
    let r = level_loop-cluster k (torc_i_rq_dequeue k n).0 in
    elim (Bool-cases ((torc_i_rq_dequeue k n).1 == null)) [ inl e ↦ rw e r | inr e ↦ rw e refl ]

pq-cluster : (n : Node) → (torc_i_pq_dequeue n).0.cluster ≡ n.cluster
unfolding torc_i_pq_dequeue
pq-cluster n = refl

-- The way round the ring of nodes, in numbers.
full_circle : (r m : ℕ) → r < m → (r + m) % m ≡ r
full_circle r m b =
    let swap : r + m ≡ m + r = omega arith in
    let none_before : 0 + r ≡ r = omega arith in
    ap (λ (x : ℕ). x % m) swap
    ∙ sym (mod-add-mod m m r)
    ∙ ap (λ (x : ℕ). (x + r) % m) (mod_self m)
    ∙ ap (λ (x : ℕ). x % m) none_before
    ∙ mod-eq_of_lt b

is_back :
    (n : Node) (c : Cluster) (i node : ℕ)
    → n.cluster ≡ c
    → c.mpi_rank < c.mpi_nodes
    → i ≡ c.mpi_nodes
    → node ≡ (c.mpi_rank + i) % c.mpi_nodes
    → (node == n.cluster.mpi_rank) ≡ true
is_back n c i node e b s w = (==_iff node n.cluster.mpi_rank).1 (
    w
    ∙ ap (λ (x : ℕ). (c.mpi_rank + x) % c.mpi_nodes) s
    ∙ full_circle c.mpi_rank c.mpi_nodes b
    ∙ ap (λ (d : Cluster). d.mpi_rank) (sym e))

not_back :
    (n : Node) (c : Cluster) (i node : ℕ)
    → n.cluster ≡ c
    → c.mpi_rank < c.mpi_nodes
    → i ≤ c.mpi_nodes
    → node ≡ (c.mpi_rank + i) % c.mpi_nodes
    → (node == n.cluster.mpi_rank) ≡ false
    → i < c.mpi_nodes
not_back n c i node e b l w x = elim (ℕ_discrete i c.mpi_nodes) [
  | yes s ↦ absurd (true≢false (sym (is_back n c i node e b s w) ∙ x))
  | no s ↦ omega arith
]

next_node :
    (n : Node) (c : Cluster) (i node : ℕ)
    → n.cluster ≡ c
    → node ≡ (c.mpi_rank + i) % c.mpi_nodes
    → (node + 1) % n.cluster.mpi_nodes ≡ (c.mpi_rank + suc i) % c.mpi_nodes
next_node n c i node e w =
    ap (λ (d : Cluster). (node + 1) % d.mpi_nodes) e
    ∙ ap (λ (x : ℕ). (x + 1) % c.mpi_nodes) w
    ∙ mod-add-mod (c.mpi_rank + i) c.mpi_nodes 1
    ∙ ap (λ (x : ℕ). x % c.mpi_nodes) (omega arith)

module _ (h : Handles) (type_size : ℕ → ℕ) (answer : (target : ℕ) → Node → Desc) (t : Thread)
    (fit : (target : ℕ) (n : Node) (i : ℕ)
      → i < (answer target n).narg
      → IsSendable h ((answer target n).args i)) where
  receive-Arrives :
      (target p : ℕ) (n m : Node)
      → Arrives m.cluster (receive_descriptor h type_size answer t (answer target n) p m)
  unfolding receive_descriptor
  receive-Arrives target p n m =
      let d = answer target n in
      let (r, e, agree) =
        arguments_agree h type_size 0 (torc_thread_id t + 100) d m.fresh_block (fit target n) in
      rw e (ground arith)

  stolen-cluster : (p : Ptr) (n : Node) → (stolen h type_size answer t p n).0.cluster ≡ n.cluster
  unfolding stolen torc_put_reused_desc
  stolen-cluster p n = ground arith

  reused-cluster : (n : Node) → (torc_get_reused_desc n).0.cluster ≡ n.cluster
  unfolding torc_get_reused_desc
  reused-cluster n = ground arith

  then_stolen :
      (p : Ptr) (c : Cluster) (o : Option Node)
      → Arrives c o
      → Ends c (o >>= λ n. some (stolen h type_size answer t p n))
  then_stolen p c none a = a
  then_stolen p c (some n) a = stolen-cluster p n ∙ a

  request-Ends :
      (target : ℕ) (n : Node)
      → Ends n.cluster (direct_synchronous_stealing_request h type_size answer t target n)
  unfolding direct_synchronous_stealing_request
  request-Ends target n =
      Ends-cond n.cluster n.termination_flag _ _ (λ e. refl)
        λ e.
          let n1 = torc_get_reused_desc n in
          let n2 = send_value t target (from_node n) direct_synchronous_stealing n1.0 in
          then_stolen n1.1 n.cluster _ (
            subst
              (λ c. Arrives c (receive_descriptor h type_size answer t (answer target n2) n1.1 n2))
              (sent-cluster t target (from_node n) direct_synchronous_stealing n1.0
                ∙ reused-cluster n)
              (receive-Arrives target n1.1 n2 n2))

  ring_loop-Ends :
      (k i node : ℕ) (n : Node) (c : Cluster)
      → n.cluster ≡ c
      → c.mpi_rank < c.mpi_nodes
      → i ≤ c.mpi_nodes
      → c.mpi_nodes ≤ i + k
      → node ≡ (c.mpi_rank + i) % c.mpi_nodes
      → Ends c (ring_loop h type_size answer t k node n)
  unfolding ring_loop
  ring_loop-Ends zero i node n c e b l s w = rw (is_back n c i node e b (omega arith) w) e
  ring_loop-Ends (suc k) i node n c e b l s w =
      Ends-cond c (node == n.cluster.mpi_rank) _ _ (λ x. e)
        λ x.
          Ends-bind c (direct_synchronous_stealing_request h type_size answer t node n) _
            (subst (λ d. Ends d (direct_synchronous_stealing_request h type_size answer t node n)) e
              (request-Ends node n))
            λ m p g.
              let more : i < c.mpi_nodes = not_back n c i node e b l w x in
              Ends-cond c (p == null) _ _
                (λ y.
                  ring_loop-Ends k (suc i) ((node + 1) % n.cluster.mpi_nodes) m c g b more
                    (omega (arith, s)) (next_node n c i node e w))
                (λ y. g)

  steal_if-Ends :
      (n : Node) (p : Ptr) (c : Cluster)
      → n.cluster ≡ c
      → c.mpi_rank < c.mpi_nodes
      → Ends c (steal_if h type_size answer t (n, p))
  unfolding steal_if
  steal_if-Ends n p c e b =
      let same : n.cluster.mpi_nodes ≡ c.mpi_nodes = ap (λ (d : Cluster). d.mpi_nodes) e in
      Ends-cond c n.internode_stealing _ _
        (λ x.
          Ends-cond c (p == null) _ _
            (λ y.
              Ends-bind c _ _
                (ring_loop-Ends n.cluster.mpi_nodes 1 _ n c e b (omega (arith, b))
                  (omega (arith, same)) (ap (λ (d : Cluster). (d.mpi_rank + 1) % d.mpi_nodes) e))
                λ m q g. stopped c m q g)
            (λ y. e))
        (λ x. e)
    where
      stopped :
          (c : Cluster) (m : Node) (q : Ptr)
          → m.cluster ≡ c
          → Ends c
              (some (if q == null then (record m { internode_stealing = false }, null) else (m, q)))
      stopped c m q g = elim (Bool-cases (q == null)) [ inl x ↦ rw x g | inr x ↦ rw x g ]

  -- On a node whose rank is below the number of nodes, the search for a task ends with a task or
  -- with none, and with no abort, provided that what other nodes answer has arguments fit to be
  -- received: the loop over the other nodes comes back to this node within as many rounds as there
  -- are nodes.
  pub get_next_task-total :
      (n : Node)
      → n.cluster.mpi_rank < n.cluster.mpi_nodes
      → (n' : Node) × (p : Ptr) × (get_next_task h type_size answer t n ≡ some (n', p))
  unfolding get_next_task
  get_next_task-total n b = Ends-some n.cluster _ (
      Ends-cond n.cluster ((torc_i_pq_dequeue n).1 == null) _ _
        (λ x.
          steal_if-Ends _ _ n.cluster (level_loop-cluster 10 (torc_i_pq_dequeue n).0 ∙ pq-cluster n)
            b)
        (λ x. pq-cluster n))
