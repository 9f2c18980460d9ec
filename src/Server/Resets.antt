-- ===== src/Server/Resets.antt =====
-- What a request to reset the statistics sets off on the other nodes.
use torc_lite.Common.{
  ℕ, suc, ◌+◌, ◌≤◌, ◌<◌, ◌≡◌, ◌≢◌, refl, sym, ap, ◌∙◌, Bool, true, ◌||◌, List, [], ◌∷◌, ◌++◌, map,
  length, ◌==◌, if◌then◌else◌, update, arith, ℕ_discrete, Bool-cases, ◌⊎◌, inl, inr,
}
use mathlib.Core.Path.{subst}
use torc_lite.Common.Int.{pos, ltb_ℤ}
use torc_lite.Desc.{Ptr, Desc, zero_desc, max_nvps, reset_statistics}
use torc_lite.Types.{Handles}
use torc_lite.Table.{Table}
use torc_lite.Nodes.{Cluster}
use torc_lite.Node.{Node, Thread, Message, descriptor, argument, set_desc}
use torc_lite.Args.{Packet}
use torc_lite.Exec.{Call}
use torc_lite.Server.{
  Outcome, aborts, exits, goes_on, reset_here, torc_reset_statistics, process_a_received_descriptor,
  notify,
}
use torc_lite.Server.Notices.{notice, others, length-others, notify-sent, notify_loop-cluster}

-- The requests to reset the statistics among some messages.
abbrev pub resets : List Message → ℕ
resets [] = 0
resets (descriptor j tag d ∷ ms) = if d.type == reset_statistics then suc (resets ms) else resets ms
resets (argument p ∷ ms) = resets ms

resets-append : (ms ns : List Message) → resets (ms ++ ns) ≡ resets ms + resets ns
resets-append [] ns = omega arith
resets-append (descriptor j tag d ∷ ms) ns = ground (arith, resets-append ms ns)
resets-append (argument p ∷ ms) ns = resets-append ms ns

resets-notices :
    (t : Thread) (r : ℕ) (d : Desc) (js : List ℕ)
    → resets (map (notice t r d reset_statistics) js) ≡ length js
resets-notices t r d [] = refl
resets-notices t r d (j ∷ js) = ap suc (resets-notices t r d js)

module _ (t : Thread) (n : Node) where
  reset-sent :
      (torc_reset_statistics t n).sent
      ≡ n.sent
        ++ map
            (notice t n.cluster.mpi_rank zero_desc reset_statistics)
            (others n.cluster.mpi_rank n.cluster.mpi_nodes 0)
  unfolding torc_reset_statistics
  reset-sent =
      notify-sent t zero_desc reset_statistics reset_here refl (λ e. omega (arith, e)) (λ m. refl)
        (λ m. refl) n

  reset-cluster : (torc_reset_statistics t n).cluster ≡ n.cluster
  unfolding torc_reset_statistics notify
  reset-cluster =
      notify_loop-cluster t zero_desc reset_statistics reset_here refl (λ e. omega (arith, e))
        (λ m. refl) (λ m. refl) n.cluster.mpi_nodes 0 n

  reset-resets :
      n.cluster.mpi_rank < n.cluster.mpi_nodes
      → suc (resets (torc_reset_statistics t n).sent) ≡ resets n.sent + n.cluster.mpi_nodes
  reset-resets b = ground (
    arith,
    ap resets reset-sent,
    resets-append n.sent (
        map (notice t n.cluster.mpi_rank zero_desc reset_statistics)
          (others n.cluster.mpi_rank n.cluster.mpi_nodes 0)),
    resets-notices t n.cluster.mpi_rank zero_desc (others n.cluster.mpi_rank n.cluster.mpi_nodes 0),
    length-others n.cluster.mpi_rank n.cluster.mpi_nodes 0,
  )

-- The machine has two nodes at least.
abbrev pub Big : Cluster → Type 0
Big c = (2 ≤ c.mpi_nodes) × (c.mpi_rank < c.mpi_nodes)

Big-update :
    (f : ℕ → Node) (j : ℕ) (n : Node)
    → n.cluster ≡ (f j).cluster
    → ((i : ℕ) → Big (f i).cluster)
    → (i : ℕ) → Big (update f j n i).cluster
Big-update f j n c g i = elim (ℕ_discrete i j) [
  | yes e ↦
      let same : (f j).cluster ≡ (update f j n i).cluster = ground (arith, c) in
      subst Big same (g j)
  | no ne ↦
      let same : (f i).cluster ≡ (update f j n i).cluster = ground arith in subst Big same (g i)
]

still_one : (before after new : List Message) → 1 ≤ resets new → 1 ≤ resets (before ++ after ++ new)
still_one before after new b = let a = resets-append (before ++ after) new in omega (arith, a)

more :
    (old new sent sent' : List Message) (nodes : ℕ)
    → sent ≡ old ++ new
    → sent ≡ sent'
    → suc (resets sent') ≡ resets old + nodes
    → 2 ≤ nodes
    → 1 ≤ resets new
more old new sent sent' nodes s e c b =
    let a = ap resets s in
    let f = ap resets e in let l = resets-append old new in omega (arith, a, f, l)

module _ (h : Handles) (type_size : ℕ → ℕ) (table : Table) (run : Thread → Call → Node → Node)
    (t : Thread) (no_work : Ptr) where
  abbrev handle : Ptr → Node → Outcome
  handle = process_a_received_descriptor h type_size table run t no_work

  handle-reset :
      (p : Ptr) (n : Node)
      → (n.desc p).type ≡ reset_statistics
      → (handle p n ≡ aborts) ⊎ (handle p n ≡ goes_on (torc_reset_statistics t n) true [])
  unfolding process_a_received_descriptor
  handle-reset p n e =
      elim (Bool-cases
        (ltb_ℤ (n.desc p).sourcevpid (pos 0) || ltb_ℤ (pos max_nvps) (n.desc p).sourcevpid)) [
          | inl bad ↦ inl (rw bad refl)
          | inr good ↦ inr (rw (good, e) refl)
        ]

  abbrev node_or : Node → Outcome → Node
  node_or n (goes_on n' r ps) = n'
  node_or n aborts = n
  node_or n exits = n

  goes_on≢aborts : (n' : Node) (r : Bool) (ps : List Packet) → aborts ≢ goes_on n' r ps
  goes_on≢aborts n' r ps e = cc

  handle-node :
      (p : Ptr) (n n' : Node) (ps : List Packet)
      → (n.desc p).type ≡ reset_statistics
      → handle p n ≡ goes_on n' true ps
      → n' ≡ torc_reset_statistics t n
  handle-node p n n' ps e h' = elim (handle-reset p n e) [
    | inl bad ↦ absurd (goes_on≢aborts n' true ps (sym bad ∙ h'))
    | inr good ↦ ap (node_or n) (sym h' ∙ good)
  ]

  -- All nodes, by their numbers, and the messages that have been sent and not received.
  pub record Net : Type 0 where
    pub nodes : ℕ → Node
    pub flight : List Message

  -- The server thread of the node `j` receives a request to reset the statistics in the descriptor
  -- at `p`; what it sends is added to the messages in flight.
  pub data Step (net : Net) : Net → Type 0 where
    receive :
        (before after new : List Message) (j tag : ℕ) (p : Ptr) (d : Desc) (n' : Node)
        (ps : List Packet)
        → net.flight ≡ before ++ descriptor j tag d ∷ after
        → d.type ≡ reset_statistics
        → handle p (set_desc p d (net.nodes j)) ≡ goes_on n' true ps
        → n'.sent ≡ (net.nodes j).sent ++ new
        → Step net (record { nodes = update net.nodes j n'; flight = before ++ after ++ new })

  pub data Reach (net : Net) : Net → Type 0 where
    here : Reach net net
    next : {net1 net2 : Net} → Reach net net1 → Step net1 net2 → Reach net net2

  -- Every node knows that there are at least two.
  abbrev pub Several : Net → Type 0
  Several net = (j : ℕ) → Big (net.nodes j).cluster

  abbrev Goes : Net → Type 0
  Goes net = Several net × (1 ≤ resets net.flight)

  Step-Goes : {net net' : Net} → Step net net' → Goes net → Goes net'
  Step-Goes {net = net} (receive before after new j tag p d n' ps f e h' s) g =
      let n = set_desc p d (net.nodes j) in
      let is : n' ≡ torc_reset_statistics t n =
        handle-node p n n' ps (ap (λ (k : Desc). k.type) (same_desc p d (net.nodes j)) ∙ e) h' in
      let c : n'.cluster ≡ (net.nodes j).cluster =
        ap (λ (m : Node). m.cluster) is ∙ reset-cluster t n in
      (
        Big-update net.nodes j n' c g.0,
        still_one before after new (
            more (net.nodes j).sent new n'.sent (torc_reset_statistics t n).sent
              (net.nodes j).cluster.mpi_nodes s (ap (λ (m : Node). m.sent) is)
              (reset-resets t n (g.0 j).1) (g.0 j).0),
      )
    where
      same_desc : (p : Ptr) (d : Desc) (m : Node) → (set_desc p d m).desc p ≡ d
      same_desc p d m = ground arith

  -- If every node counts at least two nodes, and a request to reset the statistics is on its way,
  -- then, whichever requests of that kind the nodes receive and in whatever order, there is always
  -- one more on its way: a node that receives one sends one to every other node again.
  pub resets_never_end :
      {net net' : Net}
      → Several net
      → 1 ≤ resets net.flight
      → Reach net net'
      → 1 ≤ resets net'.flight
  resets_never_end s f r = (Reach-Goes (s, f) r).1
    where
      Reach-Goes : {net net' : Net} → Goes net → Reach net net' → Goes net'
      Reach-Goes g here = g
      Reach-Goes g (next r st) = Step-Goes st (Reach-Goes g r)
