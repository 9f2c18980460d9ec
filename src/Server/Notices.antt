-- ===== src/Server/Notices.antt =====
-- The loops of src/torc_server.c that send a message to every other node.
use torc_lite.Common.{
  ℕ, zero, suc, ◌+◌, ◌≡◌, ◌≢◌, refl, sym, ap, ◌∙◌, ◌&&◌, not, List, [], ◌∷◌, ◌++◌, map, length, has,
  ◌==◌, ltb, leb, if◌then◌else◌, arith, ==_false, ℕ_discrete,
}
use torc_lite.Common.Int.{pos}
use torc_lite.Desc.{Desc, max_nvps, torc_answer}
use torc_lite.Nodes.{Cluster}
use torc_lite.Args.{send_arguments, send_loop}
use torc_lite.Node.{Node, Thread, Message, descriptor}
use torc_lite.Send.{send_value, stamped, following, torc_thread_id}
use torc_lite.Server.{notify_loop, notify}
use mathlib.Core.List.{append_assoc, append-nil}

-- The nodes but `me`, from `node` on.
abbrev pub others : (me k node : ℕ) → List ℕ
others me zero node = []
others me (suc k) node =
    if node == me then others me k (suc node) else node ∷ others me k (suc node)

pub has-others :
    (me k node j : ℕ)
    → has j (others me k node) ≡ (leb node j && (ltb j (node + k) && not (j == me)))
has-others me zero node j = ground arith
has-others me (suc k) node j = ground (arith, has-others me k (suc node) j)

pub length-others :
    (me k node : ℕ)
    → length (others me k node) + (if leb node me && ltb me (node + k) then 1 else 0) ≡ k
length-others me zero node = ground arith
length-others me (suc k) node = ground (arith, length-others me k (suc node))

-- The message for the node `j` from the node number `rank`.
abbrev pub notice : Thread → (rank : ℕ) → Desc → (type j : ℕ) → Message
notice t rank d type j =
    descriptor j max_nvps
      (record d { sourcenode = rank; sourcevpid = pos (torc_thread_id t); type = type })

module _ (t : Thread) (d : Desc) (type : ℕ) (here : Node → Node) (plain : d.narg ≡ 0)
    (no_answer : type ≢ torc_answer) (keeps_sent : (m : Node) → (here m).sent ≡ m.sent)
    (keeps_cluster : (m : Node) → (here m).cluster ≡ m.cluster) where
  one_notice :
      (node : ℕ) (n : Node)
      → (send_value t node d type n).sent ≡ n.sent ++ notice t n.cluster.mpi_rank d type node ∷ []
  unfolding send_value stamped following send_arguments send_loop
  one_notice node n = ground arith

  one_cluster : (node : ℕ) (n : Node) → (send_value t node d type n).cluster ≡ n.cluster
  unfolding send_value
  one_cluster node n = refl

  abbrev next_state : (node : ℕ) → Node → Node
  next_state node n = if node == n.cluster.mpi_rank then here n else send_value t node d type n

  next-cluster : (node : ℕ) (n : Node) → (next_state node n).cluster ≡ n.cluster
  next-cluster node n = ground (arith, keeps_cluster n, one_cluster node n)

  step_sent :
      (node rank : ℕ) (n : Node)
      → n.cluster.mpi_rank ≡ rank
      → (later : List ℕ)
      → (next_state node n).sent ++ map (notice t rank d type) later
        ≡ n.sent ++ map (notice t rank d type) (if node == rank then later else node ∷ later)
  step_sent node rank n e later = elim (ℕ_discrete node rank) [
    | yes same ↦ ground (arith, keeps_sent n)
    | no differ ↦
        rw (==_false node rank differ, ==_false node n.cluster.mpi_rank (λ f. differ (f ∙ e)))
          (ap (λ l. l ++ map (notice t rank d type) later)
              (one_notice node n ∙ ap (λ r. n.sent ++ notice t r d type node ∷ []) e)
            ∙ append_assoc n.sent _ _)
  ]

  notify_loop-sent :
      (k node rank : ℕ) (n : Node)
      → n.cluster.mpi_rank ≡ rank
      → (notify_loop t d type here k node n).sent
        ≡ n.sent ++ map (notice t rank d type) (others rank k node)
  unfolding notify_loop
  notify_loop-sent zero node rank n e = sym (append-nil _)
  notify_loop-sent (suc k) node rank n e =
      notify_loop-sent k (suc node) rank (next_state node n)
        (ap (λ (c : Cluster). c.mpi_rank) (next-cluster node n) ∙ e)
      ∙ step_sent node rank n e (others rank k (suc node))

  pub notify_loop-cluster :
      (k node : ℕ) (n : Node) → (notify_loop t d type here k node n).cluster ≡ n.cluster
  unfolding notify_loop
  notify_loop-cluster zero node n = refl
  notify_loop-cluster (suc k) node n =
      notify_loop-cluster k (suc node) (next_state node n) ∙ next-cluster node n

  -- A message without arguments that is no answer goes to every other node once, in the order of
  -- their numbers, and to this node never, if what is done for this node itself sends nothing and
  -- leaves the machine as it is.
  pub notify-sent :
      (n : Node)
      → (notify t d type here n).sent
        ≡ n.sent
          ++ map
              (notice t n.cluster.mpi_rank d type)
              (others n.cluster.mpi_rank n.cluster.mpi_nodes 0)
  unfolding notify
  notify-sent n = notify_loop-sent n.cluster.mpi_nodes 0 n.cluster.mpi_rank n refl
