-- ===== src/Broadcast/Received.antt =====
-- What `torc_broadcast` sends, and what the server threads of the other nodes make of it.
use torc_lite.Common.{
  ℕ, zero, suc, ◌≤◌, false, ◌||◌, ◌≡◌, refl, sym, ap, ◌∙◌, some, true, List, [], ◌∷◌, ◌++◌, ◌==◌,
  if◌then◌else◌, arith, ==_false, ℕ_discrete, ◌<◌, ◌≢◌, has, true≢false,
}
use mathlib.Core.List.{append_assoc, append-nil}
use torc_lite.Common.Int.{pos, pos_part, ltb_ℤ}
use torc_lite.Desc.{Ptr, Desc, max_nvps, torc_bcast}
use torc_lite.Types.{Handles, torc_mpi2b_type, torc_b2mpi_type}
use torc_lite.Types.Codes.{b2mpi-mpi2b}
use torc_lite.Table.{Table}
use torc_lite.Nodes.{Cluster}
use torc_lite.Args.{Packet, address}
use torc_lite.Node.{Node, Thread, Message, argument, descriptor, set_desc}
use torc_lite.Send.{torc_thread_id, send_value, stamped, following}
use torc_lite.Exec.{Call}
use torc_lite.Node.Store.{set_desc_self}
use torc_lite.Server.{goes_on, process_a_received_descriptor}
use torc_lite.Server.Notices.{notice, others, has-others}
use torc_lite.Broadcast.{bcast_desc, bcast_packet, bcast_loop, torc_broadcast}

module _ (t : Thread) (d : Desc) (buffer count datatype : ℕ) where
  -- The descriptor and the buffer, for each of some nodes in turn.
  abbrev pub bcasts : (rank : ℕ) → List ℕ → List Message
  bcasts rank [] = []
  bcasts rank (j ∷ js) =
      notice t rank d torc_bcast j
      ∷ argument (bcast_packet (torc_thread_id t) buffer count datatype j)
      ∷ bcasts rank js

  abbrev one : (node : ℕ) → Node → Node
  one node n =
      let n' = send_value t node d torc_bcast n in
      record n' {
        sent =
            n'.sent ++ argument (bcast_packet (torc_thread_id t) buffer count datatype node) ∷ [];
      }

  one-sent :
      (node : ℕ) (n : Node) → (one node n).sent ≡ n.sent ++ bcasts n.cluster.mpi_rank (node ∷ [])
  unfolding send_value stamped following
  one-sent node n = append_assoc n.sent _ _

  one-cluster : (node : ℕ) (n : Node) → (one node n).cluster ≡ n.cluster
  unfolding send_value
  one-cluster node n = refl

  abbrev next_state : (node : ℕ) → Node → Node
  next_state node n = if node == n.cluster.mpi_rank then n else one node n

  next-cluster : (node : ℕ) (n : Node) → (next_state node n).cluster ≡ n.cluster
  next-cluster node n = ground (arith, one-cluster node n)

  step_sent :
      (node rank : ℕ) (n : Node)
      → n.cluster.mpi_rank ≡ rank
      → (later : List ℕ)
      → (next_state node n).sent ++ bcasts rank later
        ≡ n.sent ++ bcasts rank (if node == rank then later else node ∷ later)
  step_sent node rank n e later = elim (ℕ_discrete node rank) [
    | yes same ↦ ground (arith, same, e)
    | no other ↦
        rw (==_false node rank other, ==_false node n.cluster.mpi_rank (λ f. other (f ∙ e)))
          (ap (λ l. l ++ bcasts rank later)
              (one-sent node n ∙ ap (λ r. n.sent ++ bcasts r (node ∷ [])) e)
            ∙ append_assoc n.sent _ _)
  ]

  bcast_loop-sent :
      (k node : ℕ) (n : Node) (rank : ℕ)
      → n.cluster.mpi_rank ≡ rank
      → (bcast_loop t d buffer count datatype k node n).sent
        ≡ n.sent ++ bcasts rank (others rank k node)
  unfolding bcast_loop
  bcast_loop-sent zero node n rank e = sym (append-nil _)
  bcast_loop-sent (suc k) node n rank e =
      bcast_loop-sent k (suc node) (next_state node n) rank
        (ap (λ (c : Cluster). c.mpi_rank) (next-cluster node n) ∙ e)
      ∙ step_sent node rank n e (others rank k (suc node))

module _ (h : Handles) (t : Thread) (buffer count datatype btype : ℕ)
    (supported : torc_mpi2b_type h datatype ≡ some btype) where
  -- A broadcast of a supported data type sends each other node, in the order of their numbers, a
  -- descriptor and then the buffer, and this node nothing.
  pub torc_broadcast-sent :
      (n : Node)
      → (n' : Node) × (torc_broadcast h t buffer count datatype n ≡ some n')
        × (n'.sent
            ≡ n.sent
              ++ bcasts t
                  (bcast_desc n.cluster.mpi_rank buffer count btype)
                  buffer
                  count
                  datatype
                  n.cluster.mpi_rank
                  (others n.cluster.mpi_rank n.cluster.mpi_nodes 0))
  unfolding torc_broadcast
  torc_broadcast-sent n =
      let d = bcast_desc n.cluster.mpi_rank buffer count btype in
      (
        bcast_loop t d buffer count datatype n.cluster.mpi_nodes 0 n,
        rw supported refl,
        bcast_loop-sent t d buffer count datatype n.cluster.mpi_nodes 0 n n.cluster.mpi_rank refl,
      )

  abbrev posted : Desc → (tag : ℕ) → Packet
  posted d tag = record {
    place = address (d.args 1).localarg;
    count = (d.args 2).localarg;
    dtype = datatype;
    node = d.sourcenode;
    tag = tag;
  }

  handle-bcast :
      (type_size : ℕ → ℕ) (table : Table) (run : Thread → Call → Node → Node) (server : Thread)
      (no_work p v : ℕ) (m : Node)
      → (m.desc p).type ≡ torc_bcast
      → (m.desc p).sourcevpid ≡ pos v
      → v ≤ max_nvps
      → ((m.desc p).args 3).localarg ≡ btype
      → process_a_received_descriptor h type_size table run server no_work p m
        ≡ goes_on m true (posted (m.desc p) (pos_part (m.desc p).sourcevpid) ∷ [])
  unfolding process_a_received_descriptor
  handle-bcast type_size table run server no_work p v m ty sv b bt =
      let good : (ltb_ℤ (m.desc p).sourcevpid (pos 0) || ltb_ℤ (pos max_nvps) (m.desc p).sourcevpid)
          ≡ false =
        ground (arith, sv, b) in
      let known : torc_b2mpi_type h btype ≡ some datatype = b2mpi-mpi2b h datatype supported in
      rw (good, ty, bt, known) refl

  thread_id-le : t.vp_id ≤ max_nvps → torc_thread_id t ≤ max_nvps
  unfolding torc_thread_id
  thread_id-le b = ground arith

  -- Where the messages for a node are.
  bcasts-split :
      (d : Desc) (rank j : ℕ) (js : List ℕ)
      → has j js ≡ true
      → (before : List Message) × (after : List Message) × (bcasts t d buffer count datatype rank js
          ≡ before
            ++ notice t rank d torc_bcast j
              ∷ argument (bcast_packet (torc_thread_id t) buffer count datatype j)
              ∷ after)
  bcasts-split d rank j [] e = absurd (true≢false (sym e))
  bcasts-split d rank j (i ∷ js) e = elim (ℕ_discrete j i) [
    | yes z ↦ (
      [],
      bcasts t d buffer count datatype rank js,
      ap
          (λ k.
            notice t rank d torc_bcast k
            ∷ argument (bcast_packet (torc_thread_id t) buffer count datatype k)
            ∷ bcasts t d buffer count datatype rank js)
          (sym z),
    )
    | no ne ↦
        let (before, after, f) = bcasts-split d rank j js (ground (arith, e, ne)) in
        (
          notice t rank d torc_bcast i
              ∷ argument (bcast_packet (torc_thread_id t) buffer count datatype i)
              ∷ before,
          after,
          ap
              (λ l.
                notice t rank d torc_bcast i
                ∷ argument (bcast_packet (torc_thread_id t) buffer count datatype i)
                ∷ l)
              f,
        )
  ]

  -- The server thread takes the descriptor that has been sent.
  receives :
      (type_size : ℕ → ℕ) (table : Table) (run : Thread → Call → Node → Node) (server : Thread)
      (no_work p : Ptr) (rank j : ℕ) (m : Node)
      → t.vp_id ≤ max_nvps
      → let d = record (bcast_desc rank buffer count btype) {
        sourcenode = rank;
        sourcevpid = pos (torc_thread_id t);
        type = torc_bcast;
      } in
        process_a_received_descriptor h type_size table run server no_work p (set_desc p d m)
        ≡ goes_on
            (set_desc p d m)
            true
            (record (bcast_packet (torc_thread_id t) buffer count datatype j) { node = rank } ∷ [])
  receives type_size table run server no_work p rank j m b =
      let d = record (bcast_desc rank buffer count btype) {
        sourcenode = rank;
        sourcevpid = pos (torc_thread_id t);
        type = torc_bcast;
      } in
      let self = set_desc_self p d m in
      handle-bcast type_size table run server no_work p (torc_thread_id t) (set_desc p d m)
        (ap (λ (k : Desc). k.type) self) (ap (λ (k : Desc). k.sourcevpid) self) (thread_id-le b)
        (ap (λ (k : Desc). (k.args 3).localarg) self)
      ∙ ap (λ (k : Desc). goes_on (set_desc p d m) true (posted k (pos_part k.sourcevpid) ∷ []))
          self

  -- For a supported data type and a sender with a number up to `MAX_NVPS`, and every other node `j`:
  -- `torc_broadcast` sends a descriptor to the server thread of `j`, and next a packet to `j`, which
  -- holds the buffer; and the server thread that receives this descriptor, in the descriptor at `p`,
  -- posts one receive, from the sender, that agrees with this packet in the buffer's address, the
  -- count, the data type and the tag, and may use its descriptor again.
  pub broadcast_received :
      (type_size : ℕ → ℕ) (table : Table) (run : Thread → Call → Node → Node) (server : Thread)
      (no_work p : Ptr) (j : ℕ) (n m : Node)
      → t.vp_id ≤ max_nvps
      → j < n.cluster.mpi_nodes
      → j ≢ n.cluster.mpi_rank
      → (n' : Node) × (d : Desc) × (q : Packet) × (before : List Message) × (after : List Message)
        × (torc_broadcast h t buffer count datatype n ≡ some n')
        × (n'.sent ≡ n.sent ++ (before ++ descriptor j max_nvps d ∷ argument q ∷ after))
        × (q.node ≡ j)
        × (q.place ≡ address buffer)
        × (process_a_received_descriptor h type_size table run server no_work p (set_desc p d m)
            ≡ goes_on (set_desc p d m) true (record q { node = n.cluster.mpi_rank } ∷ []))
  broadcast_received type_size table run server no_work p j n m b lt ne =
      let rank = n.cluster.mpi_rank in
      let sender = bcast_desc rank buffer count btype in
      let (n', e, s) = torc_broadcast-sent n in
      let there : has j (others rank n.cluster.mpi_nodes 0) ≡ true =
        has-others rank n.cluster.mpi_nodes 0 j ∙ ground (arith, lt, ne) in
      let (before, after, f) =
        bcasts-split sender rank j (others rank n.cluster.mpi_nodes 0) there in
      (
        n',
        record sender { sourcenode = rank; sourcevpid = pos (torc_thread_id t); type = torc_bcast },
        bcast_packet (torc_thread_id t) buffer count datatype j,
        before,
        after,
        e,
        s ∙ ap (λ l. n.sent ++ l) f,
        refl,
        refl,
        receives type_size table run server no_work p rank j m b,
      )
