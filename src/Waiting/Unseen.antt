-- ===== src/Waiting/Unseen.antt =====
-- Operations of the program between two waves of children that only send messages or set the flag
-- for stealing.
use torc_lite.Common.{
  ℕ, zero, suc, ◌+◌, ◌≡◌, refl, ap, ◌∙◌, Bool, true, false, List, [], ◌==◌, if◌then◌else◌, ◌++◌,
  ◌∷◌,
}
use torc_lite.Desc.{Ptr, Desc, torc_bcast, enable_internode_stealing, disable_internode_stealing}
use torc_lite.Table.{Table}
use torc_lite.Nodes.{Cluster, torc_node_id, torc_num_nodes}
use torc_lite.Node.{Node, Thread, argument, level_queue}
use torc_lite.Node.Ownership.Moves.{same-IsOwned}
use torc_lite.Send.{send_value, torc_thread_id}
use torc_lite.Server.{from_node, notify_loop, notify, torc_enable_stealing, torc_disable_stealing}
use torc_lite.Broadcast.{bcast_packet, bcast_loop}
use torc_lite.Waiting.Expected.{IsLeaf-same}
use torc_lite.Waiting.Family.{IsForking}

-- The descriptors, the queues and the machine are as they were.
pub record Unseen (n m : Node) : Type 0 where
  pub cluster : m.cluster ≡ n.cluster
  pub desc : m.desc ≡ n.desc
  pub fresh : m.fresh_desc ≡ n.fresh_desc
  pub reuse : m.reuse_q ≡ n.reuse_q
  pub private : m.private_grq ≡ n.private_grq
  pub public : m.public_grq ≡ n.public_grq

pub Unseen-trans : {n m o : Node} → Unseen n m → Unseen m o → Unseen n o
Unseen-trans a b = record {
  cluster = b.cluster ∙ a.cluster;
  desc = b.desc ∙ a.desc;
  fresh = b.fresh ∙ a.fresh;
  reuse = b.reuse ∙ a.reuse;
  private = b.private ∙ a.private;
  public = b.public ∙ a.public;
}

pub Unseen-IsForking :
    (table : Table) (parent : Ptr) (used : List Ptr) (l : ℕ) (ps : List Ptr) (n m : Node)
    → Unseen n m
    → IsForking table parent used l ps n
    → IsForking table parent used l ps m
Unseen-IsForking table parent used l ps n m u f = record {
  owned = same-IsOwned (rw (u.reuse, u.private, u.public) refl) u.fresh f.owned;
  in_use = f.in_use;
  single = ap (λ (k : Cluster). k.mpi_nodes) u.cluster ∙ f.single;
  waiting = record {
    counter = ap (λ d. (d parent).ndep) u.desc ∙ f.waiting.counter;
    level = ap (λ d. level_queue ((d parent).level + 1)) u.desc ∙ f.waiting.level;
    private = u.private ∙ f.waiting.private;
    queue = ap (λ g. g l) u.public ∙ f.waiting.queue;
    other_queues = λ j ne. ap (λ g. g j) u.public ∙ f.waiting.other_queues j ne;
    distinct = f.waiting.distinct;
    leaves = λ q is.
        IsLeaf-same table parent q n m (ap (λ d. d q) u.desc) u.cluster (f.waiting.leaves q is);
  };
}

sent-Unseen :
    (t : Thread) (node : ℕ) (d : Desc) (type : ℕ) (n : Node) → Unseen n (send_value t node d type n)
unfolding send_value
sent-Unseen t node d type n = record {
  cluster = refl;
  desc = refl;
  fresh = refl;
  reuse = refl;
  private = refl;
  public = refl;
}

here-Unseen : (n : Node) → Unseen n n
here-Unseen n = record {
  cluster = refl;
  desc = refl;
  fresh = refl;
  reuse = refl;
  private = refl;
  public = refl;
}

either_way : (b : Bool) (n x y : Node) → Unseen n x → Unseen n y → Unseen n (if b then x else y)
either_way true n x y f g = f
either_way false n x y f g = g

notify_loop-Unseen :
    (t : Thread) (d : Desc) (type k node : ℕ) (n : Node)
    → Unseen n (notify_loop t d type (λ m. m) k node n)
unfolding notify_loop
notify_loop-Unseen t d type zero node n = here-Unseen n
notify_loop-Unseen t d type (suc k) node n =
    Unseen-trans
      (either_way (node == torc_node_id n.cluster) n n (send_value t node d type n) (here-Unseen n)
        (sent-Unseen t node d type n))
      (notify_loop-Unseen t d type k (suc node)
        (if node == torc_node_id n.cluster then n else send_value t node d type n))

flag-Unseen : (b : Bool) (n : Node) → Unseen n (record n { internode_stealing = b })
flag-Unseen b n = record {
  cluster = refl;
  desc = refl;
  fresh = refl;
  reuse = refl;
  private = refl;
  public = refl;
}

pub enable_stealing-Unseen : (t : Thread) (n : Node) → Unseen n (torc_enable_stealing t n)
unfolding torc_enable_stealing notify
enable_stealing-Unseen t n = Unseen-trans (flag-Unseen true n) (
    notify_loop-Unseen t (record (from_node n) { sourcenode = torc_node_id n.cluster })
      enable_internode_stealing (torc_num_nodes n.cluster) 0
      (record n { internode_stealing = true }))

pub disable_stealing-Unseen : (t : Thread) (n : Node) → Unseen n (torc_disable_stealing t n)
unfolding torc_disable_stealing notify
disable_stealing-Unseen t n = Unseen-trans (flag-Unseen false n) (
    notify_loop-Unseen t (record (from_node n) { sourcenode = torc_node_id n.cluster })
      disable_internode_stealing (torc_num_nodes n.cluster) 0
      (record n { internode_stealing = false }))

pub bcast_loop-Unseen :
    (t : Thread) (d : Desc) (buffer count datatype k node : ℕ) (n : Node)
    → Unseen n (bcast_loop t d buffer count datatype k node n)
unfolding bcast_loop
bcast_loop-Unseen t d buffer count datatype zero node n = here-Unseen n
bcast_loop-Unseen t d buffer count datatype (suc k) node n =
    let n' = send_value t node d torc_bcast n in
    let p = argument (bcast_packet (torc_thread_id t) buffer count datatype node) in
    let m = record n' { sent = n'.sent ++ p ∷ [] } in
    let s = sent-Unseen t node d torc_bcast n in
    Unseen-trans
      (either_way (node == torc_node_id n.cluster) n n m (here-Unseen n) (record {
        cluster = s.cluster;
        desc = s.desc;
        fresh = s.fresh;
        reuse = s.reuse;
        private = s.private;
        public = s.public;
      }))
      (bcast_loop-Unseen t d buffer count datatype k (suc node)
        (if node == torc_node_id n.cluster then n else m))
