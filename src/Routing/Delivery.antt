-- ===== src/Routing/Delivery.antt =====
-- Where the routing functions of src/torc_queue.c leave a task.
use torc_lite.Common.{
  ℕ, zero, suc, ◌+◌, ◌<◌, ◌≡◌, ◌≢◌, Bool, true, false, Option, [], ◌∷◌, ◌++◌, ltb, if◌then◌else◌,
  update, arith, ◌&&◌, leb,
}
use torc_lite.Desc.{Ptr, Arg, max_nvps, torc_normal_enqueue}
use torc_lite.Node.{
  Node, Thread, descriptor, level_queue, torc_to_i_rq, torc_to_i_rq_end, torc_put_reused_desc,
}
use torc_lite.Send.{send_descriptor, following, stamped, torc_thread_id}
use torc_lite.Routing.{read_loop, deliver}

-- An argument whose value has been copied to `temparg`.
abbrev pub copied : Arg → Arg
copied a = record a { temparg = a.localarg }

pub read_loop-copied :
    (k i j : ℕ) (f : ℕ → Arg)
    → read_loop k i f j ≡ (if leb i j && ltb j (i + k) then copied (f j) else f j)
unfolding read_loop
read_loop-copied zero i j f = ground arith
read_loop-copied (suc k) i j f =
    ground (arith, read_loop-copied k (suc i) j (update f i (copied (f i))))

-- The task is at the head or at the tail of the public queue for its level, its arguments are
-- copied, and nothing is sent, recycled or changed but that.
pub record IsQueued (front : Bool) (p : Ptr) (n n' : Node) : Type 0 where
  pub queue : n'.public_grq (level_queue (n.desc p).level) ≡ (
      if front
      then p ∷ n.public_grq (level_queue (n.desc p).level)
      else n.public_grq (level_queue (n.desc p).level) ++ p ∷ [])
  pub others : (l : ℕ) → l ≢ level_queue (n.desc p).level → n'.public_grq l ≡ n.public_grq l
  pub arguments : (i : ℕ) → i < (n.desc p).narg → (n'.desc p).args i ≡ copied ((n.desc p).args i)
  pub descriptors : (q : Ptr) → q ≢ p → n'.desc q ≡ n.desc q
  pub reuse : n'.reuse_q ≡ n.reuse_q
  pub sent : n'.sent ≡ n.sent

-- The task has been sent to the node `j`, its data with it, and its descriptor is recycled.
pub record IsSent (t : Thread) (j : ℕ) (p : Ptr) (n n' : Node) : Type 0 where
  pub sent :
      n'.sent
      ≡ n.sent
        ++ descriptor j max_nvps (stamped t n (n.desc p) torc_normal_enqueue)
          ∷ following j (torc_thread_id t) (stamped t n (n.desc p) torc_normal_enqueue)
  pub queues : n'.public_grq ≡ n.public_grq
  pub descriptors : (q : Ptr) → q ≢ p → n'.desc q ≡ n.desc q
  pub reuse : n'.reuse_q ≡ n.reuse_q ++ p ∷ []

module _ (t : Thread) (j : ℕ) (p : Ptr) (n : Node) where
  deliver_here :
      (front : Bool) → n.cluster.mpi_rank ≡ j → IsQueued front p n (deliver t front j p n)
  unfolding deliver torc_to_i_rq torc_to_i_rq_end
  deliver_here true e = record {
    queue = ground arith;
    others = λ l ne. ground arith;
    arguments = λ i b. ground (arith, read_loop-copied (n.desc p).narg 0 i (n.desc p).args);
    descriptors = λ q ne. ground arith;
    reuse = ground arith;
    sent = ground arith;
  }
  deliver_here false e = record {
    queue = ground arith;
    others = λ l ne. ground arith;
    arguments = λ i b. ground (arith, read_loop-copied (n.desc p).narg 0 i (n.desc p).args);
    descriptors = λ q ne. ground arith;
    reuse = ground arith;
    sent = ground arith;
  }

  deliver_away : (front : Bool) → n.cluster.mpi_rank ≢ j → IsSent t j p n (deliver t front j p n)
  unfolding deliver send_descriptor torc_put_reused_desc
  deliver_away front ne = record {
    sent = ground arith;
    queues = ground arith;
    descriptors = λ q nq. ground arith;
    reuse = ground arith;
  }

  deliver-cluster : (front : Bool) → (deliver t front j p n).cluster ≡ n.cluster
  unfolding deliver torc_to_i_rq torc_to_i_rq_end send_descriptor torc_put_reused_desc
  deliver-cluster front = ground arith

  -- Where a task for the node `j` ends up.
  pub record Delivered (front : Bool) (n' : Node) : Type 0 where
    pub here : n.cluster.mpi_rank ≡ j → IsQueued front p n n'
    pub away : n.cluster.mpi_rank ≢ j → IsSent t j p n n'
    pub machine : n'.cluster ≡ n.cluster

  pub deliver-Delivered : (front : Bool) → Delivered front (deliver t front j p n)
  deliver-Delivered front = record {
    here = deliver_here front;
    away = deliver_away front;
    machine = deliver-cluster front;
  }

-- The static variable of `torc_to_rq_end` is no part of that.
pub Delivered-worker :
    (t : Thread) (j : ℕ) (p : Ptr) (n : Node) (front : Bool) (n' : Node) (w : Option ℕ)
    → Delivered t j p n front n'
    → Delivered t j p n front (record n' { rq_end_worker = w })
Delivered-worker t j p n front n' w d = record {
  here = λ e.
      let q = d.here e in
      record {
        queue = q.queue;
        others = q.others;
        arguments = q.arguments;
        descriptors = q.descriptors;
        reuse = q.reuse;
        sent = q.sent;
      };
  away = λ ne.
      let s = d.away ne in
      record { sent = s.sent; queues = s.queues; descriptors = s.descriptors; reuse = s.reuse };
  machine = d.machine;
}
