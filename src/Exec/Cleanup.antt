-- ===== src/Exec/Cleanup.antt =====
-- What the end of a task, `_torc_cleanup`, does to its parent, its buffers and its descriptor.
use torc_lite.Common.{◌≡◌, ◌≢◌, [], ◌∷◌, ◌++◌, arith}
use torc_lite.Desc.{Ptr, null, max_nvps, torc_answer}
use torc_lite.Deps.{torc_depsatisfy}
use torc_lite.Node.{Node, Thread, descriptor, torc_put_reused_desc, torc_to_i_reuseq_end}
use torc_lite.Send.{send_descriptor, send_value, stamped, following, torc_thread_id}
use torc_lite.Exec.{torc_cleanup, free_copies}

-- A task that ends on the node that created it.
pub record EndsHome (p : Ptr) (n n' : Node) : Type 0 where
  pub parent :
      (n.desc p).parent ≢ null
      → n'.desc (n.desc p).parent ≡ (torc_depsatisfy (n.desc (n.desc p).parent)).0
  pub others : (q : Ptr) → q ≢ (n.desc p).parent → n'.desc q ≡ n.desc q
  pub orphan : (n.desc p).parent ≡ null → n'.desc ≡ n.desc
  pub freed : n'.freed ≡ n.freed ++ free_copies (n.desc p) (n.desc p).narg 0
  pub sent : n'.sent ≡ n.sent
  pub recycled : n'.reuse_q ≡ n.reuse_q ++ p ∷ []

-- A task that ends on another node.
pub record EndsAway (t : Thread) (p : Ptr) (n n' : Node) : Type 0 where
  pub sent :
      let d = stamped t n (n.desc p) torc_answer in
      n'.sent
      ≡ n.sent
        ++ descriptor (n.desc p).homenode max_nvps d
          ∷ following (n.desc p).homenode (torc_thread_id t) d
  pub others : (q : Ptr) → q ≢ p → n'.desc q ≡ n.desc q
  pub recycled : n'.reuse_q ≡ n.reuse_q ++ p ∷ []

pub record IsEnded (t : Thread) (p : Ptr) (n n' : Node) : Type 0 where
  pub home : (n.desc p).homenode ≡ n.cluster.mpi_rank → EndsHome p n n'
  pub away : (n.desc p).homenode ≢ n.cluster.mpi_rank → EndsAway t p n n'

module _ (t : Thread) (p : Ptr) (n : Node) where
  ends_home : (n.desc p).homenode ≡ n.cluster.mpi_rank → EndsHome p n (torc_cleanup t p n)
  unfolding torc_cleanup torc_put_reused_desc torc_to_i_reuseq_end
  ends_home e = record {
    parent = λ ne. ground arith;
    others = λ q ne. ground arith;
    orphan = λ o. ground arith;
    freed = ground arith;
    sent = ground arith;
    recycled = ground arith;
  }

  ends_away : (n.desc p).homenode ≢ n.cluster.mpi_rank → EndsAway t p n (torc_cleanup t p n)
  unfolding torc_cleanup torc_put_reused_desc torc_to_i_reuseq_end send_descriptor send_value
  ends_away ne = record {
    sent = ground arith;
    others = λ q nq. ground arith;
    recycled = ground arith;
  }

  -- A task that ends at home tells its parent, if it has one, and frees its private copies; one that
  -- ends on another node sends the answer home and leaves all other descriptors as they are. Both
  -- recycle the descriptor.
  pub cleanup-IsEnded : IsEnded t p n (torc_cleanup t p n)
  cleanup-IsEnded = record { home = ends_home; away = ends_away }
