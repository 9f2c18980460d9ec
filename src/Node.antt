-- ===== src/Node.antt =====
-- The state of a node (`struct torc_data` of include/torc_data.h and the static variables of the
-- sources), and src/torc_queue.c up to line 165: the queues of the node. A queue here is the list
-- of its descriptors, with the operations of `Queue.Deque`.
pub mod Search
pub mod Store
pub mod Ownership
use torc_lite.Common.{
  ℕ, ◌+◌, ◌-◌, Bool, true, false, Option, none, some, List, [], ◌∷◌, ◌++◌, leb, ◌==◌, if◌then◌else◌,
  update,
}
use torc_lite.Desc.{Ptr, null, Desc, zero_desc}
use torc_lite.Nodes.{Cluster}
use torc_lite.Args.{Packet}
use torc_lite.Queue.Deque.{put_head, put_tail, take_head, spec_step}

-- What a node hands to MPI: a descriptor for a node under a tag, or data.
pub data Message : Type 0 where
  descriptor : (node tag : ℕ) → Desc → Message
  argument : Packet → Message

pub record Node : Type 0 where
  pub cluster : Cluster
  -- the descriptors in memory, and the address that the next `calloc` returns
  pub desc : Ptr → Desc
  pub fresh_desc : Ptr
  pub reuse_q : List Ptr
  pub private_grq : List Ptr
  pub public_grq : ℕ → List Ptr
  pub internode_stealing : Bool
  pub appl_finished : ℕ
  pub termination_flag : Bool
  pub invisible_flag : Bool
  pub created : ℕ → ℕ
  pub executed : ℕ → ℕ
  pub steal_hits : ℕ
  pub steal_served : ℕ
  pub steal_attempts : ℕ
  -- the static variables of `torc_to_rq`, `torc_to_rq_end__` and `torc_to_rq_end`; `none` before
  -- the first call
  pub rq_node : Option ℕ
  pub rq_end_node : Option ℕ
  pub rq_end_worker : Option ℕ
  -- the messages sent so far
  pub sent : List Message
  -- the buffers: the address that the next `malloc` or `calloc` returns, the buffers allocated with
  -- their sizes, and the copies made, from an address to a buffer
  pub fresh_block : ℕ
  pub blocks : List (ℕ × ℕ)
  pub copies : List (ℕ × ℕ × ℕ)
  -- the buffers freed so far
  pub freed : List ℕ

-- The thread that runs a function: the server thread, or the worker `vp_id`; its current task.
pub record Thread : Type 0 where
  pub is_server : Bool
  pub vp_id : ℕ
  pub currt : Ptr

abbrev pub set_desc : Ptr → Desc → Node → Node
set_desc p d n = record n { desc = update n.desc p d }

unfoldable pub rq_init : Node → Node
rq_init n = record n { reuse_q = []; private_grq = []; public_grq = λ _. [] }

unfoldable pub torc_to_i_reuseq_end : Ptr → Node → Node
unfolding spec_step
torc_to_i_reuseq_end p n = record n { reuse_q = (spec_step (put_tail p) n.reuse_q).0 }

unfoldable pub torc_i_reuseq_dequeue : Node → Node × Ptr
unfolding spec_step
torc_i_reuseq_dequeue n =
    let (q, p) = spec_step take_head n.reuse_q in (record n { reuse_q = q }, p)

-- `_torc_get_reused_desc`: a descriptor of the reuse queue or a new one, filled with zeros.
unfoldable pub torc_get_reused_desc : Node → Node × Ptr
unfolding torc_i_reuseq_dequeue
torc_get_reused_desc n =
    let (n', p) = torc_i_reuseq_dequeue n in
    if p == null
    then (
      record n' { desc = update n'.desc n'.fresh_desc zero_desc; fresh_desc = n'.fresh_desc + 1 },
      n'.fresh_desc,
    )
    else (set_desc p zero_desc n', p)

unfoldable pub torc_put_reused_desc : Ptr → Node → Node
unfolding torc_to_i_reuseq_end
torc_put_reused_desc p n = torc_to_i_reuseq_end p n

unfoldable pub torc_to_i_pq : Ptr → Node → Node
unfolding spec_step
torc_to_i_pq p n = record n { private_grq = (spec_step (put_head p) n.private_grq).0 }

unfoldable pub torc_to_i_pq_end : Ptr → Node → Node
unfolding spec_step
torc_to_i_pq_end p n = record n { private_grq = (spec_step (put_tail p) n.private_grq).0 }

unfoldable pub torc_i_pq_dequeue : Node → Node × Ptr
unfolding spec_step
torc_i_pq_dequeue n =
    let (q, p) = spec_step take_head n.private_grq in (record n { private_grq = q }, p)

-- The public queue for a task's level: level 1 and below, 2, …, 10, 11 and above.
unfoldable pub level_queue : ℕ → ℕ
level_queue level = if leb level 1 then 0 else if leb 11 level then 9 else level - 1

unfoldable pub torc_to_i_rq : Ptr → Node → Node
unfolding spec_step level_queue
torc_to_i_rq p n =
    let lvl = level_queue (n.desc p).level in
    record n { public_grq = update n.public_grq lvl (spec_step (put_head p) (n.public_grq lvl)).0 }

unfoldable pub torc_to_i_rq_end : Ptr → Node → Node
unfolding spec_step level_queue
torc_to_i_rq_end p n =
    let lvl = level_queue (n.desc p).level in
    record n { public_grq = update n.public_grq lvl (spec_step (put_tail p) (n.public_grq lvl)).0 }

unfoldable pub torc_i_rq_dequeue : ℕ → Node → Node × Ptr
unfolding spec_step
torc_i_rq_dequeue lvl n =
    let (q, p) = spec_step take_head (n.public_grq lvl) in
    (record n { public_grq = update n.public_grq lvl q }, p)
