-- ===== src/Send.antt =====
-- Sending descriptors to other nodes: `send_descriptor` and `direct_send_descriptor` of
-- src/torc_comm.c.
use torc_lite.Common.{ℕ, ◌+◌, ◌||◌, List, [], ◌∷◌, ◌++◌, map, ◌==◌, if◌then◌else◌}
use torc_lite.Common.Int.{pos}
use torc_lite.Desc.{Ptr, Desc, max_nvps, direct_synchronous_stealing, torc_bcast, torc_answer}
use torc_lite.Nodes.{torc_node_id}
use torc_lite.Args.{send_arguments, send_results, free_results}
use torc_lite.Node.{Message, descriptor, argument, Node, Thread, set_desc}

-- `_torc_thread_id`
unfoldable pub torc_thread_id : Thread → ℕ
torc_thread_id t = if t.is_server then max_nvps else t.vp_id

-- The descriptor as it leaves the node.
unfoldable pub stamped : Thread → Node → Desc → ℕ → Desc
unfolding torc_thread_id
stamped t n d type = record d {
  sourcenode = torc_node_id n.cluster;
  sourcevpid = pos (torc_thread_id t);
  type = type;
}

-- The data that follows the descriptor, by its type: the switch of `send_descriptor`.
unfoldable pub following : (node tag : ℕ) → Desc → List Message
following node tag d =
    if (d.type == direct_synchronous_stealing) || (d.type == torc_bcast)
    then []
    else if d.type == torc_answer
    then map argument (send_results tag d)
    else if d.homenode == node
    then []
    else map argument (send_arguments node tag d)

-- `send_descriptor` for a descriptor on the stack.
unfoldable pub send_value : Thread → (node : ℕ) → Desc → (type : ℕ) → Node → Node
unfolding stamped following torc_thread_id
send_value t node d type n =
    let d' = stamped t n d type in
    record n {
      sent = n.sent ++ descriptor node max_nvps d' ∷ following node (torc_thread_id t) d';
      freed = n.freed ++ (if d'.type == torc_answer then free_results d' else []);
    }

-- `send_descriptor` for a descriptor in memory.
unfoldable pub send_descriptor : Thread → (node : ℕ) → Ptr → (type : ℕ) → Node → Node
unfolding send_value stamped
send_descriptor t node p type n =
    set_desc p (stamped t n (n.desc p) type) (send_value t node (n.desc p) type n)

-- The tag under which a thief waits for the answer to its request.
unfoldable pub answer_tag : (sourcevpid : ℕ) → ℕ
answer_tag v = (if v == max_nvps then max_nvps + 1 else v) + 100

-- `direct_send_descriptor`
unfoldable pub direct_send_descriptor : (sourcenode sourcevpid : ℕ) → Ptr → Node → Node
unfolding answer_tag
direct_send_descriptor sourcenode sourcevpid p n =
    let d = record (n.desc p) { sourcenode = torc_node_id n.cluster; sourcevpid = pos max_nvps } in
    let tag = answer_tag sourcevpid in
    set_desc p d (record n {
      sent =
          n.sent
          ++ descriptor sourcenode tag d
            ∷ (if d.homenode == sourcenode
                then []
                else map argument (send_arguments sourcenode tag d));
    })
