-- ===== src/Broadcast.antt =====
-- `torc_broadcast` of src/torc_comm.c: a buffer goes from one node to all others.
pub mod Received
use torc_lite.Common.{
  ℕ, zero, suc, ◌+◌, Option, some, List, [], ◌∷◌, ◌++◌, ◌==◌, if◌then◌else◌, update, ◌>>=◌,
}
use torc_lite.Desc.{Arg, Desc, zero_arg, zero_desc, torc_bcast}
use torc_lite.Types.{Handles, torc_mpi2b_type}
use torc_lite.Nodes.{torc_node_id, torc_num_nodes}
use torc_lite.Args.{Packet, address}
use torc_lite.Node.{Node, Thread, Message, argument}
use torc_lite.Send.{torc_thread_id, send_value}

abbrev local : ℕ → Arg
local v = record zero_arg { localarg = v }

-- `mydata`, for a data type with the number `btype`.
abbrev pub bcast_desc : (mynode buffer count btype : ℕ) → Desc
bcast_desc mynode buffer count btype = record zero_desc {
  homenode = mynode;
  sourcenode = mynode;
  args =
      update
        (update (update (update (λ i. zero_arg) 0 (local mynode)) 1 (local buffer)) 2 (local count))
        3 (local btype);
}

-- `MPI_Ssend(buffer, count, datatype, node, tag, comm_out)`
abbrev pub bcast_packet : (tag buffer count datatype node : ℕ) → Packet
bcast_packet tag buffer count datatype node = record {
  place = address buffer;
  count = count;
  dtype = datatype;
  node = node;
  tag = tag;
}

-- The loop over the nodes, with `k` rounds left.
unfoldable pub bcast_loop : Thread → Desc → (buffer count datatype : ℕ) → (k node : ℕ) → Node → Node
bcast_loop t d buffer count datatype zero node n = n
bcast_loop t d buffer count datatype (suc k) node n =
    bcast_loop t d buffer count datatype k (suc node) (
      if node == torc_node_id n.cluster
      then n
      else (let n' = send_value t node d torc_bcast n in
          record n' {
            sent =
                n'.sent
                ++ argument (bcast_packet (torc_thread_id t) buffer count datatype node) ∷ [];
          }))

-- `none` is the abort for an unsupported data type.
unfoldable pub torc_broadcast : Handles → Thread → (buffer count datatype : ℕ) → Node → Option Node
unfolding bcast_loop
torc_broadcast h t buffer count datatype n = do
  btype ← torc_mpi2b_type h datatype
  some (
      bcast_loop t (bcast_desc (torc_node_id n.cluster) buffer count btype) buffer count datatype
        (torc_num_nodes n.cluster) 0 n)
