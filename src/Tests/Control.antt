-- ===== src/Tests/Control.antt =====
-- The end of the server thread and of the program, on the second of three nodes.
use torc_lite.Common.{◌+◌, ◌≤◌, ◌≡◌, ◌≢◌, true, [], ◌∷◌, ◌++◌, map, arith}
use torc_lite.Common.Int.{pos}
use torc_lite.Desc.{Ptr, Desc, max_nvps, terminate_worker_threads}
use torc_lite.Node.{Node, descriptor, set_desc}
use torc_lite.Send.{torc_thread_id}
use torc_lite.Server.{exits, goes_on, from_node, process_a_received_descriptor}
use torc_lite.Server.Notices.{others}
use torc_lite.Server.Control.{shutdown_server_thread, torc_end, shutdown-exits, torc_end-told}
use torc_lite.Tests.Machine.{alike, filled}
use torc_lite.Tests.Protocol.{node, thread, eight}
use torc_lite.Tests.Runtime.{idle}

thread-number : torc_thread_id thread ≤ max_nvps
unfolding torc_thread_id
thread-number = omega arith

shutdown-exits_example :
    (d : Desc) × ((shutdown_server_thread thread true (true, node)).1.sent
      ≡ [] ++ descriptor 1 64 d ∷ [])
    × ((p : Ptr) (m : Node)
        → process_a_received_descriptor alike eight filled idle thread 4 p (set_desc p d m) ≡ exits)
shutdown-exits_example = shutdown-exits alike eight filled idle thread 4 thread node thread-number

abbrev end_notice : Desc
end_notice = record (from_node node) {
  sourcenode = 1;
  sourcevpid = pos (torc_thread_id thread);
  type = terminate_worker_threads;
}

torc_end-told_example :
    ((torc_end thread node).sent ≡ [] ++ map (λ j. descriptor j 64 end_notice) (others 1 3 0))
    × ((p : Ptr) (m : Node)
        → 1 ≢ m.cluster.mpi_rank
        → process_a_received_descriptor alike eight filled idle thread 4 p (set_desc p end_notice m)
          ≡ goes_on
              (record (set_desc p end_notice m) {
                termination_flag = true;
                appl_finished = m.appl_finished + 1;
              })
              true
              [])
torc_end-told_example =
    torc_end-told alike eight filled idle thread 4 thread node (omega arith) thread-number
