-- ===== src/Lib.antt =====
-- TORC_Lite: a runtime that distributes tasks over the threads of several nodes. A task is a
-- descriptor with a function, its arguments and its parent. A worker thread creates tasks, puts
-- them in the queues of its node or sends them to another node, takes tasks from the queues or
-- steals them, runs them, and waits for the tasks it has created. On each node a server thread
-- receives descriptors: tasks, answers, requests to steal, and requests to all nodes.
--
-- Which file models which part (paths from the root of the repository):
-- - Desc: the descriptor `torc_t` (include/torc_internal.h) and the constants of
--   include/torc.h and include/torc_mpi_internal.h.
-- - Queue and below: the macros of include/queues.h, on the links of the descriptors. The queues of
--   a node are lists, with the operations that Queue.Deque specifies.
-- - Nodes and below: nodes, workers and their numbers (src/torc_comm.c, src/torc.c).
-- - Types and below: `_torc_mpi2b_type` and `_torc_b2mpi_type` of src/torc_comm.c, and the data
--   types of nullmpi/include/mpi.h.
-- - Table and below: the table of functions of src/torc_comm.c.
-- - Deps and below: the counter `ndep` and the waits for it (src/torc_runtime.c, src/torc.c). Each
--   function is a critical section; Deps.Steps interleaves those of a parent and of its children.
-- - Waiting and below: `_torc_block` and `_torc_block2` of src/torc_runtime.c with the tasks that
--   they run; their fuel is one round more than there are children. Waiting.Forks composes the
--   creation of children with the wait for them. Waiting.Runs records which functions have been
--   called, and in which order.
-- - Args and below: the messages with arguments and results (src/torc_comm.c, src/torc_server.c).
-- - Node: `struct torc_data` (include/torc_data.h) and the first part of src/torc_queue.c.
-- - Send: `send_descriptor` and `direct_send_descriptor` of src/torc_comm.c.
-- - Routing and below: the second part of src/torc_queue.c.
-- - Create and below: `torc_task` and its kin (src/torc.c).
-- - Exec and below: `_torc_core_execution`, `_torc_execute`, `_torc_cleanup` (src/torc_runtime.c),
--   `torc_getarg_addr` and the other accessors (src/torc.c). Exec.Copies follows the private copies of
--   arguments from the creation to the end of a task.
-- - Server and below: src/torc_server.c.
-- - Scheduler and below: `get_next_task` and its callers (src/torc_runtime.c), and the thief's side
--   of stealing.
-- - Worker and below: `_torc_scheduler_loop` of src/torc_runtime.c, with its inner loop.
-- - Polling and below: `enter_comm_cs`, `leave_comm_cs` and the receives of `receive_descriptor`
--   (src/torc_comm.c) and of `server_loop` (src/torc_server.c), for MPI libraries that are thread
--   safe and for others, as what one thread does with the mutex `comm_m` and with MPI.
-- - Server.Control: start and end of the server thread, and the end of the program for the other
--   nodes (src/torc_server.c, `_torc_end` of src/torc_runtime.c).
-- - Start and below: `torc_init` (src/torc.c), `__torc_opt` and `_torc_env_init`
--   (src/torc_runtime.c), `_torc_comm_init` (src/torc_comm.c).
-- - Threads and below: the threads of a node from their start to their end (src/torc_thread.c), as
--   a relation of steps in any order; `thread_sleep`.
-- - Node.Ownership and Owners, and below: which descriptors the queues hold and which are in use,
--   through the operations of src/torc_queue.c and through those that are composed of them.
--   Node.Ownership.Bags sees the queues as bags.
-- - Stats: `_torc_print_statistics` of src/torc_runtime.c.
-- - Demo.Async and below, Demo.Pipe: demo/async.c and demo/pipe.c. Demo.Waves and below:
--   demo/masterslave.c, demo/struct.c, demo/zerolength.c, demo/mbench1.c and demo/broadcast.c,
--   from `torc_init` to `torc_finalize`.
-- - Broadcast and below: `torc_broadcast` of src/torc_comm.c.
-- - Registration and below: `torc_register_task` of src/torc_comm.c, with its wait.
-- - Common: numbers, tests, lists, signed integers and computations that may fail. Tally: sums
--   over tables. Tests: runs at small inputs.
--
-- A function of the C code has its name here, without leading underscores; `torc_to_rq_end__` is
-- `torc_to_rq_end_node`. The state of a node is a record, and an operation maps it to the next one.
-- What a node sends, allocates and frees is recorded in it. The result `none` is the end of the
-- program: an abort by `Error` or `MPI_Abort`, a NULL dereference, or a write outside a table; in
-- `_torc_scheduler_loop(1)` also the call of `_torc_md_end`, from which a thread does not return. An
-- operation between the acquisition and the release of a lock is one step.
--
-- Numbers: counts, levels, ranks and addresses are natural numbers, and addresses of descriptors
-- and buffers are new at every allocation; `ndep`, `vp_id`, `work_id`, `target_queue`, `sourcevpid`
-- and the argument of `torc_sched_nextcpu` are integers. `int` overflow is not modelled. The queue
-- argument -1 of a creation is `none`.
--
-- Fuel: a loop over a range counts its rounds down. The loop over the ring of nodes in
-- `get_next_task` has as much fuel as there are nodes.
-- In `_torc_block`, `_torc_block2`, `_torc_scheduler_loop` and the loops around `MPI_Test`, `none`
-- is also a loop that goes on when the fuel is used up. What the other threads do in the meantime,
-- and what `MPI_Test` says, is a parameter that depends on the fuel left.
--
-- Parameters, since their code is not part of the repository: the handles and the sizes of MPI's
-- data types, the rank and the size of the communicator and the array that MPI_Iallgather fills, the
-- environment variables, what memory holds at an address, the function that a task runs, and the
-- descriptor that another node answers with to a request to steal.
--
-- Not modelled: mutexes themselves (a critical section is one step), the values that pthreads keep
-- for a thread (they are the fields of `Thread`), output, the Fortran names of C functions, and
-- demo/fibo.c, whose tasks wait inside of tasks. The tables `created` and `executed` have
-- `MAX_NVPS` places: the model holds for workers with smaller numbers. The files
-- nullmpi/include/mpif.h and nullmpi/include/mpi.h are the headers of an MPI library; of the second
-- the handles and sizes of data types are modelled.
pub mod Common
pub mod Tally
pub mod Desc
pub mod Queue
pub mod Nodes
pub mod Types
pub mod Table
pub mod Deps
pub mod Args
pub mod Node
pub mod Send
pub mod Routing
pub mod Create
pub mod Exec
pub mod Server
pub mod Scheduler
pub mod Broadcast
pub mod Registration
pub mod Tests
pub mod Owners
pub mod Start
pub mod Threads
pub mod Demo
pub mod Stats
pub mod Waiting
pub mod Worker
pub mod Polling
