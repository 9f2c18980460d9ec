-- ===== src/Polling.antt =====
-- Receiving with an MPI library that is not thread safe: `enter_comm_cs`, `leave_comm_cs` and
-- `receive_descriptor` of src/torc_comm.c, and the receive of `server_loop` of src/torc_server.c.
pub mod Guarded
pub mod Ends
use torc_lite.Common.{
  ℕ, zero, suc, Bool, true, false, not, ◌&&◌, Option, none, some, List, [], ◌∷◌, ◌++◌,
  if◌then◌else◌, ◌>>=◌,
}
use torc_lite.Desc.{Ptr, Desc, torc_no_work}
use torc_lite.Types.{Handles}
use torc_lite.Node.{Node, Thread, set_desc}
use torc_lite.Scheduler.{receive_descriptor}

-- What a thread does with the mutex `comm_m`, with MPI, and in between.
pub data Event : Type 0 where
  acquires : Event
  releases : Event
  irecv : Event
  wait : Event
  test : Event
  sleeps : Event

unfoldable pub enter_comm_cs : (thread_safe : Bool) → List Event
enter_comm_cs thread_safe = if not thread_safe then acquires ∷ [] else []

unfoldable pub leave_comm_cs : (thread_safe : Bool) → List Event
leave_comm_cs thread_safe = if not thread_safe then releases ∷ [] else []

-- A call of MPI between the two.
unfoldable pub in_comm_cs : (thread_safe : Bool) → Event → List Event
unfolding enter_comm_cs leave_comm_cs
in_comm_cs thread_safe e = enter_comm_cs thread_safe ++ (e ∷ leave_comm_cs thread_safe)

-- The events of a loop, and whether a message has arrived; `none` is a loop that goes on when the
-- fuel is used up.
abbrev pub Polled : Type 0
Polled = Option (List Event × Bool)

abbrev pub after : List Event → Polled → Polled
after es none = none
after es (some (fs, arrived)) = some (es ++ fs, arrived)

-- `stops k` is whether the loop finds that the program has ended, and `arrives k` what `MPI_Test`
-- says of the message, when `k` rounds are left.
module _ (stops arrives : ℕ → Bool) where
  -- The loop around `MPI_Test`.
  unfoldable pub poll_loop : (k : ℕ) → Polled
  unfolding in_comm_cs
  poll_loop zero = none
  poll_loop (suc k) =
      let rest = poll_loop k in
      if stops k
      then some ([], false)
      else if arrives k
      then some (in_comm_cs false test, true)
      else after (in_comm_cs false test) (after (sleeps ∷ []) rest)

  -- The first part of `receive_descriptor`, until the message is there or the program has ended.
  unfoldable pub await_descriptor : (thread_safe : Bool) → (k : ℕ) → Polled
  unfolding poll_loop in_comm_cs
  await_descriptor thread_safe k =
      if thread_safe
      then some (irecv ∷ wait ∷ [], true)
      else after (in_comm_cs thread_safe irecv) (poll_loop k)

  -- The receive of `server_loop`; `stops_first` is whether the program has ended before it.
  unfoldable pub await_request : (thread_safe stops_first : Bool) → (k : ℕ) → Polled
  unfolding poll_loop in_comm_cs
  await_request thread_safe stops_first k =
      if thread_safe
      then some (irecv ∷ wait ∷ [], true)
      else if stops_first
      then some ([], false)
      else after (in_comm_cs thread_safe irecv) (poll_loop k)

module _ (h : Handles) (type_size : ℕ → ℕ) (answer : (target : ℕ) → Node → Desc) (t : Thread) where
  -- The whole of `receive_descriptor`, at `p`, for the message `d`; `success` is whether the last call
  -- of MPI returns MPI_SUCCESS. Without a message, or after an error, the descriptor is marked.
  unfoldable pub receive_polled :
      (stops arrives : ℕ → Bool) (thread_safe success : Bool) (k : ℕ)
      → Desc
      → Ptr
      → Node
      → Option Node
  unfolding await_descriptor
  receive_polled stops arrives thread_safe success k d p n =
      await_descriptor stops arrives thread_safe k >>= λ (es, arrived).
      if arrived && success
      then receive_descriptor h type_size answer t d p n
      else some (set_desc p (record (n.desc p) { type = torc_no_work }) n)
