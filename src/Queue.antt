-- ===== src/Queue.antt =====
-- include/queues.h: double-ended queues of descriptors, linked through their own `prev` and `next`.
-- A macro runs between the acquisition and the release of the queue's lock, so it is one operation.
pub mod Chain
pub mod Insert
pub mod Remove
pub mod Deque
use torc_lite.Common.{ℕ, Bool, Option, none, some, ◌==◌, if◌then◌else◌, update, ◌>>=◌}
use torc_lite.Desc.{Ptr, null}

-- The fields `prev` and `next` of the descriptors of a node, by address. No descriptor is ever
-- freed, so only NULL cannot be dereferenced.
pub record Links : Type 0 where
  pub prev : Ptr → Ptr
  pub next : Ptr → Ptr

pub record Queue : Type 0 where
  pub head : Ptr
  pub tail : Ptr

abbrev pub queue : Ptr → Ptr → Queue
queue h t = record { head = h; tail = t }

-- Reads and writes through a pointer; `none` is a NULL dereference.
abbrev pub get_prev : Ptr → Links → Option Ptr
get_prev p m = if p == null then none else some (m.prev p)

abbrev pub get_next : Ptr → Links → Option Ptr
get_next p m = if p == null then none else some (m.next p)

abbrev pub set_prev : Ptr → Ptr → Links → Option Links
set_prev p v m = if p == null then none else some (record m { prev = update m.prev p v })

abbrev pub set_next : Ptr → Ptr → Links → Option Links
set_next p v m = if p == null then none else some (record m { next = update m.next p v })

unfoldable pub queue_init : Queue
queue_init = queue null null

unfoldable pub enqueue_head : Queue → Ptr → Links → Option (Links × Queue)
enqueue_head q e m = do
  m ← set_prev e null m
  m ← set_next e q.head m
  if q.head == null
      then some (m, queue e e)
      else do n ← get_next e m; m ← set_prev n e m; some (m, queue e q.tail)

unfoldable pub enqueue_tail : Queue → Ptr → Links → Option (Links × Queue)
enqueue_tail q e m = do
  m ← set_next e null m
  m ← set_prev e q.tail m
  if q.tail == null
      then some (m, queue e e)
      else do m ← set_next q.tail e m; some (m, queue q.head e)

-- The pointer taken, `null` from an empty queue.
unfoldable pub dequeue : Queue → Links → Option (Links × Queue × Ptr)
dequeue q m = if q.head == null then some (m, q, null) else do
  n ← get_next q.head m
  if n == null
      then some (m, queue null null, q.head)
      else do m ← set_prev n null m; some (m, queue n q.tail, q.head)

unfoldable pub dequeue_end : Queue → Links → Option (Links × Queue × Ptr)
dequeue_end q m = if q.tail == null then some (m, q, q.tail) else do
  p ← get_prev q.tail m
  if p == null
      then some (m, queue null null, q.tail)
      else do m ← set_next p null m; some (m, queue q.head p, q.tail)
