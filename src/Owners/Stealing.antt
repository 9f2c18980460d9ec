-- ===== src/Owners/Stealing.antt =====
-- The descriptors that the search for work uses: the queues of the own node, the requests to the
-- other nodes, the task that is found and executed.
use mathlib.Core.Path.{subst}
use torc_lite.Common.{
  ℕ, zero, suc, ◌+◌, ◌%◌, ◌≤◌, ◌≡◌, ◌≢◌, refl, List, ◌∷◌, Bool, true, false, Option, some, ◌>>=◌,
  ◌==◌, ==_false, if◌then◌else◌, arith, ℕ_discrete, Always, Always-none, Always-some, Always-if,
  Always-bind, Always-then,
}
use torc_lite.Desc.{Ptr, null, Desc, torc_no_work, direct_synchronous_stealing}
use torc_lite.Types.{Handles}
use torc_lite.Table.{Table}
use torc_lite.Nodes.{torc_node_id, torc_num_nodes}
use torc_lite.Args.{receive_arguments}
use torc_lite.Node.{
  Node, Thread, set_desc, torc_get_reused_desc, torc_put_reused_desc, torc_i_pq_dequeue,
  torc_i_rq_dequeue,
}
use torc_lite.Node.Ownership.Moves.{
  IsOwned, with, same-IsOwned, reused-IsOwned, Gives-IsOwned, i_pq-Gives, i_rq-Gives, Puts-IsOwned,
  pq_end-Puts,
}
use torc_lite.Send.{torc_thread_id, send_value}
use torc_lite.Server.{from_node}
use torc_lite.Exec.{Call, torc_execute}
use torc_lite.Scheduler.{
  level_loop, receive_descriptor, stolen, direct_synchronous_stealing_request, ring_loop, steal_if,
  get_next_task, search_again, torc_fetch_work, torc_scheduler_loop,
}
use torc_lite.Owners.{Uses, recycled-IsOwned}
use torc_lite.Owners.Tasks.{Minds, execute-Uses}

in_use-not_null : {n : Node} {p : Ptr} {used : List Ptr} → IsOwned n (p ∷ used) → p ≢ null
in_use-not_null o e = ground (arith, e, o.places null)

module _ (used : List Ptr) where
  -- A result of a search: the descriptors in use are `used` and the task found, if there is one.
  abbrev pub Finds : Node × Ptr → Type 0
  Finds r = IsOwned r.0 (with r.1 used)

  -- The search goes on, or it ends with what it has found.
  Finds-null : (n : Node) (p : Ptr) → p ≡ null → Finds (n, p) → IsOwned n used
  Finds-null n p e o = subst (λ q. Finds (n, q)) e o

  Finds-found : (n : Node) (p : Ptr) → p ≢ null → Finds (n, p) → IsOwned n (p ∷ used)
  Finds-found n p ne o =
      subst (λ b. IsOwned n (if b then used else p ∷ used)) (==_false p null ne) o

  Finds-task : (n : Node) (p : Ptr) → p ≢ null → IsOwned n (p ∷ used) → Finds (n, p)
  Finds-task n p ne o = rw (==_false p null ne) o

  -- The search goes on, or it ends with what it has found.
  pub search_on :
      (r x : Node × Ptr)
      → Finds r
      → (IsOwned r.0 used → Finds x)
      → Finds (if r.1 == null then x else r)
  search_on (n, p) x o h = elim (ℕ_discrete p null) [
    | yes e ↦ rw e (h (Finds-null n p e o))
    | no ne ↦ rw (==_false p null ne) o
  ]

  search_maybe :
      (r : Node × Ptr) (x : Option (Node × Ptr))
      → Finds r
      → (IsOwned r.0 used → Always Finds x)
      → Always Finds (if r.1 == null then x else some r)
  search_maybe (n, p) x o h = elim (ℕ_discrete p null) [
    | yes e ↦ rw e (h (Finds-null n p e o))
    | no ne ↦ rw (==_false p null ne) (Always-some Finds (n, p) o)
  ]

  level_loop-Finds : (k : ℕ) (n : Node) → k ≤ 10 → IsOwned n used → Finds (level_loop k n)
  unfolding level_loop
  level_loop-Finds zero n b o = o
  level_loop-Finds (suc k) n b o =
      let r = torc_i_rq_dequeue k n in
      search_on r (level_loop k r.0) (Gives-IsOwned (i_rq-Gives n k (omega arith)) o)
        λ o'. level_loop-Finds k r.0 (omega arith) o'

module _ (h : Handles) (type_size : ℕ → ℕ) (answer : (target : ℕ) → Node → Desc) (t : Thread)
    (used : List Ptr) where
  receive-Uses :
      (d : Desc) (p : Ptr) (n : Node)
      → IsOwned n used
      → Always (Uses used) (receive_descriptor h type_size answer t d p n)
  unfolding receive_descriptor
  receive-Uses d p n o =
      let P = Uses used in
      let kept : Always P (some (set_desc p d n)) = Always-some P _ (same-IsOwned refl refl o) in
      Always-if P (d.type == torc_no_work) _ _ kept (
        Always-if P (d.homenode == torc_node_id n.cluster) _ _ kept (
          Always-then P (receive_arguments h type_size (torc_thread_id t + 100) n.fresh_block d) _
            λ r. Always-some P _ (same-IsOwned refl refl o)))

module _ (h : Handles) (type_size : ℕ → ℕ) (answer : (target : ℕ) → Node → Desc) (t : Thread)
    (used : List Ptr) where
  stolen-Finds :
      (p : Ptr) (n : Node) → IsOwned n (p ∷ used) → Finds used (stolen h type_size answer t p n)
  unfolding stolen
  stolen-Finds p n o = ended ((n.desc p).type == torc_no_work)
    where
      ended :
          (b : Bool)
          → Finds used (
              if b
              then (torc_put_reused_desc p n, null)
              else (record n { steal_hits = n.steal_hits + 1 }, p))
      ended true = recycled-IsOwned p n o
      ended false =
          Finds-task used (record n { steal_hits = n.steal_hits + 1 }) p (in_use-not_null o)
            (same-IsOwned refl refl o)

  request-Finds :
      (target : ℕ) (n : Node)
      → IsOwned n used
      → Always (Finds used) (direct_synchronous_stealing_request h type_size answer t target n)
  unfolding direct_synchronous_stealing_request send_value
  request-Finds target n o =
      let P = Finds used in
      let n1 = (torc_get_reused_desc n).0 in
      let p = (torc_get_reused_desc n).1 in
      let n2 = send_value t target (from_node n) direct_synchronous_stealing n1 in
      let o2 : IsOwned n2 (p ∷ used) = same-IsOwned refl refl (reused-IsOwned n used o) in
      Always-if P n.termination_flag _ _ (Always-some P (n, null) o) (
        Always-bind (Uses (p ∷ used)) P
          (receive_descriptor h type_size answer t (answer target n2) p n2) _
          (receive-Uses h type_size answer t (p ∷ used) (answer target n2) p n2 o2)
          λ n3 o3. Always-some P (stolen h type_size answer t p n3) (stolen-Finds p n3 o3))

  ring_loop-Finds :
      (k node : ℕ) (n : Node)
      → IsOwned n used
      → Always (Finds used) (ring_loop h type_size answer t k node n)
  unfolding ring_loop
  ring_loop-Finds zero node n o =
      let P = Finds used in
      Always-if P (node == torc_node_id n.cluster) _ _ (Always-some P (n, null) o) (Always-none P)
  ring_loop-Finds (suc k) node n o =
      let P = Finds used in
      Always-if P (node == torc_node_id n.cluster) _ _ (Always-some P (n, null) o) (
        Always-bind P P (direct_synchronous_stealing_request h type_size answer t node n) _
          (request-Finds node n o)
          λ r f.
            search_maybe used r
              (ring_loop h type_size answer t k ((node + 1) % torc_num_nodes n.cluster) r.0) f
              λ o'. ring_loop-Finds k ((node + 1) % torc_num_nodes n.cluster) r.0 o')

  steal_if-Finds :
      (r : Node × Ptr) → Finds used r → Always (Finds used) (steal_if h type_size answer t r)
  unfolding steal_if
  steal_if-Finds (n, p) o =
      let P = Finds used in
      let kept = Always-some P (n, p) o in
      let next = (torc_node_id n.cluster + 1) % torc_num_nodes n.cluster in
      Always-if P n.internode_stealing _ _
        (elim (ℕ_discrete p null) [
          | yes e ↦ rw e (
              Always-bind P P (ring_loop h type_size answer t (torc_num_nodes n.cluster) next n) _
                (ring_loop-Finds (torc_num_nodes n.cluster) next n (Finds-null used n p e o))
                λ r f. Always-some P _ (
                  search_on used r (record r.0 { internode_stealing = false }, null) f
                    λ o'. same-IsOwned refl refl o'))
          | no ne ↦ rw (==_false p null ne) kept
        ])
        kept

  -- What a worker finds when it looks for work, in the queues of its node or on another node, is in
  -- use afterwards and in no queue; nothing else changes hands.
  pub get_next_task-Finds :
      (n : Node) → IsOwned n used → Always (Finds used) (get_next_task h type_size answer t n)
  unfolding get_next_task
  get_next_task-Finds n o =
      let r = torc_i_pq_dequeue n in
      search_maybe used r (steal_if h type_size answer t (level_loop 10 r.0))
        (Gives-IsOwned (i_pq-Gives n) o)
        λ o'. steal_if-Finds (level_loop 10 r.0) (level_loop-Finds used 10 r.0 (omega arith) o')

  abbrev Fetches : Node × Bool → Type 0
  Fetches r = IsOwned r.0 used

  pub torc_fetch_work-Fetches :
      (n : Node) → IsOwned n used → Always Fetches (torc_fetch_work h type_size answer t n)
  unfolding torc_fetch_work
  torc_fetch_work-Fetches n o =
      Always-bind (Finds used) Fetches (get_next_task h type_size answer t n) _
        (get_next_task-Finds n o)
        λ (m, p) f. Always-some Fetches _ (elim (ℕ_discrete p null) [
          | yes e ↦ rw e (Finds-null used m p e f)
          | no ne ↦
              rw (==_false p null ne) (Puts-IsOwned (pq_end-Puts p m) (Finds-found used m p ne f))
        ])

  -- If every descriptor that has been allocated is in use or in one queue, exactly once, and the
  -- functions of the tasks keep it so, it is so after a round of the scheduler that does not abort,
  -- with the same descriptors in use: no task is lost, or is in two places.
  pub torc_scheduler_loop-Fetches :
      (run : Thread → Call → Node → Node) (table : Table) (n n' : Node) (worked : Bool)
      → IsOwned n used
      → ((p : Ptr) → Minds run t p used)
      → torc_scheduler_loop h type_size answer t run table n ≡ some (n', worked)
      → IsOwned n' used
  unfolding torc_scheduler_loop search_again
  torc_scheduler_loop-Fetches run table n n' worked o m =
      Always-bind (Finds used) Fetches (get_next_task h type_size answer t n) _
        (get_next_task-Finds n o)
        (λ r f.
          Always-bind (Finds used) Fetches
            (if r.1 == null then search_again h type_size answer t r.0 else some r) _
            (search_maybe used r (search_again h type_size answer t r.0) f (again r.0))
            λ (n2, p) f2. executed n2 p f2)
        (n', worked)
    where
      again : (m : Node) → Uses used m → Always (Finds used) (search_again h type_size answer t m)
      again m u =
          Always-if (Finds used) (m.appl_finished == 1) _ _ (Always-none (Finds used))
            (get_next_task-Finds m u)

      executed :
          (n2 : Node) (p : Ptr)
          → Finds used (n2, p)
          → Always Fetches (
              if p == null
              then some (n2, false)
              else torc_execute run table t p n2 >>= λ n3. some (n3, true))
      executed n2 p f = elim (ℕ_discrete p null) [
        | yes e ↦ rw e (Always-some Fetches (n2, false) (Finds-null used n2 p e f))
        | no ne ↦ rw (==_false p null ne) (
            Always-bind (Uses used) Fetches (torc_execute run table t p n2) _
              (execute-Uses run table t p used n2 (m p) (Finds-found used n2 p ne f))
              λ n3 o3. Always-some Fetches (n3, true) o3)
      ]
