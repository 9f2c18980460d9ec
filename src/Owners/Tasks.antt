-- ===== src/Owners/Tasks.antt =====
-- The descriptors that the creation and the execution of a task use: src/torc.c and
-- src/torc_runtime.c.
use torc_lite.Common.{
  ℕ, suc, ◌+◌, ◌≡◌, refl, ◌∙◌, List, [], ◌∷◌, ◌++◌, length, ltb, Bool, true, false, Option, none,
  some, ◌>>=◌, ◌==◌, if◌then◌else◌, update, arith, Always, Always-none, Always-some, Always-if,
  Always-bind, Always-then,
}
use torc_lite.Common.Int.{ℤ, pos, pos_part}
use torc_lite.Desc.{Ptr, null, Arg, max_torc_args, torc_answer}
use torc_lite.Deps.{first_child, torc_depadd, torc_depsatisfy}
use torc_lite.Table.{Table}
use torc_lite.Nodes.{torc_node_id}
use torc_lite.Node.{Node, Thread, set_desc, torc_get_reused_desc}
use torc_lite.Node.Ownership.{held}
use torc_lite.Node.Ownership.Moves.{IsOwned, same-IsOwned, reused-IsOwned}
use torc_lite.Send.{send_descriptor}
use torc_lite.Create.{
  Env, ArgSpec, read_value, value_loop, fill_arguments, header_loop, new_task, submit, create_child,
}
use torc_lite.Exec.{
  Call, torc_cleanup, execute_enter, torc_core_execution, torc_execute, free_copies,
}
use torc_lite.Owners.{Uses, sent-IsOwned, recycled-IsOwned, submit-Uses}

-- The data of two nodes that say where descriptors are.
pub record SamePlaces (n n' : Node) : Type 0 where
  pub queues : held n' ≡ held n
  pub fresh : n'.fresh_desc ≡ n.fresh_desc

places-IsOwned :
    {n n' : Node} {used : List Ptr} → SamePlaces n n' → IsOwned n used → IsOwned n' used
places-IsOwned s o = same-IsOwned s.queues s.fresh o

module _ (env : Env) (skips : Bool) where
  abbrev ValuePlaces : Node → Arg × Node → Type 0
  ValuePlaces n r = SamePlaces n r.1

  abbrev ValuesPlaces : Node → (ℕ → Arg) × Node → Type 0
  ValuesPlaces n r = SamePlaces n r.1

  abbrev Unmoved : Node → Option (Arg × Node) → Type 0
  Unmoved n none = Unit
  Unmoved n (some (a, m)) =
      (m.reuse_q ≡ n.reuse_q)
      × (m.private_grq ≡ n.private_grq)
      × (m.public_grq ≡ n.public_grq)
      × (m.fresh_desc ≡ n.fresh_desc)

  Unmoved-Places : (n : Node) (o : Option (Arg × Node)) → Unmoved n o → Always (ValuePlaces n) o
  Unmoved-Places n none u = Always-none (ValuePlaces n)
  Unmoved-Places n (some (a, m)) (r, p, g, f) =
      Always-some (ValuePlaces n) (a, m) (record { queues = rw (r, p, g) refl; fresh = f })

  read_value-Unmoved :
      (s : ArgSpec) (i : ℕ) (a : Arg) (n : Node) → Unmoved n (read_value env skips s i a n)
  unfolding read_value
  read_value-Unmoved s i a n = ground arith

  value_loop-Places :
      (ss : List ArgSpec) (i : ℕ) (f : ℕ → Arg) (n : Node)
      → Always (ValuesPlaces n) (value_loop env skips ss i f n)
  unfolding value_loop
  value_loop-Places [] i f n =
      Always-some (ValuesPlaces n) (f, n) (record { queues = refl; fresh = refl })
  value_loop-Places (s ∷ ss) i f n =
      Always-bind (ValuePlaces n) (ValuesPlaces n) (read_value env skips s i (f i) n) _
        (Unmoved-Places n _ (read_value-Unmoved s i (f i) n))
        λ (a, m) k r e.
          let l = value_loop-Places ss (suc i) (update f i a) m r e in
          record { queues = l.queues ∙ k.queues; fresh = l.fresh ∙ k.fresh }

  fill_arguments-Uses :
      (specs : List ArgSpec) (p : Ptr) (n : Node) {used : List Ptr}
      → IsOwned n used
      → Always (Uses used) (fill_arguments env skips specs p n)
  unfolding fill_arguments
  fill_arguments-Uses specs p n {used} o =
      let P = Uses used in
      Always-then P (header_loop env specs 0 (n.desc p).args) _ λ f.
        Always-bind (ValuesPlaces n) P (value_loop env skips specs 0 f n) _
          (value_loop-Places specs 0 f n)
          λ (g, m) k.
            Always-some P (set_desc p (record (m.desc p) { args = g }) m)
              (same-IsOwned refl refl (places-IsOwned k o))

module _ (env : Env) (table : Table) (t : Thread) (used : List Ptr) where
  counted-IsOwned :
      (b : Bool) (c : ℕ → ℕ) (n : Node) {used : List Ptr}
      → IsOwned n used
      → IsOwned (if b then record n { created = c } else n) used
  counted-IsOwned true c n o = same-IsOwned refl refl o
  counted-IsOwned false c n o = o

  -- If every descriptor that has been allocated is in use or in one queue, exactly once, so it is
  -- after the creation of a child that does not abort, with the same descriptors in use: the
  -- descriptor of the child was in no other place, and is in a queue or recycled.
  pub create_child-Uses :
      (rte_type : ℕ) (visible skips : Bool) (queue : Option ℕ) (work : ℕ) (specs : List ArgSpec)
      (n n' : Node)
      → IsOwned n used
      → create_child env table t rte_type visible skips queue work specs n ≡ some n'
      → IsOwned n' used
  unfolding create_child
  create_child-Uses rte_type visible skips queue work specs n n' o =
      let P = Uses used in
      let n1 = set_desc t.currt (torc_depadd (first_child (n.desc t.currt)) (pos 1)) n in
      let n2 = (torc_get_reused_desc n1).0 in
      let p = (torc_get_reused_desc n1).1 in
      let vp = pos_part (n2.desc t.currt).vp_id in
      let d =
        new_task t.currt work (length specs) (torc_node_id n.cluster) rte_type
          ((n2.desc t.currt).level + 1) table (n2.desc p) in
      let n3 = set_desc p d n2 in
      let c = update n3.created vp (n3.created vp + 1) in
      let n4 = if visible then record n3 { created = c } else n3 in
      let o2 : IsOwned n2 (p ∷ used) = reused-IsOwned n1 used (same-IsOwned refl refl o) in
      let o4 : IsOwned n4 (p ∷ used) = counted-IsOwned visible c n3 (same-IsOwned refl refl o2) in
      Always-if P (ltb max_torc_args (length specs)) none
        (fill_arguments env skips specs p n4 >>= submit t queue p) (Always-none P)
        (Always-bind (Uses (p ∷ used)) P (fill_arguments env skips specs p n4) (submit t queue p)
          (fill_arguments-Uses env skips specs p n4 o4) (λ m k. submit-Uses t p used queue m k))
        n'

module _ (t : Thread) (p : Ptr) (used : List Ptr) where
  enter-IsOwned : (n : Node) → IsOwned n used → IsOwned (execute_enter t p n) used
  unfolding execute_enter
  enter-IsOwned n o = entered ((n.desc p).rte_type == 1)
    where
      vp : ℤ
      vp = (n.desc t.currt).vp_id

      n1 : Node
      n1 = set_desc p (record (n.desc p) { vp_id = vp }) n

      entered :
          (b : Bool)
          → IsOwned
              (if b
                then record n1 {
                  executed = update n.executed (pos_part vp) (n.executed (pos_part vp) + 1);
                }
                else n1)
              used
      entered true = same-IsOwned refl refl o
      entered false = same-IsOwned refl refl o

  -- The end of a task gives up its descriptor.
  cleanup-IsOwned : (n : Node) → IsOwned n (p ∷ used) → IsOwned (torc_cleanup t p n) used
  unfolding torc_cleanup
  cleanup-IsOwned n o = recycled-IsOwned p _ (ended ((n.desc p).homenode == torc_node_id n.cluster))
    where
      n1 : Node
      n1 = record n { freed = n.freed ++ free_copies (n.desc p) (n.desc p).narg 0 }

      told :
          (b : Bool)
          → IsOwned
              (if b
                then n1
                else set_desc (n.desc p).parent (torc_depsatisfy (n.desc (n.desc p).parent)).0 n1)
              (p ∷ used)
      told true = same-IsOwned refl refl o
      told false = same-IsOwned refl refl o

      ended :
          (b : Bool)
          → IsOwned
              (if b
                then (if (n.desc p).parent == null
                    then n1
                    else set_desc
                        (n.desc p).parent
                        (torc_depsatisfy (n.desc (n.desc p).parent)).0
                        n1)
                else send_descriptor t (n.desc p).homenode p torc_answer n)
              (p ∷ used)
      ended true = told ((n.desc p).parent == null)
      ended false = sent-IsOwned t (n.desc p).homenode torc_answer p n o

-- A task's function, run as the task `p`, leaves that descriptor in use, and the others as they were.
abbrev pub Minds : (Thread → Call → Node → Node) → Thread → Ptr → List Ptr → Type 0
Minds run t p used =
    (c : Call) (m : Node)
    → IsOwned m (p ∷ used)
    → IsOwned (run (record t { currt = p }) c m) (p ∷ used)

pub execute-Uses :
    (run : Thread → Call → Node → Node) (table : Table) (t : Thread) (p : Ptr) (used : List Ptr)
    (n : Node)
    → Minds run t p used
    → IsOwned n (p ∷ used)
    → Always (Uses used) (torc_execute run table t p n)
unfolding torc_execute
execute-Uses run table t p used n h o =
    let n1 = execute_enter t p n in
    let self = record t { currt = p } in
    let o1 = enter-IsOwned t p (p ∷ used) n o in
    Always-then (Uses used) (torc_core_execution table (torc_node_id n.cluster) (n1.desc p)) _
      λ call.
        Always-some (Uses used) _
          (cleanup-IsOwned self p used _ (h call _ (same-IsOwned refl refl o1)))
