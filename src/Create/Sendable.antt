-- ===== src/Create/Sendable.antt =====
-- What the argument loops of src/torc.c leave in the descriptor of a created task.
use mathlib.Core.Path.{subst}
use torc_lite.Common.{
  map, ℕ, suc, ◌+◌, ◌≤◌, ◌<◌, ◌≡◌, ◌≢◌, refl, ap, ◌∙◌, Option, none, some, List, [], ◌∷◌, length,
  update, ◌>>=◌, Option-cases, inl, inr, arith, ◌==◌, Bool, dec_lt, true,
}
use torc_lite.Desc.{Ptr, Arg, call_by_cop}
use torc_lite.Types.{Handles, torc_mpi2b_type}
use torc_lite.Types.Codes.{b2mpi-mpi2b}
use torc_lite.Args.{Received, envelope, receive_arguments, send_arguments}
use torc_lite.Args.Agree.{IsSendable, arguments_agree}
use torc_lite.Node.{Node, set_desc}
use torc_lite.Node.Store.{set_desc_other}
use torc_lite.Create.{Env, ArgSpec, header, header_loop, read_value, value_loop, fill_arguments}

-- Every argument of the call is passed in one of the six ways of include/torc.h.
abbrev pub AllWays : List ArgSpec → Type 0
AllWays [] = Unit
AllWays (s ∷ ss) = (1 ≤ s.callway) × (s.callway ≤ 6) × AllWays ss

-- An argument fit to be sent; by copy in the descriptor there is one value at most.
pub record IsCreated (h : Handles) (a : Arg) : Type 0 where
  pub sendable : IsSendable h a
  pub single : a.callway ≡ call_by_cop → a.quantity ≤ 1

-- Two arguments that differ in their values at most.
pub record SameShape (a b : Arg) : Type 0 where
  pub btype : b.btype ≡ a.btype
  pub dtype : b.dtype ≡ a.dtype
  pub quantity : b.quantity ≡ a.quantity
  pub callway : b.callway ≡ a.callway

IsCreated-shape : (h : Handles) (a b : Arg) → SameShape a b → IsCreated h a → IsCreated h b
IsCreated-shape h a b s c = record {
  sendable = record {
    typed = rw (s.btype, s.dtype) c.sendable.typed;
    from = omega (arith, s.callway, c.sendable.from);
    to = omega (arith, s.callway, c.sendable.to);
  };
  single = λ e. ground (arith, s.callway, s.quantity, c.single);
}

==_refl : (n : ℕ) → (n == n) ≡ true
==_refl n = ground arith

module _ (env : Env) where
  abbrev HeaderDone : Option Arg → Type 0
  HeaderDone none = Unit
  HeaderDone (some a) = IsCreated env.handles a

  header-IsCreated :
      (s : ArgSpec) (a : Arg) → 1 ≤ s.callway → s.callway ≤ 6 → HeaderDone (header env s a)
  header-IsCreated s a lo hi = elim (Option-cases (torc_mpi2b_type env.handles s.dtype)) [
    | inl e ↦ unfold header in rw e tt
    | inr (b, e) ↦
        unfold header in
        let typed = b2mpi-mpi2b env.handles s.dtype e in
        rw e (record {
          sendable = record { typed = typed; from = ground arith; to = ground arith };
          single = λ c. ground arith;
        })
  ]

  abbrev HeadersDone : (i len : ℕ) → (ℕ → Arg) → Option (ℕ → Arg) → Type 0
  HeadersDone i len f none = Unit
  HeadersDone i len f (some g) =
      ((j : ℕ) → j < i → g j ≡ f j) × ((j : ℕ) → i ≤ j → j < i + len → IsCreated env.handles (g j))

  headers_then :
      (ss : List ArgSpec) (i : ℕ) (f : ℕ → Arg) (a : Arg) (o : Option (ℕ → Arg))
      → IsCreated env.handles a
      → HeadersDone (suc i) (length ss) (update f i a) o
      → HeadersDone i (suc (length ss)) f o
  headers_then ss i f a none c h = tt
  headers_then ss i f a (some g) c h = (
    λ j b. h.0 j (omega arith) ∙ ground arith,
    λ j b e. elim (dec_lt i j) [
      | yes later ↦ h.1 j later (omega arith)
      | no now ↦
          let same : j ≡ i = omega arith in rw (h.0 j (omega arith)) (rw same (rw (==_refl i) c))
    ],
  )

  header_loop-HeadersDone :
      (ss : List ArgSpec) (i : ℕ) (f : ℕ → Arg)
      → AllWays ss
      → HeadersDone i (length ss) f (header_loop env ss i f)
  unfolding header_loop
  header_loop-HeadersDone [] i f w = (λ j b. refl, λ j b e. absurd (omega arith))
  header_loop-HeadersDone (s ∷ ss) i f w =
      one_header (header env s (f i)) (header-IsCreated s (f i) w.0 w.1)
        (λ a. header_loop-HeadersDone ss (suc i) (update f i a) w.2)
    where
      one_header :
          (o : Option Arg)
          → HeaderDone o
          → ((a : Arg)
              → HeadersDone
                  (suc i)
                  (length ss)
                  (update f i a)
                  (header_loop env ss (suc i) (update f i a)))
          → HeadersDone i (suc (length ss)) f (o >>= λ a. header_loop env ss (suc i) (update f i a))
      one_header none c rest = tt
      one_header (some a) c rest = headers_then ss i f a _ c (rest a)

  abbrev ValueDone : Arg → Node → Option (Arg × Node) → Type 0
  ValueDone a n none = Unit
  ValueDone a n (some (b, n')) = SameShape a b × (n'.desc ≡ n.desc)

  read_value-ValueDone :
      (skips : Bool) (s : ArgSpec) (i : ℕ) (a : Arg) (n : Node)
      → ValueDone a n (read_value env skips s i a n)
  unfolding read_value
  read_value-ValueDone skips s i a n = ground arith

  abbrev pub ValuesDone : (ℕ → Arg) → Node → Option ((ℕ → Arg) × Node) → Type 0
  ValuesDone f n none = Unit
  ValuesDone f n (some (g, n')) = ((j : ℕ) → SameShape (f j) (g j)) × (n'.desc ≡ n.desc)

  values_then :
      (i : ℕ) (f : ℕ → Arg) (n m : Node) (a : Arg) (o : Option ((ℕ → Arg) × Node))
      → SameShape (f i) a
      → m.desc ≡ n.desc
      → ValuesDone (update f i a) m o
      → ValuesDone f n o
  values_then i f n m a none s e h = tt
  values_then i f n m a (some (g, n')) s e h = (λ j. let r = h.0 j in ground arith, h.1 ∙ e)

  pub value_loop-ValuesDone :
      (skips : Bool) (ss : List ArgSpec) (i : ℕ) (f : ℕ → Arg) (n : Node)
      → ValuesDone f n (value_loop env skips ss i f n)
  unfolding value_loop
  value_loop-ValuesDone skips [] i f n =
      (λ j. record { btype = refl; dtype = refl; quantity = refl; callway = refl }, refl)
  value_loop-ValuesDone skips (s ∷ ss) i f n =
      one_value (read_value env skips s i (f i) n) (read_value-ValueDone skips s i (f i) n)
        (λ a m. value_loop-ValuesDone skips ss (suc i) (update f i a) m)
    where
      one_value :
          (o : Option (Arg × Node))
          → ValueDone (f i) n o
          → ((a : Arg) (m : Node)
              → ValuesDone (update f i a) m (value_loop env skips ss (suc i) (update f i a) m))
          → ValuesDone f n (o >>= λ (a, m). value_loop env skips ss (suc i) (update f i a) m)
      one_value none c rest = tt
      one_value (some (a, m)) c rest = values_then i f n m a _ c.0 c.1 (rest a m)

  abbrev Fills : ℕ → Ptr → Node → Option Node → Type 0
  Fills len p n none = Unit
  Fills len p n (some n') =
      ((j : ℕ) → j < len → IsCreated env.handles ((n'.desc p).args j))
      × ((q : Ptr) → q ≢ p → n'.desc q ≡ n.desc q)

  fill_cases :
      (skips : Bool) (specs : List ArgSpec) (p : Ptr) (n : Node)
      → AllWays specs
      → Fills (length specs) p n (fill_arguments env skips specs p n)
  unfolding fill_arguments
  fill_cases skips specs p n w =
      heads (header_loop env specs 0 (n.desc p).args)
        (header_loop-HeadersDone specs 0 (n.desc p).args w)
    where
      values :
          (f : ℕ → Arg) (o : Option ((ℕ → Arg) × Node))
          → ((j : ℕ) → 0 ≤ j → j < length specs → IsCreated env.handles (f j))
          → ValuesDone f n o
          → Fills
              (length specs)
              p
              n
              (o >>= λ (g, m). some (set_desc p (record (m.desc p) { args = g }) m))
      values f none c v = tt
      values f (some (g, m)) c v = (
        λ j b.
            rw (==_refl p) (IsCreated-shape env.handles (f j) (g j) (v.0 j) (c j (omega arith) b)),
        λ q ne. set_desc_other p q _ m ne ∙ ap (λ k. k q) v.1,
      )

      heads :
          (o : Option (ℕ → Arg))
          → HeadersDone 0 (length specs) (n.desc p).args o
          → Fills (length specs) p n (
              o >>= λ f. value_loop env skips specs 0 f n >>= λ (g, m).
              some (set_desc p (record (m.desc p) { args = g }) m))
      heads none h = tt
      heads (some f) h =
          values f (value_loop env skips specs 0 f n) (λ j a b. h.1 j a (omega arith))
            (value_loop-ValuesDone skips specs 0 f n)

  filled_some :
      (len : ℕ) (p : Ptr) (n : Node) (o : Option Node)
      → Fills len p n o
      → (n' : Node) → o ≡ some n'
      → Fills len p n (some n')
  filled_some len p n o f n' e = subst (Fills len p n) e f

  -- If the arguments of a call are passed in the six ways, and the two argument loops of the
  -- creation end without an abort, every argument is fit to be sent: its type code leads back to
  -- its data type, its way to call is one of the six, and an argument by copy has one value at
  -- most. No other descriptor changes.
  pub fill_arguments-IsCreated :
      (skips : Bool) (specs : List ArgSpec) (p : Ptr) (n n' : Node)
      → AllWays specs
      → fill_arguments env skips specs p n ≡ some n'
      → ((j : ℕ) → j < length specs → IsCreated env.handles ((n'.desc p).args j))
        × ((q : Ptr) → q ≢ p → n'.desc q ≡ n.desc q)
  fill_arguments-IsCreated skips specs p n n' w e =
      filled_some (length specs) p n _ (fill_cases skips specs p n w) n' e

  -- A created task can go to any node: if its arguments are passed in the six ways, and the two
  -- argument loops of its creation end without an abort, the receives that the other node posts for
  -- all of them agree with the sends, one by one and in order, in count, data type and tag.
  pub created_arguments_agree :
      (skips : Bool) (specs : List ArgSpec) (p : Ptr) (n n' : Node) (node tag fresh : ℕ)
      → AllWays specs
      → fill_arguments env skips specs p n ≡ some n'
      → let d = record (n'.desc p) { narg = length specs } in
        (r : Received) × (receive_arguments env.handles env.type_size tag fresh d ≡ some r)
        × (map envelope r.packets ≡ map envelope (send_arguments node tag d))
  created_arguments_agree skips specs p n n' node tag fresh w e =
      let filled = fill_arguments-IsCreated skips specs p n n' w e in
      arguments_agree env.handles env.type_size node tag
        (record (n'.desc p) { narg = length specs }) fresh (λ i b. (filled.0 i b).sendable)
