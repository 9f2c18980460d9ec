-- ===== src/Create/Total.antt =====
-- When the creation of a task does not abort: src/torc.c, on a single node.
use torc_lite.Common.{
  ℕ, suc, ◌≤◌, ◌<◌, ◌≡◌, refl, ◌⊎◌, inl, inr, Bool, true, false, ◌&&◌, Option, some, none, List, [],
  ◌∷◌, ltb, ◌==◌, ==_iff, if◌then◌else◌, update, arith, ◌∙◌,
}
use torc_lite.Desc.{Ptr, Arg, call_by_cop, call_by_cop2}
use torc_lite.Types.{torc_mpi2b_type}
use torc_lite.Node.{Node, set_desc}
use torc_lite.Create.{Env, ArgSpec, header, header_loop, read_value, value_loop, fill_arguments}

abbrev HasResult : {A : Type 0} → Option A → Type 0
HasResult none = ⊥
HasResult (some a) = Unit

HasResult-if :
    {A : Type 0} (b : Bool) (x y : Option A)
    → HasResult x
    → HasResult y
    → HasResult (if b then x else y)
HasResult-if true x y h k = h
HasResult-if false x y h k = k

result_of : {A : Type 0} (o : Option A) → HasResult o → (a : A) × (o ≡ some a)
result_of none h = absurd h
result_of (some a) h = (a, refl)

module _ (env : Env) where
  -- An argument of a call that is accepted: the data type has a code, and its values have 4 or 8
  -- bytes.
  pub record IsAccepted (s : ArgSpec) : Type 0 where
    pub code : ℕ
    pub coded : torc_mpi2b_type env.handles s.dtype ≡ some code
    pub sized : (env.type_size s.dtype ≡ 4) ⊎ (env.type_size s.dtype ≡ 8)

  abbrev pub AllAccepted : List ArgSpec → Type 0
  AllAccepted [] = Unit
  AllAccepted (s ∷ ss) = IsAccepted s × AllAccepted ss

  -- The arguments from number `i` on have the data types of the call.
  abbrev Headed : List ArgSpec → ℕ → (ℕ → Arg) → Type 0
  Headed [] i g = Unit
  Headed (s ∷ ss) i g = ((g i).dtype ≡ s.dtype) × Headed ss (suc i) g

  Headed-other :
      (ss : List ArgSpec) (i : ℕ) (f g : ℕ → Arg)
      → ((j : ℕ) → i ≤ j → g j ≡ f j)
      → Headed ss i f
      → Headed ss i g
  Headed-other [] i f g e h = tt
  Headed-other (s ∷ ss) i f g e h = (
    ground (arith, e i (omega arith), h.0),
    Headed-other ss (suc i) f g (λ j b. e j (omega arith)) h.1,
  )

  header-some :
      (s : ArgSpec) (a : Arg)
      → IsAccepted s
      → (b : Arg) × (header env s a ≡ some b) × (b.dtype ≡ s.dtype)
  unfolding header
  header-some s a c = (
    record a {
      quantity = s.quantity;
      dtype = s.dtype;
      btype = c.code;
      callway = if (s.callway == call_by_cop) && ltb 1 s.quantity then call_by_cop2 else s.callway;
    },
    rw c.coded refl,
    refl,
  )

  header_loop-some :
      (ss : List ArgSpec) (i : ℕ) (f : ℕ → Arg)
      → AllAccepted ss
      → (g : ℕ → Arg) × (header_loop env ss i f ≡ some g)
        × Headed ss i g
        × ((j : ℕ) → j < i → g j ≡ f j)
  unfolding header_loop
  header_loop-some [] i f c = (f, refl, tt, λ j b. refl)
  header_loop-some (s ∷ ss) i f c =
      let (a, e, d) = header-some s (f i) c.0 in
      let (g, u, h, k) = header_loop-some ss (suc i) (update f i a) c.1 in
      (
        g,
        rw e u,
        (ground (arith, k i (omega arith), d), h),
        λ j b. k j (omega arith) ∙ ground arith,
      )

  sized_cases :
      (k : ℕ) (x y : Arg × Node)
      → (k ≡ 4) ⊎ (k ≡ 8)
      → HasResult (if k == 4 then some x else if k == 8 then some y else none)
  sized_cases k x y (inl e) = rw ((==_iff k 4).1 e) tt
  sized_cases k x y (inr e) = HasResult-if (k == 4) _ _ tt (rw ((==_iff k 8).1 e) tt)

  read_value-HasResult :
      (skips : Bool) (s : ArgSpec) (i : ℕ) (a : Arg) (n : Node)
      → (env.type_size a.dtype ≡ 4) ⊎ (env.type_size a.dtype ≡ 8)
      → HasResult (read_value env skips s i a n)
  unfolding read_value
  read_value-HasResult skips s i a n z = HasResult-if (skips && (a.quantity == 0)) _ _ tt (
      HasResult-if (a.callway == call_by_cop) _ _ (sized_cases (env.type_size a.dtype) _ _ z)
        (HasResult-if (a.callway == call_by_cop2) _ _ tt tt))

  value_loop-some :
      (skips : Bool) (ss : List ArgSpec) (i : ℕ) (f : ℕ → Arg) (n : Node)
      → AllAccepted ss
      → Headed ss i f
      → (r : (ℕ → Arg) × Node) × (value_loop env skips ss i f n ≡ some r)
  unfolding value_loop
  value_loop-some skips [] i f n c h = ((f, n), refl)
  value_loop-some skips (s ∷ ss) i f n c h =
      let z : (env.type_size (f i).dtype ≡ 4) ⊎ (env.type_size (f i).dtype ≡ 8) =
        rw h.0 c.0.sized in
      let ((a, m), e) =
        result_of (read_value env skips s i (f i) n) (read_value-HasResult skips s i (f i) n z) in
      let later = Headed-other ss (suc i) f (update f i a) (λ j b. ground arith) h.1 in
      let (r, u) = value_loop-some skips ss (suc i) (update f i a) m c.1 later in (r, rw e u)

  pub fill_arguments-some :
      (skips : Bool) (specs : List ArgSpec) (p : Ptr) (n : Node)
      → AllAccepted specs
      → (m : Node) × (fill_arguments env skips specs p n ≡ some m)
  unfolding fill_arguments
  fill_arguments-some skips specs p n c =
      let (f, e, h, _) = header_loop-some specs 0 (n.desc p).args c in
      let ((g, m), u) = value_loop-some skips specs 0 f n c h in
      (set_desc p (record (m.desc p) { args = g }) m, rw e (rw u refl))
