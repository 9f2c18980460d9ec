-- ===== src/Exec/Copies.antt =====
-- The private copies of arguments: `torc_task` and its kin (src/torc.c) allocate them, and
-- `_torc_cleanup` (src/torc_runtime.c) frees them.
use mathlib.Core.List.{append_assoc, append-nil}
use torc_lite.Common.{
  ℕ, zero, suc, ◌*◌, ◌≤◌, ◌<◌, ◌≡◌, ◌≢◌, refl, sym, ap, ◌∙◌, Bool, false, not, ◌&&◌, some, List, [],
  ◌∷◌, ◌++◌, length, ltb, ◌==◌, if◌then◌else◌, update, arith, Always, Always-none, Always-some,
  Always-if, Always-bind, Always-then, ℕ_discrete, ==_false,
}
use torc_lite.Tally.{update_self, update_other}
use torc_lite.Desc.{Ptr, null, Arg, Desc, call_by_cop, call_by_cop2}
use torc_lite.Args.Buffers.{addresses}
use torc_lite.Types.{torc_mpi2b_type}
use torc_lite.Node.{Node, Thread, torc_put_reused_desc, torc_to_i_reuseq_end}
use torc_lite.Node.Store.{set_desc_self}
use torc_lite.Create.{Env, ArgSpec, header, header_loop, read_value, value_loop, fill_arguments}
use torc_lite.Exec.{free_copies, torc_cleanup}

-- The call itself does not pass the way that is for private copies.
abbrev pub NoCopies : List ArgSpec → Type 0
NoCopies [] = Unit
NoCopies (s ∷ ss) = (s.callway ≢ call_by_cop2) × NoCopies ss

-- An argument with a private copy has several values.
abbrev IsLarge : Arg → Type 0
IsLarge a = (a.callway ≡ call_by_cop2) → 1 < a.quantity

-- From `i` on.
abbrev AllLarge : (k i : ℕ) → (ℕ → Arg) → Type 0
AllLarge zero i g = Unit
AllLarge (suc k) i g = IsLarge (g i) × AllLarge k (suc i) g

AllLarge-same :
    (k i : ℕ) (f g : ℕ → Arg) → ((j : ℕ) → i ≤ j → g j ≡ f j) → AllLarge k i f → AllLarge k i g
AllLarge-same zero i f g e h = tt
AllLarge-same (suc k) i f g e h =
    (rw (e i (omega arith)) h.0, AllLarge-same k (suc i) f g (λ j b. e j (omega arith)) h.1)

module _ (env : Env) where
  -- The result of the first loop.
  record Headed (k i : ℕ) (f g : ℕ → Arg) : Type 0 where
    large : AllLarge k i g
    before : (j : ℕ) → j < i → g j ≡ f j

  header-IsLarge :
      (s : ArgSpec) (a : Arg) → s.callway ≢ call_by_cop2 → Always IsLarge (header env s a)
  unfolding header
  header-IsLarge s a ne =
      Always-then IsLarge (torc_mpi2b_type env.handles s.dtype) _
        λ c. Always-some IsLarge _ (λ e. ground (arith, e, ne))

  header_loop-Headed :
      (ss : List ArgSpec) (i : ℕ) (f : ℕ → Arg)
      → NoCopies ss
      → Always (Headed (length ss) i f) (header_loop env ss i f)
  unfolding header_loop
  header_loop-Headed [] i f c =
      Always-some (Headed 0 i f) f (record { large = tt; before = λ j b. refl })
  header_loop-Headed (s ∷ ss) i f c =
      Always-bind IsLarge (Headed (suc (length ss)) i f) (header env s (f i)) _
        (header-IsLarge s (f i) c.0)
        λ a l. λ g e.
          let h = header_loop-Headed ss (suc i) (update f i a) c.1 g e in
          record {
            large = (rw (h.before i (omega arith), update_self f i a) l, h.large);
            before = λ j b. h.before j (omega arith) ∙ update_other f i j a (λ z. omega arith);
          }

  -- What the cleanup frees for one argument.
  abbrev copy_of : Arg → List ℕ
  copy_of a =
      if ((a.callway == call_by_cop2) && ltb 1 a.quantity) && not (a.localarg == null)
      then a.localarg ∷ []
      else []

  -- The result of one round of the second loop.
  record Read (n : Node) (r : Arg × Node) : Type 0 where
    new : List (ℕ × ℕ)
    grown : r.1.blocks ≡ n.blocks ++ new
    copied : copy_of r.0 ≡ addresses new
    fresh : 1 ≤ r.1.fresh_block

  unread : (a b : Arg) (n : Node) → 1 ≤ n.fresh_block → copy_of b ≡ [] → Read n (b, n)
  unread a b n one e = record {
    new = [];
    grown = sym (append-nil n.blocks);
    copied = e;
    fresh = one;
  }

  not_copied : (a : Arg) → a.callway ≢ call_by_cop2 → copy_of a ≡ []
  not_copied a ne = ground (arith, ne)

  read_value-Read :
      (skips : Bool) (s : ArgSpec) (i : ℕ) (a : Arg) (n : Node)
      → IsLarge a
      → 1 ≤ n.fresh_block
      → Always (Read n) (read_value env skips s i a n)
  unfolding read_value
  read_value-Read skips s i a n large one = elim (ℕ_discrete a.callway call_by_cop2) [
    | no ne ↦
        let as_is : (v : ℕ) → Always (Read n) (some (record a { localarg = v }, n)) = λ v.
          Always-some (Read n) _ (
            unread a (record a { localarg = v }) n one
              (not_copied (record a { localarg = v }) ne)) in
        Always-if (Read n) (skips && (a.quantity == 0)) _ _
          (Always-some (Read n) (a, n) (unread a a n one (not_copied a ne)))
          (Always-if (Read n) (a.callway == call_by_cop) _ _
            (Always-if (Read n) (env.type_size a.dtype == 4) _ _ (as_is _) (
              Always-if (Read n) (env.type_size a.dtype == 8) _ _ (as_is _) (Always-none (Read n))))
            (rw (==_false a.callway call_by_cop2 ne) (as_is s.value)))
    | yes e ↦
        let some_values : (a.quantity == 0) ≡ false = ground (arith, large e) in
        let none_skipped : (skips && (a.quantity == 0)) ≡ false = ground (arith, some_values) in
        rw (none_skipped, e)
          (Always-some (Read n) _ (record {
            new = (n.fresh_block, a.quantity * env.type_size a.dtype) ∷ [];
            grown = refl;
            copied = let l = large e in ground (arith, e, l, one);
            fresh = omega (arith, one);
          }))
  ]

  -- The result of the second loop, for the arguments from `i` on.
  record Copied (k i : ℕ) (f : ℕ → Arg) (n : Node) (r : (ℕ → Arg) × Node) : Type 0 where
    new : List (ℕ × ℕ)
    grown : r.1.blocks ≡ n.blocks ++ new
    freed : (d : Desc) → d.args ≡ r.0 → free_copies d k i ≡ addresses new
    before : (j : ℕ) → j < i → r.0 j ≡ f j

  addresses-append : (bs cs : List (ℕ × ℕ)) → addresses (bs ++ cs) ≡ addresses bs ++ addresses cs
  addresses-append [] cs = refl
  addresses-append (b ∷ bs) cs = ap (λ l. b.0 ∷ l) (addresses-append bs cs)

  value_loop-Copied :
      (skips : Bool) (ss : List ArgSpec) (i : ℕ) (f : ℕ → Arg) (n : Node)
      → AllLarge (length ss) i f
      → 1 ≤ n.fresh_block
      → Always (Copied (length ss) i f n) (value_loop env skips ss i f n)
  unfolding value_loop free_copies
  value_loop-Copied skips [] i f n l one =
      Always-some (Copied 0 i f n) (f, n)
        (record {
          new = [];
          grown = sym (append-nil n.blocks);
          freed = λ d e. refl;
          before = λ j b. refl;
        })
  value_loop-Copied skips (s ∷ ss) i f n l one =
      Always-bind (Read n) (Copied (suc (length ss)) i f n) (read_value env skips s i (f i) n) _
        (read_value-Read skips s i (f i) n l.0 one)
        λ (a, m) r. λ x e.
          let later =
            AllLarge-same (length ss) (suc i) f (update f i a)
              (λ j b. update_other f i j a (λ z. omega arith)) l.1 in
          let c = value_loop-Copied skips ss (suc i) (update f i a) m later r.fresh x e in
          record {
            new = r.new ++ c.new;
            grown = c.grown ∙ ap (λ b. b ++ c.new) r.grown ∙ append_assoc n.blocks r.new c.new;
            freed = λ d u.
                ap (λ (b : Arg). copy_of b ++ free_copies d (length ss) (suc i))
                  (ap (λ g. g i) u ∙ c.before i (omega arith) ∙ update_self f i a)
                ∙ ap (λ b. b ++ free_copies d (length ss) (suc i)) r.copied
                ∙ ap (λ b. addresses r.new ++ b) (c.freed d u)
                ∙ sym (addresses-append r.new c.new);
            before = λ j b. c.before j (omega arith) ∙ update_other f i j a (λ z. omega arith);
          }

  -- What `torc_cleanup` will free of the arguments that have been filled in.
  record Filled (k : ℕ) (p : Ptr) (n m : Node) : Type 0 where
    new : List (ℕ × ℕ)
    grown : m.blocks ≡ n.blocks ++ new
    freed : (d : Desc) → d.args ≡ (m.desc p).args → free_copies d k 0 ≡ addresses new

  fill_arguments-Filled :
      (skips : Bool) (specs : List ArgSpec) (p : Ptr) (n : Node)
      → NoCopies specs
      → 1 ≤ n.fresh_block
      → Always (Filled (length specs) p n) (fill_arguments env skips specs p n)
  unfolding fill_arguments
  fill_arguments-Filled skips specs p n plain one =
      let Q = Filled (length specs) p n in
      Always-bind (Headed (length specs) 0 (n.desc p).args) Q
        (header_loop env specs 0 (n.desc p).args) _
        (header_loop-Headed specs 0 (n.desc p).args plain)
        λ f h.
          Always-bind (Copied (length specs) 0 f n) Q (value_loop env skips specs 0 f n) _
            (value_loop-Copied skips specs 0 f n h.large one)
            λ (g, m) c. Always-some Q _ (record {
              new = c.new;
              grown = c.grown;
              freed = λ d e. c.freed d (
                  e
                  ∙ ap (λ (x : Desc). x.args) (set_desc_self p (record (m.desc p) { args = g }) m));
            })

freed_at_home :
    (t : Thread) (p : Ptr) (n : Node)
    → (n.desc p).homenode ≡ n.cluster.mpi_rank
    → (torc_cleanup t p n).freed ≡ n.freed ++ free_copies (n.desc p) (n.desc p).narg 0
unfolding torc_cleanup torc_put_reused_desc torc_to_i_reuseq_end
freed_at_home t p n e = ground arith

-- A task is created with the arguments `specs`, of which none passes the way CALL_BY_COP2 itself, and
-- its addresses of buffers are not NULL. When it ends on the node that created it, with the arguments
-- as they were filled in, `_torc_cleanup` frees all buffers that its creation has allocated, each
-- once and in their order, and no other.
pub created_copies-freed :
    (env : Env) (t : Thread) (skips : Bool) (specs : List ArgSpec) (p : Ptr) (n m n' : Node)
    → NoCopies specs
    → 1 ≤ n.fresh_block
    → fill_arguments env skips specs p n ≡ some m
    → (n'.desc p).args ≡ (m.desc p).args
    → (n'.desc p).narg ≡ length specs
    → (n'.desc p).homenode ≡ n'.cluster.mpi_rank
    → (new : List (ℕ × ℕ)) × (m.blocks ≡ n.blocks ++ new)
      × ((torc_cleanup t p n').freed ≡ n'.freed ++ addresses new)
created_copies-freed env t skips specs p n m n' plain one e same count home =
    let f = fill_arguments-Filled env skips specs p n plain one m e in
    (
      f.new,
      f.grown,
      freed_at_home t p n' home
          ∙ ap (λ k. n'.freed ++ free_copies (n'.desc p) k 0) count
          ∙ ap (λ l. n'.freed ++ l) (f.freed (n'.desc p) same),
    )
