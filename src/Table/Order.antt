-- ===== src/Table/Order.antt =====
-- The numbers of functions on several nodes, by the order of registration (src/torc_comm.c).
use torc_lite.Common.{
  ℕ, suc, ◌+◌, sym, ◌∙◌, Option-cases, inl, inr, length-map, ◌≤◌, ◌<◌, ◌≡◌, refl, ◌↔◌, Option, none,
  some, List, [], ◌∷◌, ◌++◌, map, ◌==◌, if◌then◌else◌, length, length-append, ◌>>=◌, arith,
}
use torc_lite.Common.Int.{ℤ, pos, minus_one}
use torc_lite.Desc.{max_torc_tasks}
use torc_lite.Table.{Table, empty, register, find_loop, getfuncnum}
use mathlib.Core.List.{append_assoc, append-nil}

-- A node registers the functions `fs`, in order.
unfoldable pub register_all : List ℕ → Table → Option Table
register_all [] t = some t
register_all (f ∷ fs) t = register f t >>= register_all fs

-- The position of the first `f` in a list, counted from `i`; -1 if it is not there.
unfoldable pub position : ℕ → List ℕ → ℕ → ℤ
position f [] i = minus_one
position f (x ∷ xs) i = if f == x then pos i else position f xs (suc i)

-- The table holds `xs` from position `i` on.
abbrev At : Table → ℕ → List ℕ → Type 0
At t i [] = Unit
At t i (x ∷ xs) = (t.internode_function_table i ≡ x) × At t (suc i) xs

find_loop-position :
    (t : Table) (f : ℕ) (xs : List ℕ) (i : ℕ)
    → At t i xs
    → find_loop (length xs) i f t ≡ position f xs i
unfolding find_loop position
find_loop-position t f [] i a = refl
find_loop-position t f (x ∷ xs) i a = rw a.0 (rw (find_loop-position t f xs (suc i) a.1))

At-register :
    (t t' : Table) (f : ℕ) (ds : List ℕ) (i : ℕ)
    → t.number_of_functions ≡ i + length ds
    → register f t ≡ some t'
    → At t i ds
    → At t' i (ds ++ f ∷ [])
unfolding register
At-register t t' f [] i c e a = ground arith
At-register t t' f (d ∷ ds) i c e a =
    (ground arith, At-register t t' f ds (suc i) (omega arith) e a.1)

record Filled (ds : List ℕ) (t : Table) : Type 0 where
  counted : t.number_of_functions ≡ length ds
  held : At t 0 ds

abbrev Registers : List ℕ → Option Table → Type 0
Registers ds none = max_torc_tasks < length ds
Registers ds (some t) = Filled ds t × (length ds ≤ max_torc_tasks)

register-Filled :
    (ds : List ℕ) (f : ℕ) (t t' : Table)
    → Filled ds t
    → register f t ≡ some t'
    → Filled (ds ++ f ∷ []) t'
register-Filled ds f t t' h e = record {
  counted = unfold register in ground (arith, h.counted, length-append ds (f ∷ []));
  held = At-register t t' f ds 0 (omega (arith, h.counted)) e h.held;
}

register_all-Registers :
    (fs ds : List ℕ) (t : Table)
    → Filled ds t
    → length ds ≤ max_torc_tasks
    → Registers (ds ++ fs) (register_all fs t)
unfolding register_all
register_all-Registers [] ds t h b = rw (append-nil ds) (h, b)
register_all-Registers (f ∷ fs) ds t h b = elim (Option-cases (register f t)) [
  | inl e ↦ rw e (unfold register in ground (arith, h.counted, length-append ds (f ∷ fs)))
  | inr (t', e) ↦ rw e (
      rw (← append_assoc ds (f ∷ []) fs) (
        register_all-Registers fs (ds ++ f ∷ []) t' (register-Filled ds f t t' h e)
          (unfold register in ground (arith, h.counted, length-append ds (f ∷ [])))))
]

empty-Filled : Filled [] empty
empty-Filled = record { counted = refl; held = tt }

registered : (fs : List ℕ) → Registers fs (register_all fs empty)
registered fs = register_all-Registers fs [] empty empty-Filled (omega arith)

Registers-some :
    (fs : List ℕ) (o : Option Table)
    → Registers fs o
    → length fs ≤ max_torc_tasks
    → (t : Table) × (o ≡ some t) × Filled fs t
Registers-some fs none h b = absurd (omega arith)
Registers-some fs (some t) h b = (t, refl, h.0)

-- Up to `MAX_TORC_TASKS` functions can be registered, and the number of a function is its position
-- in the order of registration (-1 if it was never registered).
register_all-position :
    (fs : List ℕ) (f : ℕ)
    → length fs ≤ max_torc_tasks
    → (t : Table) × (register_all fs empty ≡ some t) × (getfuncnum f t ≡ position f fs 0)
unfolding getfuncnum
register_all-position fs f b =
    let (t, e, h) = Registers-some fs _ (registered fs) b in
    (t, e, rw h.counted (find_loop-position t f fs 0 h.held))

Registers-none :
    (fs : List ℕ) (o : Option Table) → Registers fs o → (o ≡ none) ↔ (max_torc_tasks < length fs)
Registers-none fs none h = (λ _. h, λ _. refl)
Registers-none fs (some t) h = (λ e. cc, λ b. absurd (omega arith))

-- Registration writes past the end of the table exactly if there are more than `MAX_TORC_TASKS`
-- functions: the source does not test it.
register_all-overflow :
    (fs : List ℕ) → (register_all fs empty ≡ none) ↔ (max_torc_tasks < length fs)
register_all-overflow fs = Registers-none fs _ (registered fs)

position-map :
    (ρ : ℕ → ℕ) (f : ℕ) (fs : List ℕ) (i : ℕ)
    → ((a b : ℕ) → ρ a ≡ ρ b → a ≡ b)
    → position (ρ f) (map ρ fs) i ≡ position f fs i
unfolding position
position-map ρ f [] i inj = refl
position-map ρ f (x ∷ xs) i inj = ground (arith, inj f x, position-map ρ f xs (suc i) inj)

-- Two nodes that register the same functions, up to `MAX_TORC_TASKS`, in the same order, each at
-- addresses of its own (`ρ` leads, one to one, from those of the one to those of the other), give
-- each function the same number.
same_numbers :
    (ρ : ℕ → ℕ) (f : ℕ) (fs : List ℕ)
    → ((a b : ℕ) → ρ a ≡ ρ b → a ≡ b)
    → length fs ≤ max_torc_tasks
    → (t u : Table) × (register_all fs empty ≡ some t)
      × (register_all (map ρ fs) empty ≡ some u)
      × (getfuncnum (ρ f) u ≡ getfuncnum f t)
same_numbers ρ f fs inj b =
    let (t, e, p) = register_all-position fs f b in
    let (u, e', p') = register_all-position (map ρ fs) (ρ f) (rw (length-map fs ρ) b) in
    (t, u, e, e', p' ∙ position-map ρ f fs 0 inj ∙ sym p)
