-- ===== src/Table/Numbers.antt =====
-- The numbers that registration gives to the functions.
use torc_lite.Common.{
  ℕ, zero, suc, ◌+◌, ◌≤◌, ◌<◌, ◌≡◌, ◌≢◌, refl, some, ◌==◌, Bool-cases, inl, inr, arith,
}
use torc_lite.Common.Int.{ℤ, pos, negsuc, minus_one}
use torc_lite.Desc.{max_torc_tasks}
use torc_lite.Table.{Table, find_loop, getfuncnum, getfuncptr}

-- The least position of `f` in the table from `i` up to `n`, or -1 if it is not there.
abbrev pub IsFirst : Table → ℕ → (i n : ℕ) → ℤ → Type 0
IsFirst t f i n (pos j) =
    (i ≤ j)
    × (j < n)
    × (t.internode_function_table j ≡ f)
    × ((k : ℕ) → i ≤ k → k < j → t.internode_function_table k ≢ f)
IsFirst t f i n (negsuc m) = (m ≡ 0) × ((k : ℕ) → i ≤ k → k < n → t.internode_function_table k ≢ f)

module _ (t : Table) (f : ℕ) where
  IsFirst-skip :
      (i n : ℕ) (r : ℤ)
      → t.internode_function_table i ≢ f
      → IsFirst t f (suc i) n r
      → IsFirst t f i n r
  IsFirst-skip i n (pos j) ne h = (omega arith, h.1, h.2, λ k a b e. ground (arith, h.3 k))
  IsFirst-skip i n (negsuc m) ne h = (h.0, λ k a b e. ground (arith, h.1 k))

  find_loop-IsFirst : (k i n : ℕ) → n ≡ i + k → IsFirst t f i n (find_loop k i f t)
  unfolding find_loop
  find_loop-IsFirst zero i n e = (refl, λ k a b. absurd (omega arith))
  find_loop-IsFirst (suc k) i n e = elim (Bool-cases (f == t.internode_function_table i)) [
    | inl hit ↦ rw hit (omega arith, omega arith, ground arith, λ j a b. absurd (omega arith))
    | inr miss ↦
        rw miss (IsFirst-skip i n _ (ground arith) (find_loop-IsFirst k (suc i) n (omega arith)))
  ]

  -- `getfuncnum` gives the least position of the function in the table, and -1 exactly if it is
  -- not registered.
  pub getfuncnum-IsFirst : IsFirst t f 0 t.number_of_functions (getfuncnum f t)
  unfolding getfuncnum
  getfuncnum-IsFirst = find_loop-IsFirst t.number_of_functions 0 t.number_of_functions (omega arith)

  first_ptr :
      (r : ℤ)
      → t.number_of_functions ≤ max_torc_tasks
      → IsFirst t f 0 t.number_of_functions r
      → r ≢ minus_one
      → getfuncptr r t ≡ some f
  unfolding getfuncptr
  first_ptr (pos j) b h ne = ground arith
  first_ptr (negsuc m) b h ne = absurd (ne (ground arith))

  -- In a table with at most `MAX_TORC_TASKS` functions, the number of a registered function leads
  -- back to the function.
  pub getfuncptr-getfuncnum :
      t.number_of_functions ≤ max_torc_tasks
      → getfuncnum f t ≢ minus_one
      → getfuncptr (getfuncnum f t) t ≡ some f
  getfuncptr-getfuncnum b ne = first_ptr _ b getfuncnum-IsFirst ne
