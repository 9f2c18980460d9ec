-- ===== src/Demo/Pipe.antt =====
-- demo/pipe.c: which worker creates which task in `spmd`, and the three stages that a task passes.
use native.Mathlib.Nat.{mod-eq_of_lt, add-mod_right, mod-add-mod, mod-le, mod-lt}
use torc_lite.Common.{
  ℕ, zero, suc, ◌+◌, ◌-◌, ◌%◌, ◌≤◌, ◌<◌, ◌≡◌, ◌≢◌, refl, sym, ap, ◌∙◌, ◌↔◌, Bool, true, false, List,
  [], ◌∷◌, ltb, has, if◌then◌else◌, arith, ==_false, ==_iff, lt→ltb, ℕ_discrete, dec_lt,
}
use torc_lite.Common.Int.{ℤ, minus_one}

-- `for (i = me; i < cnt; i += workers)`: the tasks that the worker `me` creates, with `k` rounds of
-- fuel.
unfoldable pub spmd_loop : (workers cnt k i : ℕ) → List ℕ
spmd_loop workers cnt zero i = []
spmd_loop workers cnt (suc k) i =
    let rest = spmd_loop workers cnt k (i + workers) in if ltb i cnt then i ∷ rest else []

abbrev pub spmd_cnt : ℕ
spmd_cnt = 20

unfoldable pub spmd : (me workers : ℕ) → List ℕ
unfolding spmd_loop
spmd me workers = spmd_loop workers spmd_cnt spmd_cnt me

-- The tasks at the stages A, B and C; -1 is none.
pub record Stages : Type 0 where
  pub stage_a : ℤ
  pub stage_b : ℤ
  pub stage_c : ℤ

unfoldable pub advance : ℤ → Stages → Stages
advance tid s = record { stage_a = tid; stage_b = s.stage_a; stage_c = s.stage_b }

-- `task`: the pipe is emptied when `torc_fetch_work` finds no other task.
unfoldable pub pipe_task : (fetched : Bool) → ℤ → Stages → Stages
unfolding advance
pipe_task fetched tid s =
    let s1 = advance tid s in if fetched then s1 else advance minus_one (advance minus_one s1)

ltb_no : (a b : ℕ) → ¬ (a < b) → ltb a b ≡ false
ltb_no a b h = ground arith

-- A step of `w` does not change the remainder.
back-mod : (x w : ℕ) → w ≤ x → (x - w) % w ≡ x % w
back-mod x w b =
    let e : x - w + w ≡ x = omega arith in sym (add-mod_right (x - w) w) ∙ ap (λ y. y % w) e

module _ (w cnt t : ℕ) (some_worker : 1 ≤ w) where
  -- Whether the loop that is at `i` creates the task `t`.
  abbrev Creates : (i : ℕ) → Type 0
  Creates i = (t < cnt) × (i ≤ t) × ((t - i) % w ≡ 0)

  Creates-next : (i : ℕ) → t ≢ i → Creates i ↔ Creates (i + w)
  Creates-next i ne = (
    λ (a, b, e). (a, later b e, (same (later b e)) ∙ e),
    λ (a, b, e). (a, omega arith, sym (same b) ∙ e),
  )
    where
      same : i + w ≤ t → (t - (i + w)) % w ≡ (t - i) % w
      same b =
          let e : t - (i + w) ≡ t - i - w = omega arith in
          ap (λ x. x % w) e ∙ back-mod (t - i) w (omega arith)

      later : i ≤ t → (t - i) % w ≡ 0 → i + w ≤ t
      later b e = elim (dec_lt (t - i) w) [
        | yes lt ↦ absurd (omega (arith, mod-eq_of_lt lt, e, ne, b))
        | no ge ↦ omega arith
      ]

  at_once : (i : ℕ) → i < cnt → t ≡ i → Creates i
  at_once i lt e =
      let none_between : t - i ≡ 0 = omega arith in
      (omega arith, omega arith, ap (λ x. x % w) none_between ∙ mod-eq_of_lt some_worker)

  spmd_loop-Creates : (k i : ℕ) → cnt ≤ i + k → (has t (spmd_loop w cnt k i) ≡ true) ↔ Creates i
  unfolding spmd_loop
  spmd_loop-Creates zero i b = (λ e. cc, λ c. absurd (omega (arith, c.0, c.1)))
  spmd_loop-Creates (suc k) i b = elim (dec_lt i cnt) [
    | no ge ↦ rw (ltb_no i cnt ge) (λ e. cc, λ c. absurd (omega (arith, c.0, c.1)))
    | yes lt ↦ rw (lt→ltb i cnt lt) (elim (ℕ_discrete t i) [
      | yes e ↦ rw ((==_iff t i).1 e) (λ x. at_once i lt e, λ c. refl)
      | no ne ↦ rw (==_false t i ne) (
          let h = spmd_loop-Creates k (i + w) (omega arith) in
          let n = Creates-next i ne in (λ x. n.1 (h.0 x), λ c. h.1 (n.0 c)))
    ])
  ]

-- The remainder of a sum, one of its parts below the divisor.
sum-mod : (t me w : ℕ) → me ≤ t → ((t - me) % w + me) % w ≡ t % w
sum-mod t me w b =
    let e : t - me + me ≡ t = omega arith in mod-add-mod (t - me) w me ∙ ap (λ x. x % w) e

only_0 : (r me w : ℕ) → r < w → me < w → (r + me) % w ≡ me → r ≡ 0
only_0 r me w a b e = elim (dec_lt (r + me) w) [
  | yes lt ↦ omega (arith, mod-eq_of_lt lt, e)
  | no ge ↦
      let less = back-mod (r + me) w (omega arith) in
      let small : r + me - w < w = omega arith in
      absurd (omega (arith, mod-eq_of_lt small, less, e))
]

-- Of the workers of the program, exactly one creates the task `t`, one of the 20: the one whose
-- number is the remainder of `t`.
spmd-partition :
    (workers me t : ℕ)
    → me < workers
    → (has t (spmd me workers) ≡ true) ↔ ((t < spmd_cnt) × (t % workers ≡ me))
unfolding spmd
spmd-partition workers me t b =
    let c = spmd_loop-Creates workers spmd_cnt t (omega arith) spmd_cnt me (omega arith) in
    (
      λ h.
          let (lt, le, e) = c.0 h in
          let z : (t - me) % workers + me ≡ me = omega (arith, e) in
          (lt, sym (sum-mod t me workers le) ∙ ap (λ x. x % workers) z ∙ mod-eq_of_lt b),
      λ (lt, e). c.1 (
        lt,
        at_least e,
        only_0 ((t - me) % workers) me workers (mod-lt (t - me) (omega arith)) b
            (sum-mod t me workers (at_least e) ∙ e),
      ),
    )
  where
    at_least : t % workers ≡ me → me ≤ t
    at_least e = omega (arith, e, mod-le t workers)
