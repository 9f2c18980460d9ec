-- ===== src/Exec/Arguments.antt =====
-- Which arguments `_torc_core_execution` passes to a task's function.
use torc_lite.Common.{
  get_elem?, length, length-append, length-map, ℕ, zero, suc, ◌+◌, ◌≤◌, ◌<◌, ◌≡◌, ◌↔◌, refl, sym,
  ap, ap₂, ◌∙◌, Option, none, some, List, [], ◌∷◌, ◌++◌, map, arith, Bool, true, false, ◌&&◌, ltb,
  leb, if◌then◌else◌, update, dec_lt, ℕ_discrete, inl, inr, ◌⊎◌,
}
use mathlib.Core.List.{map-append}
use torc_lite.Desc.{Desc}
use torc_lite.Table.{Table}
use torc_lite.Exec.{
  Passed, Call, argument, argument_loop, first_args, do_case, task_function, torc_core_execution,
  torc_getarg_addr,
}

module _ (node : ℕ) (d : Desc) where
  -- The loops set the entries below `narg`, and no others.
  argument_loop-entry :
      (k i j : ℕ) (args : ℕ → Option Passed)
      → argument_loop node d k i args j
        ≡ (if leb i j && ltb j (i + k) then some (argument node d j) else args j)
  unfolding argument_loop
  argument_loop-entry zero i j args = ground arith
  argument_loop-entry (suc k) i j args =
      ground (arith, argument_loop-entry k (suc i) j (update args i (some (argument node d i))))

  abbrev pub entry : ℕ → Option Passed
  entry = argument_loop node d d.narg 0 (λ i. none)

  entry_set : (j : ℕ) → j < d.narg → entry j ≡ some (argument node d j)
  entry_set j b = ground (arith, argument_loop-entry d.narg 0 j (λ i. none))

  entry_unset : (j : ℕ) → d.narg ≤ j → entry j ≡ none
  entry_unset j b = ground (arith, argument_loop-entry d.narg 0 j (λ i. none))

  first_set :
      (n : ℕ)
      → n ≤ d.narg
      → map entry (first_args n) ≡ map (λ j. some (argument node d j)) (first_args n)
  unfolding first_args
  first_set zero b = refl
  first_set (suc n) b =
      map-append entry (first_args n) (n ∷ [])
      ∙ ap₂ ◌++◌ (first_set n (omega arith)) (ap (λ x. x ∷ []) (entry_set n (omega arith)))
      ∙ sym (map-append (λ j. some (argument node d j)) (first_args n) (n ∷ []))

-- Whether all entries of a call have been set.
abbrev is_set : Option Passed → Bool
is_set none = false
is_set (some x) = true

abbrev all_set : List (Option Passed) → Bool
all_set [] = true
all_set (x ∷ xs) = is_set x && all_set xs

all_set-last :
    (xs : List (Option Passed)) (o : Option Passed) → o ≡ none → all_set (xs ++ o ∷ []) ≡ false
all_set-last [] o e = ap (λ u. is_set u && true) e
all_set-last (none ∷ xs) o e = refl
all_set-last (some x ∷ xs) o e = all_set-last xs o e

all_set-map : (f : ℕ → Passed) (ns : List ℕ) → all_set (map (λ j. some (f j)) ns) ≡ true
all_set-map f [] = refl
all_set-map f (n ∷ ns) = all_set-map f ns

-- From 18 arguments on, `DO_CASE` passes the entry behind the last argument, or aborts.
do_case-late :
    (n : ℕ) → 18 ≤ n → (do_case n ≡ none) ⊎ ((k : ℕ) × (do_case n ≡ some (first_args k ++ n ∷ [])))
unfolding do_case
do_case-late n b = elim (ℕ_discrete n 18) [
  | yes e ↦ inr (17, ground arith)
  | no n18 ↦ elim (ℕ_discrete n 19) [
    | yes e ↦ inr (15, ground arith)
    | no n19 ↦ elim (ℕ_discrete n 20) [
      | yes e ↦ inr (16, ground arith)
      | no n20 ↦ elim (ℕ_discrete n 21) [
        | yes e ↦ inr (17, ground arith)
        | no n21 ↦ elim (ℕ_discrete n 22) [
          | yes e ↦ inr (16, ground arith)
          | no n22 ↦ elim (ℕ_discrete n 23) [
            | yes e ↦ inr (17, ground arith)
            | no n23 ↦ inl (ground arith)
          ]
        ]
      ]
    ]
  ]
]

do_case-early : (n : ℕ) → n ≤ 17 → do_case n ≡ some (first_args n)
unfolding do_case
do_case-early n b = ground arith

abbrev arguments_or : Option Call → List (Option Passed)
arguments_or none = none ∷ []
arguments_or (some c) = c.arguments

module _ (t : Table) (node : ℕ) (d : Desc) (f : ℕ) (found : task_function t d ≡ some f) where
  -- The call with each of the task's arguments, in order.
  abbrev pub exact_call : Call
  exact_call = record {
    function = f;
    arguments = map (λ j. some (argument node d j)) (first_args d.narg);
  }

  abbrev call_of : List ℕ → Call
  call_of ps = record { function = f; arguments = map (entry node d) ps }

  execution-call_of :
      (ps : List ℕ) → do_case d.narg ≡ some ps → torc_core_execution t node d ≡ some (call_of ps)
  unfolding torc_core_execution
  execution-call_of ps e = rw (found, e) refl

  execution-none : do_case d.narg ≡ none → torc_core_execution t node d ≡ none
  unfolding torc_core_execution
  execution-none e = rw (found, e) refl

  late_not_set : 18 ≤ d.narg → all_set (arguments_or (torc_core_execution t node d)) ≡ false
  late_not_set b = elim (do_case-late d.narg b) [
    | inl e ↦ ap (λ o. all_set (arguments_or o)) (execution-none e)
    | inr (k, e) ↦
        ap (λ o. all_set (arguments_or o)) (execution-call_of (first_args k ++ d.narg ∷ []) e)
        ∙ ap all_set (map-append (entry node d) (first_args k) (d.narg ∷ []))
        ∙ all_set-last (map (entry node d) (first_args k)) _
            (entry_unset node d d.narg (omega arith))
  ]

  -- A task whose function is found is called with all its arguments, in order, exactly if it has at
  -- most 17 of them.
  pub execution_exact : (torc_core_execution t node d ≡ some exact_call) ↔ (d.narg ≤ 17)
  execution_exact = (
    λ e. elim (dec_lt 17 d.narg) [
      | yes late ↦
          let u =
            ap (λ o. all_set (arguments_or o)) e
            ∙ all_set-map (argument node d) (first_args d.narg) in
          absurd (ground (arith, u, late_not_set (omega arith)))
      | no early ↦ omega arith
    ],
    λ b.
        execution-call_of (first_args d.narg) (do_case-early d.narg b)
        ∙ ap (λ (l : List (Option Passed)). some (record { function = f; arguments = l }))
            (first_set node d d.narg (omega arith)),
  )

get_elem?-append :
    {A : Type 0} (xs : List A) (y : A) (i : ℕ)
    → i < length xs
    → get_elem? (xs ++ y ∷ []) i ≡ get_elem? xs i
get_elem?-append [] y i b = absurd (omega arith)
get_elem?-append (x ∷ xs) y zero b = refl
get_elem?-append (x ∷ xs) y (suc i) b = get_elem?-append xs y i (omega arith)

get_elem?-last : {A : Type 0} (xs : List A) (y : A) → get_elem? (xs ++ y ∷ []) (length xs) ≡ some y
get_elem?-last [] y = refl
get_elem?-last (x ∷ xs) y = get_elem?-last xs y

length-first_args : (n : ℕ) → length (first_args n) ≡ n
unfolding first_args
length-first_args zero = refl
length-first_args (suc n) =
    omega (arith, length-append (first_args n) (n ∷ []), length-first_args n)

get_elem?-first_args :
    {A : Type 0} (f : ℕ → A) (n i : ℕ) → i < n → get_elem? (map f (first_args n)) i ≡ some (f i)
unfolding first_args
get_elem?-first_args f zero i b = absurd (omega arith)
get_elem?-first_args f (suc n) i b =
    let len : length (map f (first_args n)) ≡ n =
      length-map (first_args n) f ∙ length-first_args n in
    ap (λ l. get_elem? l i) (map-append f (first_args n) (n ∷ [])) ∙ elim (dec_lt i n) [
      | yes earlier ↦
          get_elem?-append (map f (first_args n)) (f n) i (omega (arith, len))
          ∙ get_elem?-first_args f n i earlier
      | no last ↦
          let is : i ≡ n = omega arith in
          ap (get_elem? (map f (first_args n) ++ f n ∷ [])) (is ∙ sym len)
          ∙ get_elem?-last (map f (first_args n)) (f n)
          ∙ ap (λ j. some (f j)) (sym is)
    ]

-- What the function of a task with at most 17 arguments gets for each of them is what
-- `torc_getarg_addr` gives for it.
pub getarg_addr-passed :
    (t : Table) (node : ℕ) (d : Desc) (f i : ℕ)
    → task_function t d ≡ some f
    → d.narg ≤ 17
    → i < d.narg
    → (c : Call) × (torc_core_execution t node d ≡ some c)
      × (get_elem? c.arguments i ≡ some (some (torc_getarg_addr node d i)))
unfolding torc_getarg_addr argument
getarg_addr-passed t node d f i found b lt = (
  exact_call t node d f found,
  (execution_exact t node d f found).1 b,
  get_elem?-first_args (λ j. some (argument node d j)) d.narg i lt,
)
