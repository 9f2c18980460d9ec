-- ===== src/Args/Buffers.antt =====
-- The buffers that `receive_arguments` allocates on the executing node, and those of them that
-- `send_descriptor` frees when it sends the answer.
use torc_lite.Common.{
  ℕ, zero, suc, ◌+◌, ◌≤◌, ◌<◌, ◌≡◌, ◌≢◌, refl, ap, ◌∙◌, Option, none, some, List, [], ◌∷◌, ◌++◌,
  map, ◌>>=◌, arith, true, if◌then◌else◌, has, not, length, Distinct, ◌*◌, length-append, ◌||◌,
  ◌&&◌, ltb, ◌==◌, Bool-cases, inl, inr,
}
use torc_lite.Desc.{Arg, Desc, call_by_cop, call_by_vad, call_by_ref, call_by_res, call_by_cop2}
use torc_lite.Types.{Handles}
use torc_lite.Args.{
  Received, start, receive_argument, receive_loop, receive_arguments, free_result,
  free_results_loop, free_results,
}
use torc_lite.Args.Agree.{IsSendable}

-- The number of buffers of an argument that are allocated and not freed: one for a single value by
-- reference, by result or from an address, and one for several values in any of the ways that the
-- answer does not look at.
pub leaks : Arg → ℕ
leaks a =
    if a.quantity == 0
    then 0
    else if a.quantity == 1
    then (if (a.callway == call_by_cop) || (a.callway == call_by_vad) then 0 else 1)
    else (if (a.callway == call_by_ref)
          || ((a.callway == call_by_res) || (a.callway == call_by_cop2))
        then 0
        else 1)

pub leaks_from : Desc → (k i : ℕ) → ℕ
leaks_from d zero i = 0
leaks_from d (suc k) i = leaks (d.args i) + leaks_from d k (suc i)

-- The list rises from `lo` on and stays below `hi`: so its entries are distinct.
abbrev pub Rises : (lo hi : ℕ) → List ℕ → Type 0
Rises lo hi [] = Unit
Rises lo hi (x ∷ xs) = (lo ≤ x) × (x < hi) × Rises (suc x) hi xs

abbrev pub addresses : List (ℕ × ℕ) → List ℕ
addresses = map (λ b. b.0)

has-addresses_snoc :
    (a f n : ℕ) (bs : List (ℕ × ℕ))
    → has a (addresses (bs ++ (f, n) ∷ [])) ≡ (has a (addresses bs) || (a == f))
has-addresses_snoc a f n [] = ground arith
has-addresses_snoc a f n (b ∷ bs) = ground (arith, has-addresses_snoc a f n bs)

module _ (h : Handles) (type_size : ℕ → ℕ) (tag : ℕ) (d : Desc) where
  abbrev with_args : (ℕ → Arg) → Desc
  with_args xs = record d { args = xs }

  abbrev Allocates : ℕ → Received → Option Received → Type 0
  Allocates i r none = ⊥
  Allocates i r (some r') =
      let freed = free_result (with_args r'.args) i in
      (length r'.blocks ≡ length r.blocks + length freed + leaks (d.args i))
      × (r.fresh ≤ r'.fresh)
      × Rises r.fresh r'.fresh freed
      × ((j : ℕ) → j ≢ i → r'.args j ≡ r.args j)
      × ((a : ℕ) → a < r'.fresh → r.fresh ≤ a → has a (addresses r'.blocks) ≡ true)
      × ((a : ℕ) → has a (addresses r.blocks) ≡ true → has a (addresses r'.blocks) ≡ true)

  argument-Allocates :
      (i : ℕ) (r : Received)
      → IsSendable h (d.args i)
      → r.args i ≡ d.args i
      → Allocates i r (receive_argument h type_size tag d i r)
  unfolding receive_argument free_result leaks
  argument-Allocates i r is e = rw e (
      rw is.typed (elim (Bool-cases ((d.args i).quantity == 0)) [
        | inl z ↦ rw z (
          ground arith,
          omega arith,
          ground arith,
          λ j n. refl,
          λ a p q. absurd (omega arith),
          λ a p. p,
        )
        | inr nz ↦
            rw nz
              (elim (Bool-cases (
                ltb 1 (d.args i).quantity
                || (not ((d.args i).callway == call_by_cop)
                    && not ((d.args i).callway == call_by_vad)))) [
                      | inl t ↦ rw t (
                        ground (arith, length-append r.blocks ((r.fresh, size) ∷ [])),
                        omega arith,
                        ground arith,
                        λ j n. ground arith,
                        λ a p q. rw (has-addresses_snoc a r.fresh size r.blocks) (ground arith),
                        λ a p. rw (has-addresses_snoc a r.fresh size r.blocks) (ground arith),
                      )
                      | inr f ↦ rw f (
                        ground arith,
                        omega arith,
                        ground arith,
                        λ j n. ground arith,
                        λ a p q. absurd (omega arith),
                        λ a p. p,
                      )
                    ])
      ]))
    where
      size : ℕ
      size = (d.args i).quantity * type_size (d.args i).dtype

Rises-weaken : (lo lo' hi : ℕ) (xs : List ℕ) → lo ≤ lo' → Rises lo' hi xs → Rises lo hi xs
Rises-weaken lo lo' hi [] b r = tt
Rises-weaken lo lo' hi (x ∷ xs) b r = (omega arith, r.1, r.2)

Rises-append :
    (lo mid hi : ℕ) (xs ys : List ℕ)
    → lo ≤ mid
    → mid ≤ hi
    → Rises lo mid xs
    → Rises mid hi ys
    → Rises lo hi (xs ++ ys)
Rises-append lo mid hi [] ys b c r s = Rises-weaken lo mid hi ys b s
Rises-append lo mid hi (x ∷ xs) ys b c r s =
    (r.0, omega arith, Rises-append (suc x) mid hi xs ys (omega arith) c r.2 s)

Rises-bounds : (lo hi a : ℕ) (xs : List ℕ) → Rises lo hi xs → has a xs ≡ true → (lo ≤ a) × (a < hi)
Rises-bounds lo hi a [] r m = cc
Rises-bounds lo hi a (x ∷ xs) r m = ground (arith, Rises-bounds (suc x) hi a xs r.2)

Rises-Distinct : (lo hi : ℕ) (xs : List ℕ) → Rises lo hi xs → Distinct xs
Rises-Distinct lo hi [] r = tt
Rises-Distinct lo hi (x ∷ xs) r =
    (ground (arith, Rises-bounds (suc x) hi x xs r.2), Rises-Distinct (suc x) hi xs r.2)

free_result-args :
    (d : Desc) (xs ys : ℕ → Arg) (i : ℕ)
    → xs i ≡ ys i
    → free_result (record d { args = xs }) i ≡ free_result (record d { args = ys }) i
unfolding free_result
free_result-args d xs ys i e = rw e

module _ (h : Handles) (type_size : ℕ → ℕ) (tag : ℕ) (d : Desc) where
  record AllocatesFrom (k i : ℕ) (r r' : Received) : Type 0 where
    counted :
        length r'.blocks
        ≡ length r.blocks
          + length (free_results_loop (record d { args = r'.args }) k i)
          + leaks_from d k i
    grown : r.fresh ≤ r'.fresh
    rising : Rises r.fresh r'.fresh (free_results_loop (record d { args = r'.args }) k i)
    kept : (j : ℕ) → j < i → r'.args j ≡ r.args j
    covered : (a : ℕ) → a < r'.fresh → r.fresh ≤ a → has a (addresses r'.blocks) ≡ true
    old : (a : ℕ) → has a (addresses r.blocks) ≡ true → has a (addresses r'.blocks) ≡ true

  Allocates-then :
      (k i : ℕ) (r r1 r' : Received)
      → Allocates h type_size tag d i r (some r1)
      → AllocatesFrom k (suc i) r1 r'
      → AllocatesFrom (suc k) i r r'
  unfolding free_results_loop leaks_from
  Allocates-then k i r r1 r' (n, g, s, keep, c, o) f =
      let same = free_result-args d r'.args r1.args i (f.kept i (omega arith)) in
      record {
        counted = rw same (
            omega (
              arith,
              n,
              f.counted,
              length-append (free_result (record d { args = r1.args }) i)
                  (free_results_loop (record d { args = r'.args }) k (suc i)),
            ));
        grown = omega (arith, f.grown);
        rising = rw same (Rises-append _ _ _ _ _ g f.grown s f.rising);
        kept = λ j b. f.kept j (omega arith) ∙ keep j (omega arith);
        covered = λ a b e. ground (arith, f.covered a, f.old a, c a);
        old = λ a e. f.old a (o a e);
      }

  alloc_some :
      (i : ℕ) (r : Received) (o : Option Received)
      → Allocates h type_size tag d i r o
      → (r1 : Received) × (o ≡ some r1) × Allocates h type_size tag d i r (some r1)
  alloc_some i r none a = absurd a
  alloc_some i r (some r1) a = (r1, refl, a)

  loop-AllocatesFrom :
      (k i : ℕ) (r : Received)
      → ((j : ℕ) → j < i + k → IsSendable h (d.args j))
      → ((j : ℕ) → i ≤ j → r.args j ≡ d.args j)
      → (r' : Received) × (receive_loop h type_size tag d k i r ≡ some r') × AllocatesFrom k i r r'
  unfolding receive_loop free_results_loop leaks_from
  loop-AllocatesFrom zero i r is same = (
    r,
    refl,
    record {
      counted = omega arith;
      grown = omega arith;
      rising = tt;
      kept = λ j b. refl;
      covered = λ a b e. absurd (omega arith);
      old = λ a e. e;
    },
  )
  loop-AllocatesFrom (suc k) i r is same =
      let (r1, e, a) =
        alloc_some i r _
          (argument-Allocates h type_size tag d i r (is i (omega arith)) (same i (omega arith))) in
      let (r', e', f) =
        loop-AllocatesFrom k (suc i) r1 (λ j b. is j (omega arith))
          (λ j b. a.3 j (omega arith) ∙ same j (omega arith)) in
      (
        r',
        ap (λ o. o >>= receive_loop h type_size tag d k (suc i)) e ∙ e',
        Allocates-then k i r r1 r' a f,
      )

  -- Sending the answer of a task whose arguments, all fit to be sent, have been received frees only
  -- buffers that were allocated for them, none twice, and all but those that `leaks_from` counts.
  pub answer_frees :
      (fresh : ℕ)
      → ((i : ℕ) → i < d.narg → IsSendable h (d.args i))
      → (r : Received) × (receive_arguments h type_size tag fresh d ≡ some r)
        × ((a : ℕ)
            → has a (free_results (record d { args = r.args })) ≡ true
            → has a (addresses r.blocks) ≡ true)
        × Distinct (free_results (record d { args = r.args }))
        × (length r.blocks
            ≡ length (free_results (record d { args = r.args })) + leaks_from d d.narg 0)
  unfolding receive_arguments free_results
  answer_frees fresh is =
      let (r, e, f) =
        loop-AllocatesFrom d.narg 0 (start fresh d) (λ j b. is j (omega arith)) (λ j b. refl) in
      (
        r,
        e,
        λ a m. let b = Rises-bounds fresh r.fresh a _ f.rising m in f.covered a b.1 b.0,
        Rises-Distinct fresh r.fresh _ f.rising,
        omega (arith, f.counted),
      )
