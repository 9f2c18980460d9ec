-- ===== src/Threads/Places/Starts.antt =====
-- The main thread starts the others: the steps of `_torc_md_init` and of `_torc_comm_init`.
use torc_lite.Common.{
  dec_lt, ℕ, suc, ◌≤◌, ◌<◌, ◌≡◌, ◌≢◌, refl, sym, ap, ◌∙◌, Bool, true, ◌⊎◌, inl, inr, update, arith,
  ℕ_discrete,
}
use mathlib.Core.Path.{subst}
use torc_lite.Threads.{Place, starting, initialising, entering, Threads, move, before_start}
use torc_lite.Tally.{tally, tally-update, tally-all, tally-none, tally-full, update_self}
use torc_lite.Threads.Places.{stage, counted, alive, counted-one, IsSound}
use torc_lite.Threads.Places.Moves.{stage_self, stage_other}

-- Another node has ended the program, or this one does.
pub told-IsSound :
    (k f : ℕ) (s : Threads) → IsSound k s → IsSound k (record s { appl_finished = f })
told-IsSound k f s i = record {
  counts = i.counts;
  actives = i.actives;
  main = i.main;
  workers = i.workers;
  outside = i.outside;
  left = i.left;
  ready = i.ready;
  worked = i.worked;
  last = i.last;
}

-- Before the main thread has been counted, no thread works.
pub early :
    (k : ℕ) (s : Threads)
    → IsSound k s
    → 0 < k
    → stage (s.place 0) < 4
    → (v : ℕ) → stage (s.place v) < 5
early k s o b e v = elim (dec_lt (stage (s.place v)) 5) [
  | yes lt ↦ lt
  | no ge ↦
      let full : k ≤ tally counted s.place k = omega (arith, o.counts, o.worked v (omega arith)) in
      let one = tally-full counted counted-one s.place 0 k b full in absurd (ground (arith, one, e))
]

starting_arg : Place → ℕ
starting_arg (starting i) = i
starting_arg _ = 0

pub starting_eq : {i j : ℕ} → starting i ≡ starting j → i ≡ j
unfolding starting_arg
starting_eq e = ap starting_arg e

module _ (k i : ℕ) (s : Threads) (o : IsSound k s) (at : s.place 0 ≡ starting i) where
  at_1 : stage (s.place 0) ≡ 1
  at_1 = ap stage at

  module _ (b : i < k) where
    l : (1 ≤ i) × ((v : ℕ) → i ≤ v → stage (s.place v) ≡ 0)
    l = o.left i at

    s1 : Threads
    s1 = move i entering s

    next : Threads
    next = move 0 (starting (suc i)) s1

    main_1 : stage (next.place 0) ≡ 1
    unfolding next
    main_1 = stage_self k 0 (starting (suc i)) s1

    new_3 : stage (next.place i) ≡ 3
    unfolding next s1
    new_3 =
        stage_other k 0 (starting (suc i)) s1 i (λ e. omega (arith, l.0))
        ∙ stage_self k i entering s

    others : (u : ℕ) → u ≢ 0 → u ≢ i → stage (next.place u) ≡ stage (s.place u)
    unfolding next s1
    others u nz ni =
        stage_other k 0 (starting (suc i)) s1 u (λ e. nz (sym e))
        ∙ stage_other k i entering s u (λ e. ni (sym e))

    same_counted : tally counted next.place k ≡ tally counted s.place k
    unfolding next s1
    same_counted =
        let first = tally-update counted s.place i k entering b in
        let then' = tally-update counted s1.place 0 k (starting (suc i)) (omega arith) in
        let old : counted i (s.place i) ≡ 0 = ground (arith, l.1 i (omega arith)) in
        let zero_1 : stage (s1.place 0) ≡ 1 =
          stage_other k i entering s 0 (λ e. omega (arith, l.0)) ∙ at_1 in
        let old_0 : counted 0 (s1.place 0) ≡ 0 = ground (arith, zero_1) in
        omega (arith, first, then', old, old_0)

    unworked : (u : ℕ) → stage (next.place u) < 5
    unworked u = elim (ℕ_discrete u 0) [
      | yes z ↦ omega (arith, ap (λ w. stage (next.place w)) z, main_1)
      | no nz ↦ elim (ℕ_discrete u i) [
        | yes e ↦ omega (arith, ap (λ w. stage (next.place w)) e, new_3)
        | no ni ↦ omega (arith, others u nz ni, early k s o (omega arith) (omega (arith, at_1)) u)
      ]
    ]

    pub start_worker-IsSound : IsSound k (move 0 (starting (suc i)) (move i entering s))
    unfolding next s1
    start_worker-IsSound = record {
      counts = omega (arith, o.counts, same_counted);
      actives = λ h. absurd (omega (arith, h, main_1));
      main = omega (arith, main_1);
      workers = λ u nz. elim (ℕ_discrete u i) [
        | yes e ↦ inr (omega (arith, ap (λ w. stage (next.place w)) e, new_3))
        | no ni ↦ subst (λ z. (z ≡ 0) ⊎ (3 ≤ z)) (sym (others u nz ni)) (o.workers u nz)
      ];
      outside = λ u h. omega (arith, others u (λ e. omega arith) (λ e. omega arith), o.outside u h);
      left = λ j e.
          let same : suc i ≡ j =
            starting_eq (sym (update_self s1.place 0 (starting (suc i))) ∙ e) in
          (
            omega arith,
            λ u h.
                omega (arith, others u (λ z. omega arith) (λ z. omega arith), l.1 u (omega arith)),
          );
      ready = λ h. absurd (omega (arith, h, main_1));
      worked = λ u h. absurd (omega (arith, h, unworked u));
      last = λ h. absurd (omega (arith, h, main_1));
    }

-- The main thread is not yet counted and moves to `x`, also not counted.
module _ (k : ℕ) (s : Threads) (o : IsSound k s) (b : 0 < k) (lt : stage (s.place 0) < 4)
    (x : Place) where
  later : (u : ℕ) → u ≢ 0 → stage (update s.place 0 x u) ≡ stage (s.place u)
  later u nz = stage_other k 0 x s u (λ e. nz (sym e))

  head : stage (update s.place 0 x 0) ≡ stage x
  head = stage_self k 0 x s

  arrived-IsSound :
      (a : ℕ) (ready : Bool)
      → 2 ≤ stage x
      → stage x < 4
      → a ≡ tally alive (update s.place 0 x) k
      → (3 ≤ stage x → ready ≡ true)
      → IsSound k (record (move 0 x s) { active_workers = a; node_info_ready = ready })
  arrived-IsSound a ready two four e r = record {
    counts =
        let moved = tally-update counted s.place 0 k x b in
        let old : counted 0 (s.place 0) ≡ 0 = ground (arith, lt) in
        let new : counted 0 x ≡ 0 = ground (arith, four) in
        omega (arith, o.counts, moved, old, new);
    actives = λ h. e;
    main = omega (arith, head);
    workers = λ u nz. subst (λ z. (z ≡ 0) ⊎ (3 ≤ z)) (sym (later u nz)) (o.workers u nz);
    outside = λ u h. omega (arith, later u (λ z. omega arith), o.outside u h);
    left = λ j f. absurd (omega (arith, ap stage f, head));
    ready = λ h. r (omega (arith, h, head));
    worked = λ u h. absurd (omega (arith, h, unworked u));
    last = λ h. absurd (omega (arith, h, head));
  }
    where
      unworked : (u : ℕ) → stage (update s.place 0 x u) < 5
      unworked u = elim (ℕ_discrete u 0) [
        | yes z ↦ omega (arith, ap (λ w. stage (update s.place 0 x w)) z, head)
        | no nz ↦ omega (arith, later u nz, early k s o b lt u)
      ]

module _ (k : ℕ) (s : Threads) (o : IsSound k s) (b : 0 < k) where
  -- All workers have been started.
  pub starts_done-IsSound :
      (i : ℕ)
      → s.place 0 ≡ starting i
      → IsSound k (record (move 0 initialising s) { active_workers = k })
  starts_done-IsSound i at =
      let lt : stage (s.place 0) < 4 = omega (arith, ap stage at) in
      arrived-IsSound k s o b lt initialising k s.node_info_ready (omega arith) (omega arith)
        (sym (tally-all alive (update s.place 0 initialising) k (λ v h. alive_yet lt v)))
        λ h. absurd (omega (arith, h))
    where
      alive_yet : stage (s.place 0) < 4 → (v : ℕ) → alive v (update s.place 0 initialising v) ≡ 1
      alive_yet lt v = elim (ℕ_discrete v 0) [
        | yes z ↦ ground (arith, z)
        | no nz ↦
            let same = later k s o b lt initialising v nz in
            ground (arith, same, early k s o b lt v)
      ]

  -- The table of the nodes has been filled.
  pub initialised-IsSound :
      s.place 0 ≡ initialising → IsSound k (record (move 0 entering s) { node_info_ready = true })
  initialised-IsSound at =
      let two : stage (s.place 0) ≡ 2 = ap stage at in
      let moved = tally-update alive s.place 0 k entering b in
      arrived-IsSound k s o b (omega (arith, two)) entering s.active_workers true (omega arith)
        (omega arith) (omega (arith, o.actives (omega (arith, two)), moved)) λ h. refl

pub before_start-IsSound : (k : ℕ) → 0 < k → IsSound k before_start
before_start-IsSound k b = record {
  counts = sym (tally-none counted before_start.place k (λ v h. ground arith));
  actives = λ h. absurd (omega (arith, h));
  main = omega arith;
  workers = λ v nz. inl (ground arith);
  outside = λ v h. ground arith;
  left = λ i e. let one : 1 ≡ i = starting_eq e in (omega arith, λ v h. ground arith);
  ready = λ h. absurd (omega (arith, h));
  worked = λ v h.
      let e : stage (before_start.place v) < 5 = ground arith in absurd (omega (arith, h, e));
  last = λ h. absurd (omega (arith, h));
}
