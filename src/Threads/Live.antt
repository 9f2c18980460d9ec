-- ===== src/Threads/Live.antt =====
-- A node whose program has ended: as long as its main thread has not exited, some thread goes on.
use torc_lite.Common.{
  ℕ, suc, ◌^◌, ◌≤◌, ◌<◌, ◌≡◌, ◌≢◌, inl, inr, refl, sym, ap, ◌∙◌, Bool, true, false, ◌==◌, ltb,
  lt→ltb, if◌then◌else◌, update, arith, ℕ_discrete, dec_lt, Always, Always-none, Always-some,
}
use torc_lite.Threads.{
  Place, absent, starting, initialising, entering, waiting, working, ending, exited, Threads, move,
  torc_md_end, step_at, step, torc_end, Reach, begins, goes_on, finalizes, told, before_start,
}
use torc_lite.Tally.{tally-update, update_self, update_other}
use torc_lite.Threads.Places.{stage, IsSound}
use torc_lite.Threads.Places.Starts.{starting_eq}
use torc_lite.Threads.Runs.{Reach-IsSound}
use torc_lite.Threads.Ends.{at_stage, Advances, moves, step_from, not_less, all_started}

-- A worker that has not been created will be.
abbrev AllStarted : ℕ → (ℕ → Place) → Type 0
AllStarted k place =
    (v : ℕ) → 1 ≤ v → v < k → stage (place v) ≡ 0 → (i : ℕ) × (place 0 ≡ starting i) × (i ≤ v)

abbrev Started : ℕ → Threads → Type 0
Started k s = AllStarted k s.place

module _ (k : ℕ) (s : Threads) (all : Started k s) where
  -- A thread moves and is not the main thread in its loop.
  kept :
      (v : ℕ) (x : Place)
      → 1 ≤ stage x
      → (v ≡ 0 → stage (s.place 0) ≢ 1)
      → AllStarted k (update s.place v x)
  kept v x h ne u lo hi z = elim (ℕ_discrete v u) [
    | yes same ↦
        let at : update s.place v x u ≡ x =
          ap (update s.place v x) (sym same) ∙ update_self s.place v x in
        absurd (omega (arith, ap stage at, z, h))
    | no other ↦
        let at : update s.place v x u ≡ s.place u = update_other s.place v u x other in
        let (i, f, b) = all u lo hi (sym (ap stage at) ∙ z) in
        let moved : v ≢ 0 = λ y. ne y (ap stage f) in (i, update_other s.place v 0 x moved ∙ f, b)
  ]

  -- The main thread starts the worker `j`.
  starts :
      (j : ℕ)
      → s.place 0 ≡ starting j
      → 1 ≤ j
      → Started k (move 0 (starting (suc j)) (move j entering s))
  starts j e one u lo hi z = elim (ℕ_discrete j u) [
    | yes same ↦
        let at : update (update s.place j entering) 0 (starting (suc j)) u ≡ entering =
          update_other (update s.place j entering) 0 u (starting (suc j)) (λ y. omega arith)
          ∙ ap (update s.place j entering) (sym same)
          ∙ update_self s.place j entering in
        absurd (omega (arith, ap stage at, z))
    | no other ↦
        let at : update (update s.place j entering) 0 (starting (suc j)) u ≡ s.place u =
          update_other (update s.place j entering) 0 u (starting (suc j)) (λ y. omega arith)
          ∙ update_other s.place j u entering other in
        let (i, f, b) = all u lo hi (sym (ap stage at) ∙ z) in
        let same : i ≡ j = starting_eq (sym f ∙ e) in
        (suc j, update_self (update s.place j entering) 0 (starting (suc j)), omega arith)
  ]

  -- The loop has reached its end.
  starts_end :
      (j : ℕ) → s.place 0 ≡ starting j → k ≤ j → AllStarted k (update s.place 0 initialising)
  starts_end j e ge u lo hi z =
      let at : update s.place 0 initialising u ≡ s.place u =
        update_other s.place 0 u initialising (λ y. omega arith) in
      let (i, f, b) = all u lo hi (sym (ap stage at) ∙ z) in
      let same : i ≡ j = starting_eq (sym f ∙ e) in absurd (omega arith)

either :
    {k : ℕ} (b : Bool) (x y : Threads) → Started k x → Started k y → Started k (if b then x else y)
either true x y f g = f
either false x y f g = g

module _ (k : ℕ) (s : Threads) (o : IsSound k s) (all : Started k s) (v : ℕ) where
  goes_to :
      (p x : Place) → s.place v ≡ p → stage p ≢ 1 → 1 ≤ stage x → AllStarted k (update s.place v x)
  goes_to p x e ne h =
      kept k s all v x h (λ z y. ne (sym (ap stage e) ∙ ap (λ u. stage (s.place u)) z ∙ y))

  step_at-Started : (p : Place) → s.place v ≡ p → Always (Started k) (step_at k v p s)
  unfolding step_at torc_md_end
  step_at-Started absent e = Always-none (Started k)
  step_at-Started (starting j) e =
      let z : v ≡ 0 = elim (ℕ_discrete v 0) [
        | yes z ↦ z
        | no nz ↦ elim (o.workers v nz) [
          | inl u ↦ absurd (omega (arith, ap stage e, u))
          | inr u ↦ absurd (omega (arith, ap stage e, u))
        ]
      ] in
      let at : s.place 0 ≡ starting j = ap s.place (sym z) ∙ e in
      elim (dec_lt j k) [
        | yes lt ↦
            rw (lt→ltb j k lt)
              (rw z (Always-some (Started k) _ (starts k s all j at ((o.left j at).0))))
        | no ge ↦
            rw (not_less k s j k (omega (arith, ge)))
              (rw z (Always-some (Started k) _ (starts_end k s all j at (omega (arith, ge)))))
      ]
  step_at-Started initialising e =
      Always-some (Started k) _
        (goes_to initialising entering e (λ y. omega (arith, y)) (omega arith))
  step_at-Started entering e =
      Always-some (Started k) _ (goes_to entering waiting e (λ y. omega (arith, y)) (omega arith))
  step_at-Started waiting e = Always-some (Started k) _ (
      either (ltb s.created_workers k) s (move v working s) all
        (goes_to waiting working e (λ y. omega (arith, y)) (omega arith)))
  step_at-Started working e = Always-some (Started k) _ (
      either (s.appl_finished == 1) (move v ending s) s
        (goes_to working ending e (λ y. omega (arith, y)) (omega arith)) all)
  step_at-Started ending e = Always-some (Started k) _ (
      either (v == 0) _ _
        (either (s.active_workers == 1) (move v exited s) s
          (goes_to ending exited e (λ y. omega (arith, y)) (omega arith)) all)
        (goes_to ending exited e (λ y. omega (arith, y)) (omega arith)))
  step_at-Started exited e = Always-none (Started k)

before_start-Started : (k : ℕ) → Started k before_start
before_start-Started k v lo hi z = (1, refl, lo)

module _ (k : ℕ) (few : k < 2 ^ 32) (some_worker : 0 < k) where
  Reach-Started : {s : Threads} → Reach k s → Started k s
  unfolding step torc_end
  Reach-Started begins = before_start-Started k
  Reach-Started (goes_on {s} {s'} v r e) =
      step_at-Started k s (Reach-IsSound k few some_worker r) (Reach-Started r) v (s.place v) refl
        s' e
  Reach-Started (finalizes {s} v r e) =
      goes_to k s (Reach-IsSound k few some_worker r) (Reach-Started r) v working ending e
        (λ y. omega (arith, y)) (omega arith)
  Reach-Started (told r) = Reach-Started r

  module _ {s : Threads} (o : IsSound k s) (all : Started k s) where
    -- The main thread has started the workers.
    late : (n : ℕ) → stage (s.place 0) ≡ n → 3 ≤ n → n < 7 → s.appl_finished ≡ 1 → Advances k s
    late n e lo hi f =
        all_started k s o some_worker f (λ z. omega (arith, e, z))
          λ u b. elim (ℕ_discrete u 0) [
            | yes z ↦ omega (arith, ap (λ w. stage (s.place w)) z, e)
            | no nz ↦ elim (o.workers u nz) [
              | inr h ↦ h
              | inl z ↦
                  let (i, at, le) = all u (omega (arith, nz)) b z in
                  absurd (omega (arith, ap stage at, e))
            ]
          ]

    -- The main thread starts a worker: two threads move.
    advance_start : (j : ℕ) → s.place 0 ≡ starting j → j < k → Advances k s
    unfolding step_at
    advance_start j e lt =
        let (lo, none_yet) = o.left j e in
        let first = tally-update at_stage s.place j k entering lt in
        let s1 : Threads = move j entering s in
        let then' = tally-update at_stage s1.place 0 k (starting (suc j)) some_worker in
        let same : stage (s1.place 0) ≡ 1 =
          ap stage (update_other s.place j 0 entering (λ z. omega arith)) ∙ ap stage e in
        record {
          thread = 0;
          after = move 0 (starting (suc j)) s1;
          goes = step_from k s 0 (starting j) e ∙ rw (lt→ltb j k lt) refl;
          further = omega (arith, first, then', same, none_yet j (omega arith));
          finished = refl;
        }

    advance : (p : Place) → s.place 0 ≡ p → p ≢ exited → s.appl_finished ≡ 1 → Advances k s
    unfolding step_at
    advance absent e ne f = absurd (omega (arith, ap stage e, o.main))
    advance (starting j) e ne f = elim (dec_lt j k) [
      | yes lt ↦ advance_start j e lt
      | no ge ↦
          moves k s 0 initialising (record (move 0 initialising s) { active_workers = k })
            some_worker
            (step_from k s 0 (starting j) e ∙ rw (not_less k s j k (omega (arith, ge))) refl) refl
            (omega (arith, ap stage e)) refl
    ]
    advance initialising e ne f =
        moves k s 0 entering _ some_worker (step_from k s 0 initialising e) refl
          (omega (arith, ap stage e)) refl
    advance entering e ne f = late 3 (ap stage e) (omega arith) (omega arith) f
    advance waiting e ne f = late 4 (ap stage e) (omega arith) (omega arith) f
    advance working e ne f = late 5 (ap stage e) (omega arith) (omega arith) f
    advance ending e ne f = late 6 (ap stage e) (omega arith) (omega arith) f
    advance exited e ne f = absurd (ne refl)

  -- In a state that the threads reach once the program has ended, some thread goes on as long as
  -- the main thread has not exited.
  pub Reach-advances :
      {s : Threads} → Reach k s → s.appl_finished ≡ 1 → stage (s.place 0) ≢ 7 → Advances k s
  Reach-advances {s} r f ne =
      advance (Reach-IsSound k few some_worker r) (Reach-Started r) (s.place 0) refl
        (λ e. ne (ap stage e)) f
