-- ===== src/Threads/Runs.antt =====
-- The threads of a node in any order of their steps: when they begin to work, and when the main
-- thread ends the program.
use native.Mathlib.Nat.{mod-eq_of_lt}
use torc_lite.Common.{
  ℕ, ◌+◌, ◌^◌, ◌≤◌, ◌<◌, ◌≡◌, ◌≢◌, refl, sym, ap, ◌∙◌, Bool, true, false, inl, inr, ◌==◌, ==_iff,
  ==_false, ltb, lt→ltb, if◌then◌else◌, update, arith, ℕ_discrete, dec_lt, Always, Always-none,
  Always-some,
}
use torc_lite.Threads.{
  Place, absent, starting, initialising, entering, waiting, working, ending, exited, Threads, move,
  incremented, decremented, torc_md_end, step_at, step, torc_end, Reach, begins, goes_on, finalizes,
  told,
}
use torc_lite.Tally.{tally, tally-update, tally-ge, tally-two, tally-le, tally-full}
use torc_lite.Threads.Places.{stage, counted, alive, counted-one, IsSound}
use torc_lite.Threads.Places.Moves.{moved-IsSound}
use torc_lite.Threads.Places.Starts.{
  told-IsSound, start_worker-IsSound, starts_done-IsSound, initialised-IsSound,
  before_start-IsSound,
}

alive_until : (v : ℕ) (p : Place) → stage p < 7 → alive v p ≡ 1
alive_until v p b = ground arith

stage_le : (p : Place) → stage p ≤ 7
stage_le p = ground arith

alive_zero : (u : ℕ) (p : Place) → 1 ≤ u → alive u p ≡ 0 → 7 ≤ stage p
alive_zero u p lo z = ground (arith, lo, z)

counted_stage : (v : ℕ) (p : Place) → counted v p ≡ 1 → 4 ≤ stage p
counted_stage v p one = ground (arith, one)

ltb_no : (a b : ℕ) → ¬ (a < b) → ltb a b ≡ false
ltb_no a b h = ground arith

either :
    {k : ℕ} (b : Bool) (x y : Threads) → IsSound k x → IsSound k y → IsSound k (if b then x else y)
either true x y f g = f
either false x y f g = g

pub stage_exited : (p : Place) → stage p ≡ 7 → p ≡ exited
stage_exited exited e = refl
stage_exited absent e = absurd (omega (arith, e))
stage_exited (starting i) e = absurd (omega (arith, e))
stage_exited initialising e = absurd (omega (arith, e))
stage_exited entering e = absurd (omega (arith, e))
stage_exited waiting e = absurd (omega (arith, e))
stage_exited working e = absurd (omega (arith, e))
stage_exited ending e = absurd (omega (arith, e))

module _ (k : ℕ) (few : k < 2 ^ 32) (s : Threads) (o : IsSound k s) (v : ℕ) where
  inside : (p : Place) → s.place v ≡ p → 1 ≤ stage p → v < k
  inside p e h = elim (dec_lt v k) [
    | yes b ↦ b
    | no ge ↦ absurd (omega (arith, h, ap stage e, o.outside v (omega arith)))
  ]

  is_main : (p : Place) → s.place v ≡ p → 1 ≤ stage p → stage p < 3 → v ≡ 0
  is_main p e h b = elim (ℕ_discrete v 0) [
    | yes z ↦ z
    | no nz ↦ elim (o.workers v nz) [
      | inl u ↦ absurd (omega (arith, ap stage e, u, h))
      | inr u ↦ absurd (omega (arith, ap stage e, u, b))
    ]
  ]

  enters :
      s.place v ≡ entering
      → IsSound k (record (move v waiting s) { created_workers = incremented s.created_workers })
  enters e =
      let b = inside entering e (omega arith) in
      let was : counted v (s.place v) ≡ 0 = ap (counted v) e in
      let more = tally-update counted s.place v k waiting b in
      let most = tally-le counted counted-one (update s.place v waiting) k in
      let room : s.created_workers + 1 ≤ k = omega (arith, o.counts, more, was, most) in
      let sum : incremented s.created_workers ≡ s.created_workers + 1 =
        mod-eq_of_lt (omega (arith, room, few)) in
      let at = ap stage e in
      moved-IsSound k v waiting s (incremented s.created_workers) s.active_workers o b
        (omega (arith, at)) (omega (arith, at)) (omega arith) (omega (arith, sum, was))
        (omega (
          arith,
          alive_until v (s.place v) (omega (arith, at)),
          alive_until v waiting (omega arith),
        ))
        (omega (arith, sum)) (λ h. absurd (omega (arith, h))) (λ z h. absurd (omega (arith, h)))

  -- A thread that has been counted goes on without changing a counter.
  passes :
      (p x : Place)
      → s.place v ≡ p
      → 4 ≤ stage p
      → stage p < 7
      → 4 ≤ stage x
      → stage x < 7
      → k ≤ s.created_workers
      → IsSound k (move v x s)
  passes p x e h b f g all =
      let at = ap stage e in
      let was : counted v (s.place v) ≡ 1 = ground (arith, at, h) in
      let is : counted v x ≡ 1 = ground (arith, f) in
      moved-IsSound k v x s s.created_workers s.active_workers o (inside p e (omega (arith, h)))
        (omega (arith, at, h)) (omega (arith, at, b)) (omega (arith, f)) (omega (arith, was, is))
        (omega (arith, alive_until v (s.place v) (omega (arith, at, b)), alive_until v x g))
        (omega arith) (λ z. all) λ z y. absurd (omega (arith, y, g))

  -- A thread exits, and `a` threads are still active.
  exits :
      (a : ℕ)
      → s.place v ≡ ending
      → a + 1 ≡ s.active_workers + alive v exited
      → (v ≡ 0 → (u : ℕ) → 1 ≤ u → u < k → stage (s.place u) ≡ 7)
      → IsSound k (record (move v exited s) { active_workers = a })
  exits a e ea lst =
      let at = ap stage e in
      let was = ap (counted v) e in
      moved-IsSound k v exited s s.created_workers a o (inside ending e (omega arith))
        (omega (arith, at)) (omega (arith, at)) (omega arith) (omega (arith, was))
        (omega (arith, ea, alive_until v (s.place v) (omega (arith, at)))) (omega arith)
        (λ h. o.worked v (omega (arith, at))) λ z h. lst z

  -- The main thread is the last.
  main_ends :
      s.place v ≡ ending
      → v ≡ 0
      → s.active_workers ≡ 1
      → IsSound k (record (move v exited s) { active_workers = s.active_workers })
  main_ends e z one =
      let at_0 : stage (s.place 0) ≡ 6 = ap (λ j. stage (s.place j)) (sym z) ∙ ap stage e in
      let still : alive v exited ≡ 1 = ground (arith, z) in
      exits s.active_workers e (omega (arith, still)) λ y u lo hi.
        let both = tally-two alive s.place 0 u k lo hi in
        let none_left : alive u (s.place u) ≡ 0 =
          omega (arith, both, one, o.actives (omega (arith, at_0))) in
        omega (arith, stage_le (s.place u), alive_zero u (s.place u) lo none_left)

  worker_ends :
      s.place v ≡ ending
      → v ≢ 0
      → IsSound k (record (move v exited s) { active_workers = decremented s.active_workers })
  worker_ends e nz =
      let at = ap stage e in
      let b = inside ending e (omega arith) in
      let full : k ≤ tally counted s.place k =
        omega (arith, o.counts, o.worked v (omega (arith, at))) in
      let main = tally-full counted counted-one s.place 0 k (omega (arith, b)) full in
      let set : 4 ≤ stage (s.place 0) = counted_stage 0 (s.place 0) main in
      let some_left : 1 ≤ s.active_workers = omega (
        arith,
        tally-ge alive s.place v k b,
        o.actives (omega (arith, set)),
        alive_until v (s.place v) (omega (arith, at)),
      ) in
      let less : decremented s.active_workers + 1 ≡ s.active_workers = ground (arith, some_left) in
      let gone : alive v exited ≡ 0 = ground (arith, nz) in
      exits (decremented s.active_workers) e (omega (arith, less, gone)) λ z. absurd (nz z)

  step_at-IsSound : (p : Place) → s.place v ≡ p → Always (IsSound k) (step_at k v p s)
  unfolding step_at torc_md_end
  step_at-IsSound absent e = Always-none (IsSound k)
  step_at-IsSound (starting i) e =
      let z = is_main (starting i) e (omega arith) (omega arith) in
      let b : 0 < k = omega (arith, inside (starting i) e (omega arith)) in
      let e_0 = ap s.place (sym z) ∙ e in
      elim (dec_lt i k) [
        | yes lt ↦
            rw (lt→ltb i k lt)
              (rw z (Always-some (IsSound k) _ (start_worker-IsSound k i s o e_0 lt)))
        | no ge ↦
            rw (ltb_no i k ge)
              (rw z (Always-some (IsSound k) _ (starts_done-IsSound k s o b i e_0)))
      ]
  step_at-IsSound initialising e =
      let z = is_main initialising e (omega arith) (omega arith) in
      let b : 0 < k = omega (arith, inside initialising e (omega arith)) in
      rw z (Always-some (IsSound k) _ (initialised-IsSound k s o b (ap s.place (sym z) ∙ e)))
  step_at-IsSound entering e = Always-some (IsSound k) _ (enters e)
  step_at-IsSound waiting e = elim (dec_lt s.created_workers k) [
    | yes lt ↦ rw (lt→ltb s.created_workers k lt) (Always-some (IsSound k) s o)
    | no ge ↦ rw (ltb_no s.created_workers k ge) (
        Always-some (IsSound k) _ (
          passes waiting working e (omega arith) (omega arith) (omega arith) (omega arith)
            (omega arith)))
  ]
  step_at-IsSound working e = Always-some (IsSound k) _ (
      either (s.appl_finished == 1) (move v ending s) s
        (passes working ending e (omega arith) (omega arith) (omega arith) (omega arith)
          (o.worked v (omega (arith, ap stage e))))
        o)
  step_at-IsSound ending e = Always-some (IsSound k) _ (elim (ℕ_discrete v 0) [
    | yes z ↦ rw ((==_iff v 0).1 z) (elim (ℕ_discrete s.active_workers 1) [
      | yes one ↦ rw ((==_iff s.active_workers 1).1 one) (main_ends e z one)
      | no more ↦ rw (==_false s.active_workers 1 more) o
    ])
    | no nz ↦ rw (==_false v 0 nz) (worker_ends e nz)
  ])
  step_at-IsSound exited e = Always-none (IsSound k)

module _ (k : ℕ) (few : k < 2 ^ 32) (some_worker : 0 < k) where
  step-IsSound : (v : ℕ) (s : Threads) → IsSound k s → Always (IsSound k) (step k v s)
  unfolding step
  step-IsSound v s o = step_at-IsSound k few s o v (s.place v) refl

  ended-IsSound :
      (v : ℕ) (s : Threads) → IsSound k s → s.place v ≡ working → IsSound k (torc_end v s)
  unfolding torc_end
  ended-IsSound v s o e = told-IsSound k 1 (move v ending s) (
      passes k few s o v working ending e (omega arith) (omega arith) (omega arith) (omega arith)
        (o.worked v (omega (arith, ap stage e))))

  pub Reach-IsSound : {s : Threads} → Reach k s → IsSound k s
  Reach-IsSound begins = before_start-IsSound k some_worker
  Reach-IsSound (goes_on {s} {s'} v r e) = step-IsSound v s (Reach-IsSound r) s' e
  Reach-IsSound (finalizes {s} v r e) = ended-IsSound v s (Reach-IsSound r) e
  Reach-IsSound (told {s} r) = told-IsSound k (s.appl_finished + 1) s (Reach-IsSound r)

  -- A thread is in the application or in its scheduler loop, or has left it, only after all threads
  -- of the node have been counted, and so only after the table of the nodes has been filled.
  pub Reach-ready :
      {s : Threads} (v : ℕ)
      → Reach k s
      → 5 ≤ stage (s.place v)
      → (s.node_info_ready ≡ true)
        × (s.created_workers ≡ k)
        × ((u : ℕ) → u < k → 4 ≤ stage (s.place u))
  Reach-ready {s} v r h =
      let o = Reach-IsSound r in
      let full : k ≤ tally counted s.place k = omega (arith, o.counts, o.worked v h) in
      let all : (u : ℕ) → u < k → 4 ≤ stage (s.place u) =
        λ u b. counted_stage u (s.place u) (tally-full counted counted-one s.place u k b full) in
      (
        o.ready (omega (arith, all 0 some_worker)),
        omega (arith, o.counts, full, tally-le counted counted-one s.place k),
        all,
      )

  -- When the main thread has left the loop of `_torc_md_end`, all other threads of the node have
  -- exited.
  pub Reach-last :
      {s : Threads} → Reach k s → s.place 0 ≡ exited → (u : ℕ) → 1 ≤ u → u < k → s.place u ≡ exited
  Reach-last {s} r e u lo hi =
      stage_exited (s.place u) ((Reach-IsSound r).last (ap stage e) u lo hi)
