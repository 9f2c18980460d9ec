-- ===== src/Demo/Async/Table.antt =====
-- The table of tasks of demo/async.c: how many entries are in use, and how many done.
use mathlib.Core.Path.{subst}
use torc_lite.Common.{
  ℕ, zero, suc, ◌+◌, ◌≤◌, ◌<◌, ◌≡◌, ◌≢◌, refl, ap, ◌∙◌, Option, none, some, ◌==◌, ==_iff, ==_false,
  if◌then◌else◌, update, arith, ℕ_discrete,
}
use torc_lite.Common.Int.{ℤ}
use torc_lite.Tally.{tally, tally-update, tally-all, tally-none, tally-sum, update_self}
use torc_lite.Demo.Async.{
  data_entries, free, pending, done, Async, find_loop, find_tid, free_entry, free_loop,
}

-- Whether an entry is in use, and whether its task is done.
abbrev pub in_use : ℕ → ℕ → ℕ
in_use v s = if s == free then 0 else 1

abbrev pub is_done : ℕ → ℕ → ℕ
is_done v s = if s == done then 1 else 0

abbrev pub used : (ℕ → ℕ) → ℕ
used state = tally in_use state data_entries

abbrev pub finished : (ℕ → ℕ) → ℕ
finished state = tally is_done state data_entries

-- What the search for a free entry does.
abbrev Finds : (k i : ℕ) → (ℕ → ℕ) → Option ((ℕ → ℕ) × ℕ) → Type 0
Finds k i state none = (j : ℕ) → i ≤ j → j < i + k → state j ≢ free
Finds k i state (some (state', t)) =
    (i ≤ t) × (t < i + k) × (state t ≡ free) × (state' ≡ update state t pending)

find_loop-Finds : (k i : ℕ) (state : ℕ → ℕ) → Finds k i state (find_loop k i state)
unfolding find_loop
find_loop-Finds zero i state = λ j a b e. omega arith
find_loop-Finds (suc k) i state = elim (ℕ_discrete (state i) free) [
  | yes e ↦ rw ((==_iff (state i) free).1 e) (omega arith, omega arith, e, refl)
  | no ne ↦
      rw (==_false (state i) free ne)
        (later (find_loop k (suc i) state) (find_loop-Finds k (suc i) state) ne)
]
  where
    later :
        (o : Option ((ℕ → ℕ) × ℕ))
        → Finds k (suc i) state o
        → state i ≢ free
        → Finds (suc k) i state o
    later none f ne = λ j a b. elim (ℕ_discrete i j) [
      | yes e ↦ λ z. ne (ap state e ∙ z)
      | no d ↦ f j (omega arith) (omega arith)
    ]
    later (some (state', t)) f ne = (omega (arith, f.0), omega (arith, f.1), f.2, f.3)

-- A table that has become fuller by one pending entry.
pub record Fuller (state : ℕ → ℕ) (r : (ℕ → ℕ) × ℕ) : Type 0 where
  pub used_more : used r.0 ≡ used state + 1
  pub as_finished : finished r.0 ≡ finished state
  pub in_range : r.1 < data_entries
  pub was_free : state r.1 ≡ free
  pub is_pending : r.0 r.1 ≡ pending

Fuller-update :
    (state : ℕ → ℕ) (t : ℕ)
    → t < data_entries
    → state t ≡ free
    → Fuller state (update state t pending, t)
Fuller-update state t b e =
    let u = tally-update in_use state t data_entries pending b in
    let d = tally-update is_done state t data_entries pending b in
    let was = ap (in_use t) e in
    let undone = ap (is_done t) e in
    record {
      used_more = omega (arith, u, was);
      as_finished = omega (arith, d, undone);
      in_range = b;
      was_free = e;
      is_pending = update_self state t pending;
    }

find_tid-Fuller :
    (state : ℕ → ℕ) (o : Option ((ℕ → ℕ) × ℕ))
    → Finds data_entries 0 state o
    → used state < data_entries
    → (r : (ℕ → ℕ) × ℕ) × (o ≡ some r) × Fuller state r
find_tid-Fuller state none f b =
    let all : (j : ℕ) → j < data_entries → in_use j (state j) ≡ 1 =
      λ j h. let ne = f j (omega arith) h in ground (arith, ne) in
    absurd (omega (arith, b, tally-all in_use state data_entries all))
find_tid-Fuller state (some (state', t)) f b =
    ((state', t), refl, rw f.3 (Fuller-update state t (omega (arith, f.1)) f.2))

-- While an entry is free, the search finds one.
pub find_tid-some :
    (state : ℕ → ℕ)
    → used state < data_entries
    → (r : (ℕ → ℕ) × ℕ) × (find_tid state ≡ some r) × Fuller state r
unfolding find_tid
find_tid-some state b =
    find_tid-Fuller state (find_loop data_entries 0 state) (find_loop-Finds data_entries 0 state) b

-- The task of a pending entry is done.
pub done-table :
    (state : ℕ → ℕ) (t : ℕ)
    → t < data_entries
    → state t ≡ pending
    → (used (update state t done) ≡ used state)
      × (finished (update state t done) ≡ finished state + 1)
done-table state t b e =
    let u = tally-update in_use state t data_entries done b in
    let d = tally-update is_done state t data_entries done b in
    let was = ap (in_use t) e in
    let undone = ap (is_done t) e in (omega (arith, u, was), omega (arith, d, undone))

-- The entries that are done are freed.
abbrev freed : ℕ → ℕ
freed s = if s == done then free else s

module _ {D : Type 0} (of_int : ℤ → D) where
  free_entry_self : (i : ℕ) (s : Async D) → (free_entry of_int i s).state i ≡ freed (s.state i)
  unfolding free_entry
  free_entry_self i s = ground arith

  free_entry_other : (i j : ℕ) (s : Async D) → i ≢ j → (free_entry of_int i s).state j ≡ s.state j
  unfolding free_entry
  free_entry_other i j s ne = ground arith

  free_entry-rest :
      (i : ℕ) (s : Async D)
      → ((free_entry of_int i s).completed ≡ s.completed)
        × ((free_entry of_int i s).exit_flag ≡ s.exit_flag)
  unfolding free_entry
  free_entry-rest i s = ground arith

  pub free_loop-rest :
      (k i : ℕ) (s : Async D)
      → ((free_loop of_int k i s).completed ≡ s.completed)
        × ((free_loop of_int k i s).exit_flag ≡ s.exit_flag)
  unfolding free_loop
  free_loop-rest zero i s = (refl, refl)
  free_loop-rest (suc k) i s =
      let r = free_loop-rest k (suc i) (free_entry of_int i s) in
      let e = free_entry-rest i s in (r.0 ∙ e.0, r.1 ∙ e.1)

  free_loop-before :
      (k i j : ℕ) (s : Async D) → j < i → (free_loop of_int k i s).state j ≡ s.state j
  unfolding free_loop
  free_loop-before zero i j s b = refl
  free_loop-before (suc k) i j s b =
      free_loop-before k (suc i) j (free_entry of_int i s) (omega arith)
      ∙ free_entry_other i j s (λ e. omega arith)

  free_loop-state :
      (k i j : ℕ) (s : Async D)
      → i ≤ j
      → j < i + k
      → (free_loop of_int k i s).state j ≡ freed (s.state j)
  unfolding free_loop
  free_loop-state zero i j s a b = absurd (omega arith)
  free_loop-state (suc k) i j s a b = elim (ℕ_discrete i j) [
    | yes e ↦
        free_loop-before k (suc i) j (free_entry of_int i s) (omega arith)
        ∙ subst (λ x. (free_entry of_int i s).state x ≡ freed (s.state x)) e (free_entry_self i s)
    | no ne ↦
        free_loop-state k (suc i) j (free_entry of_int i s) (omega arith) (omega arith)
        ∙ ap freed (free_entry_other i j s ne)
  ]

  -- Afterwards none is done, and the others are in use as before.
  pub free_loop-table :
      (s : Async D)
      → let s' = free_loop of_int data_entries 0 s in
        (used s'.state + finished s.state ≡ used s.state) × (finished s'.state ≡ 0)
  free_loop-table s =
      let s' = free_loop of_int data_entries 0 s in
      (
        tally-sum in_use is_done in_use s'.state s.state s.state data_entries (λ j b.
            let e = free_loop-state data_entries 0 j s (omega arith) b in ground (arith, e)),
        tally-none is_done s'.state data_entries (λ j b.
            let e = free_loop-state data_entries 0 j s (omega arith) b in ground (arith, e)),
      )
