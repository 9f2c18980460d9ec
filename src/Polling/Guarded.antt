-- ===== src/Polling/Guarded.antt =====
-- MPI is called under the mutex, and the mutex is free while a thread sleeps.
use torc_lite.Common.{
  ℕ, zero, suc, ◌≡◌, refl, ◌∙◌, Bool, Option-cases, inl, inr, true, false, Option, none, some, List,
  [], ◌∷◌, ◌++◌, if◌then◌else◌, ◌>>=◌, Always, Always-none, Always-some, Always-if,
}
use torc_lite.Polling.{
  Event, acquires, releases, irecv, wait, test, sleeps, in_comm_cs, enter_comm_cs, leave_comm_cs,
  Polled, after, poll_loop, await_descriptor, await_request,
}

-- One event of a thread that holds the mutex or not: what it holds afterwards, or `none` if the
-- event is not allowed. The mutex is not recursive; every call of MPI is made under it; a thread
-- that sleeps or waits for a message does not hold it.
abbrev one_event : (held : Bool) → Event → Option Bool
one_event held acquires = if held then none else some true
one_event held releases = if held then some false else none
one_event held irecv = if held then some true else none
one_event held test = if held then some true else none
one_event held wait = if held then none else some false
one_event held sleeps = if held then none else some false

unfoldable pub replay : (held : Bool) → List Event → Option Bool
replay held [] = some held
replay held (e ∷ es) = one_event held e >>= λ held'. replay held' es

-- A sequence of events that leaves the mutex as it was, free.
abbrev pub IsGuarded : List Event → Type 0
IsGuarded es = replay false es ≡ some false

abbrev pub Guards : List Event × Bool → Type 0
Guards r = IsGuarded r.0

replay-append :
    (held : Bool) (es fs : List Event)
    → replay held (es ++ fs) ≡ replay held es >>= λ held'. replay held' fs
unfolding replay
replay-append held [] fs = refl
replay-append held (e ∷ es) fs = elim (Option-cases (one_event held e)) [
  | inl n ↦ rw n refl
  | inr (b, n) ↦ rw n (replay-append b es fs)
]

IsGuarded-append : (es fs : List Event) → IsGuarded es → IsGuarded fs → IsGuarded (es ++ fs)
IsGuarded-append es fs g h = replay-append false es fs ∙ rw g h

after-Guards :
    (es : List Event) (o : Polled) → IsGuarded es → Always Guards o → Always Guards (after es o)
after-Guards es none g a = Always-none Guards
after-Guards es (some (fs, b)) g a =
    Always-some Guards (es ++ fs, b) (IsGuarded-append es fs g (a (fs, b) refl))

in_comm_cs-IsGuarded : (e : Event) → one_event true e ≡ some true → IsGuarded (in_comm_cs false e)
unfolding in_comm_cs replay enter_comm_cs leave_comm_cs
in_comm_cs-IsGuarded e g = rw g refl

module _ (stops arrives : ℕ → Bool) where
  poll_loop-Guards : (k : ℕ) → Always Guards (poll_loop stops arrives k)
  unfolding poll_loop replay
  poll_loop-Guards zero = Always-none Guards
  poll_loop-Guards (suc k) =
      let tested = in_comm_cs-IsGuarded test refl in
      Always-if Guards (stops k) _ _ (Always-some Guards ([], false) refl) (
        Always-if Guards (arrives k) _ _ (Always-some Guards (in_comm_cs false test, true) tested) (
          after-Guards (in_comm_cs false test) _ tested
            (after-Guards (sleeps ∷ []) _ refl (poll_loop-Guards k))))

  received-Guards :
      (k : ℕ) → Always Guards (after (in_comm_cs false irecv) (poll_loop stops arrives k))
  unfolding replay
  received-Guards k =
      after-Guards (in_comm_cs false irecv) _ (in_comm_cs-IsGuarded irecv refl) (poll_loop-Guards k)

  -- With an MPI library that is not thread safe, whatever `MPI_Test` says and whenever the program
  -- ends, a thread that waits in `receive_descriptor` for the message, until it has come or the
  -- program has ended, and the server thread that waits in its loop for one, take the mutex of MPI
  -- only when they do not have it, release it only when they have it, call MPI only while they have
  -- it, do not have it while they sleep, and do not have it when they stop waiting.
  pub polls-Guards :
      (k : ℕ) (stops_first : Bool)
      → Always Guards (await_descriptor stops arrives false k)
        × Always Guards (await_request stops arrives false stops_first k)
  unfolding await_descriptor await_request replay
  polls-Guards k stops_first = (
    received-Guards k,
    Always-if Guards stops_first _ _ (Always-some Guards ([], false) refl) (received-Guards k),
  )
