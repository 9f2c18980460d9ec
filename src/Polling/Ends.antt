-- ===== src/Polling/Ends.antt =====
-- When a poll ends, and what becomes of a descriptor that has waited in vain.
use torc_lite.Common.{
  ℕ, zero, suc, ◌<◌, ◌≡◌, refl, sym, ap, ◌∙◌, Bool, true, false, not, ◌||◌, ◌&&◌, Option, some,
  List, [], ◌∷◌, ◌++◌, if◌then◌else◌, ℕ_discrete, arith, true≢false,
}
use torc_lite.Desc.{Ptr, null, Desc, torc_no_work}
use torc_lite.Types.{Handles}
use torc_lite.Node.{Node, Thread, set_desc, torc_put_reused_desc}
use torc_lite.Scheduler.{receive_descriptor, stolen}
use torc_lite.Polling.{
  Event, sleeps, irecv, test, in_comm_cs, Polled, after, poll_loop, await_descriptor,
  receive_polled,
}

after-some :
    (es : List Event) (o : Polled) (b : Bool)
    → ((fs : List Event) × (o ≡ some (fs, b)))
    → (fs : List Event) × (after es o ≡ some (fs, b))
after-some es o b (fs, e) = (es ++ fs, rw e refl)

this_round :
    (s a : Bool) (fs : List Event) (rest : Polled)
    → (s || a) ≡ true
    → (es : List Event) × ((if s then some ([], false) else if a then some (fs, true) else rest)
        ≡ some (es, not s))
this_round true a fs rest e = ([], refl)
this_round false true fs rest e = (fs, refl)
this_round false false fs rest e = absurd (true≢false (sym e))

later_round :
    (s a : Bool) (fs : List Event) (rest : Polled)
    → (s || a) ≡ false
    → (if s then some ([], false) else if a then some (fs, true) else rest) ≡ rest
later_round true a fs rest e = absurd (true≢false e)
later_round false true fs rest e = absurd (true≢false e)
later_round false false fs rest e = refl

module _ (stops arrives : ℕ → Bool) where
  poll_loop-ends :
      (k j : ℕ)
      → j < k
      → (stops j || arrives j) ≡ true
      → ((i : ℕ) → j < i → i < k → (stops i || arrives i) ≡ false)
      → (es : List Event) × (poll_loop stops arrives k ≡ some (es, not (stops j)))
  unfolding poll_loop
  poll_loop-ends zero j b e q = absurd (omega arith)
  poll_loop-ends (suc k) j b e q = elim (ℕ_discrete j k) [
    | yes z ↦
        let (es, u) =
          this_round (stops k) (arrives k) (in_comm_cs false test)
            (after (in_comm_cs false test) (after (sleeps ∷ []) (poll_loop stops arrives k)))
            (ap (λ i. stops i || arrives i) (sym z) ∙ e) in
        (es, u ∙ ap (λ i. some (es, not (stops i))) (sym z))
    | no nz ↦
        let (es, u) = poll_loop-ends k j (omega arith) e (λ i lo hi. q i lo (omega arith)) in
        let (fs, v) = after-some (sleeps ∷ []) _ (not (stops j)) (es, u) in
        let (gs, w) = after-some (in_comm_cs false test) _ (not (stops j)) (fs, v) in
        (
          gs,
          later_round (stops k) (arrives k) (in_comm_cs false test) _
                (q k (omega arith) (omega arith))
              ∙ w,
        )
  ]

  await-ends :
      (k j : ℕ)
      → j < k
      → (stops j || arrives j) ≡ true
      → ((i : ℕ) → j < i → i < k → (stops i || arrives i) ≡ false)
      → (es : List Event) × (await_descriptor stops arrives false k ≡ some (es, not (stops j)))
  unfolding await_descriptor
  await-ends k j b e q =
      after-some (in_comm_cs false irecv) _ (not (stops j)) (poll_loop-ends k j b e q)

module _ (h : Handles) (type_size : ℕ → ℕ) (answer : (target : ℕ) → Node → Desc) (t : Thread)
    (stops arrives : ℕ → Bool) where
  -- What `receive_descriptor` does with the message, or without it.
  abbrev pub Received : (arrived : Bool) → Desc → Ptr → Node → Option Node → Type 0
  Received true d p n o = o ≡ receive_descriptor h type_size answer t d p n
  Received false d p n o =
      (m : Node) × (o ≡ some m)
      × (stolen h type_size answer t p m ≡ (torc_put_reused_desc p m, null))

  settled :
      (b success : Bool) (k : ℕ) (d : Desc) (p : Ptr) (n : Node)
      → ((es : List Event) × (await_descriptor stops arrives false k ≡ some (es, b)))
      → Received
          (b && success)
          d
          p
          n
          (receive_polled h type_size answer t stops arrives false success k d p n)
  unfolding receive_polled stolen
  settled true true k d p n (es, e) = rw e refl
  settled true false k d p n (es, e) =
      (set_desc p (record (n.desc p) { type = torc_no_work }) n, rw e refl, ground arith)
  settled false success k d p n (es, e) =
      (set_desc p (record (n.desc p) { type = torc_no_work }) n, rw e refl, ground arith)

  -- A thief waits for the answer of another node with an MPI library that is not thread safe. The
  -- first round in which the answer arrives or the program has ended is the one with `j` rounds
  -- left, of `k`. Then `receive_descriptor` ends in this round. If the program has not ended,
  -- and MPI reports no error, it does what it does with a thread-safe library; if MPI reports an
  -- error, or if the program has ended, even if the answer is there too, the request counts as refused: no task is taken, and the thief recycles its descriptor.
  pub receive_polled-ends :
      (success : Bool) (k j : ℕ) (d : Desc) (p : Ptr) (n : Node)
      → j < k
      → (stops j || arrives j) ≡ true
      → ((i : ℕ) → j < i → i < k → (stops i || arrives i) ≡ false)
      → Received
          (not (stops j) && success)
          d
          p
          n
          (receive_polled h type_size answer t stops arrives false success k d p n)
  receive_polled-ends success k j d p n b e q =
      settled (not (stops j)) success k d p n (await-ends stops arrives k j b e q)
