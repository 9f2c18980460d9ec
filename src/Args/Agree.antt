-- ===== src/Args/Agree.antt =====
-- What sender and receiver of a task's arguments, and of its results, exchange (src/torc_comm.c).
use torc_lite.Common.{
  ℕ, zero, suc, ◌+◌, ◌≤◌, ◌<◌, ◌≡◌, ◌≢◌, refl, sym, ap, ap₂, ◌∙◌, Option, none, some, List, ◌++◌,
  map, ◌>>=◌, arith,
}
use torc_lite.Desc.{Arg, Desc}
use torc_lite.Types.{Handles, torc_b2mpi_type}
use torc_lite.Args.{
  Packet, envelope, send_argument, send_loop, send_arguments, Received, receive_argument,
  receive_loop, receive_arguments, send_result, result_loop, send_results, receive_result,
  receive_results_loop, receive_results, start,
}
use mathlib.Core.List.{map-append, append-nil, append_assoc}

-- What task creation establishes of an argument: its data type is supported, and it is passed in
-- one of the six ways.
pub record IsSendable (h : Handles) (a : Arg) : Type 0 where
  pub typed : torc_b2mpi_type h a.btype ≡ some a.dtype
  pub from : 1 ≤ a.callway
  pub to : a.callway ≤ 6

module _ (h : Handles) (type_size : ℕ → ℕ) (node tag : ℕ) (d : Desc) where
  -- One argument: the receive is posted exactly if the send is, with the same envelope.
  abbrev Matches : ℕ → Received → Option Received → Type 0
  Matches i r none = ⊥
  Matches i r (some r') =
      (map envelope r'.packets
        ≡ map envelope r.packets ++ map envelope (send_argument node tag d i))
      × ((j : ℕ) → j ≢ i → r'.args j ≡ r.args j)

  argument-Matches :
      (i : ℕ) (r : Received)
      → IsSendable h (d.args i)
      → r.args i ≡ d.args i
      → Matches i r (receive_argument h type_size tag d i r)
  unfolding receive_argument send_argument
  argument-Matches i r is e = rw e (rw is.typed (grind (arith, map-append, append-nil)))

  -- The same of all arguments from number `i` on.
  abbrev MatchesFrom : (k i : ℕ) → Received → Option Received → Type 0
  MatchesFrom k i r none = ⊥
  MatchesFrom k i r (some r') =
      map envelope r'.packets ≡ map envelope r.packets ++ map envelope (send_loop node tag d k i)

  Matches-then :
      (k i : ℕ) (r : Received) (o : Option Received)
      → Matches i r o
      → ((j : ℕ) → i ≤ j → r.args j ≡ d.args j)
      → ((r' : Received)
          → ((j : ℕ) → suc i ≤ j → r'.args j ≡ d.args j)
          → MatchesFrom k (suc i) r' (receive_loop h type_size tag d k (suc i) r'))
      → MatchesFrom (suc k) i r (o >>= receive_loop h type_size tag d k (suc i))
  unfolding send_loop
  Matches-then k i r none m same rest = absurd m
  Matches-then k i r (some r') m same rest =
      join _ (rest r' (λ j b. m.1 j (omega arith) ∙ same j (omega arith)))
    where
      join : (o : Option Received) → MatchesFrom k (suc i) r' o → MatchesFrom (suc k) i r o
      join none f = f
      join (some r'') f =
          f
          ∙ ap (λ l. l ++ map envelope (send_loop node tag d k (suc i))) m.0
          ∙ append_assoc (map envelope r.packets) _ _
          ∙ ap (◌++◌ (map envelope r.packets)) (sym (map-append envelope _ _))

  loop-Matches :
      (k i : ℕ) (r : Received)
      → ((j : ℕ) → j < i + k → IsSendable h (d.args j))
      → ((j : ℕ) → i ≤ j → r.args j ≡ d.args j)
      → MatchesFrom k i r (receive_loop h type_size tag d k i r)
  unfolding receive_loop
  loop-Matches zero i r is same = unfold send_loop in sym (append-nil _)
  loop-Matches (suc k) i r is same =
      Matches-then k i r _ (argument-Matches i r (is i (omega arith)) (same i (omega arith))) same
        λ r' same'. loop-Matches k (suc i) r' (λ j b. is j (omega arith)) same'

  loop_some :
      (k i : ℕ) (r : Received) (o : Option Received)
      → MatchesFrom k i r o
      → (r' : Received) × (o ≡ some r')
        × (map envelope r'.packets
            ≡ map envelope r.packets ++ map envelope (send_loop node tag d k i))
  loop_some k i r none m = absurd m
  loop_some k i r (some r') m = (r', refl, m)

  -- The receiver of a descriptor whose arguments are all fit to be sent stops at no unsupported
  -- type, and posts receives that agree, one by one and in order, in count, data type and tag with
  -- the sends of `send_arguments`.
  pub arguments_agree :
      (fresh : ℕ)
      → ((i : ℕ) → i < d.narg → IsSendable h (d.args i))
      → (r : Received) × (receive_arguments h type_size tag fresh d ≡ some r)
        × (map envelope r.packets ≡ map envelope (send_arguments node tag d))
  unfolding receive_arguments send_arguments
  arguments_agree fresh is =
      loop_some d.narg 0 (start fresh d) _
        (loop-Matches d.narg 0 (start fresh d) (λ j b. is j (omega arith)) (λ j b. refl))

module _ (h : Handles) (tag : ℕ) (d : Desc) where
  abbrev Answers : List Packet → Option (List Packet) → Type 0
  Answers ps none = ⊥
  Answers ps (some qs) = map envelope qs ≡ map envelope ps

  result-Answers :
      (i : ℕ) → IsSendable h (d.args i) → Answers (send_result tag d i) (receive_result h tag d i)
  unfolding send_result receive_result
  result-Answers i is = rw is.typed (ground arith)

  both_answer :
      (ps qs : List Packet) (o u : Option (List Packet))
      → Answers ps o
      → Answers qs u
      → Answers (ps ++ qs) (o >>= λ xs. u >>= λ ys. some (xs ++ ys))
  both_answer ps qs none u a b = absurd a
  both_answer ps qs (some xs) none a b = absurd b
  both_answer ps qs (some xs) (some ys) a b =
      map-append envelope xs ys ∙ ap₂ ◌++◌ a b ∙ sym (map-append envelope ps qs)

  results_loop-Answers :
      (k i : ℕ)
      → ((j : ℕ) → j < i + k → IsSendable h (d.args j))
      → Answers (result_loop tag d k i) (receive_results_loop h tag d k i)
  unfolding result_loop receive_results_loop
  results_loop-Answers zero i is = refl
  results_loop-Answers (suc k) i is =
      both_answer _ _ _ _ (result-Answers i (is i (omega arith)))
        (results_loop-Answers k (suc i) (λ j b. is j (omega arith)))

  Answers-some :
      (ps : List Packet) (o : Option (List Packet))
      → Answers ps o
      → (qs : List Packet) × (o ≡ some qs) × (map envelope qs ≡ map envelope ps)
  Answers-some ps none a = absurd a
  Answers-some ps (some qs) a = (qs, refl, a)

  -- The node that a finished task came from, if the arguments are all fit to be sent, posts
  -- receives that agree, one by one and in order, in count, data type and tag with the results that
  -- are sent back.
  pub results_agree :
      ((i : ℕ) → i < d.narg → IsSendable h (d.args i))
      → (qs : List Packet) × (receive_results h tag d ≡ some qs)
        × (map envelope qs ≡ map envelope (send_results tag d))
  unfolding receive_results send_results
  results_agree is = Answers-some _ _ (results_loop-Answers d.narg 0 (λ j b. is j (omega arith)))
