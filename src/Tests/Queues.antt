-- ===== src/Tests/Queues.antt =====
-- The queues of include/queues.h: a run of operations on a queue of three descriptors.
use torc_lite.Common.{◌≡◌, refl, List, [], ◌∷◌, update, arith}
use torc_lite.Desc.{null}
use torc_lite.Queue.{Links, queue}
use torc_lite.Queue.Chain.{IsQueue}
use torc_lite.Queue.Deque.{
  Op, put_head, put_tail, take_head, take_tail, AllAgree, AllLegal, run, spec_run, spec_step,
  without_last, last_of, run_refines_deque,
}

-- 1, 2 and 3, from head to tail.
abbrev three : Links
three = record {
  prev = update (update (λ _. null) 2 1) 3 2;
  next = update (update (λ _. null) 1 2) 2 3;
}

three-IsQueue : IsQueue three (queue 1 3) (1 ∷ 2 ∷ 3 ∷ [])
three-IsQueue = record { chain = omega arith; distinct = ground arith }

abbrev busy : List Op
busy = put_head 4 ∷ take_tail ∷ put_tail 5 ∷ take_head ∷ take_head ∷ []

busy_takes : (spec_run busy (1 ∷ 2 ∷ 3 ∷ [])).1 ≡ null ∷ 3 ∷ null ∷ 4 ∷ 1 ∷ []
unfolding spec_run spec_step last_of without_last
busy_takes = refl

busy_legal : AllLegal busy (1 ∷ 2 ∷ 3 ∷ [])
unfolding AllLegal spec_step last_of without_last
busy_legal = ground arith

run_refines_deque_example : AllAgree (spec_run busy (1 ∷ 2 ∷ 3 ∷ [])) (run busy (queue 1 3) three)
run_refines_deque_example =
    run_refines_deque busy three (queue 1 3) (1 ∷ 2 ∷ 3 ∷ []) three-IsQueue busy_legal
