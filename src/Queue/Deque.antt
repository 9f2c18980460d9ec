-- ===== src/Queue/Deque.antt =====
-- The specification of a queue of include/queues.h, a double-ended queue of pointers, and sequences
-- of operations on both.
use torc_lite.Common.{
  ◌≡◌, ◌≢◌, refl, List, [], ◌∷◌, ◌++◌, false, Option, none, some, has, ◌>>=◌, arith,
}
use torc_lite.Desc.{Ptr, null}
use torc_lite.Queue.{Links, Queue, enqueue_head, enqueue_tail, dequeue, dequeue_end}
use torc_lite.Queue.Chain.{IsQueue}
use torc_lite.Queue.Insert.{Inserts, enqueue_head-cons, enqueue_tail-append}
use torc_lite.Queue.Remove.{Takes, dequeue-nil, dequeue-cons, dequeue_end-nil, dequeue_end-append}

pub data Op : Type 0 where
  put_head put_tail : Ptr → Op
  take_head take_tail : Op

-- The linked queue, with the pointer that an operation takes (`null` for an insertion).
abbrev inserted : Option (Links × Queue) → Option (Links × Queue × Ptr)
inserted none = none
inserted (some (m, q)) = some (m, q, null)

unfoldable pub step : Op → Queue → Links → Option (Links × Queue × Ptr)
step (put_head e) q m = inserted (enqueue_head q e m)
step (put_tail e) q m = inserted (enqueue_tail q e m)
step take_head q m = dequeue q m
step take_tail q m = dequeue_end q m

unfoldable pub run : List Op → Queue → Links → Option (Links × Queue × List Ptr)
unfolding step
run [] q m = some (m, q, [])
run (o ∷ os) q m = do (m, q, p) ← step o q m; (m, q, ps) ← run os q m; some (m, q, p ∷ ps)

-- The double-ended queue.
unfoldable pub without_last : Ptr → List Ptr → List Ptr
without_last x [] = []
without_last x (y ∷ ys) = x ∷ without_last y ys

unfoldable pub last_of : Ptr → List Ptr → Ptr
last_of x [] = x
last_of x (y ∷ ys) = last_of y ys

unfoldable pub spec_step : Op → List Ptr → List Ptr × Ptr
spec_step (put_head e) xs = (e ∷ xs, null)
spec_step (put_tail e) xs = (xs ++ e ∷ [], null)
spec_step take_head [] = ([], null)
spec_step take_head (x ∷ xs) = (xs, x)
spec_step take_tail [] = ([], null)
spec_step take_tail (x ∷ xs) = (without_last x xs, last_of x xs)

unfoldable pub spec_run : List Op → List Ptr → List Ptr × List Ptr
spec_run [] xs = (xs, [])
spec_run (o ∷ os) xs = let (ys, p) = spec_step o xs in let (zs, ps) = spec_run os ys in (zs, p ∷ ps)

-- A descriptor is put in only while it is in no queue.
abbrev pub Legal : Op → List Ptr → Type 0
Legal (put_head e) xs = (e ≢ null) × (has e xs ≡ false)
Legal (put_tail e) xs = (e ≢ null) × (has e xs ≡ false)
Legal take_head xs = Unit
Legal take_tail xs = Unit

unfoldable pub AllLegal : List Op → List Ptr → Type 0
unfolding spec_step without_last last_of
AllLegal [] xs = Unit
AllLegal (o ∷ os) xs = Legal o xs × AllLegal os (spec_step o xs).0

snoc_view : (x : Ptr) (xs : List Ptr) → x ∷ xs ≡ without_last x xs ++ last_of x xs ∷ []
unfolding without_last last_of
snoc_view x [] = refl
snoc_view x (y ∷ ys) = ground (arith, snoc_view y ys)

-- The linked queue has done what the double-ended queue does.
abbrev Agrees : List Ptr × Ptr → Option (Links × Queue × Ptr) → Type 0
Agrees s none = ⊥
Agrees (ys, x) (some (n, q, p)) = (p ≡ x) × IsQueue n q ys

insert-Agrees :
    (m : Links) (ys : List Ptr) (r : Option (Links × Queue))
    → Inserts m ys r
    → Agrees (ys, null) (inserted r)
insert-Agrees m ys none h = absurd h
insert-Agrees m ys (some (n, q)) h = (refl, h.0)

take-Agrees :
    (m : Links) (x : Ptr) (ys : List Ptr) (r : Option (Links × Queue × Ptr))
    → Takes m x ys r
    → Agrees (ys, x) r
take-Agrees m x ys none h = absurd h
take-Agrees m x ys (some (n, q, p)) h = (h.0, h.1)

step-Agrees :
    (m : Links) (q : Queue) (o : Op) (xs : List Ptr)
    → IsQueue m q xs
    → Legal o xs
    → Agrees (spec_step o xs) (step o q m)
unfolding step spec_step
step-Agrees m q (put_head e) xs is l = insert-Agrees m _ _ (enqueue_head-cons m q e xs is l.0 l.1)
step-Agrees m q (put_tail e) xs is l = insert-Agrees m _ _ (enqueue_tail-append m q e xs is l.0 l.1)
step-Agrees m q take_head [] is l = rw (dequeue-nil m q is) (refl, is)
step-Agrees m q take_head (x ∷ xs) is l = take-Agrees m x xs _ (dequeue-cons m q x xs is)
step-Agrees m q take_tail [] is l = rw (dequeue_end-nil m q is) (refl, is)
step-Agrees m q take_tail (x ∷ xs) is l =
    take-Agrees m (last_of x xs) (without_last x xs) _
      (dequeue_end-append m q (last_of x xs) (without_last x xs) (rw (snoc_view x xs) at is))

abbrev pub AllAgree : List Ptr × List Ptr → Option (Links × Queue × List Ptr) → Type 0
AllAgree s none = ⊥
AllAgree (ys, xs) (some (n, q, ps)) = (ps ≡ xs) × IsQueue n q ys

cons_agrees :
    (x p : Ptr)
    → p ≡ x
    → (t : List Ptr × List Ptr) (r : Option (Links × Queue × List Ptr)) → AllAgree t r
    → AllAgree (t.0, x ∷ t.1) (r >>= λ (m, q, ps). some (m, q, p ∷ ps))
cons_agrees x p e t none h = h
cons_agrees x p e (zs, xs) (some (m, q, ps)) h = (ground arith, h.1)

step_then_run :
    (os : List Op) (s : List Ptr × Ptr) (r : Option (Links × Queue × Ptr))
    → Agrees s r
    → ((n : Links) (q : Queue) → IsQueue n q s.0 → AllAgree (spec_run os s.0) (run os q n))
    → AllAgree
        ((spec_run os s.0).0, s.1 ∷ (spec_run os s.0).1)
        (r >>= λ (m, q, p). run os q m >>= λ (m, q, ps). some (m, q, p ∷ ps))
step_then_run os s none h rest = absurd h
step_then_run os (ys, x) (some (n, q, p)) h rest = cons_agrees x p h.0 _ _ (rest n q h.1)

-- Whatever operations run on a linked queue that holds `xs`, if they insert neither NULL nor a
-- descriptor that is in the queue, they dereference no NULL pointer, take the pointers that a
-- double-ended queue gives, and leave what it leaves.
pub run_refines_deque :
    (os : List Op) (m : Links) (q : Queue) (xs : List Ptr)
    → IsQueue m q xs
    → AllLegal os xs
    → AllAgree (spec_run os xs) (run os q m)
unfolding run spec_run spec_step AllLegal
run_refines_deque [] m q xs is l = (refl, is)
run_refines_deque (o ∷ os) m q xs is l =
    step_then_run os (spec_step o xs) (step o q m) (step-Agrees m q o xs is l.0)
      λ n q' is'. run_refines_deque os n q' _ is' l.1
