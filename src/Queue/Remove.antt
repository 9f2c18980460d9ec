-- ===== src/Queue/Remove.antt =====
-- `_dequeue` and `_dequeue_end` of include/queues.h on the list that a queue stands for.
use torc_lite.Common.{
  ◌≡◌, ◌≢◌, refl, List, [], ◌∷◌, ◌++◌, true, false, Option, none, some, ◌==◌, has, Distinct, update,
  arith,
}
use torc_lite.Desc.{Ptr, null}
use torc_lite.Queue.{Links, Queue, queue, dequeue, dequeue_end}
use torc_lite.Queue.Chain.{Seg, IsQueue, SameOutside, Seg-frame, has-last, has-append, last_ne_null}

-- The outcome of a removal: the pointer `x` taken, the list `ys` left, no change outside them.
abbrev pub Takes : Links → Ptr → List Ptr → Option (Links × Queue × Ptr) → Type 0
Takes m x ys none = ⊥
Takes m x ys (some (n, q, p)) = (p ≡ x) × IsQueue n q ys × SameOutside (x ∷ ys) m n

-- The last descriptor taken off a chain.
Seg-init :
    (m : Links) (before p x : Ptr) (ys : List Ptr) (last : Ptr)
    → Seg m before p (ys ++ x ∷ []) last null
    → (last ≡ x) × (x ≢ null) × Seg m before p ys (m.prev x) x
Seg-init m before p x [] last s = (s.3.1, s.1, (s.0, s.2))
Seg-init m before p x (y ∷ ys) last s =
    let rest = Seg-init m y (m.next y) x ys last s.3 in (rest.0, rest.1, (s.0, s.1, s.2, rest.2))

Seg-close :
    (m : Links) (before p y : Ptr) (ys : List Ptr) (last after : Ptr)
    → Seg m before p (y ∷ ys) last after
    → Distinct (y ∷ ys)
    → Seg (record m { next = update m.next last null }) before p (y ∷ ys) last null
Seg-close m before p y [] last after s d = (s.0, s.1, s.2, (ground arith, s.3.1))
Seg-close m before p y (z ∷ zs) last after s d =
    let inside : has last (z ∷ zs) ≡ true = has-last m y (m.next y) z zs last after s.3 in
    let apart : (last == y) ≡ false = ground arith in
    (s.0, s.1, s.2, rw apart (Seg-close m y (m.next y) z zs last after s.3 d.1))

Distinct-init : (x : Ptr) (ys : List Ptr) → Distinct (ys ++ x ∷ []) → Distinct ys
Distinct-init x [] d = tt
Distinct-init x (y ∷ ys) d = (ground (arith, has-append y ys (x ∷ [])), Distinct-init x ys d.1)

module _ (m : Links) (q : Queue) (x : Ptr) where
  dequeue_one : x ≢ null → q.head ≡ x → m.next x ≡ null → dequeue q m ≡ some (m, queue null null, x)
  unfolding dequeue
  dequeue_one nx h e = ground arith

  dequeue_more :
      (y : Ptr)
      → x ≢ null
      → q.head ≡ x
      → m.next x ≡ y
      → y ≢ null
      → dequeue q m ≡ some (record m { prev = update m.prev y null }, queue y q.tail, x)
  unfolding dequeue
  dequeue_more y nx h e ny = ground arith

  dequeue_end_one :
      x ≢ null → q.tail ≡ x → m.prev x ≡ null → dequeue_end q m ≡ some (m, queue null null, x)
  unfolding dequeue_end
  dequeue_end_one nx h e = ground arith

  dequeue_end_more :
      (y : Ptr)
      → x ≢ null
      → q.tail ≡ x
      → m.prev x ≡ y
      → y ≢ null
      → dequeue_end q m ≡ some (record m { next = update m.next y null }, queue q.head y, x)
  unfolding dequeue_end
  dequeue_end_more y nx h e ny = ground arith

module _ (m : Links) (q : Queue) where
  -- `_dequeue` of an empty queue takes nothing and writes nothing.
  pub dequeue-nil : IsQueue m q [] → dequeue q m ≡ some (m, q, null)
  unfolding dequeue
  dequeue-nil is = ground arith

  -- `_dequeue` takes the first descriptor and leaves the rest of the list.
  pub dequeue-cons : (x : Ptr) (xs : List Ptr) → IsQueue m q (x ∷ xs) → Takes m x xs (dequeue q m)
  dequeue-cons x [] is =
      rw (dequeue_one m q x is.chain.1 is.chain.0 is.chain.3.0)
        (refl, record { chain = (refl, refl); distinct = tt }, λ a o. (refl, refl))
  dequeue-cons x (y ∷ ys) is =
      let rest =
        Seg-frame m (record m { prev = update m.prev y null }) y (m.next y) ys q.tail null
          is.chain.3.3 (ground arith) in
      rw (dequeue_more m q x y is.chain.1 is.chain.0 is.chain.3.0 is.chain.3.1) (
        refl,
        record { chain = (refl, is.chain.3.1, ground arith, rest); distinct = is.distinct.1 },
        ground arith,
      )

  -- `_dequeue_end` of an empty queue takes nothing and writes nothing.
  pub dequeue_end-nil : IsQueue m q [] → dequeue_end q m ≡ some (m, q, null)
  unfolding dequeue_end
  dequeue_end-nil is = ground arith

  -- `_dequeue_end` takes the last descriptor and leaves the list in front of it.
  pub dequeue_end-append :
      (x : Ptr) (xs : List Ptr) → IsQueue m q (xs ++ x ∷ []) → Takes m x xs (dequeue_end q m)
  dequeue_end-append x [] is =
      rw (dequeue_end_one m q x is.chain.1 is.chain.3.1 is.chain.2)
        (refl, record { chain = (refl, refl); distinct = tt }, λ a o. (refl, refl))
  dequeue_end-append x (y ∷ ys) is =
      let (same, nx, s) = Seg-init m null q.head x (y ∷ ys) q.tail is.chain in
      let d : Distinct (y ∷ ys) = Distinct-init x (y ∷ ys) is.distinct in
      rw
        (dequeue_end_more m q x (m.prev x) nx same refl
          (last_ne_null m null q.head y ys (m.prev x) x s))
        (
          refl,
          record { chain = Seg-close m null q.head y ys (m.prev x) x s d; distinct = d },
          λ a o. ground (arith, has-last m null q.head y ys (m.prev x) x s),
        )
