-- ===== src/Queue/Insert.antt =====
-- `_enqueue_head` and `_enqueue_tail` of include/queues.h on the list that a queue stands for.
use torc_lite.Common.{
  ◌≡◌, ◌≢◌, refl, List, [], ◌∷◌, ◌++◌, true, false, Option, none, some, ◌==◌, has, Distinct, update,
  arith,
}
use torc_lite.Desc.{Ptr, null}
use torc_lite.Queue.{Links, Queue, queue, enqueue_head, enqueue_tail}
use torc_lite.Queue.Chain.{Seg, IsQueue, SameOutside, Seg-frame, has-last, has-append, last_ne_null}

-- The outcome of an insertion: no NULL dereference, the list `ys`, and no change outside `ys`.
abbrev pub Inserts : Links → List Ptr → Option (Links × Queue) → Type 0
Inserts m ys none = ⊥
Inserts m ys (some (n, q)) = IsQueue n q ys × SameOutside ys m n

module _ (m : Links) (q : Queue) (e : Ptr) (ne : e ≢ null) where
  enqueue_head_nil :
      q.head ≡ null
      → enqueue_head q e m
        ≡ some (record { prev = update m.prev e null; next = update m.next e null }, queue e e)
  unfolding enqueue_head
  enqueue_head_nil h = ground arith

  enqueue_head_cons :
      (x : Ptr)
      → x ≢ null
      → q.head ≡ x
      → enqueue_head q e m
        ≡ some (
          record { prev = update (update m.prev e null) x e; next = update m.next e x },
          queue e q.tail,
        )
  unfolding enqueue_head
  enqueue_head_cons x nx h = ground arith

  enqueue_tail_nil :
      q.tail ≡ null
      → enqueue_tail q e m
        ≡ some (record { prev = update m.prev e null; next = update m.next e null }, queue e e)
  unfolding enqueue_tail
  enqueue_tail_nil h = ground arith

  enqueue_tail_cons :
      (l : Ptr)
      → l ≢ null
      → q.tail ≡ l
      → enqueue_tail q e m
        ≡ some (
          record { prev = update m.prev e l; next = update (update m.next e null) l e },
          queue q.head e,
        )
  unfolding enqueue_tail
  enqueue_tail_cons l nl h = ground arith

-- A descriptor behind the last one.
Seg-snoc :
    (m : Links) (e before p x : Ptr) (xs : List Ptr) (last : Ptr)
    → Seg m before p (x ∷ xs) last null
    → Distinct (x ∷ xs)
    → has e (x ∷ xs) ≡ false
    → e ≢ null
    → Seg
        (record { prev = update m.prev e last; next = update (update m.next e null) last e })
        before
        p
        ((x ∷ xs) ++ e ∷ [])
        e
        null
Seg-snoc m e before p x [] last s d out ne =
    (s.0, s.1, ground arith, (ground arith, ne, ground arith, (ground arith, refl)))
Seg-snoc m e before p x (y ∷ ys) last s d out ne =
    let inside : has last (y ∷ ys) ≡ true = has-last m x (m.next x) y ys last null s.3 in
    let apart : (last == x) ≡ false = ground arith in
    let apart' : (e == x) ≡ false = ground arith in
    (
      s.0,
      s.1,
      rw apart' s.2,
      rw (apart, apart') (Seg-snoc m e x (m.next x) y ys last s.3 d.1 (ground arith) ne),
    )

Distinct-snoc : (e : Ptr) (xs : List Ptr) → Distinct xs → has e xs ≡ false → Distinct (xs ++ e ∷ [])
Distinct-snoc e [] d out = ground arith
Distinct-snoc e (x ∷ xs) d out =
    (ground (arith, has-append x xs (e ∷ [])), Distinct-snoc e xs d.1 (ground arith))

module _ (m : Links) (q : Queue) where
  -- `_enqueue_head` puts a new descriptor in front of the list, and writes only its links and
  -- those of the descriptors in the queue.
  pub enqueue_head-cons :
      (e : Ptr) (xs : List Ptr)
      → IsQueue m q xs
      → e ≢ null
      → has e xs ≡ false
      → Inserts m (e ∷ xs) (enqueue_head q e m)
  enqueue_head-cons e [] is ne out =
      rw (enqueue_head_nil m q e ne is.chain.0)
        (record { chain = ground arith; distinct = ground arith }, ground arith)
  enqueue_head-cons e (x ∷ xs) is ne out =
      let apart : (e == x) ≡ false = ground arith in
      let rest =
        Seg-frame m (record { prev = update (update m.prev e null) x e; next = update m.next e x })
          x (m.next x) xs q.tail null is.chain.3 (ground arith) in
      rw (enqueue_head_cons m q e ne x is.chain.1 is.chain.0) (
        record {
          chain = (refl, ne, ground arith, (ground arith, is.chain.1, ground arith, rw apart rest));
          distinct = ground arith;
        },
        ground arith,
      )

  -- `_enqueue_tail` puts a new descriptor behind the list, and writes only its links and those of
  -- the descriptors in the queue.
  pub enqueue_tail-append :
      (e : Ptr) (xs : List Ptr)
      → IsQueue m q xs
      → e ≢ null
      → has e xs ≡ false
      → Inserts m (xs ++ e ∷ []) (enqueue_tail q e m)
  enqueue_tail-append e [] is ne out =
      rw (enqueue_tail_nil m q e ne is.chain.1)
        (record { chain = ground arith; distinct = ground arith }, ground arith)
  enqueue_tail-append e (x ∷ xs) is ne out =
      rw
        (enqueue_tail_cons m q e ne q.tail (last_ne_null m null q.head x xs q.tail null is.chain)
          refl)
        (
          record {
            chain = Seg-snoc m e null q.head x xs q.tail is.chain is.distinct out ne;
            distinct = Distinct-snoc e (x ∷ xs) is.distinct out;
          },
          λ a o. ground (
            arith,
            has-append a (x ∷ xs) (e ∷ []),
            has-last m null q.head x xs q.tail null is.chain,
          ),
        )
