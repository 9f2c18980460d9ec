-- ===== src/Node/Ownership/Bags.antt =====
-- The queues of a node as bags, which forget the order in them: an abstract view of src/torc_queue.c
-- up to line 165, where the functions that insert at the head and at the end do the same.
use mathlib.Core.Quot
use mathlib.Core.Quot.{Quot, Quot-set}
use torc_lite.Common.{ℕ, ◌≡◌, ◌≢◌, List, [], ◌∷◌, ◌⊎◌, arith, count}
use torc_lite.Desc.{Ptr, null}
use torc_lite.Node.{
  Node, level_queue, torc_to_i_reuseq_end, torc_i_reuseq_dequeue, torc_to_i_pq, torc_to_i_pq_end,
  torc_i_pq_dequeue, torc_to_i_rq, torc_to_i_rq_end, torc_i_rq_dequeue,
}

-- The queue of the descriptors that may be used again, that of the private tasks, and those of the
-- public tasks of each level.
pub data Shelf : Type 0 where
  reuse : Shelf
  private_tasks : Shelf
  public_tasks : ℕ → Shelf

abbrev pub queue_of : Node → Shelf → List Ptr
queue_of n reuse = n.reuse_q
queue_of n private_tasks = n.private_grq
queue_of n (public_tasks l) = n.public_grq l

-- The same descriptors, each as often, in another order.
abbrev pub Rearranged : List Ptr → List Ptr → Type 0
Rearranged before after = (p : Ptr) → count p after ≡ count p before

abbrev pub Contents : Type 0
Contents = Quot Rearranged

abbrev pub bag : List Ptr → Contents
bag queue = Quot.mk queue

abbrev pub in_front : Ptr → List Ptr → Contents
in_front p queue = bag (p ∷ queue)

pub in_front-respects :
    (p : Ptr) (before after : List Ptr)
    → Rearranged before after
    → in_front p before ≡ in_front p after
in_front-respects p before after same = Quot.sound (λ q. omega (arith, same q))

abbrev pub put : Contents → Ptr → Contents
put contents p = Quot.lift Quot-set (in_front p) (in_front-respects p) contents

abbrev pub contents : Node → Shelf → Contents
contents n s = bag (queue_of n s)

-- The descriptor is added to the contents of one queue.
pub record PutsIn (s : Shelf) (p : Ptr) (n n' : Node) : Type 0 where
  pub added : contents n' s ≡ put (contents n s) p
  pub others : (r : Shelf) → r ≢ s → queue_of n' r ≡ queue_of n r

-- One queue is empty and stays so, with the result NULL, or its first descriptor is taken out of it.
abbrev pub Taking : Shelf → Node → Node × Ptr → Type 0
Taking s n r =
    ((queue_of n s ≡ []) × (r.1 ≡ null) × (queue_of r.0 s ≡ []))
    ⊎ (queue_of n s ≡ r.1 ∷ queue_of r.0 s)

pub record TakesFrom (s : Shelf) (n : Node) (r : Node × Ptr) : Type 0 where
  pub taking : Taking s n r
  pub others : (q : Shelf) → q ≢ s → queue_of r.0 q ≡ queue_of n q

module _ (p : Ptr) (n : Node) where
  -- The queue for the level of a task.
  abbrev pub own_level : Shelf
  own_level = public_tasks (level_queue (n.desc p).level)

  -- The operations that enqueue, each in its queue.
  pub record Enqueues : Type 0 where
    pub reuseq_end : PutsIn reuse p n (torc_to_i_reuseq_end p n)
    pub pq : PutsIn private_tasks p n (torc_to_i_pq p n)
    pub pq_end : PutsIn private_tasks p n (torc_to_i_pq_end p n)
    pub rq : PutsIn own_level p n (torc_to_i_rq p n)
    pub rq_end : PutsIn own_level p n (torc_to_i_rq_end p n)

-- The operations that dequeue.
pub record Dequeues (n : Node) : Type 0 where
  pub reuseq : TakesFrom reuse n (torc_i_reuseq_dequeue n)
  pub pq : TakesFrom private_tasks n (torc_i_pq_dequeue n)
  pub rq : (l : ℕ) → TakesFrom (public_tasks l) n (torc_i_rq_dequeue l n)

-- What the head of a queue gives.
abbrev Split : List Ptr → List Ptr × Ptr → Type 0
Split xs r = ((xs ≡ []) × (r.1 ≡ null) × (r.0 ≡ [])) ⊎ (xs ≡ r.1 ∷ r.0)
