-- ===== src/Node/Ownership/Moves.antt =====
-- The operations of src/torc_queue.c move descriptors between their owners and the queues.
use torc_lite.Common.{
  ap, ℕ, ◌+◌, ◌≤◌, ◌<◌, ◌≡◌, ◌≢◌, refl, List, [], ◌∷◌, ◌++◌, ◌&&◌, ◌==◌, ltb, leb, if◌then◌else◌,
  update, arith, count, count-append, ◌⊎◌, inl, inr, ==_false,
}
use torc_lite.Desc.{Ptr, null}
use torc_lite.Queue.Deque.{spec_step, take_head}
use torc_lite.Node.{
  Node, level_queue, torc_to_i_reuseq_end, torc_i_reuseq_dequeue, torc_get_reused_desc,
  torc_to_i_pq, torc_to_i_pq_end, torc_i_pq_dequeue, torc_to_i_rq, torc_to_i_rq_end,
  torc_i_rq_dequeue,
}
use torc_lite.Node.Ownership.{held, one_at, count-levels, level_queue-lt, count-held}

pub record Puts (p : Ptr) (n n' : Node) : Type 0 where
  pub moved : (a : ℕ) → count a (held n') ≡ count a (held n) + one_at p a
  pub fresh : n'.fresh_desc ≡ n.fresh_desc

pub record Takes (p : Ptr) (n n' : Node) : Type 0 where
  pub moved : (a : ℕ) → count a (held n) ≡ count a (held n') + one_at p a
  pub fresh : n'.fresh_desc ≡ n.fresh_desc

pub record Keeps (n n' : Node) : Type 0 where
  pub same : (a : ℕ) → count a (held n') ≡ count a (held n)
  pub fresh : n'.fresh_desc ≡ n.fresh_desc

-- What a removal may do.
abbrev pub Gives : Ptr → Node → Node → Type 0
Gives p n n' = ((p ≡ null) × Keeps n n') ⊎ Takes p n n'

-- A queue of the node at level `l` is replaced.
level_moved :
    (n : Node) (l a : ℕ) (xs : List Ptr)
    → l < 10
    → count a (held (record n { public_grq = update n.public_grq l xs })) + count a (n.public_grq l)
      ≡ count a (held n) + count a xs
level_moved n l a xs b = omega (
  arith,
  count-held a n,
  count-held a (record n { public_grq = update n.public_grq l xs }),
  count-levels 10 l a n.public_grq xs b,
)

module _ (p : Ptr) (n : Node) where
  pub reuseq_end-Puts : Puts p n (torc_to_i_reuseq_end p n)
  unfolding torc_to_i_reuseq_end spec_step
  reuseq_end-Puts = record {
    moved = λ a. omega (
      arith,
      count-held a n,
      count-held a (record n { reuse_q = n.reuse_q ++ p ∷ [] }),
      count-append a n.reuse_q (p ∷ []),
    );
    fresh = refl;
  }

  pub pq-Puts : Puts p n (torc_to_i_pq p n)
  unfolding torc_to_i_pq spec_step
  pq-Puts = record {
    moved = λ a.
        omega (arith, count-held a n, count-held a (record n { private_grq = p ∷ n.private_grq }));
    fresh = refl;
  }

  pub pq_end-Puts : Puts p n (torc_to_i_pq_end p n)
  unfolding torc_to_i_pq_end spec_step
  pq_end-Puts = record {
    moved = λ a. omega (
      arith,
      count-held a n,
      count-held a (record n { private_grq = n.private_grq ++ p ∷ [] }),
      count-append a n.private_grq (p ∷ []),
    );
    fresh = refl;
  }

  pub rq-Puts : Puts p n (torc_to_i_rq p n)
  unfolding torc_to_i_rq spec_step
  rq-Puts = record {
    moved = λ a.
        let l = level_queue (n.desc p).level in
        omega (arith, level_moved n l a (p ∷ n.public_grq l) (level_queue-lt (n.desc p).level));
    fresh = refl;
  }

  pub rq_end-Puts : Puts p n (torc_to_i_rq_end p n)
  unfolding torc_to_i_rq_end spec_step
  rq_end-Puts = record {
    moved = λ a.
        let l = level_queue (n.desc p).level in
        omega (
          arith,
          level_moved n l a (n.public_grq l ++ p ∷ []) (level_queue-lt (n.desc p).level),
          count-append a (n.public_grq l) (p ∷ []),
        );
    fresh = refl;
  }

-- A list, and what `take_head` makes of it.
abbrev Splits : List Ptr → List Ptr × Ptr → Type 0
Splits q r =
    ((r.1 ≡ null) × ((a : ℕ) → count a r.0 ≡ count a q))
    ⊎ ((a : ℕ) → count a q ≡ count a r.0 + one_at r.1 a)

take_head-Splits : (q : List Ptr) → Splits q (spec_step take_head q)
unfolding spec_step
take_head-Splits [] = inl (refl, λ a. refl)
take_head-Splits (x ∷ q) = inr (λ a. omega arith)

module _ (n : Node) where
  pub reuseq-Gives : Gives (torc_i_reuseq_dequeue n).1 n (torc_i_reuseq_dequeue n).0
  unfolding torc_i_reuseq_dequeue
  reuseq-Gives =
      let m = (torc_i_reuseq_dequeue n).0 in
      elim (take_head-Splits n.reuse_q) [
        | inl (e, s) ↦ inl (
          e,
          record { same = λ a. omega (arith, count-held a n, count-held a m, s a); fresh = refl },
        )
        | inr s ↦ inr (record {
          moved = λ a. omega (arith, count-held a n, count-held a m, s a);
          fresh = refl;
        })
      ]

  pub i_pq-Gives : Gives (torc_i_pq_dequeue n).1 n (torc_i_pq_dequeue n).0
  unfolding torc_i_pq_dequeue
  i_pq-Gives =
      let m = (torc_i_pq_dequeue n).0 in
      elim (take_head-Splits n.private_grq) [
        | inl (e, s) ↦ inl (
          e,
          record { same = λ a. omega (arith, count-held a n, count-held a m, s a); fresh = refl },
        )
        | inr s ↦ inr (record {
          moved = λ a. omega (arith, count-held a n, count-held a m, s a);
          fresh = refl;
        })
      ]

  pub i_rq-Gives : (l : ℕ) → l < 10 → Gives (torc_i_rq_dequeue l n).1 n (torc_i_rq_dequeue l n).0
  unfolding torc_i_rq_dequeue
  i_rq-Gives l b =
      let xs = (spec_step take_head (n.public_grq l)).0 in
      elim (take_head-Splits (n.public_grq l)) [
        | inl (e, s) ↦
            inl (e, record { same = λ a. omega (arith, level_moved n l a xs b, s a); fresh = refl })
        | inr s ↦
            inr (record { moved = λ a. omega (arith, level_moved n l a xs b, s a); fresh = refl })
      ]

-- Every descriptor that has been allocated is in use, or in one queue, once; `used` lists those in
-- use. NULL is no descriptor.
pub record IsOwned (n : Node) (used : List Ptr) : Type 0 where
  pub places :
      (a : ℕ) → count a used + count a (held n) ≡ (if leb 1 a && ltb a n.fresh_desc then 1 else 0)
  pub allocated : 1 ≤ n.fresh_desc

pub Puts-IsOwned :
    {p : Ptr} {n n' : Node} {used : List Ptr} → Puts p n n' → IsOwned n (p ∷ used) → IsOwned n' used
Puts-IsOwned m o = record {
  places = λ a. rw m.fresh (omega (arith, o.places a, m.moved a));
  allocated = omega (arith, m.fresh, o.allocated);
}

pub Takes-IsOwned :
    {p : Ptr} {n n' : Node} {used : List Ptr}
    → Takes p n n'
    → IsOwned n used
    → IsOwned n' (p ∷ used)
Takes-IsOwned m o = record {
  places = λ a. rw m.fresh (omega (arith, o.places a, m.moved a));
  allocated = omega (arith, m.fresh, o.allocated);
}

pub Keeps-IsOwned : {n n' : Node} {used : List Ptr} → Keeps n n' → IsOwned n used → IsOwned n' used
Keeps-IsOwned m o = record {
  places = λ a. rw m.fresh (omega (arith, o.places a, m.same a));
  allocated = omega (arith, m.fresh, o.allocated);
}

pub Takes-not_null :
    {p : Ptr} {n n' : Node} {used : List Ptr} → Takes p n n' → IsOwned n used → p ≢ null
Takes-not_null {p} m o e =
    let z : one_at p null ≡ 1 = ground (arith, e) in omega (arith, o.places null, m.moved null, z)

-- The descriptor that a removal gives, unless it is NULL, is in use.
abbrev pub with : Ptr → List Ptr → List Ptr
with p used = if p == null then used else p ∷ used

pub Gives-IsOwned :
    {p : Ptr} {n n' : Node} {used : List Ptr}
    → Gives p n n'
    → IsOwned n used
    → IsOwned n' (with p used)
Gives-IsOwned (inl (e, k)) o = rw e (Keeps-IsOwned k o)
Gives-IsOwned {p} (inr m) o = rw (==_false p null (Takes-not_null m o)) (Takes-IsOwned m o)

-- A value is at most once in what is in use or held, so that a descriptor in use is in no queue.
pub used-free : {n : Node} {used : List Ptr} (p : Ptr) → IsOwned n (p ∷ used) → count p (held n) ≡ 0
used-free {n} {used} p o =
    let here : one_at p p ≡ 1 = ground arith in ground (arith, o.places p, here)

pub fresh-IsOwned :
    (n m : Node) (used : List Ptr)
    → IsOwned n used
    → Keeps n m
    → (m' : Node) → held m' ≡ held m
    → m'.fresh_desc ≡ m.fresh_desc + 1
    → IsOwned m' (m.fresh_desc ∷ used)
fresh-IsOwned n m used o k m' h f = record {
  places = λ a.
      let c = ap (count a) h in ground (arith, o.places a, k.same a, k.fresh, f, c, o.allocated);
  allocated = omega (arith, f);
}

-- A descriptor for a new task, recycled or allocated, was in no queue and not in use.
pub reused-IsOwned :
    (n : Node) (used : List Ptr)
    → IsOwned n used
    → IsOwned (torc_get_reused_desc n).0 ((torc_get_reused_desc n).1 ∷ used)
unfolding torc_get_reused_desc
reused-IsOwned n used o = elim (reuseq-Gives n) [
  | inl (e, k) ↦ rw e (fresh-IsOwned n (torc_i_reuseq_dequeue n).0 used o k _ refl refl)
  | inr m ↦
      rw (==_false (torc_i_reuseq_dequeue n).1 null (Takes-not_null m o))
        (Keeps-IsOwned (record { same = λ a. refl; fresh = refl }) (Takes-IsOwned m o))
]

-- A change that leaves the queues as they are.
pub same-IsOwned :
    {n n' : Node} {used : List Ptr}
    → held n' ≡ held n
    → n'.fresh_desc ≡ n.fresh_desc
    → IsOwned n used
    → IsOwned n' used
same-IsOwned h f o = Keeps-IsOwned (record { same = λ a. ap (count a) h; fresh = f }) o
