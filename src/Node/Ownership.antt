-- ===== src/Node/Ownership.antt =====
-- Where the descriptors of a node are: the queues of src/torc_queue.c as one collection.
pub mod Moves
pub mod Bags
use torc_lite.Common.{
  ap, ℕ, zero, suc, ◌+◌, ◌≤◌, ◌<◌, ◌≡◌, ◌≢◌, refl, List, [], ◌∷◌, ◌++◌, Bool, ◌&&◌, ◌==◌, ltb,
  if◌then◌else◌, update, arith, ℕ_discrete, count, count-append,
}
use torc_lite.Desc.{Ptr, null}
use torc_lite.Node.{Node, level_queue}

-- The public queues below level `k`, one behind the other.
abbrev pub levels : (k : ℕ) → (ℕ → List Ptr) → List Ptr
levels zero g = []
levels (suc k) g = levels k g ++ g k

-- The descriptors in the queues of a node.
abbrev pub held : Node → List Ptr
held n = n.reuse_q ++ (n.private_grq ++ levels 10 n.public_grq)

abbrev pub one_at : Ptr → Ptr → ℕ
one_at p a = if p == a then 1 else 0

levels_past :
    (k l a : ℕ) (g : ℕ → List Ptr) (xs : List Ptr)
    → k ≤ l
    → count a (levels k (update g l xs)) ≡ count a (levels k g)
levels_past zero l a g xs b = refl
levels_past (suc k) l a g xs b =
    let other : update g l xs k ≡ g k = ground arith in
    let old = count-append a (levels k g) (g k) in
    let new = count-append a (levels k (update g l xs)) (update g l xs k) in
    let same = ap (count a) other in
    omega (arith, old, new, same, levels_past k l a g xs (omega arith))

-- One queue is replaced by another.
pub count-levels :
    (k l a : ℕ) (g : ℕ → List Ptr) (xs : List Ptr)
    → l < k
    → count a (levels k (update g l xs)) + count a (g l) ≡ count a (levels k g) + count a xs
count-levels zero l a g xs b = absurd (omega arith)
count-levels (suc k) l a g xs b = elim (ℕ_discrete l k) [
  | yes e ↦
      let it : update g l xs k ≡ xs = ground arith in
      let same = ap (count a) it in
      let there = ap (λ j. count a (g j)) e in
      omega (arith, old, new, same, there, levels_past k l a g xs (omega arith))
  | no ne ↦
      let it : update g l xs k ≡ g k = ground arith in
      let same = ap (count a) it in
      omega (arith, old, new, same, count-levels k l a g xs (omega arith))
]
  where
    old : count a (levels k g ++ g k) ≡ count a (levels k g) + count a (g k)
    old = count-append a (levels k g) (g k)

    new :
        count a (levels k (update g l xs) ++ update g l xs k)
        ≡ count a (levels k (update g l xs)) + count a (update g l xs k)
    new = count-append a (levels k (update g l xs)) (update g l xs k)

pub level_queue-lt : (level : ℕ) → level_queue level < 10
unfolding level_queue
level_queue-lt level = ground arith

-- How often the descriptor `a` is in the queues.
pub count-held :
    (a : ℕ) (n : Node)
    → count a (held n)
      ≡ count a n.reuse_q + (count a n.private_grq + count a (levels 10 n.public_grq))
count-held a n = omega (
  arith,
  count-append a n.reuse_q (n.private_grq ++ levels 10 n.public_grq),
  count-append a n.private_grq (levels 10 n.public_grq),
)
