-- ===== src/Scheduler/Levels.antt =====
-- The order in which a worker takes the tasks of its own node.
use mathlib.Core.Path.{subst}
use torc_lite.Common.{
  Bool, ℕ, zero, suc, ◌<◌, ◌≡◌, ◌≢◌, refl, sym, ap, ◌∙◌, Option, some, true, false, List, [], ◌∷◌,
  ◌==◌, if◌then◌else◌, arith, ==_false, ℕ_discrete, none,
}
use torc_lite.Desc.{Ptr, null, Desc}
use torc_lite.Types.{Handles}
use torc_lite.Node.{Node, Thread, torc_i_rq_dequeue, torc_i_pq_dequeue}
use torc_lite.Queue.Deque.{spec_step}
use torc_lite.Node.Search.{Taken, Untouched, Taken-after, dequeue_empty, dequeue_first}
use torc_lite.Scheduler.{level_loop, steal_if, get_next_task}

pub level_loop-Taken :
    (k l : ℕ) (n : Node) (p : Ptr) (q : List Ptr)
    → p ≢ null
    → l < k
    → ((m : ℕ) → l < m → m < k → n.public_grq m ≡ [])
    → n.public_grq l ≡ p ∷ q
    → ((level_loop k n).1 ≡ p) × Taken l p q n (level_loop k n).0
unfolding level_loop
level_loop-Taken zero l n p q ne b c e = absurd (omega arith)
level_loop-Taken (suc k) l n p q ne b c e = elim (ℕ_discrete k l) [
  | yes is ↦
      let f = dequeue_first k n p q (ap n.public_grq is ∙ e) in
      let g = ==_false _ null (λ z. ne (sym f.0 ∙ z)) in
      rw g (f.0, subst (λ j. Taken j p q n (torc_i_rq_dequeue k n).0) is f.1)
  | no is ↦
      let f = dequeue_empty k n (c k (omega arith) (omega arith)) in
      let r =
        level_loop-Taken k l (torc_i_rq_dequeue k n).0 p q ne (omega arith)
          (λ m x y. f.1.all m ∙ c m x (omega arith)) (f.1.all l ∙ e) in
      rw f.0 (r.0, Taken-after l p q f.1 r.1)
]

pub pq_empty : (n : Node) → n.private_grq ≡ [] → (torc_i_pq_dequeue n).1 ≡ null
unfolding torc_i_pq_dequeue spec_step
pq_empty n e = rw e refl

pub pq_Untouched : (n : Node) → Untouched n (torc_i_pq_dequeue n).0
unfolding torc_i_pq_dequeue
pq_Untouched n = record {
  all = λ m. refl;
  same = record {
    cluster = refl;
    desc = refl;
    sent = refl;
    reuse = refl;
    attempts = refl;
    served = refl;
  };
}

pub either_way :
    (b c : Bool) (o a : Option (Node × Ptr))
    → c ≡ false
    → (if b then (if c then o else a) else a) ≡ a
either_way true c o a e = ap (λ k. if k then o else a) e
either_way false c o a e = refl

module _ (h : Handles) (type_size : ℕ → ℕ) (answer : (target : ℕ) → Node → Desc) (t : Thread)
    (n : Node) where
  -- Whether what a search of the own queues finds is the task `p`, first of level `l`.
  abbrev pub Finds : (l : ℕ) (p : Ptr) (q : List Ptr) → Node → Option (Node × Ptr) → Type 0
  Finds l p q m none = ⊥
  Finds l p q m (some (m', x)) = (x ≡ p) × Taken l p q m m'

  found_kept :
      (l : ℕ) (p : Ptr) (q : List Ptr) (m m' : Node) (x : Ptr)
      → p ≢ null
      → x ≡ p
      → Taken l p q m m'
      → Finds l p q m (steal_if h type_size answer t (m', x))
  unfolding steal_if
  found_kept l p q m m' x ne e k =
      subst (Finds l p q m)
        (sym (
          either_way m'.internode_stealing (x == null) _ (some (m', x))
            (==_false x null (λ z. ne (sym e ∙ z)))))
        (e, k)

  -- If a worker has no private task, and the highest non-empty level of its own node begins with
  -- the task `p`, not NULL, it takes this task and leaves all other queues as they are; it does not
  -- steal.
  pub get_next_task-highest :
      (l : ℕ) (p : Ptr) (q : List Ptr)
      → n.private_grq ≡ []
      → p ≢ null
      → l < 10
      → ((m : ℕ) → l < m → m < 10 → n.public_grq m ≡ [])
      → n.public_grq l ≡ p ∷ q
      → Finds l p q n (get_next_task h type_size answer t n)
  unfolding get_next_task
  get_next_task-highest l p q w ne b c e =
      let u = pq_Untouched n in
      let f =
        level_loop-Taken 10 l (torc_i_pq_dequeue n).0 p q ne b (λ m x y. u.all m ∙ c m x y)
          (u.all l ∙ e) in
      rw (pq_empty n w) (found_kept l p q n _ _ ne f.0 (Taken-after l p q u f.1))

  -- A private task comes first.
  pub get_next_task-private :
      (p : Ptr) (q : List Ptr)
      → n.private_grq ≡ p ∷ q
      → p ≢ null
      → get_next_task h type_size answer t n ≡ some (record n { private_grq = q }, p)
  unfolding get_next_task torc_i_pq_dequeue spec_step
  get_next_task-private p q e ne = rw (e, ==_false p null ne) refl
