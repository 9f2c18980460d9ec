-- ===== src/Node/Search.antt =====
-- Taking a task off one of the public queues of a node, src/torc_queue.c.
use torc_lite.Common.{ℕ, ◌≡◌, ◌≢◌, refl, ◌∙◌, List, [], ◌∷◌, arith}
use torc_lite.Desc.{Ptr, null}
use torc_lite.Node.{Node, torc_i_rq_dequeue}
use torc_lite.Queue.Deque.{spec_step}

-- What the search for a task leaves as it is.
pub record SameBut (n n' : Node) : Type 0 where
  pub cluster : n'.cluster ≡ n.cluster
  pub desc : n'.desc ≡ n.desc
  pub sent : n'.sent ≡ n.sent
  pub reuse : n'.reuse_q ≡ n.reuse_q
  pub attempts : n'.steal_attempts ≡ n.steal_attempts
  pub served : n'.steal_served ≡ n.steal_served

pub SameBut-queues : (n : Node) (g : ℕ → List Ptr) → SameBut n (record n { public_grq = g })
SameBut-queues n g = record {
  cluster = refl;
  desc = refl;
  sent = refl;
  reuse = refl;
  attempts = refl;
  served = refl;
}

pub SameBut-trans : {n m o : Node} → SameBut n m → SameBut m o → SameBut n o
SameBut-trans a b = record {
  cluster = b.cluster ∙ a.cluster;
  desc = b.desc ∙ a.desc;
  sent = b.sent ∙ a.sent;
  reuse = b.reuse ∙ a.reuse;
  attempts = b.attempts ∙ a.attempts;
  served = b.served ∙ a.served;
}

-- The task `p` is the first of the queue `l` of `n`, and has been taken off it.
pub record Taken (l : ℕ) (p : Ptr) (q : List Ptr) (n n' : Node) : Type 0 where
  pub taken : n'.public_grq l ≡ q
  pub others : (m : ℕ) → m ≢ l → n'.public_grq m ≡ n.public_grq m
  pub same : SameBut n n'

-- No task has been taken.
pub record Untouched (n n' : Node) : Type 0 where
  pub all : (m : ℕ) → n'.public_grq m ≡ n.public_grq m
  pub same : SameBut n n'

pub Taken-after :
    {n m o : Node} (l : ℕ) (p : Ptr) (q : List Ptr)
    → Untouched n m
    → Taken l p q m o
    → Taken l p q n o
Taken-after l p q u t = record {
  taken = t.taken;
  others = λ k ne. t.others k ne ∙ u.all k;
  same = SameBut-trans u.same t.same;
}

pub Untouched-after : {n m o : Node} → Untouched n m → Untouched m o → Untouched n o
Untouched-after u t = record { all = λ k. t.all k ∙ u.all k; same = SameBut-trans u.same t.same }

pub dequeue_empty :
    (l : ℕ) (n : Node)
    → n.public_grq l ≡ []
    → ((torc_i_rq_dequeue l n).1 ≡ null) × Untouched n (torc_i_rq_dequeue l n).0
unfolding torc_i_rq_dequeue spec_step
dequeue_empty l n e =
    rw e (refl, record { all = λ m. ground (arith, e); same = SameBut-queues n _ })

pub dequeue_first :
    (l : ℕ) (n : Node) (p : Ptr) (q : List Ptr)
    → n.public_grq l ≡ p ∷ q
    → ((torc_i_rq_dequeue l n).1 ≡ p) × Taken l p q n (torc_i_rq_dequeue l n).0
unfolding torc_i_rq_dequeue spec_step
dequeue_first l n p q e = rw e (
  refl,
  record { taken = ground arith; others = λ m ne. ground arith; same = SameBut-queues n _ },
)
