-- ===== src/Server/Answers.antt =====
-- What the node that created a task does with the answer of the node that ran it.
use torc_lite.Common.{
  ℕ, zero, suc, ◌+◌, ◌≤◌, ◌<◌, ◌≡◌, ◌≢◌, refl, ap, ◌∙◌, Bool, true, false, ◌||◌, Option, some, List,
  [], ◌∷◌, ◌++◌, map, ◌==◌, if◌then◌else◌, update, arith, ==_false,
}
use mathlib.Core.Path.{subst}
use torc_lite.Desc.{Ptr, null, Arg, call_by_ref, call_by_res, call_by_cop2}
use torc_lite.Types.{Handles}
use torc_lite.Table.{Table}
use torc_lite.Deps.{torc_depsatisfy}
use torc_lite.Args.{Packet, envelope, send_results}
use torc_lite.Args.Agree.{IsSendable, results_agree}
use torc_lite.Queue.Deque.{spec_step}
use torc_lite.Node.{Node, Thread, set_desc, torc_put_reused_desc, torc_to_i_reuseq_end}
use torc_lite.Exec.{Call}
use torc_lite.Node.Store.{set_desc_other, set_desc_self}
use torc_lite.Server.{goes_on, answer_argument, answer_loop, on_answer, recycle}

abbrev Succeeds : {A : Type 0} → Option A → Type 0
Succeeds {A} o = (a : A) × (o ≡ some a)

cond-Succeeds :
    {A : Type 0} (b : Bool) (x y : Option A)
    → Succeeds x
    → Succeeds y
    → Succeeds (if b then x else y)
cond-Succeeds true x y s u = s
cond-Succeeds false x y s u = u

answer_argument-Succeeds : (h : Handles) (a : Arg) → IsSendable h a → Succeeds (answer_argument h a)
unfolding answer_argument
answer_argument-Succeeds h a s = rw s.typed (
    cond-Succeeds (a.quantity == 0) _ _ ((a, []), refl)
      (cond-Succeeds ((a.callway == call_by_res) || (a.callway == call_by_ref)) _ _ (_, refl)
        (cond-Succeeds (a.callway == call_by_cop2) _ _ (_, refl) (_, refl))))

answer_loop-some :
    (h : Handles) (k i : ℕ) (args : ℕ → Arg)
    → ((j : ℕ) → i ≤ j → j < i + k → IsSendable h (args j))
    → (args' : ℕ → Arg) × (freed : List ℕ) × (answer_loop h k i args ≡ some (args', freed))
unfolding answer_loop
answer_loop-some h zero i args s = (args, [], refl)
answer_loop-some h (suc k) i args s =
    let ((a, f), e) = answer_argument-Succeeds h (args i) (s i (omega arith) (omega arith)) in
    let (args', later, e') = answer_loop-some h k (suc i) (update args i a) (λ j x y.
      let same : args j ≡ update args i a j = ground arith in
      subst (IsSendable h) same (s j (omega arith) (omega arith))) in
    (args', f ++ later, rw (e, e') refl)

module _ (h : Handles) (type_size : ℕ → ℕ) (table : Table) (run : Thread → Call → Node → Node)
    (t : Thread) (no_work : Ptr) (tag : ℕ) (p : Ptr) (n : Node) where
  -- The answer of a task whose arguments are fit to be sent, and which has a parent, not the
  -- descriptor that holds the answer, is taken in without an abort: the receives posted agree with
  -- the results that were sent, the parent is told of the end of the task, and the loop of the
  -- server recycles the descriptor that brought the answer, at the end of the queue. No other
  -- descriptor changes.
  pub on_answer-parent :
      ((i : ℕ) → i < (n.desc p).narg → IsSendable h ((n.desc p).args i))
      → (n.desc p).parent ≢ null
      → (n.desc p).parent ≢ p
      → (n' : Node) × (ps : List Packet) × (recycle p
            (on_answer h type_size table run t no_work tag p n)
          ≡ goes_on n' true ps)
        × (map envelope ps ≡ map envelope (send_results tag (n.desc p)))
        × (n'.desc (n.desc p).parent ≡ (torc_depsatisfy (n.desc (n.desc p).parent)).0)
        × ((q : Ptr) → q ≢ p → q ≢ (n.desc p).parent → n'.desc q ≡ n.desc q)
        × (n'.reuse_q ≡ n.reuse_q ++ p ∷ [])
  unfolding on_answer recycle torc_put_reused_desc torc_to_i_reuseq_end spec_step
  on_answer-parent is ne other =
      let d = n.desc p in
      let (ps, e, agree) = results_agree h tag d is in
      let (args, freed, e') = answer_loop-some h d.narg 0 d.args (λ j x y. is j (omega arith)) in
      let n1 = set_desc p (record d { args = args }) (record n { freed = n.freed ++ freed }) in
      let same : n1.desc d.parent ≡ n.desc d.parent = set_desc_other p d.parent _ n other in
      let n2 = set_desc d.parent (torc_depsatisfy (n1.desc d.parent)).0 n1 in
      (
        torc_put_reused_desc p n2,
        ps,
        rw (e, e', ==_false d.parent null ne) refl,
        agree,
        set_desc_self d.parent (torc_depsatisfy (n1.desc d.parent)).0 n1
            ∙ ap (λ k. (torc_depsatisfy k).0) same,
        λ q x y. set_desc_other d.parent q _ n1 y ∙ set_desc_other p q _ n x,
        refl,
      )
