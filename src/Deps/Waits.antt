-- ===== src/Deps/Waits.antt =====
-- When a wait for child tasks can end: the loops of `_torc_block` and `torc_waitall3`.
use torc_lite.Common.{ℕ, suc, ◌+◌, ◌≡◌, refl, ◌⊎◌, inl, ◌↔◌, true, false, arith}
use torc_lite.Common.Int.{ℤ, pos, minus_one}
use torc_lite.Desc.{Desc}
use torc_lite.Deps.{
  torc_depadd, torc_depsatisfy, first_child, block_enter, block_done, waitall3_enter, waitall3_done,
}
use torc_lite.Deps.Steps.{
  Phase, running, creating, blocked, spinning, State, at, Step, begin_task, add_child, end_child,
  enter, leave, enter3, leave3, Reach, here, next,
}

-- The counter in terms of the children: a task that has created children since its last wait
-- counts itself too. The only other value is that of `torc_waitall3` without children, -1.
abbrev Counts : Phase → ℕ → ℤ → Type 0
Counts running n d = ((n ≡ 0) × (d ≡ pos 0)) ⊎ (d ≡ pos (n + 1))
Counts creating n d = d ≡ pos (n + 1)
Counts blocked n d = d ≡ pos n
Counts spinning n d = ((n ≡ 0) × (d ≡ minus_one)) ⊎ (d ≡ pos n)

-- What holds from the start to the end of any such history.
abbrev pub IsCounted : State → Type 0
IsCounted s = Counts s.phase s.children s.desc.ndep

pub Step-IsCounted : {s t : State} → Step s t → IsCounted s → IsCounted t
unfolding torc_depadd torc_depsatisfy first_child block_enter block_done waitall3_enter
    waitall3_done
Step-IsCounted (begin_task d n) h = ground arith
Step-IsCounted (add_child d n) h = ground arith
Step-IsCounted (end_child d n running) h = ground arith
Step-IsCounted (end_child d n creating) h = ground arith
Step-IsCounted (end_child d n blocked) h = ground arith
Step-IsCounted (end_child d n spinning) h = ground arith
Step-IsCounted (enter d n) h = ground arith
Step-IsCounted (leave d n e) h = ground arith
Step-IsCounted (enter3 d n) h = ground arith
Step-IsCounted (leave3 d n e) h = ground arith

pub Reach-IsCounted : {s t : State} → IsCounted s → Reach s t → IsCounted t
Reach-IsCounted h here = h
Reach-IsCounted h (next r st) = Step-IsCounted st (Reach-IsCounted h r)

abbrev pub fresh : Desc → State
fresh d = at d 0 running

-- A task whose counter is 0 creates children, waits, and is in the loop of `_torc_block`: whatever
-- it has done before and in whatever order its children end, the test in the loop succeeds exactly
-- when no child is left.
pub block_returns_iff :
    (d e : Desc) (n : ℕ)
    → d.ndep ≡ pos 0
    → Reach (fresh d) (at e n blocked)
    → (block_done e ≡ true) ↔ (n ≡ 0)
unfolding block_done
block_returns_iff d e n z r =
    let c : e.ndep ≡ pos n = Reach-IsCounted (inl (refl, z)) r in
    (λ h. ground arith, λ h. ground arith)

-- A task whose counter was 0 and that is in the loop of `_torc_block` with a child left: the end of
-- a child is reported by `_torc_depsatisfy` to be the last dependency exactly if it is the only one
-- left.
pub last_child_reported :
    (d e : Desc) (n : ℕ)
    → d.ndep ≡ pos 0
    → Reach (fresh d) (at e (suc n) blocked)
    → ((torc_depsatisfy e).1 ≡ true) ↔ (n ≡ 0)
unfolding torc_depsatisfy
last_child_reported d e n z r =
    let c : e.ndep ≡ pos (suc n) = Reach-IsCounted (inl (refl, z)) r in
    (λ h. ground arith, λ h. ground arith)

-- The counter of a task that waits by `torc_waitall3` without children.
abbrev Stuck : State → Type 0
Stuck s = (s.phase ≡ spinning) × (s.children ≡ 0) × (s.desc.ndep ≡ minus_one)

Step-Stuck : {s t : State} → Step s t → Stuck s → Stuck t
unfolding waitall3_done
Step-Stuck (begin_task d n) h = cc
Step-Stuck (add_child d n) h = cc
Step-Stuck (end_child d n p) h = absurd (omega (arith, h.1))
Step-Stuck (enter d n) h = cc
Step-Stuck (leave d n e) h = cc
Step-Stuck (enter3 d n) h = cc
Step-Stuck (leave3 d n e) h = absurd (ground arith)

Reach-Stuck : {s t : State} → Stuck s → Reach s t → Stuck t
Reach-Stuck h here = h
Reach-Stuck h (next r st) = Step-Stuck st (Reach-Stuck h r)

-- A task without children and with the counter 0 that calls `torc_waitall3` stays in its loop for
-- ever, whatever happens: the counter has gone from 0 to -1, and the loop waits for 0.
pub waitall3_never_returns :
    (d : Desc) (t : State)
    → d.ndep ≡ pos 0
    → Reach (at (waitall3_enter d) 0 spinning) t
    → (t.phase ≡ spinning) × (waitall3_done t.desc ≡ false)
unfolding waitall3_enter waitall3_done
waitall3_never_returns d t z r =
    let s : Stuck t = Reach-Stuck (refl, refl, ground arith) r in (s.0, ground arith)
