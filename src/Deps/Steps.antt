-- ===== src/Deps/Steps.antt =====
-- A task that creates children and waits for them, and its children that end, in any order of
-- their critical sections.
use torc_lite.Common.{ℕ, suc, ◌≡◌, true}
use torc_lite.Common.Int.{pos}
use torc_lite.Desc.{Desc}
use torc_lite.Deps.{
  torc_depadd, torc_depsatisfy, first_child, block_enter, block_done, waitall3_enter, waitall3_done,
}

-- Where the parent stands: in its own code, between the two critical sections of `torc_task`, in
-- the loop of `_torc_block`, in the loop of `torc_waitall3`.
pub data Phase : Type 0 where
  running creating blocked spinning : Phase

-- `children` counts the child tasks that were created and have not ended.
pub record State : Type 0 where
  pub desc : Desc
  pub children : ℕ
  pub phase : Phase

abbrev pub at : Desc → ℕ → Phase → State
at d n p = record { desc = d; children = n; phase = p }

pub data Step : State → State → Type 0 where
  begin_task : (d : Desc) (n : ℕ) → Step (at d n running) (at (first_child d) n creating)
  add_child :
      (d : Desc) (n : ℕ) → Step (at d n creating) (at (torc_depadd d (pos 1)) (suc n) running)
  end_child : (d : Desc) (n : ℕ) (p : Phase) → Step (at d (suc n) p) (at (torc_depsatisfy d).0 n p)
  enter : (d : Desc) (n : ℕ) → Step (at d n running) (at (block_enter d) n blocked)
  leave : (d : Desc) (n : ℕ) → block_done d ≡ true → Step (at d n blocked) (at d n running)
  enter3 : (d : Desc) (n : ℕ) → Step (at d n running) (at (waitall3_enter d) n spinning)
  leave3 : (d : Desc) (n : ℕ) → waitall3_done d ≡ true → Step (at d n spinning) (at d n running)

pub data Reach (s : State) : State → Type 0 where
  here : Reach s s
  next : {t u : State} → Reach s t → Step t u → Reach s u
