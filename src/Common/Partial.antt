-- ===== src/Common/Partial.antt =====
-- Computations that may fail: what holds of their result, whenever there is one.
use mathlib.Core.Path.{◌≡◌, refl, ap, subst}
use mathlib.Core.Logic.{◌≢◌}
use mathlib.Core.Bool.{Bool, true, false}
use mathlib.Core.Option.{Option, none, some}
use torc_lite.Common.Tests.{if◌then◌else◌}
use torc_lite.Common.Lists.{◌>>=◌}

module _ {ℓ κ} {A : Type ℓ} (P : A → Type κ) where
  abbrev pub Always : Option A → Type (ℓ ⊔ κ)
  Always o = (a : A) → o ≡ some a → P a

  none≢some : (a : A) → none ≢ some a
  none≢some a e = cc

  pub Always-none : Always none
  Always-none a e = absurd (none≢some a e)

  or_else : A → Option A → A
  or_else a none = a
  or_else a (some b) = b

  pub Always-some : (b : A) → P b → Always (some b)
  unfolding or_else
  Always-some b p a e = subst P (ap (or_else a) e) p

  pub Always-if : (b : Bool) (x y : Option A) → Always x → Always y → Always (if b then x else y)
  Always-if true x y h k = h
  Always-if false x y h k = k

-- A chain: the first result passes on what is needed to show the second.
pub Always-bind {ℓ κ ℓ' κ'} :
    {A : Type ℓ} {B : Type ℓ'} (P : A → Type κ) (Q : B → Type κ') (o : Option A) (f : A → Option B)
    → Always P o
    → ((a : A) → P a → Always Q (f a))
    → Always Q (o >>= f)
Always-bind P Q none f h k = Always-none Q
Always-bind P Q (some a) f h k = k a (h a refl)

-- The same, when nothing is known of the first result.
pub Always-then {ℓ ℓ' κ'} :
    {A : Type ℓ} {B : Type ℓ'} (Q : B → Type κ') (o : Option A) (f : A → Option B)
    → ((a : A) → Always Q (f a))
    → Always Q (o >>= f)
Always-then Q none f k = Always-none Q
Always-then Q (some a) f k = k a
