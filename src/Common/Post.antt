-- ===== src/Common/Post.antt =====
-- A computation that may have no result, and what holds of the result that it has.
use mathlib.Core.Path.{◌≡◌, refl}
use mathlib.Core.Bool.{Bool, true, false}
use mathlib.Core.Option.{Option, none, some}
use hermes_flow_server.Common.Tests.{if◌then◌else◌}

infixl 5 ◌>>=◌
abbrev pub ◌>>=◌ : {A B : Type 0} → Option A → (A → Option B) → Option B
none >>= f = none
some a >>= f = f a

-- There is a result, and `P` holds of it.
abbrev pub Post : {A : Type 0} → (A → Type 0) → Option A → Type 0
Post P none = ⊥
Post P (some a) = P a

module _ {A : Type 0} where
  pub Post-bind :
      {B : Type 0} (P : A → Type 0) (Q : B → Type 0) (m : Option A) (f : A → Option B)
      → Post P m
      → ((a : A) → P a → Post Q (f a))
      → Post Q (m >>= f)
  Post-bind P Q none f h k = absurd h
  Post-bind P Q (some a) f h k = k a h

  pub Post-weaken : (P Q : A → Type 0) (m : Option A) → Post P m → ((a : A) → P a → Q a) → Post Q m
  Post-weaken P Q none h k = h
  Post-weaken P Q (some a) h k = k a h

  -- A conditional has a result where the branch that is taken has one.
  pub Post-if :
      (P : A → Type 0) (b : Bool) (m n : Option A)
      → (b ≡ true → Post P m)
      → (b ≡ false → Post P n)
      → Post P (if b then m else n)
  Post-if P true m n h k = h refl
  Post-if P false m n h k = k refl
