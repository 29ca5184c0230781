-- ===== src/Common/Expected.antt =====
-- `std::expected<A, E>`, with `co_return std::unexpected(e)` and `return value` as constructors.
use mathlib.Core.Option.{Option, none, some}

pub data Expected {ℓ} (E A : Type ℓ) : Type ℓ where
  value : A → Expected E A
  unexpected : E → Expected E A

-- `if (!r) return std::unexpected(r.error());`
infixl 5 ◌>>=◌
abbrev pub ◌>>=◌ {ℓ} : {E A B : Type ℓ} → Expected E A → (A → Expected E B) → Expected E B
value a >>= f = f a
unexpected e >>= f = unexpected e

abbrev pub or_fail {ℓ} : {E A : Type ℓ} → Option A → E → Expected E A
or_fail none e = unexpected e
or_fail (some a) e = value a
