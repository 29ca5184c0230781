-- ===== src/Common/Store.antt =====
-- The loop `for (i = 0; i < in.size(); ++i) out[i] = g(in[i]);` and reads after writes.
use Prim.Native.Nat.{ℕ, zero, suc, ◌+◌, ◌≤◌, ◌<◌}
use mathlib.Core.Path.{◌≡◌, refl, sym, ap, ◌∙◌}
use mathlib.Core.Logic.{◌≢◌}
use mathlib.Core.List.{List, [], ◌∷◌, ◌++◌, map, append_assoc}
use native.Mathlib.Omega.{arith}
use hermes_flow_server.Common.Lists.{length, get_or, set, take, drop, length-set, take-append-drop}

module _ {ℓ} {A : Type ℓ} where
  pub get_or-set_self :
      (xs : List A) (i : ℕ) (v d : A) → i < length xs → get_or (set xs i v) i d ≡ v
  get_or-set_self [] i v d h = absurd (omega arith)
  get_or-set_self (x ∷ xs) zero v d h = refl
  get_or-set_self (x ∷ xs) (suc i) v d h = get_or-set_self xs i v d (omega arith)

  pub get_or-set_ne :
      (xs : List A) (i j : ℕ) (v d : A) → i ≢ j → get_or (set xs i v) j d ≡ get_or xs j d
  get_or-set_ne [] i j v d h = refl
  get_or-set_ne (x ∷ xs) zero zero v d h = absurd (h refl)
  get_or-set_ne (x ∷ xs) zero (suc j) v d h = refl
  get_or-set_ne (x ∷ xs) (suc i) zero v d h = refl
  get_or-set_ne (x ∷ xs) (suc i) (suc j) v d h = get_or-set_ne xs i j v d (λ e. h (ap suc e))

  pub take-set :
      (xs : List A) (i : ℕ) (v : A)
      → i < length xs
      → take (suc i) (set xs i v) ≡ take i xs ++ v ∷ []
  take-set [] i v h = absurd (omega arith)
  take-set (x ∷ xs) zero v h = refl
  take-set (x ∷ xs) (suc i) v h = ap (◌∷◌ x) (take-set xs i v (omega arith))

  pub drop-set : (xs : List A) (i j : ℕ) (v : A) → i < j → drop j (set xs i v) ≡ drop j xs
  drop-set [] i j v h = refl
  drop-set (x ∷ xs) zero zero v h = absurd (omega arith)
  drop-set (x ∷ xs) zero (suc j) v h = refl
  drop-set (x ∷ xs) (suc i) zero v h = absurd (omega arith)
  drop-set (x ∷ xs) (suc i) (suc j) v h = drop-set xs i j v (omega arith)

module _ {ℓ κ} {A : Type ℓ} {B : Type κ} (g : A → B) where
  unfoldable pub store_from : ℕ → List A → List B → List B
  store_from i [] out = out
  store_from i (a ∷ rest) out = store_from (suc i) rest (set out i (g a))

  store_from_lem :
      (i : ℕ) (xs : List A) (out : List B)
      → i + length xs ≤ length out
      → store_from i xs out ≡ take i out ++ (map g xs ++ drop (i + length xs) out)
  unfolding store_from
  store_from_lem i [] out h = let e : i + 0 ≡ i = omega arith in rw e (sym (take-append-drop i out))
  store_from_lem i (a ∷ rest) out h =
      let out' = set out i (g a) in
      store_from_lem (suc i) rest out' (omega (arith, length-set out i (g a)))
      ∙ rw
          (
            take-set out i (g a) (omega arith),
            drop-set out i (suc i + length rest) (g a) (omega arith),
            append_assoc (take i out) (g a ∷ []) (map g rest ++ drop (suc i + length rest) out),
          )
          (ap (λ k. take i out ++ g a ∷ (map g rest ++ drop k out)) (omega arith))

  -- From index 0 the loop replaces the front of the output.
  pub store_all_lem :
      (xs : List A) (out : List B)
      → length xs ≤ length out
      → store_from 0 xs out ≡ map g xs ++ drop (length xs) out
  store_all_lem xs out h =
      store_from_lem 0 xs out (omega arith) ∙ ap (λ k. map g xs ++ drop k out) (omega arith)
