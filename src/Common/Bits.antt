-- ===== src/Common/Bits.antt =====
-- Bitwise operations at variables: one equation for the lowest digit, and what follows from it.
use Prim.Native.Nat.{
  ℕ, zero, suc, ◌+◌, ◌-◌, ◌*◌, ◌/◌, ◌%◌, ◌^◌, ◌≤◌, ◌<◌, min, max, bit_and, bit_or, bit_xor, digits,
  bitwise, differ, bit_and-bitwise, bit_or-bitwise, bit_xor-bitwise,
}
use mathlib.Core.Path.{◌≡◌, refl, ap, ◌∙◌}
use native.Mathlib.Nat.{le_refl, pow-suc, one-le-pow}
use native.Mathlib.Omega.{arith}

module _ (base : ℕ → ℕ) (digit : ℕ → ℕ → ℕ) where
  -- Fuel above the number is not used.
  one_more :
      (fuel x y : ℕ) → x ≤ fuel → digits base digit (suc fuel) x y ≡ digits base digit fuel x y
  one_more zero zero y h = refl
  one_more zero (suc x) y h = absurd (omega arith)
  one_more (suc fuel) zero y h = refl
  one_more (suc fuel) (suc x) y h = omega (arith, one_more fuel (suc x / 2) (y / 2) (omega arith))

  some_more :
      (extra fuel x y : ℕ) → fuel ≡ x + extra → digits base digit fuel x y ≡ digits base digit x x y
  some_more zero fuel x y e = ap (λ t. digits base digit t x y) (omega (arith, e))
  some_more (suc extra) zero x y e = absurd (omega arith)
  some_more (suc extra) (suc fuel) x y e =
      one_more fuel x y (omega arith) ∙ some_more extra fuel x y (omega arith)

  -- One turn of the recursion, for the halves with the fuel that is theirs.
  lowest_digit :
      (x y : ℕ)
      → bitwise base digit (suc x) y
        ≡ 2 * bitwise base digit (suc x / 2) (y / 2) + digit (suc x % 2) (y % 2)
  lowest_digit x y =
      let half = suc x / 2 in
      let enough : digits base digit x half (y / 2) ≡ digits base digit half half (y / 2) =
        some_more (x - half) x half (y / 2) (omega arith) in
      omega (arith, enough)

pub bit_xor_step : (x y : ℕ) → bit_xor x y ≡ 2 * bit_xor (x / 2) (y / 2) + differ (x % 2) (y % 2)
bit_xor_step zero y = simp bit_xor-bitwise (omega arith)
bit_xor_step (suc x) y = simp bit_xor-bitwise (lowest_digit (λ t. t) differ x y)

pub bit_or_step : (x y : ℕ) → bit_or x y ≡ 2 * bit_or (x / 2) (y / 2) + max (x % 2) (y % 2)
bit_or_step zero y = simp bit_or-bitwise (omega arith)
bit_or_step (suc x) y = simp bit_or-bitwise (lowest_digit (λ t. t) max x y)

differ_parity : (d e : ℕ) → d < 2 → e < 2 → differ d e ≡ (d + e) % 2
differ_parity zero e h k = omega arith
differ_parity (suc zero) zero h k = refl
differ_parity (suc zero) (suc zero) h k = refl
differ_parity (suc zero) (suc (suc e)) h k = absurd (omega arith)
differ_parity (suc (suc d)) e h k = absurd (omega arith)

bit_xor_parity : (a b : ℕ) → bit_xor a b ≡ bit_xor (a / 2) (b / 2) * 2 + (a % 2 + b % 2) % 2
bit_xor_parity a b =
    omega (arith, bit_xor_step a b, differ_parity (a % 2) (b % 2) (omega arith) (omega arith))

bit_xor_cancel_fuel : (n a x y : ℕ) → a ≤ n → x ≤ n → y ≤ n → bit_xor a x ≡ bit_xor a y → x ≡ y
bit_xor_cancel_fuel zero a x y p q r e = omega arith
bit_xor_cancel_fuel (suc n) a x y p q r e =
    let halves : bit_xor (a / 2) (x / 2) ≡ bit_xor (a / 2) (y / 2) =
      omega (arith, bit_xor_parity a x, bit_xor_parity a y) in
    let same =
      bit_xor_cancel_fuel n (a / 2) (x / 2) (y / 2) (omega arith) (omega arith) (omega arith)
        halves in
    omega (arith, bit_xor_parity a x, bit_xor_parity a y, same)

-- Exclusive or with a fixed number loses nothing.
pub bit_xor_cancel : (a x y : ℕ) → bit_xor a x ≡ bit_xor a y → x ≡ y
bit_xor_cancel a x y =
    bit_xor_cancel_fuel (a + x + y) a x y (omega arith) (omega arith) (omega arith)

pub bit_xor-lt : (k a b : ℕ) → a < 2 ^ k → b < 2 ^ k → bit_xor a b < 2 ^ k
bit_xor-lt zero zero zero h l = omega arith
bit_xor-lt zero zero (suc b) h l = absurd (omega arith)
bit_xor-lt zero (suc a) b h l = absurd (omega arith)
bit_xor-lt (suc k) a b h l =
    let p = pow-suc 2 k in
    let below = bit_xor-lt k (a / 2) (b / 2) (omega arith) (omega arith) in
    omega (arith, bit_xor_parity a b)

-- The low digit of a conjunction is the lesser one.
pub bit_and_step : (x y : ℕ) → bit_and x y ≡ 2 * bit_and (x / 2) (y / 2) + min (x % 2) (y % 2)
bit_and_step zero y = simp bit_and-bitwise (omega arith)
bit_and_step (suc x) y = simp bit_and-bitwise (lowest_digit (λ t. zero) min x y)

-- The second number is 0.
with_zero : (bound x : ℕ) → x ≤ bound → (bit_or x 0 ≡ x) × (bit_and x 0 ≡ 0)
with_zero bound zero h = (refl, refl)
with_zero zero (suc x) h = absurd (omega arith)
with_zero (suc bound) (suc x) h =
    let (o, a) = with_zero bound (suc x / 2) (omega arith) in
    (omega (arith, bit_or_step (suc x) 0, o), omega (arith, bit_and_step (suc x) 0, a))

-- Fields that do not overlap are added.
pub bit_or_disjoint : (k q r : ℕ) → r < 2 ^ k → bit_or (q * 2 ^ k) r ≡ q * 2 ^ k + r
bit_or_disjoint zero q r h =
    let r0 : r ≡ 0 = omega arith in rw r0 (omega (arith, (with_zero (q * 1) (q * 1) (le_refl _)).0))
bit_or_disjoint (suc k) q r h =
    let double : q * 2 ^ suc k ≡ 2 * (q * 2 ^ k) =
      omega (arith, ap (λ (t : ℕ). q * t) (pow-suc 2 k)) in
    let half : q * 2 ^ suc k / 2 ≡ q * 2 ^ k = omega arith in
    let rest = bit_or_disjoint k q (r / 2) (omega (arith, pow-suc 2 k)) in
    omega (arith, bit_or_step (q * 2 ^ suc k) r, ap (λ (t : ℕ). bit_or t (r / 2)) half)

-- A mask of low bits is a remainder.
pub bit_and_low : (k a m : ℕ) → m + 1 ≡ 2 ^ k → bit_and a m ≡ a % 2 ^ k
bit_and_low zero a m h =
    let m0 : m ≡ 0 = omega arith in rw m0 (omega (arith, (with_zero a a (le_refl _)).1))
bit_and_low (suc k) a m h =
    let p = pow-suc 2 k in
    let one = one-le-pow k 2 (omega arith) in
    let rest = bit_and_low k (a / 2) (m / 2) (omega arith) in
    let half : m / 2 + 1 ≡ 2 ^ k = omega arith in
    let odd : m % 2 ≡ 1 = omega arith in
    let twice : a % (2 ^ k * 2) ≡ a / 2 % 2 ^ k * 2 + a % 2 = grind arith in
    let wide = ap (λ (t : ℕ). a % t) p in omega (arith, bit_and_step a m)
