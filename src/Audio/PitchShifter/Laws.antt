-- ===== src/Audio/PitchShifter/Laws.antt =====
-- The behaviour of `float` that src/infra/audio/PitchShifter.cpp relies on. The laws of arithmetic are
-- stated for operands between integers of at most 24 bits, where the bounds of the result are such
-- integers too: these are exact, no operation overflows or gives a NaN, and rounding keeps the order.
-- The laws of the order hold of all numbers that are not NaN.
use hermes_flow_server.Common.{
  ℕ, ◌-◌, ◌*◌, ◌^◌, ◌≤◌, ◌<◌, ◌≡◌, Bool, true, false, some, arith, suc, Bool-cases, inl, inr,
}
use hermes_flow_server.Common.Int.{ℤ, pos, negsuc, ◌+ℤ◌, ◌-ℤ◌, ◌≤ℤ◌, sub_ℕ}
use hermes_flow_server.Common.Post.{Post, Post-if}
use hermes_flow_server.Audio.PitchShifter.{Float, raise, lower}

-- The integers that a `float` holds exactly, with all between them and 0.
abbrev IsExact : ℤ → Type 0
IsExact a = (negsuc (2 ^ 24 - 1) ≤ℤ a) × (a ≤ℤ pos (2 ^ 24))

-- The bounds of two operands.
abbrev AllExact : ℤ → ℤ → ℤ → ℤ → Type 0
AllExact a b c d = IsExact a × IsExact b × IsExact c × IsExact d

clash {ℓ} : {b : Bool} {A : Type ℓ} → b ≡ true → b ≡ false → A
clash h k = absurd cc

module _ {F : Type 0} (f : Float F) where
  abbrev pub Between : ℤ → ℤ → F → Type 0
  Between a b x = (f.le (f.of_int a) x ≡ true) × (f.le x (f.of_int b) ≡ true)

  pub record IsIeee : Type 0 where
    pub le_trans : (x y z : F) → f.le x y ≡ true → f.le y z ≡ true → f.le x z ≡ true
    pub of_int_mono : (a b : ℤ) → a ≤ℤ b → f.le (f.of_int a) (f.of_int b) ≡ true
    pub of_int_order :
        (a b : ℤ) → IsExact a → IsExact b → f.le (f.of_int a) (f.of_int b) ≡ true → a ≤ℤ b
    pub le_of_lt : (x y : F) → f.lt x y ≡ true → f.le x y ≡ true
    pub not_le_of_lt : (x y : F) → f.lt x y ≡ true → f.le y x ≡ false
    pub le_of_not_lt :
        (a b c : ℤ) (x : F)
        → Between a b x
        → f.lt x (f.of_int c) ≡ false
        → f.le (f.of_int c) x ≡ true
    pub le_of_not_le :
        (a b c : ℤ) (x : F)
        → Between a b x
        → f.le (f.of_int c) x ≡ false
        → f.le x (f.of_int c) ≡ true
    pub add_range :
        (a b c d : ℤ) (x y : F)
        → Between a b x
        → Between c d y
        → AllExact a b c d
        → IsExact (a +ℤ c)
        → IsExact (b +ℤ d)
        → Between (a +ℤ c) (b +ℤ d) (f.add x y)
    pub sub_range :
        (a b c d : ℤ) (x y : F)
        → Between a b x
        → Between c d y
        → AllExact a b c d
        → IsExact (a -ℤ d)
        → IsExact (b -ℤ c)
        → Between (a -ℤ d) (b -ℤ c) (f.sub x y)
    pub mul_range :
        (n : ℕ) (x : F)
        → n ≤ 2 ^ 24
        → Between (pos 0) (pos 1) x
        → Between (pos 0) (pos n) (f.mul x (f.of_int (pos n)))
    pub to_int_range :
        (n : ℕ) (x : F)
        → n ≤ 2 ^ 24
        → Between (pos 0) (pos n) x
        → (i : ℕ) × (f.to_int x ≡ pos i) × (i ≤ n)
    pub half_range : Between (pos 0) (pos 1) f.half

  module _ (laws : IsIeee) where
    pub widen : (a b c d : ℤ) (x : F) → Between a b x → c ≤ℤ a → b ≤ℤ d → Between c d x
    widen a b c d x (l, u) h k = (
      laws.le_trans (f.of_int c) (f.of_int a) x (laws.of_int_mono c a h) l,
      laws.le_trans x (f.of_int b) (f.of_int d) u (laws.of_int_mono b d k),
    )

    -- A sum and a difference, within wider bounds.
    pub add_within :
        (a b c d lo hi : ℤ) (x y : F)
        → Between a b x
        → Between c d y
        → AllExact a b c d
        → IsExact (a +ℤ c)
        → IsExact (b +ℤ d)
        → lo ≤ℤ (a +ℤ c)
        → (b +ℤ d) ≤ℤ hi
        → Between lo hi (f.add x y)
    add_within a b c d lo hi x y hx hy ex e e' l u =
        widen (a +ℤ c) (b +ℤ d) lo hi (f.add x y) (laws.add_range a b c d x y hx hy ex e e') l u

    pub sub_within :
        (a b c d lo hi : ℤ) (x y : F)
        → Between a b x
        → Between c d y
        → AllExact a b c d
        → IsExact (a -ℤ d)
        → IsExact (b -ℤ c)
        → lo ≤ℤ (a -ℤ d)
        → (b -ℤ c) ≤ℤ hi
        → Between lo hi (f.sub x y)
    sub_within a b c d lo hi x y hx hy ex e e' l u =
        widen (a -ℤ d) (b -ℤ c) lo hi (f.sub x y) (laws.sub_range a b c d x y hx hy ex e e') l u

    pub exactly : (a : ℤ) → Between a a (f.of_int a)
    exactly a = (laws.of_int_mono a a (omega arith), laws.of_int_mono a a (omega arith))

    at_least : (x : F) (c : ℤ) → f.le (f.of_int c) x ≡ true → f.lt x (f.of_int c) ≡ false
    at_least x c h = elim (Bool-cases (f.lt x (f.of_int c))) [
      | inl e ↦ clash h (laws.not_le_of_lt x (f.of_int c) e)
      | inr e ↦ e
    ]

    -- `raise` is over after one turn where the number is at least the negated step.
    pub raise-Between :
        (m n : ℕ) (fuel : ℕ) (x : F)
        → m ≤ n
        → n ≤ 2 ^ 24
        → Between (sub_ℕ 0 m) (pos n) x
        → Post (Between (pos 0) (pos n)) (raise f (suc (suc fuel)) (f.of_int (pos n)) x)
    unfolding raise ◌+ℤ◌
    raise-Between m n fuel x h l b =
        let P = Between (pos 0) (pos n) in
        let size = f.of_int (pos n) in
        let y = f.add x size in
        Post-if P (f.lt x (f.of_int (pos 0))) _ (some x)
          (λ e.
            let low : Between (sub_ℕ 0 m) (pos 0) x = (b.0, laws.le_of_lt x (f.of_int (pos 0)) e) in
            let b' : Between (pos 0) (pos n) y =
              add_within (sub_ℕ 0 m) (pos 0) (pos n) (pos n) (pos 0) (pos n) x size low
                (exactly (pos n)) (ground arith) (ground arith) (ground arith) (ground arith)
                (ground arith) in
            Post-if P (f.lt y (f.of_int (pos 0))) _ (some y)
              (λ e'. clash e' (at_least y (pos 0) b'.0)) (λ e'. b'))
          (λ e. (laws.le_of_not_lt (sub_ℕ 0 m) (pos n) (pos 0) x b e, b.1))

    -- `lower` is over after two turns where the number is at most twice the step.
    pub lower-Between :
        (n u : ℕ) (fuel : ℕ) (x : F)
        → 0 < n
        → u ≤ n * 2
        → n ≤ 2 ^ 23
        → Between (pos 0) (pos u) x
        → Post (Between (pos 0) (pos n)) (lower f (suc (suc (suc fuel))) (f.of_int (pos n)) x)
    unfolding lower ◌-ℤ◌
    lower-Between n u fuel x h l l' b =
        let P = Between (pos 0) (pos n) in
        let size = f.of_int (pos n) in
        let y = f.sub x size in
        let z = f.sub y size in
        Post-if P (f.le size x) _ (some x)
          (λ e.
            let b' =
              sub_within (pos n) (pos u) (pos n) (pos n) (pos 0) (pos n) x size (e, b.1)
                (exactly (pos n)) (ground arith) (ground arith) (ground arith) (ground arith)
                (ground arith) in
            Post-if P (f.le size y) _ (some y)
              (λ e'.
                let b'' =
                  sub_within (pos n) (pos n) (pos n) (pos n) (pos 0) (pos 0) y size (e', b'.1)
                    (exactly (pos n)) (ground arith) (ground arith) (ground arith) (ground arith)
                    (ground arith) in
                Post-if P (f.le size z) _ (some z)
                  (λ e''. absurd (
                    omega (
                      arith,
                      laws.of_int_order (pos n) (pos 0) (ground arith) (ground arith)
                          (laws.le_trans size z (f.of_int (pos 0)) e'' b''.1),
                    )))
                  (λ e''. widen (pos 0) (pos 0) (pos 0) (pos n) z b'' (omega arith) (omega arith)))
              (λ e'. b'))
          (λ e. (b.0, laws.le_of_not_le (pos 0) (pos u) (pos n) x b e))
