-- ===== src/Audio/PitchShifter/Index.antt =====
-- src/infra/audio/PitchShifter.cpp: the indices of the ring of frames, and of the samples in them.
use hermes_flow_server.Common.{
  ℕ, ◌+◌, ◌-◌, ◌*◌, ◌/◌, ◌%◌, ◌≤◌, ◌<◌, ◌≡◌, ◌≢◌, refl, arith, zero, suc, Bool-cases, inl, inr, ◌⊎◌,
  ltb, if◌then◌else◌, ap, sym, ◌∙◌,
}
use native.Mathlib.Nat.{mod_self}
use hermes_flow_server.Common.Post.{Post}
use hermes_flow_server.Audio.PitchShifter.{quotient}

-- The frame of a ring that was written `j` frames before the last one.
abbrev pub back : ℕ → ℕ → ℕ → ℕ
back write_ptr size j = if ltb j write_ptr then write_ptr - 1 - j else write_ptr + size - 1 - j

pub turned :
    (w n r : ℕ) → w < n → r ≡ (w + 1) % n → ((r ≡ w + 1) × (w + 1 < n)) ⊎ ((r ≡ 0) × (w + 1 ≡ n))
turned w n r h e = elim (Bool-cases (ltb (w + 1) n)) [
  | inl b ↦ inl (grind arith, ground arith)
  | inr b ↦ let full : w + 1 ≡ n = ground arith in inr (e ∙ ap (λ k. k % n) full ∙ mod_self n, full)
]

pub back_first : (w n r : ℕ) → w < n → r ≡ (w + 1) % n → back r n 0 ≡ w
back_first w n r h e = ground (arith, turned w n r h e)

pub back_next :
    (w n r j : ℕ)
    → w < n
    → j + 1 < n
    → r ≡ (w + 1) % n
    → (back r n (j + 1) ≡ back w n j) × (back w n j ≢ w)
back_next w n r j h l e = (ground (arith, turned w n r h e), λ k. ground arith)

pub apart :
    (w k ch c : ℕ) → k ≢ w → c < ch → (k * ch + c < w * ch + 0) ⊎ (w * ch + (0 + ch) ≤ k * ch + c)
apart w k ch c ne l = elim (Bool-cases (ltb k w)) [
  | inl b ↦ let h : k < w = ground arith in inl (grind arith)
  | inr b ↦ let h : w < k = ground arith in inr (grind arith)
]

pub first_index : (ch c : ℕ) → c ≡ (1 - 1 - 0) * ch + c
first_index ch c = omega arith

pub one_more : (k ch c : ℕ) → ch + (k * ch + c) ≡ suc k * ch + c
one_more k ch c = grind arith

pub later_index :
    (n j c ch ch' : ℕ) → j < n → ch' ≡ ch → ch + ((n - 1 - j) * ch' + c) ≡ (suc n - 1 - j) * ch + c
later_index n j c ch ch' l e =
    let step : suc n - 1 - j ≡ suc (n - 1 - j) = omega arith in
    ap (λ k. ch + ((n - 1 - j) * k + c)) e
    ∙ one_more (n - 1 - j) ch c
    ∙ ap (λ k. k * ch + c) (sym step)

pub quotient_lem : (a b : ℕ) → 0 < b → Post (λ q. q ≡ a / b) (quotient a b)
quotient_lem a zero h = absurd (omega arith)
quotient_lem a (suc b) h = refl

pub quotient_le : (a b : ℕ) → a / b * b ≤ a
quotient_le a b = grind arith
