-- ===== src/Audio/Mixing.antt =====
-- src/infra/audio/AudioMath.hpp and the samples of src/core/graph/nodes/MixerNode.cpp. `compress` is the
-- branch of `soft_clip` in floating-point numbers.
use hermes_flow_server.Common.{
  ℕ, zero, suc, ◌-◌, ◌*◌, ◌/◌, ◌%◌, ◌^◌, ◌<◌, ◌≡◌, ltb, refl, ap, ap₂, ◌∙◌, ◌||◌, Option, none,
  some, List, [], ◌∷◌, length, replicate, if◌then◌else◌, All, arith,
}
use hermes_flow_server.Common.Int.{ℤ, pos, negsuc, ◌+ℤ◌, ◌≤ℤ◌, ltb_ℤ}
use hermes_flow_server.Audio.Pcm.{to_u16, to_i16, sample_of, as_samples}

abbrev pub clip_limit : ℕ
clip_limit = 30000

-- `static_cast<int32_t>` of a sum.
abbrev pub to_u32 : ℤ → ℕ
to_u32 (pos n) = n % 2 ^ 32
to_u32 (negsuc n) = 2 ^ 32 - 1 - n % 2 ^ 32

abbrev pub to_i32 : ℕ → ℤ
to_i32 w = if ltb w (2 ^ 31) then pos w else negsuc (2 ^ 32 - 1 - w)

unfoldable pub sum_buffers : List ℤ → List ℤ → List ℤ
sum_buffers [] input = []
sum_buffers (a ∷ accumulator) [] = a ∷ accumulator
sum_buffers (a ∷ accumulator) (s ∷ input) = to_i32 (to_u32 (a +ℤ s)) ∷ sum_buffers accumulator input

module _ (compress : ℤ → ℤ) where
  unfoldable pub soft_clip : ℤ → ℤ
  soft_clip sample =
      if ltb_ℤ (pos clip_limit) sample || ltb_ℤ sample (negsuc (clip_limit - 1))
      then compress sample
      else to_i16 (to_u16 sample)

  abbrev pub with_front : ℕ → ℕ → Option (List ℕ) → Option (List ℕ)
  with_front lo hi none = none
  with_front lo hi (some rest) = some (lo ∷ hi ∷ rest)

  -- The output after the loop, which writes each sample's bytes; `none` is a read past the end of the
  -- accumulator.
  unfoldable pub compress_and_export : List ℤ → List ℕ → Option (List ℕ)
  unfolding soft_clip
  compress_and_export accumulator [] = some []
  compress_and_export accumulator (b ∷ []) = some (b ∷ [])
  compress_and_export [] (lo ∷ hi ∷ rest) = none
  compress_and_export (a ∷ accumulator) (lo ∷ hi ∷ rest) =
      let v = to_u16 (soft_clip a) in
      with_front (v % 256) (v / 256) (compress_and_export accumulator rest)

  -- The loop of `MixerNode::process_frame` over the frames of the inputs that were active.
  unfoldable pub accumulate : List ℤ → List (List ℕ) → List ℤ
  unfolding sum_buffers
  accumulate accumulator [] = accumulator
  accumulate accumulator (frame ∷ frames) =
      accumulate (sum_buffers accumulator (as_samples frame)) frames

  -- The frame that a mixer makes of the frames of its active inputs.
  unfoldable pub mix : ℕ → List (List ℕ) → List ℕ → Option (List ℕ)
  unfolding accumulate compress_and_export
  mix samples_per_frame frames frame_buffer =
      compress_and_export (accumulate (replicate samples_per_frame (pos 0)) frames) frame_buffer

  -- A sample that the limit leaves alone.
  abbrev pub IsQuiet : ℤ → Type 0
  IsQuiet s = (negsuc 29999 ≤ℤ s) × (s ≤ℤ pos 30000)

  soft_clip_quiet : (s : ℤ) → IsQuiet s → soft_clip s ≡ s
  unfolding soft_clip
  soft_clip_quiet (pos n) h = ground arith
  soft_clip_quiet (negsuc n) h = ground arith

  exact_sum :
      (lo hi : ℕ)
      → lo < 256
      → hi < 256
      → to_i32 (to_u32 (pos 0 +ℤ sample_of lo hi)) ≡ sample_of lo hi
  unfolding ◌+ℤ◌
  exact_sum lo hi l h = ground arith

  -- The bytes of a sample.
  sample_bytes :
      (lo hi : ℕ)
      → lo < 256
      → hi < 256
      → (to_u16 (sample_of lo hi) % 256 ≡ lo) × (to_u16 (sample_of lo hi) / 256 ≡ hi)
  sample_bytes lo hi l h = (ground arith, ground arith)

  mixed_single :
      (frame out : List ℕ) (n : ℕ)
      → All (λ b. b < 256) frame
      → All IsQuiet (as_samples frame)
      → length frame ≡ 2 * n
      → length out ≡ 2 * n
      → compress_and_export (sum_buffers (replicate n (pos 0)) (as_samples frame)) out ≡ some frame
  unfolding compress_and_export sum_buffers as_samples
  mixed_single [] [] n b q f o = refl
  mixed_single [] (x ∷ out) n b q f o = absurd (omega arith)
  mixed_single (x ∷ []) out n b q f o = absurd (omega arith)
  mixed_single (lo ∷ hi ∷ frame) [] n b q f o = absurd (omega arith)
  mixed_single (lo ∷ hi ∷ frame) (x ∷ []) n b q f o = absurd (omega arith)
  mixed_single (lo ∷ hi ∷ frame) (x ∷ y ∷ out) zero b q f o = absurd (omega arith)
  mixed_single (lo ∷ hi ∷ frame) (x ∷ y ∷ out) (suc n) b q f o =
      let same = ap soft_clip (exact_sum lo hi b.0 b.1.0) ∙ soft_clip_quiet (sample_of lo hi) q.0 in
      let (low, high) = sample_bytes lo hi b.0 b.1.0 in
      ap (with_front _ _) (mixed_single frame out n b.1.1 q.1 (omega arith) (omega arith))
      ∙ ap (λ v. some (to_u16 v % 256 ∷ to_u16 v / 256 ∷ frame)) same
      ∙ ap₂ (λ l h. some (l ∷ h ∷ frame)) low high

  -- A mixer with one active input passes its frame on unchanged, where no sample is louder than the
  -- limit.
  pub mix_single :
      (frame out : List ℕ) (n : ℕ)
      → All (λ b. b < 256) frame
      → All IsQuiet (as_samples frame)
      → length frame ≡ 2 * n
      → length out ≡ 2 * n
      → mix n (frame ∷ []) out ≡ some frame
  unfolding mix accumulate
  mix_single frame out n b q f o = mixed_single frame out n b q f o
