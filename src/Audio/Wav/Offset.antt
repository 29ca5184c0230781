-- ===== src/Audio/Wav/Offset.antt =====
-- src/infra/audio/WavUtils.hpp: the offset against the size of the buffer.
use hermes_flow_server.Common.{
  All-take, All-drop, ℕ, zero, suc, ◌+◌, ◌%◌, ◌^◌, ◌<◌, ◌≤◌, ◌≡◌, refl, Bool, true, false, ◌||◌,
  some, List, [], ◌∷◌, length, take, drop, ltb, if◌then◌else◌, arith, length-take, All,
}
use hermes_flow_server.Audio.Wav.{
  Outcome, offset, out_of_bounds, out_of_fuel, riff_tag, data_tag, same_bytes, bytes_at, le_value,
  find_data, get_audio_data_offset,
}

-- An offset that is no more than `n`.
abbrev pub OffsetWithin : ℕ → Outcome → Type 0
OffsetWithin n (offset k) = k ≤ n
OffsetWithin n out_of_bounds = false ≡ true
OffsetWithin n out_of_fuel = false ≡ true

either-OffsetWithin :
    (b : Bool) (n : ℕ) (x y : Outcome)
    → (b ≡ true → OffsetWithin n x)
    → (b ≡ false → OffsetWithin n y)
    → OffsetWithin n (if b then x else y)
either-OffsetWithin true n x y h k = h refl
either-OffsetWithin false n x y h k = k refl

pub bytes_inside :
    (buffer : List ℕ) (pos n : ℕ)
    → pos + n ≤ length buffer
    → bytes_at buffer pos n ≡ some (take n (drop pos buffer))
bytes_inside buffer pos n h = ground arith

le_value_bound : (bs : List ℕ) → All (λ b. b < 256) bs → length bs ≤ 4 → le_value bs < 2 ^ 32
le_value_bound [] h l = omega arith
le_value_bound (a ∷ []) h l = omega (arith, h.0)
le_value_bound (a ∷ b ∷ []) h l = omega (arith, h.0, h.1.0)
le_value_bound (a ∷ b ∷ c ∷ []) h l = omega (arith, h.0, h.1.0, h.1.1.0)
le_value_bound (a ∷ b ∷ c ∷ d ∷ []) h l = omega (arith, h.0, h.1.0, h.1.1.0, h.1.1.1.0)
le_value_bound (a ∷ b ∷ c ∷ d ∷ e ∷ r) h l = absurd (omega arith)

find_data-OffsetWithin :
    (fuel : ℕ) (buffer : List ℕ) (pos : ℕ)
    → 44 ≤ length buffer
    → length buffer < 2 ^ 63
    → All (λ b. b < 256) buffer
    → pos ≤ length buffer
    → length buffer < fuel + pos
    → OffsetWithin (length buffer) (find_data fuel buffer pos)
unfolding find_data
find_data-OffsetWithin zero buffer pos l s bs p f = absurd (omega arith)
find_data-OffsetWithin (suc fuel) buffer pos l s bs p f =
    either-OffsetWithin (ltb (pos + 8) (length buffer)) (length buffer) _ _
      (λ goes.
        rw
          (bytes_inside buffer pos 4 (ground arith), bytes_inside buffer (pos + 4) 4 (ground arith))
          (let size = le_value (take 4 (drop (pos + 4) buffer)) in
            let bound : size < 2 ^ 32 =
              le_value_bound (take 4 (drop (pos + 4) buffer))
                (All-take (λ b. b < 256) 4 (drop (pos + 4) buffer)
                  (All-drop (λ b. b < 256) (pos + 4) buffer bs))
                (omega (arith, length-take 4 (drop (pos + 4) buffer))) in
            let next_pos = (pos + 8 + size) % 2 ^ 64 in
            either-OffsetWithin (same_bytes (take 4 (drop pos buffer)) data_tag) (length buffer) _ _
              (λ found. ground arith)
              (λ other.
                either-OffsetWithin (ltb (length buffer) next_pos || ltb next_pos pos)
                  (length buffer) _ _ (λ bad. l)
                  (λ good.
                    find_data-OffsetWithin fuel buffer next_pos l s bs (ground arith)
                      (ground (arith, bound))))))
      (λ ends. l)

-- For a buffer of 44 bytes or more (and fewer than 2^63), the search ends within a turn for each
-- byte, reads nothing outside the buffer, and gives an offset in it or at its end.
pub get_audio_data_offset-OffsetWithin :
    (fuel : ℕ) (buffer : List ℕ)
    → 44 ≤ length buffer
    → length buffer < 2 ^ 63
    → All (λ b. b < 256) buffer
    → length buffer < fuel
    → OffsetWithin (length buffer) (get_audio_data_offset fuel buffer)
unfolding get_audio_data_offset
get_audio_data_offset-OffsetWithin fuel buffer l s bs f =
    either-OffsetWithin (ltb (length buffer) 44) (length buffer) _ _
      (λ small. absurd (ground arith))
      (λ large. rw (bytes_inside buffer 0 4 (omega arith)) (
        either-OffsetWithin (same_bytes (take 4 buffer) riff_tag) (length buffer) _ _
          (λ riff. find_data-OffsetWithin fuel buffer 12 l s bs (omega arith) (omega arith))
          (λ other. omega arith)))
