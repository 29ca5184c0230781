-- ===== src/Audio/Alaw/Expand.antt =====
-- src/infra/audio/Alaw.cpp, sample by sample: what is lost by encoding and decoding.
use hermes_flow_server.Common.{
  ℕ, zero, suc, ◌+◌, ◌*◌, ◌/◌, ◌%◌, ◌^◌, ◌<◌, ◌≤◌, ◌≡◌, refl, sym, ap, ap₂, ◌∙◌, ◌==◌, ==_iff, Bool,
  true, false, ◌&&◌, bit_xor, bit_or, bit_and, holds_below, holds_below_at, max, arith,
}
use hermes_flow_server.Common.Bits.{bit_and_low}
use hermes_flow_server.Common.Int.{pos, negsuc, ◌-ℤ◌, ◌≤ℤ◌}
use hermes_flow_server.Audio.Alaw.{
  encode_sample, decode_sample, expand, quantize, segment_shift, find_segment, segment_edges,
}

encode-decode_table : holds_below (λ a. encode_sample (decode_sample a) == a) 256 ≡ true
unfolding holds_below encode_sample decode_sample
encode-decode_table = refl

-- Every A-law byte is the encoding of the sample that it decodes to.
pub encode_sample-decode_sample : (a : ℕ) → a < 256 → encode_sample (decode_sample a) ≡ a
encode_sample-decode_sample a h =
    (==_iff _ _).0
      (holds_below_at (λ b. encode_sample (decode_sample b) == b) 256 a h encode-decode_table)

-- A magnitude's segment and the four bits under it.
abbrev segment_of : ℕ → ℕ
segment_of n = find_segment segment_edges (pos n)

abbrev quant_of : ℕ → ℕ
quant_of n = n / 2 ^ segment_shift (segment_of n) % 16

-- The magnitude that the decoder makes of them.
abbrev pub level : ℕ → ℕ
level n = expand (quant_of n) (segment_of n)

-- Half a step of the segment: 8 in the two lowest, then twice as much in each.
level_near : (n : ℕ) → n < 32768 → (level n ≤ n + max 8 (n / 32)) × (n ≤ level n + max 8 (n / 32))
level_near n h = ground arith

level_mono : (m n : ℕ) → m ≤ n → n < 32768 → level m ≤ level n
level_mono m n h l = ground arith

-- What the masks leave of a byte of quantization and segment bits, sign bit apart.
abbrev fields_back : ℕ → Bool
fields_back u =
    (bit_or (u % 16) (u / 16 * 16 % 256) == u)
    && (bit_xor (bit_xor u 0x55) 0x55 == u)
    && (bit_xor (bit_xor u 0xd5) 0x55 == u + 128)
    && (bit_and u 0x0f == u % 16)
    && (bit_and u 0x70 / 16 == u / 16)
    && (bit_and u 0x80 == 0)
    && (bit_and (u + 128) 0x0f == u % 16)
    && (bit_and (u + 128) 0x70 / 16 == u / 16)
    && (bit_and (u + 128) 0x80 == 128)

fields_table : holds_below fields_back 128 ≡ true
unfolding holds_below
fields_table = refl

record Fields (u : ℕ) : Type 0 where
  joined : bit_or (u % 16) (u / 16 * 16 % 256) ≡ u
  unmasked : bit_xor (bit_xor u 0x55) 0x55 ≡ u
  unmasked_signed : bit_xor (bit_xor u 0xd5) 0x55 ≡ u + 128
  quant : bit_and u 0x0f ≡ u % 16
  segment : bit_and u 0x70 / 16 ≡ u / 16
  sign : bit_and u 0x80 ≡ 0
  quant_signed : bit_and (u + 128) 0x0f ≡ u % 16
  segment_signed : bit_and (u + 128) 0x70 / 16 ≡ u / 16
  sign_signed : bit_and (u + 128) 0x80 ≡ 128

fields_lem : (u : ℕ) → u < 128 → Fields u
fields_lem u h = ground (arith, holds_below_at fields_back 128 u h fields_table)

decode_sample_negative :
    (u : ℕ) → u < 128 → decode_sample (bit_xor u 0x55) ≡ pos 0 -ℤ pos (expand (u % 16) (u / 16))
unfolding decode_sample
decode_sample_negative u h = let f = fields_lem u h in rw (f.unmasked, f.sign, f.quant, f.segment)

decode_sample_positive :
    (u : ℕ) → u < 128 → decode_sample (bit_xor u 0xd5) ≡ pos (expand (u % 16) (u / 16))
unfolding decode_sample
decode_sample_positive u h =
    let f = fields_lem u h in
    rw (f.unmasked_signed, f.sign_signed, f.quant_signed, f.segment_signed)

-- The byte of a magnitude, before the mask.
abbrev unmasked_byte : ℕ → ℕ
unmasked_byte n = segment_of n * 16 + quant_of n

unmasked_byte-lt : (n : ℕ) → n < 32768 → unmasked_byte n < 128
unmasked_byte-lt n h = ground arith

quantize_bits : (x k : ℕ) → k < 8 → quantize (pos x) k ≡ k * 16 + x / 2 ^ segment_shift k % 16
quantize_bits x k h =
    let q : ℕ = x / 2 ^ segment_shift k % 16 in
    let ql : q < 16 = omega arith in
    let u : ℕ = k * 16 + q in
    let low : u % 16 ≡ q = omega arith in
    let high : u / 16 ≡ k = omega arith in
    let test : (k == 8) ≡ false = ground arith in
    let mask : bit_and (x / 2 ^ segment_shift k) 0x0f ≡ q =
      bit_and_low 4 (x / 2 ^ segment_shift k) 15 refl in
    let joined : bit_or q (k * 16 % 256) ≡ u =
      rw (low, high) at (fields_lem u (omega arith)).joined in
    rw (test, mask) joined

segment_of-lt : (n : ℕ) → n < 32768 → segment_of n < 8
segment_of-lt n h = ground arith

quantize_lem : (n : ℕ) → n < 32768 → quantize (pos n) (segment_of n) ≡ unmasked_byte n
quantize_lem n h = quantize_bits n (segment_of n) (segment_of-lt n h)

expand-unmasked_byte : (n : ℕ) → expand (unmasked_byte n % 16) (unmasked_byte n / 16) ≡ level n
expand-unmasked_byte n =
    let low : unmasked_byte n % 16 ≡ quant_of n = omega arith in
    let high : unmasked_byte n / 16 ≡ segment_of n = omega arith in ap₂ expand low high

encode_sample_pos : (n : ℕ) → n < 32768 → encode_sample (pos n) ≡ bit_xor (unmasked_byte n) 0xd5
unfolding encode_sample
encode_sample_pos n h = ap (λ t. bit_xor t 0xd5) (quantize_lem n h)

encode_sample_neg :
    (n : ℕ) → n < 32760 → encode_sample (negsuc (n + 7)) ≡ bit_xor (unmasked_byte n) 0x55
unfolding encode_sample
encode_sample_neg n h =
    let normal : pos (suc (n + 7)) -ℤ pos 8 ≡ pos n = unfold ◌-ℤ◌ in ground arith in
    rw normal (ap (λ t. bit_xor t 0x55) (quantize_lem n (omega arith)))

decode_encode_pos : (n : ℕ) → n < 32768 → decode_sample (encode_sample (pos n)) ≡ pos (level n)
decode_encode_pos n h =
    ap decode_sample (encode_sample_pos n h)
    ∙ decode_sample_positive (unmasked_byte n) (unmasked_byte-lt n h)
    ∙ ap pos (expand-unmasked_byte n)

decode_encode_neg :
    (n : ℕ) → n < 32760 → decode_sample (encode_sample (negsuc (n + 7))) ≡ pos 0 -ℤ pos (level n)
decode_encode_neg n h =
    ap decode_sample (encode_sample_neg n h)
    ∙ decode_sample_negative (unmasked_byte n) (unmasked_byte-lt n (omega arith))
    ∙ ap (λ t. pos 0 -ℤ pos t) (expand-unmasked_byte n)

-- A sample that is not negative is decoded as one at most 8, or a 32nd of the sample, away.
pub decode_encode_near :
    (n : ℕ)
    → n < 32768
    → (d : ℕ) × (decode_sample (encode_sample (pos n)) ≡ pos d)
      × (d ≤ n + max 8 (n / 32))
      × (n ≤ d + max 8 (n / 32))
decode_encode_near n h = (level n, decode_encode_pos n h, (level_near n h).0, (level_near n h).1)

-- From -8 down, a sample is decoded as the negative of what its magnitude less 8 is decoded as.
pub decode_encode_mirror :
    (n : ℕ)
    → n < 32760
    → decode_sample (encode_sample (negsuc (n + 7)))
      ≡ pos 0 -ℤ decode_sample (encode_sample (pos n))
decode_encode_mirror n h =
    decode_encode_neg n h ∙ ap (λ t. pos 0 -ℤ t) (sym (decode_encode_pos n (omega arith)))

-- A louder sample is never decoded as a quieter one.
pub decode_encode_mono :
    (m n : ℕ)
    → m ≤ n
    → n < 32768
    → decode_sample (encode_sample (pos m)) ≤ℤ decode_sample (encode_sample (pos n))
decode_encode_mono m n h l =
    rw (decode_encode_pos m (omega arith), decode_encode_pos n l)
      (omega (arith, level_mono m n h l))

-- The samples from -1 to -7 are all decoded as -248.
pub decode_encode_small_negative :
    (n : ℕ) → n < 7 → decode_sample (encode_sample (negsuc n)) ≡ negsuc 247
unfolding encode_sample decode_sample
decode_encode_small_negative zero h = refl
decode_encode_small_negative (suc zero) h = refl
decode_encode_small_negative (suc (suc zero)) h = refl
decode_encode_small_negative (suc (suc (suc zero))) h = refl
decode_encode_small_negative (suc (suc (suc (suc zero)))) h = refl
decode_encode_small_negative (suc (suc (suc (suc (suc zero))))) h = refl
decode_encode_small_negative (suc (suc (suc (suc (suc (suc zero)))))) h = refl
decode_encode_small_negative (suc (suc (suc (suc (suc (suc (suc n))))))) h = absurd (omega arith)
