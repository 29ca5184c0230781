-- ===== src/Crypto/Vectors.antt =====
-- src/infra/crypto/EncryptionStrategy.cpp: different packet indices give different initial vectors.
use hermes_flow_server.Common.{
  ℕ, zero, suc, ◌/◌, ◌^◌, ◌<◌, ◌≡◌, ◌≢◌, sym, ap, ◌∙◌, List, [], ◌∷◌, length, take, drop, bit_xor,
  All, arith, drop-append, length-take, length-drop,
}
use native.Mathlib.Nat.{pow-suc}
use hermes_flow_server.Common.Bits.{bit_xor_cancel, bit_xor-lt}
use hermes_flow_server.Crypto.{read_le, write_le, current_iv}

read_le-write_le : (n v : ℕ) → v < 256 ^ n → read_le (write_le n v) ≡ v
unfolding read_le write_le
read_le-write_le zero v h = omega arith
read_le-write_le (suc n) v h =
    let p = pow-suc 256 n in omega (arith, read_le-write_le n (v / 256) (omega arith))

read_le-lt : (bs : List ℕ) → All (λ b. b < 256) bs → read_le bs < 256 ^ length bs
unfolding read_le
read_le-lt [] h = omega arith
read_le-lt (b ∷ bs) h = omega (arith, read_le-lt bs h.1, pow-suc 256 (length bs), h.0)

-- The index can be read back from the vector: no information about it is lost.
index_of_iv :
    (base : List ℕ) (i : ℕ)
    → length base ≡ 16
    → All (λ b. b < 256) (drop 8 base)
    → i < 2 ^ 64
    → read_le (drop 8 (current_iv base i)) ≡ bit_xor (read_le (drop 8 base)) i
unfolding current_iv
index_of_iv base i h b l =
    let low = take 8 base in
    let tail = read_le (drop 8 base) in
    let start : 8 ≡ length low = omega (arith, length-take 8 base) in
    let len : length (drop 8 base) ≡ 8 = omega (arith, length-drop 8 base) in
    let tail_lt : tail < 2 ^ 64 = rw len at (read_le-lt (drop 8 base) b) in
    rw (drop-append 8 low (write_le 8 (bit_xor tail i)) start)
      (read_le-write_le 8 (bit_xor tail i) (bit_xor-lt 64 tail i tail_lt l))

-- Under one base vector, two packet indices never share an initial vector.
pub current_iv-ne :
    (base : List ℕ) (i j : ℕ)
    → length base ≡ 16
    → All (λ b. b < 256) (drop 8 base)
    → i < 2 ^ 64
    → j < 2 ^ 64
    → i ≢ j
    → current_iv base i ≢ current_iv base j
current_iv-ne base i j h b li lj ne e = ne (
    bit_xor_cancel (read_le (drop 8 base)) i j (
      sym (index_of_iv base i h b li) ∙ ap (λ v. read_le (drop 8 v)) e ∙ index_of_iv base j h b lj))
