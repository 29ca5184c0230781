-- ===== src/Crypto.antt =====
-- src/infra/crypto/EncryptionStrategy.cpp: AES-128 in counter mode, one initial vector per packet. The
-- cipher itself is Crypto++'s, and stands here as a parameter.
pub mod Vectors
use hermes_flow_server.Common.{
  ℕ, zero, suc, ◌+◌, ◌*◌, ◌/◌, ◌%◌, List, [], ◌∷◌, ◌++◌, length, take, drop, ◌==◌, bit_xor, bit_and,
  if◌then◌else◌, set, get_or,
}

abbrev pub aes_block_size : ℕ
aes_block_size = 16

abbrev pub aes_xor_offset : ℕ
aes_xor_offset = 8

-- `std::memcpy` between bytes and an unsigned integer, on a little-endian machine.
unfoldable pub read_le : List ℕ → ℕ
read_le [] = 0
read_le (b ∷ bs) = b + 256 * read_le bs

unfoldable pub write_le : ℕ → ℕ → List ℕ
write_le zero v = []
write_le (suc n) v = (v % 256) ∷ write_le n (v / 256)

-- The base vector with the packet index in its last eight bytes.
unfoldable pub current_iv : List ℕ → ℕ → List ℕ
current_iv base_iv packet_index =
    take aes_xor_offset base_iv
    ++ write_le 8 (bit_xor (read_le (drop aes_xor_offset base_iv)) packet_index)

-- `AESEncryptionStrategy::encrypt`: the number that it returns and the bytes that it leaves in
-- place. `process` is `Resynchronize` with a vector and then `ProcessData`; the exceptions that the
-- code catches are not modelled.
abbrev pub encrypt : (List ℕ → List ℕ → List ℕ) → List ℕ → List ℕ → ℕ → ℕ × List ℕ
encrypt process base_iv pcm packet_index =
    if length pcm == 0
    then (0, pcm)
    else (if length base_iv == aes_block_size
        then (length pcm, process (current_iv base_iv packet_index) pcm)
        else (0, pcm))
