-- ===== src/Rtp/Packet/Parse.antt =====
-- src/network/rtp/Packet.cpp, `RTPPacket::from_buffer`: the reads through a pointer that the code
-- advances. A read past the end of the buffer is a fault, which is not the same as a rejection.
use hermes_flow_server.Common.{
  ℕ, zero, suc, ◌+◌, ◌*◌, ◌/◌, ◌%◌, Bool, true, false, List, [], ◌∷◌, Option, none, some, length,
  ltb, ◌==◌, if◌then◌else◌,
}
use hermes_flow_server.Rtp.Packet.{
  Extension, RtpPacket, minimum_header_size, minimum_extension_size,
}

pub data Outcome {ℓ} (A : Type ℓ) : Type ℓ where
  fault : Outcome A
  reject : Outcome A
  done : A → Outcome A

infixl 5 ◌>>=◌
abbrev pub ◌>>=◌ {ℓ κ} : {A : Type ℓ} {B : Type κ} → Outcome A → (A → Outcome B) → Outcome B
fault >>= f = fault
reject >>= f = reject
done a >>= f = f a

-- A value that was read, and what is left of the buffer.
unfoldable pub read_u8 : List ℕ → Outcome (ℕ × List ℕ)
read_u8 [] = fault
read_u8 (a ∷ rest) = done (a, rest)

unfoldable pub read_u16 : List ℕ → Outcome (ℕ × List ℕ)
read_u16 (a ∷ b ∷ rest) = done (a * 256 + b, rest)
read_u16 _ = fault

unfoldable pub read_u32 : List ℕ → Outcome (ℕ × List ℕ)
read_u32 (a ∷ b ∷ c ∷ d ∷ rest) = done (a * 16777216 + b * 65536 + c * 256 + d, rest)
read_u32 _ = fault

unfoldable pub read_u32s : ℕ → List ℕ → Outcome (List ℕ × List ℕ)
read_u32s zero buf = done ([], buf)
read_u32s (suc n) buf = do
  (w, buf') ← read_u32 buf
  (ws, rest) ← read_u32s n buf'
  done (w ∷ ws, rest)

-- `size` is `buffer.size()`, `expected` the code's `expected_size` so far.
unfoldable pub read_extension : Bool → ℕ → ℕ → List ℕ → Outcome (Option Extension × List ℕ)
read_extension false size expected buf = done (none, buf)
read_extension true size expected buf =
    if ltb size (expected + minimum_extension_size) then reject else do
      (id, buf') ← read_u16 buf
      (count, buf'') ← read_u16 buf'
      if ltb size (expected + minimum_extension_size + count * 4) then reject else do
        (words, rest) ← read_u32s count buf''
        done (some (record { id = id; words = words }), rest)

abbrev pub flag : ℕ → Bool
flag b = b == 1

-- What the reads of the fixed fields, the sources and the extension make of an accepted size.
unfoldable pub read_fields : ℕ → ℕ → ℕ → List ℕ → Outcome RtpPacket
read_fields size expected o1 buf = do
  (o2, b2) ← read_u8 buf
  (sequence_num, b3) ← read_u16 b2
  (timestamp, b4) ← read_u32 b3
  (ssrc, b5) ← read_u32 b4
  (csrc_list, b6) ← read_u32s (o1 % 16) b5
  (extension, payload) ← read_extension (flag (o1 / 16 % 2)) size expected b6
  done (record {
    header = record {
      padding = flag (o1 / 32 % 2);
      version = o1 / 64;
      payload_type = o2 % 128;
      marker = flag (o2 / 128);
      sequence_num = sequence_num;
      timestamp = timestamp;
      ssrc = ssrc;
      csrc_list = csrc_list;
      extension = extension;
    };
    payload = payload;
  })

unfoldable pub from_buffer : List ℕ → Outcome RtpPacket
unfolding read_u8
from_buffer buffer = if ltb (length buffer) minimum_header_size then reject else do
  (o1, rest) ← read_u8 buffer
  let expected = minimum_header_size + o1 % 16 * 4
  if ltb (length buffer) expected then reject else read_fields (length buffer) expected o1 rest
