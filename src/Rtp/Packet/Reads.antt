-- ===== src/Rtp/Packet/Reads.antt =====
-- src/network/rtp/Packet.cpp, the reads of `RTPPacket::from_buffer`: each stays inside a buffer that
-- holds enough bytes, and gives the value that the bytes stand for.
use hermes_flow_server.Common.{
  ℕ, zero, suc, ◌+◌, ◌*◌, ◌%◌, ◌^◌, ◌≤◌, ◌<◌, ◌≡◌, refl, ap, inl, inr, List, [], ◌∷◌, ◌++◌, Option,
  some, length, ltb, le_of_ltb-false, if◌then◌else◌, All, arith, Bool-cases,
}
use hermes_flow_server.Rtp.Packet.{Extension, ext_flag}
use hermes_flow_server.Rtp.Packet.Wire.{be16, be32, be32s, extension_bytes, Fits}
use hermes_flow_server.Rtp.Packet.Parse.{
  Outcome, fault, reject, done, ◌>>=◌, read_u8, read_u16, read_u32, read_u32s, read_extension, flag,
}

abbrev pub AreBytes : List ℕ → Type 0
AreBytes = All (λ b. b < 256)

-- No fault, and the predicate holds of what is accepted.
abbrev pub Ensures {ℓ} : {A : Type ℓ} → (A → Type 0) → Outcome A → Type 0
Ensures P fault = ⊥
Ensures P reject = Unit
Ensures P (done a) = P a

pub bind_step {ℓ κ} :
    {A : Type ℓ} {B : Type κ} (Q : A → Type 0) (P : B → Type 0) (r : Outcome A) (k : A → Outcome B)
    → Ensures Q r
    → ((a : A) → Q a → Ensures P (k a))
    → Ensures P (r >>= k)
bind_step Q P fault k q step = q
bind_step Q P reject k q step = tt
bind_step Q P (done a) k q step = step a q

-- What a run of reads of `n` words gives, where the buffer holds them.
pub record WordsRead (n : ℕ) (buf ws rest : List ℕ) : Type 0 where
  runs : read_u32s n buf ≡ done (ws, rest)
  count : length ws ≡ n
  words : All (λ w. w < 2 ^ 32) ws
  bytes : AreBytes rest
  pub splits : buf ≡ be32s ws ++ rest

be32-of_bytes :
    (x y z w : ℕ) (rest tail : List ℕ)
    → (x < 256) × (y < 256) × (z < 256) × (w < 256)
    → rest ≡ tail
    → x ∷ y ∷ z ∷ w ∷ rest ≡ be32 (x * 16777216 + y * 65536 + z * 256 + w) ++ tail
be32-of_bytes x y z w rest tail h e = ground arith

read_u32s_lem :
    (n : ℕ) (buf : List ℕ)
    → AreBytes buf
    → n * 4 ≤ length buf
    → (ws : List ℕ) × (rest : List ℕ) × WordsRead n buf ws rest
unfolding read_u32s read_u32 be32s
read_u32s_lem zero buf b h =
    ([], buf, record { runs = refl; count = refl; words = tt; bytes = b; splits = refl })
read_u32s_lem (suc n) [] b h = absurd (omega arith)
read_u32s_lem (suc n) (x ∷ []) b h = absurd (omega arith)
read_u32s_lem (suc n) (x ∷ y ∷ []) b h = absurd (omega arith)
read_u32s_lem (suc n) (x ∷ y ∷ z ∷ []) b h = absurd (omega arith)
read_u32s_lem (suc n) (x ∷ y ∷ z ∷ w ∷ rest) b h =
    let (ws, rest', r) = read_u32s_lem n rest b.1.1.1.1 (omega arith) in
    let v = x * 16777216 + y * 65536 + z * 256 + w in
    (
      v ∷ ws,
      rest',
      record {
        runs = rw r.runs;
        count = ap suc r.count;
        words = (omega arith, r.words);
        bytes = r.bytes;
        splits = be32-of_bytes x y z w rest (be32s ws ++ rest') (omega arith) r.splits;
      },
    )

module _ {ℓ} {A : Type ℓ} (P : A → Type 0) where
  -- The rules for a read at the head of a block.
  pub read_u8_step :
      (buf : List ℕ) (k : ℕ × List ℕ → Outcome A)
      → AreBytes buf
      → 1 ≤ length buf
      → ((v : ℕ) (rest : List ℕ)
          → v < 256
          → AreBytes rest
          → buf ≡ v ∷ rest
          → Ensures P (k (v, rest)))
      → Ensures P (read_u8 buf >>= k)
  unfolding read_u8
  read_u8_step [] k b h step = absurd (omega arith)
  read_u8_step (x ∷ rest) k b h step = step x rest b.0 b.1 refl

  pub read_u16_step :
      (buf : List ℕ) (k : ℕ × List ℕ → Outcome A)
      → AreBytes buf
      → 2 ≤ length buf
      → ((v : ℕ) (rest : List ℕ)
          → v < 2 ^ 16
          → AreBytes rest
          → buf ≡ be16 v ++ rest
          → Ensures P (k (v, rest)))
      → Ensures P (read_u16 buf >>= k)
  unfolding read_u16
  read_u16_step [] k b h step = absurd (omega arith)
  read_u16_step (x ∷ []) k b h step = absurd (omega arith)
  read_u16_step (x ∷ y ∷ rest) k b h step =
      step (x * 256 + y) rest (omega arith) b.1.1 (ground arith)

  pub read_u32_step :
      (buf : List ℕ) (k : ℕ × List ℕ → Outcome A)
      → AreBytes buf
      → 4 ≤ length buf
      → ((v : ℕ) (rest : List ℕ)
          → v < 2 ^ 32
          → AreBytes rest
          → buf ≡ be32 v ++ rest
          → Ensures P (k (v, rest)))
      → Ensures P (read_u32 buf >>= k)
  unfolding read_u32
  read_u32_step [] k b h step = absurd (omega arith)
  read_u32_step (x ∷ []) k b h step = absurd (omega arith)
  read_u32_step (x ∷ y ∷ []) k b h step = absurd (omega arith)
  read_u32_step (x ∷ y ∷ z ∷ []) k b h step = absurd (omega arith)
  read_u32_step (x ∷ y ∷ z ∷ w ∷ rest) k b h step =
      step (x * 16777216 + y * 65536 + z * 256 + w) rest (omega arith) b.1.1.1.1 (ground arith)

  pub read_u32s_step :
      (n : ℕ) (buf : List ℕ) (k : List ℕ × List ℕ → Outcome A)
      → AreBytes buf
      → n * 4 ≤ length buf
      → ((ws rest : List ℕ)
          → length ws ≡ n
          → All (λ w. w < 2 ^ 32) ws
          → AreBytes rest
          → buf ≡ be32s ws ++ rest
          → Ensures P (k (ws, rest)))
      → Ensures P (read_u32s n buf >>= k)
  read_u32s_step n buf k b h step =
      let (ws, rest, r) = read_u32s_lem n buf b h in
      rw r.runs (step ws rest r.count r.words r.bytes r.splits)

-- What an accepted extension is: the flag says whether it is there, and the bytes are its own.
pub record ExtensionRead (b : ℕ) (buf : List ℕ) (r : Option Extension × List ℕ) : Type 0 where
  pub present : ext_flag r.0 ≡ b
  pub fits : Fits r.0
  pub splits : buf ≡ extension_bytes r.0 ++ r.1

extension_words :
    (id count size before : ℕ) (buf rest : List ℕ)
    → id < 2 ^ 16
    → count < 2 ^ 16
    → AreBytes rest
    → buf ≡ be16 id ++ (be16 count ++ rest)
    → size ≡ before + length buf
    → Ensures (ExtensionRead 1 buf) (
        if ltb size (before + 4 + count * 4)
        then reject
        else read_u32s count rest >>= λ r. done (some (record { id = id; words = r.0 }), r.1))
unfolding extension_bytes
extension_words id count size before buf rest hi hc b e h =
    elim (Bool-cases (ltb size (before + 4 + count * 4))) [
      | inl t ↦ rw t tt
      | inr t ↦
          let room : count * 4 ≤ length rest = omega (arith, le_of_ltb-false _ _ t, ap length e) in
          rw t (
            read_u32s_step (ExtensionRead 1 buf) count rest _ b room λ ws tail n hw bt es.
              let m : length ws % 65536 ≡ count = omega arith in
              record { present = refl; fits = (hi, omega arith, hw); splits = rw (m, ← es) e })
    ]

-- The extension starts behind the fixed fields and the sources: `before` bytes of the `size`.
pub read_extension_lem :
    (b : ℕ) (size before : ℕ) (buf : List ℕ)
    → b < 2
    → AreBytes buf
    → size ≡ before + length buf
    → Ensures (ExtensionRead b buf) (read_extension (flag b) size before buf)
unfolding read_extension extension_bytes
read_extension_lem zero size before buf l b h = record { present = refl; fits = tt; splits = refl }
read_extension_lem (suc zero) size before buf l b h = elim (Bool-cases (ltb size (before + 4))) [
  | inl e ↦ rw e tt
  | inr e ↦ rw e (
      read_u16_step (ExtensionRead 1 buf) buf _ b (omega (arith, le_of_ltb-false _ _ e))
        λ id b1 hi h1 e1.
          read_u16_step (ExtensionRead 1 buf) b1 _ h1
            (omega (arith, le_of_ltb-false _ _ e, ap length e1))
            λ count b2 hc h2 e2.
              extension_words id count size before buf b2 hi hc h2 (rw e2 at e1) h)
]
read_extension_lem (suc (suc n)) size before buf l b h = absurd (omega arith)
