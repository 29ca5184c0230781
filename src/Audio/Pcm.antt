-- ===== src/Audio/Pcm.antt =====
-- src/infra/audio/PcmCast.hpp: 16-bit samples over byte buffers, on a little-endian machine.
use hermes_flow_server.Common.{
  ℕ, ◌+◌, ◌-◌, ◌*◌, ◌/◌, ◌%◌, ◌^◌, ◌<◌, ◌≡◌, refl, ap, ◌≢◌, inl, inr, ◌==◌, ==_iff, Bool-cases, ltb,
  if◌then◌else◌, List, [], ◌∷◌, Option, none, some, length, get_elem?, set, get_elem?-set_self,
  get_elem?-set_ne, length-set, arith,
}
use hermes_flow_server.Common.Int.{ℤ, pos, negsuc, ◌≤ℤ◌}

-- `static_cast<uint16_t>` and back.
abbrev pub to_u16 : ℤ → ℕ
to_u16 (pos n) = n % 2 ^ 16
to_u16 (negsuc n) = 2 ^ 16 - 1 - n % 2 ^ 16

abbrev pub to_i16 : ℕ → ℤ
to_i16 w = if ltb w (2 ^ 15) then pos w else negsuc (2 ^ 16 - 1 - w)

abbrev pub IsInt16 : ℤ → Type 0
IsInt16 s = (negsuc 32767 ≤ℤ s) × (s ≤ℤ pos 32767)

-- The two bytes of a sample, low first.
abbrev pub sample_of : ℕ → ℕ → ℤ
sample_of lo hi = to_i16 (lo + 256 * hi)

abbrev pair : Option ℕ → Option ℕ → Option ℤ
pair (some lo) (some hi) = some (sample_of lo hi)
pair _ _ = none

-- `none` is a read past the end of the buffer.
pub read_sample : List ℕ → ℕ → Option ℤ
read_sample bytes i = pair (get_elem? bytes (i * 2)) (get_elem? bytes (i * 2 + 1))

pub write_sample : List ℕ → ℕ → ℤ → List ℕ
write_sample bytes i v = set (set bytes (i * 2) (to_u16 v % 256)) (i * 2 + 1) (to_u16 v / 256)

-- An odd last byte is no sample.
unfoldable pub as_samples : List ℕ → List ℤ
as_samples [] = []
as_samples (lo ∷ []) = []
as_samples (lo ∷ hi ∷ rest) = sample_of lo hi ∷ as_samples rest

pub length-as_samples : (bytes : List ℕ) → length (as_samples bytes) ≡ length bytes / 2
unfolding as_samples
length-as_samples [] = refl
length-as_samples (lo ∷ []) = refl
length-as_samples (lo ∷ hi ∷ rest) = omega (arith, length-as_samples rest)

sample_of_bytes :
    (v : ℤ) → negsuc 32767 ≤ℤ v → v ≤ℤ pos 32767 → sample_of (to_u16 v % 256) (to_u16 v / 256) ≡ v
sample_of_bytes (pos n) lo hi = ground arith
sample_of_bytes (negsuc n) lo hi = ground arith

read_sample-write_sample_self :
    (bytes : List ℕ) (i : ℕ) (v : ℤ)
    → IsInt16 v
    → i * 2 + 1 < length bytes
    → read_sample (write_sample bytes i v) i ≡ some v
unfolding read_sample write_sample
read_sample-write_sample_self bytes i v (lo, hi) h =
    let low = to_u16 v % 256 in
    let high = to_u16 v / 256 in
    let half = set bytes (i * 2) low in
    let room : i * 2 + 1 < length half = omega (arith, length-set bytes (i * 2) low) in
    rw
      (
        get_elem?-set_ne half (i * 2 + 1) (i * 2) high (omega arith),
        get_elem?-set_self bytes (i * 2) low (omega arith),
        get_elem?-set_self half (i * 2 + 1) high room,
      )
      (ap some (sample_of_bytes v lo hi))

read_sample-write_sample_ne :
    (bytes : List ℕ) (i j : ℕ) (v : ℤ)
    → i ≢ j
    → read_sample (write_sample bytes i v) j ≡ read_sample bytes j
unfolding read_sample write_sample
read_sample-write_sample_ne bytes i j v ne =
    let low = to_u16 v % 256 in
    let high = to_u16 v / 256 in
    let half = set bytes (i * 2) low in
    rw (
      get_elem?-set_ne half (i * 2 + 1) (j * 2) high (omega arith),
      get_elem?-set_ne bytes (i * 2) (j * 2) low (λ e. ne (omega arith)),
      get_elem?-set_ne half (i * 2 + 1) (j * 2 + 1) high (λ e. ne (omega arith)),
      get_elem?-set_ne bytes (i * 2) (j * 2 + 1) low (omega arith),
    )

-- Writing a sample inside the buffer and reading one back gives the sample written, at its index,
-- and what was there before at any other.
pub read_sample-write_sample :
    (bytes : List ℕ) (i j : ℕ) (v : ℤ)
    → IsInt16 v
    → i * 2 + 1 < length bytes
    → read_sample (write_sample bytes i v) j ≡ (if i == j then some v else read_sample bytes j)
read_sample-write_sample bytes i j v r h = elim (Bool-cases (i == j)) [
  | inl e ↦ rw (e, ← (==_iff i j).0 e) (read_sample-write_sample_self bytes i v r h)
  | inr e ↦ rw e (read_sample-write_sample_ne bytes i j v (ground arith))
]
