-- ===== src/Audio/Alaw/Tables.antt =====
-- src/infra/audio/Alaw.cpp: the loops fill the tables, and the spans, with the samples' own values.
use hermes_flow_server.Common.{
  ℕ, zero, suc, ◌+◌, ◌-◌, ◌<◌, ◌≤◌, ◌≡◌, refl, ap, ap₂, ◌∙◌, ltb, if◌then◌else◌, List, [], ◌∷◌,
  ◌++◌, map, length, length-set, get_or, set, drop, All, le_of_ltb-false, Bool-cases, inl, inr,
  Bool, true, ◌&&◌, holds_below, holds_below_at, arith,
}
use native.Mathlib.Decide.{ℕ_discrete}
use hermes_flow_server.Common.Store.{get_or-set_self, get_or-set_ne, store_all_lem}
use hermes_flow_server.Common.Int.{ℤ, pos, negsuc, ◌+ℤ◌, leb_ℤ}
use hermes_flow_server.Audio.Pcm.{to_u16, to_i16, IsInt16}
use hermes_flow_server.Audio.Alaw.{
  get_encode_table_idx, encode_sample, decode_sample, fill_encode, fill_decode, make_encode_table,
  make_decode_table, encode_alaw, decode_alaw,
}

-- The sample that the loop of `make_encode_table` has reached at an index.
abbrev sample_at : ℕ → ℤ
sample_at i = if ltb i 32768 then negsuc (32767 - i) else pos (i - 32768)

sample_at_next : (i : ℕ) → sample_at i +ℤ pos 1 ≡ sample_at (i + 1)
unfolding ◌+ℤ◌
sample_at_next i = ground arith

idx-sample_at : (i : ℕ) → get_encode_table_idx (sample_at i) ≡ i
idx-sample_at i = ground arith

sample_at-idx : (s : ℤ) → IsInt16 s → sample_at (get_encode_table_idx s) ≡ s
sample_at-idx (pos n) h = ground arith
sample_at-idx (negsuc n) h = ground arith

fill_encode_before :
    (n k i : ℕ) (table : List ℕ)
    → i < k
    → get_or (fill_encode n (sample_at k) table) i 0 ≡ get_or table i 0
unfolding fill_encode
fill_encode_before zero k i table h = refl
fill_encode_before (suc n) k i table h =
    rw (sample_at_next k, idx-sample_at k)
      (fill_encode_before n (k + 1) i (set table k (encode_sample (sample_at k))) (omega arith)
        ∙ get_or-set_ne table k i (encode_sample (sample_at k)) 0 (omega arith))

fill_encode_get :
    (n k i : ℕ) (table : List ℕ)
    → k + n ≤ length table
    → k ≤ i
    → i < k + n
    → get_or (fill_encode n (sample_at k) table) i 0 ≡ encode_sample (sample_at i)
unfolding fill_encode
fill_encode_get zero k i table r h l = absurd (omega arith)
fill_encode_get (suc n) k i table r h l =
    let v = encode_sample (sample_at k) in
    rw (sample_at_next k, idx-sample_at k)
      (elim (ℕ_discrete k i) [
        | yes e ↦
            fill_encode_before n (k + 1) i (set table k v) (omega arith)
            ∙ rw (← e) (get_or-set_self table k v 0 (omega arith))
        | no ne ↦
            fill_encode_get n (k + 1) i (set table k v) (omega (arith, length-set table k v))
              (omega arith) (omega arith)
      ])

idx-lt : (s : ℤ) → IsInt16 s → get_encode_table_idx s < 65536
idx-lt (pos n) h = omega arith
idx-lt (negsuc n) h = omega arith

-- The table holds the encoding of each sample, whatever the array held before.
make_encode_table_lem :
    (garbage : List ℕ)
    → length garbage ≡ 65536
    → (s : ℤ) → IsInt16 s
    → get_or (make_encode_table garbage) (get_encode_table_idx s) 0 ≡ encode_sample s
unfolding make_encode_table
make_encode_table_lem garbage h s r =
    fill_encode_get 65536 0 (get_encode_table_idx s) garbage (omega arith) (omega arith)
      (idx-lt s r)
    ∙ ap encode_sample (sample_at-idx s r)

fill_decode_before :
    (n k i : ℕ) (table : List ℕ) → i < k → get_or (fill_decode n k table) i 0 ≡ get_or table i 0
unfolding fill_decode
fill_decode_before zero k i table h = refl
fill_decode_before (suc n) k i table h =
    let v = to_u16 (decode_sample k) in
    fill_decode_before n (k + 1) i (set table k v) (omega arith)
    ∙ get_or-set_ne table k i v 0 (omega arith)

fill_decode_get :
    (n k i : ℕ) (table : List ℕ)
    → k + n ≤ length table
    → k ≤ i
    → i < k + n
    → get_or (fill_decode n k table) i 0 ≡ to_u16 (decode_sample i)
unfolding fill_decode
fill_decode_get zero k i table r h l = absurd (omega arith)
fill_decode_get (suc n) k i table r h l =
    let v = to_u16 (decode_sample k) in
    elim (ℕ_discrete k i) [
      | yes e ↦
          fill_decode_before n (k + 1) i (set table k v) (omega arith)
          ∙ rw (← e) (get_or-set_self table k v 0 (omega arith))
      | no ne ↦
          fill_decode_get n (k + 1) i (set table k v) (omega (arith, length-set table k v))
            (omega arith) (omega arith)
    ]

abbrev fits : ℤ → Bool
fits s = leb_ℤ (negsuc 32767) s && leb_ℤ s (pos 32767)

decode_sample_table : holds_below (λ a. fits (decode_sample a)) 256 ≡ true
unfolding holds_below decode_sample
decode_sample_table = refl

to_i16-to_u16 : (s : ℤ) → fits s ≡ true → to_i16 (to_u16 s) ≡ s
to_i16-to_u16 (pos n) h = ground arith
to_i16-to_u16 (negsuc n) h = ground arith

make_decode_table_lem :
    (garbage : List ℕ)
    → length garbage ≡ 256
    → (a : ℕ) → a < 256
    → to_i16 (get_or (make_decode_table garbage) a 0) ≡ decode_sample a
unfolding make_decode_table
make_decode_table_lem garbage h a r =
    ap to_i16 (fill_decode_get 256 0 a garbage (omega arith) (omega arith) r)
    ∙ to_i16-to_u16 (decode_sample a)
        (holds_below_at (λ b. fits (decode_sample b)) 256 a r decode_sample_table)

map_congr :
    {A B : Type 0} (P : A → Type 0) (f g : A → B) (xs : List A)
    → ((a : A) → P a → f a ≡ g a)
    → All P xs
    → map f xs ≡ map g xs
map_congr P f g [] e h = refl
map_congr P f g (x ∷ xs) e h = ap₂ ◌∷◌ (e x h.0) (map_congr P f g xs e h.1)

-- With its table, `encode_alaw` leaves a span that is too small as it was, and otherwise writes the
-- encoding of each sample at its index and nothing else.
pub encode_alaw_lem :
    (garbage : List ℕ) (pcm : List ℤ) (out : List ℕ)
    → length garbage ≡ 65536
    → All IsInt16 pcm
    → encode_alaw (make_encode_table garbage) pcm out ≡ (
        if ltb (length out) (length pcm)
        then out
        else map encode_sample pcm ++ drop (length pcm) out)
unfolding encode_alaw
encode_alaw_lem garbage pcm out g h = elim (Bool-cases (ltb (length out) (length pcm))) [
  | inl e ↦ rw e
  | inr e ↦
      let same = map_congr IsInt16 _ encode_sample pcm (make_encode_table_lem garbage g) h in
      rw e (
        store_all_lem _ pcm out (le_of_ltb-false _ _ e) ∙ ap (λ l. l ++ drop (length pcm) out) same)
]

-- With its table, `decode_alaw` leaves a span that is too small as it was, and otherwise writes
-- the sample that each byte stands for at its index and nothing else.
pub decode_alaw_lem :
    (garbage alaw : List ℕ) (out : List ℤ)
    → length garbage ≡ 256
    → All (λ a. a < 256) alaw
    → decode_alaw (make_decode_table garbage) alaw out ≡ (
        if ltb (length out) (length alaw)
        then out
        else map decode_sample alaw ++ drop (length alaw) out)
unfolding decode_alaw
decode_alaw_lem garbage alaw out g h = elim (Bool-cases (ltb (length out) (length alaw))) [
  | inl e ↦ rw e
  | inr e ↦
      let same =
        map_congr (λ a. a < 256) _ decode_sample alaw (make_decode_table_lem garbage g) h in
      rw e (
        store_all_lem _ alaw out (le_of_ltb-false _ _ e)
        ∙ ap (λ l. l ++ drop (length alaw) out) same)
]
