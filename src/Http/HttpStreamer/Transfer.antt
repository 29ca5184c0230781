-- ===== src/Http/HttpStreamer/Transfer.antt =====
-- src/network/http/HttpStreamer.hpp: what a download leaves in the sink.
use hermes_flow_server.Common.{
  ℕ, suc, ◌+◌, ◌-◌, ◌%◌, ◌^◌, ◌<◌, ◌≤◌, ◌==◌, ◌≡◌, refl, sym, ap, ◌∙◌, subst, take-append, ◌||◌,
  Option, none, some, List, [], ◌∷◌, ◌++◌, length, take, ltb, arith, append_assoc, append-nil,
  length-append, Bool-cases, inl, inr, ◌⊎◌,
}
use hermes_flow_server.Common.Expected.{value, unexpected}
use hermes_flow_server.Http.HttpStreamer.{
  Received, eof, failed, bytes, Turn, Outcome, returned, waiting, transfer_stream_data,
  drain_residual_buffer, stream_to_sink, stream_rest, transferred, checked, next_total, next_sink,
  transfer_turn,
}

-- All bytes that the turns bring.
abbrev pub bytes_of : Received → List ℕ
bytes_of (bytes bs) = bs
bytes_of _ = []

abbrev pub body_of : List Turn → List ℕ
body_of [] = []
body_of (t ∷ ts) = bytes_of t.received ++ body_of ts

-- A total that is `k` higher, with the first `k` bytes of `more` in the sink.
abbrev pub Gets : ℕ → List ℕ → List ℕ → Outcome ℕ → Type 0
Gets total more sink (returned (value n) sink') =
    (k : ℕ) × (n ≡ total + k) × (k ≤ length more) × (sink' ≡ sink ++ take k more)
Gets total more sink (returned (unexpected e) sink') = Unit
Gets total more sink (waiting sink') = Unit

stops-Gets : (total : ℕ) (more sink : List ℕ) → Gets total more sink (returned (value total) sink)
stops-Gets total more sink = (0, omega arith, omega arith, sym (append-nil sink))

take-past : (bs more : List ℕ) (k : ℕ) → take (length bs + k) (bs ++ more) ≡ bs ++ take k more
take-past [] more k = let e : 0 + k ≡ k = omega arith in ap (λ n. take n more) e
take-past (b ∷ bs) more k =
    let e : length (b ∷ bs) + k ≡ suc (length bs + k) = omega arith in
    ap (λ n. take n (b ∷ bs ++ more)) e ∙ ap (λ l. b ∷ l) (take-past bs more k)

rest-Gets :
    (bs more sink : List ℕ) (total : ℕ) (rest : Outcome ℕ)
    → total + length bs < 2 ^ 64
    → Gets ((total + length bs) % 2 ^ 64) more (sink ++ bs) rest
    → Gets total (bs ++ more) sink rest
rest-Gets bs more sink total (waiting s) l h = tt
rest-Gets bs more sink total (returned (unexpected e) s) l h = tt
rest-Gets bs more sink total (returned (value n) s) l (k, same, below, got) = (
  length bs + k,
  omega arith,
  omega (arith, length-append bs more),
  got ∙ append_assoc sink bs (take k more) ∙ ap (λ l. sink ++ l) (sym (take-past bs more k)),
)

turn-Gets :
    (r : Received) (e : Option ℕ) (more sink : List ℕ) (total : ℕ) (rest : Outcome ℕ)
    → total + length (bytes_of r) < 2 ^ 64
    → Gets (next_total r total) more (next_sink r sink) rest
    → Gets total (bytes_of r ++ more) sink (transfer_turn r e total sink rest)
turn-Gets eof e more sink total rest l h = stops-Gets total more sink
turn-Gets failed e more sink total rest l h = tt
turn-Gets (bytes []) e more sink total rest l h = stops-Gets total more sink
turn-Gets (bytes (b ∷ bs)) none more sink total rest l h =
    rest-Gets (b ∷ bs) more sink total rest l h
turn-Gets (bytes (b ∷ bs)) (some k) more sink total rest l h = tt

-- The bytes that are left stay below the bound.
next_below :
    (r : Received) (ts : List Turn) (total : ℕ)
    → total + length (bytes_of r ++ body_of ts) < 2 ^ 64
    → (total + length (bytes_of r) < 2 ^ 64) × (next_total r total + length (body_of ts) < 2 ^ 64)
next_below eof ts total l = (omega arith, l)
next_below failed ts total l = (omega arith, l)
next_below (bytes bs) ts total l = omega (arith, length-append bs (body_of ts))

transfer-Gets :
    (ts : List Turn) (remaining total : ℕ) (sink : List ℕ)
    → total + length (body_of ts) < 2 ^ 64
    → Gets total (body_of ts) sink (transfer_stream_data ts remaining total sink)
unfolding transfer_stream_data
transfer-Gets [] remaining total sink l =
    elim (Bool-cases (remaining == 0 || ltb total remaining)) [
      | inl b ↦ rw (b) tt
      | inr b ↦ rw (b) (stops-Gets total [] sink)
    ]
transfer-Gets (t ∷ ts) remaining total sink l =
    elim (Bool-cases (remaining == 0 || ltb total remaining)) [
      | inl b ↦ rw (b) (
          let (fits, fits') = next_below t.received ts total l in
          turn-Gets t.received t.write_error (body_of ts) sink total _ fits (
            transfer-Gets ts remaining (next_total t.received total) (next_sink t.received sink)
              fits'))
      | inr b ↦ rw (b) (stops-Gets total (body_of (t ∷ ts)) sink)
    ]

-- What `stream_to_sink` says of a success: with no expected size, some first part of the bytes is in
-- the sink; else exactly as many as were expected.
abbrev pub Downloads : ℕ → List ℕ → List ℕ → Outcome Unit → Type 0
Downloads expected_size more sink (returned (value u) sink') =
    (n : ℕ) × (n ≤ length more)
    × (sink' ≡ sink ++ take n more)
    × ((expected_size ≡ 0) ⊎ (n ≡ expected_size))
Downloads expected_size more sink (returned (unexpected e) sink') = Unit
Downloads expected_size more sink (waiting sink') = Unit

checked-Downloads :
    (expected n : ℕ) (more sink sink' : List ℕ)
    → n ≤ length more
    → sink' ≡ sink ++ take n more
    → Downloads expected more sink (returned (checked expected n) sink')
checked-Downloads expected n more sink sink' l e = elim (Bool-cases (expected == 0)) [
  | inl z ↦ rw (z) (n, l, e, inl (ground arith))
  | inr z ↦ elim (Bool-cases (n == expected)) [
    | inl q ↦ rw (z, q) (n, l, e, inr (ground arith))
    | inr q ↦ rw (z, q) tt
  ]
]

transferred-Downloads :
    (expected : ℕ) (buffer more sink : List ℕ) (r : Outcome ℕ)
    → length (buffer ++ more) < 2 ^ 64
    → Gets 0 more (sink ++ buffer) r
    → Downloads expected (buffer ++ more) sink (transferred expected (length buffer) r)
transferred-Downloads expected buffer more sink (waiting s) l h = tt
transferred-Downloads expected buffer more sink (returned (unexpected e) s) l h = tt
transferred-Downloads expected buffer more sink (returned (value n) s) l (k, same, below, got) =
    let sum : (length buffer + n) % 2 ^ 64 ≡ length buffer + k =
      omega (arith, length-append buffer more) in
    subst (λ m. Downloads expected (buffer ++ more) sink (returned (checked expected m) s))
      (sym sum)
      (checked-Downloads expected (length buffer + k) (buffer ++ more) sink s
        (omega (arith, length-append buffer more))
        (got
          ∙ append_assoc sink buffer (take k more)
          ∙ ap (λ l. sink ++ l) (sym (take-past buffer more k))))

take_self : (bs more : List ℕ) → bs ≡ take (length bs) (bs ++ more)
take_self bs more = sym (take-append (length bs) bs more refl)

drained-Downloads :
    (expected : ℕ) (buffer : List ℕ) (ts : List Turn) (sink : List ℕ)
    → length (buffer ++ body_of ts) < 2 ^ 64
    → Downloads expected
        (buffer ++ body_of ts)
        sink
        (stream_rest expected ts (value (length buffer), sink ++ buffer))
drained-Downloads expected buffer ts sink l =
    elim (Bool-cases (expected == 0 || ltb (length buffer) expected)) [
      | inl b ↦ rw (b) (
          transferred-Downloads expected buffer (body_of ts) sink _ l (
            transfer-Gets ts (expected - length buffer) 0 (sink ++ buffer)
              (omega (arith, length-append buffer (body_of ts)))))
      | inr b ↦ rw (b) (
          checked-Downloads expected (length buffer) (buffer ++ body_of ts) sink (sink ++ buffer)
            (omega (arith, length-append buffer (body_of ts)))
            (ap (λ l. sink ++ l) (take_self buffer (body_of ts))))
    ]

-- Where `stream_to_sink` succeeds, the sink got bytes of the response from the first on, without a
-- gap: exactly the expected number, where a size above 0 is expected. (The bytes are fewer than
-- 2^64.)
pub stream_to_sink-Downloads :
    (buffer : List ℕ) (e : Option ℕ) (expected : ℕ) (ts : List Turn) (sink : List ℕ)
    → length (buffer ++ body_of ts) < 2 ^ 64
    → Downloads expected (buffer ++ body_of ts) sink (stream_to_sink buffer e expected ts sink)
unfolding stream_to_sink drain_residual_buffer
stream_to_sink-Downloads [] e expected ts sink l =
    subst (λ s. Downloads expected (body_of ts) sink (stream_rest expected ts (value 0, s)))
      (append-nil sink) (drained-Downloads expected [] ts sink l)
stream_to_sink-Downloads (b ∷ bs) none expected ts sink l =
    drained-Downloads expected (b ∷ bs) ts sink l
stream_to_sink-Downloads (b ∷ bs) (some k) expected ts sink l = tt
