-- ===== src/Http/HttpStreamer/Ending.antt =====
-- src/network/http/HttpStreamer.hpp: when a download ends.
use hermes_flow_server.Common.{
  ℕ, ◌+◌, ◌-◌, ◌%◌, ◌^◌, ◌<◌, ◌==◌, ◌≡◌, refl, sym, ap, ap₂, ◌∙◌, true, false, ◌||◌, Option, none,
  List, [], ◌∷◌, ◌++◌, length, ltb, arith, append_assoc, append-nil, length-append, Bool-cases, inl,
  inr,
}
use hermes_flow_server.Common.Expected.{value}
use hermes_flow_server.Http.HttpStreamer.{
  Received, eof, failed, bytes, Turn, Outcome, returned, waiting, transfer_stream_data,
  transfer_turn, drain_residual_buffer, stream_to_sink, stream_rest, transferred, checked, is_empty,
  next_total, next_sink,
}
use hermes_flow_server.Http.HttpStreamer.Transfer.{bytes_of, body_of}

-- A turn that brings bytes and writes them.
abbrev pub IsClean : Turn → Type 0
IsClean t = (is_empty (bytes_of t.received) ≡ false) × (t.write_error ≡ none)

abbrev pub AllClean : List Turn → Type 0
AllClean [] = Unit
AllClean (t ∷ ts) = IsClean t × AllClean ts

clean_turn :
    (r : Received) (e : Option ℕ) (total : ℕ) (sink : List ℕ) (rest : Outcome ℕ)
    → is_empty (bytes_of r) ≡ false
    → e ≡ none
    → transfer_turn r e total sink rest ≡ rest
clean_turn eof e total sink rest b n = cc
clean_turn failed e total sink rest b n = cc
clean_turn (bytes []) e total sink rest b n = cc
clean_turn (bytes (x ∷ xs)) e total sink rest b n = rw (n) refl

clean_total :
    (r : Received) (total : ℕ)
    → is_empty (bytes_of r) ≡ false
    → next_total r total ≡ (total + length (bytes_of r)) % 2 ^ 64
clean_total eof total b = cc
clean_total failed total b = cc
clean_total (bytes bs) total b = refl

clean_sink :
    (r : Received) (sink : List ℕ)
    → is_empty (bytes_of r) ≡ false
    → next_sink r sink ≡ sink ++ bytes_of r
clean_sink eof sink b = cc
clean_sink failed sink b = cc
clean_sink (bytes bs) sink b = refl

nonempty-length : (bs : List ℕ) → is_empty bs ≡ false → 0 < length bs
nonempty-length [] h = cc
nonempty-length (b ∷ bs) h = omega arith

-- With a size to reach, clean turns that bring just as much end the loop; with none, it goes on.
clean-reaches :
    (ts : List Turn) (remaining total : ℕ) (sink : List ℕ)
    → AllClean ts
    → 0 < remaining
    → remaining < 2 ^ 64
    → total + length (body_of ts) ≡ remaining
    → transfer_stream_data ts remaining total sink ≡ returned (value remaining) (sink ++ body_of ts)
unfolding transfer_stream_data
clean-reaches [] remaining total sink c p l e =
    let stops : remaining == 0 || ltb total remaining ≡ false = ground arith in
    rw (stops) (ap₂ (λ n s. returned (value n) s) (omega arith) (sym (append-nil sink)))
clean-reaches (t ∷ ts) remaining total sink c p l e =
    let long = nonempty-length (bytes_of t.received) c.0.0 in
    let size = length-append (bytes_of t.received) (body_of ts) in
    let goes : remaining == 0 || ltb total remaining ≡ true = ground (arith, long, size) in
    let sum = clean_total t.received total c.0.0 in
    let next : next_total t.received total + length (body_of ts) ≡ remaining =
      omega (arith, sum, size) in
    rw (goes) (
      clean_turn t.received t.write_error total sink _ c.0.0 c.0.1
      ∙ clean-reaches ts remaining (next_total t.received total) (next_sink t.received sink) c.1 p l
          next
      ∙ ap (λ s. returned (value remaining) (s ++ body_of ts)) (clean_sink t.received sink c.0.0)
      ∙ ap (returned (value remaining)) (append_assoc sink (bytes_of t.received) (body_of ts)))

clean-waits :
    (ts : List Turn) (total : ℕ) (sink : List ℕ)
    → AllClean ts
    → transfer_stream_data ts 0 total sink ≡ waiting (sink ++ body_of ts)
unfolding transfer_stream_data
clean-waits [] total sink c = ap waiting (sym (append-nil sink))
clean-waits (t ∷ ts) total sink c =
    clean_turn t.received t.write_error total sink _ c.0.0 c.0.1
    ∙ clean-waits ts (next_total t.received total) (next_sink t.received sink) c.1
    ∙ ap (λ s. waiting (s ++ body_of ts)) (clean_sink t.received sink c.0.0)
    ∙ ap waiting (append_assoc sink (bytes_of t.received) (body_of ts))

drained_lem :
    (buffer sink : List ℕ)
    → drain_residual_buffer buffer none sink ≡ (value (length buffer), sink ++ buffer)
unfolding drain_residual_buffer
drained_lem [] sink = ap (λ s. (value 0, s)) (sym (append-nil sink))
drained_lem (b ∷ bs) sink = refl

checked_lem : (n : ℕ) → checked n n ≡ value tt
checked_lem n = ground arith

length-zero : (bs : List ℕ) → length bs ≡ 0 → bs ≡ []
length-zero [] e = refl
length-zero (b ∷ bs) e = absurd (omega arith)

-- A response with a size above 0 and below 2^64, whose bytes come and are written without an error,
-- and are just as many, is streamed to its end: the call returns, succeeds, and the sink has them.
pub stream_to_sink_complete :
    (buffer : List ℕ) (expected : ℕ) (ts : List Turn) (sink : List ℕ)
    → AllClean ts
    → 0 < expected
    → expected < 2 ^ 64
    → length (buffer ++ body_of ts) ≡ expected
    → stream_to_sink buffer none expected ts sink
      ≡ returned (value tt) (sink ++ (buffer ++ body_of ts))
unfolding stream_to_sink
stream_to_sink_complete buffer expected ts sink c p l e =
    ap (stream_rest expected ts) (drained_lem buffer sink)
    ∙ elim (Bool-cases (ltb (length buffer) expected)) [
      | inl b ↦
          let goes : expected == 0 || ltb (length buffer) expected ≡ true = ground arith in
          let left : 0 + length (body_of ts) ≡ expected - length buffer =
            omega (arith, length-append buffer (body_of ts)) in
          let n = expected - length buffer in
          let sum : (length buffer + n) % 2 ^ 64 ≡ expected =
            omega (arith, length-append buffer (body_of ts)) in
          rw (goes) (
            ap (transferred expected (length buffer))
              (clean-reaches ts n 0 (sink ++ buffer) c (ground arith) (omega arith) left)
            ∙ ap₂ (λ m s. returned (checked expected m) s) sum
                (append_assoc sink buffer (body_of ts))
            ∙ ap (λ r. returned r (sink ++ (buffer ++ body_of ts))) (checked_lem expected))
      | inr b ↦
          let stops : expected == 0 || ltb (length buffer) expected ≡ false = ground arith in
          let full : length buffer ≡ expected = ground (arith, length-append buffer (body_of ts)) in
          let over : body_of ts ≡ [] =
            length-zero (body_of ts) (omega (arith, length-append buffer (body_of ts))) in
          rw (stops) (
            ap₂ (λ m s. returned (checked expected m) s) full
              (ap (λ s. sink ++ s) (sym (append-nil buffer) ∙ ap (λ s. buffer ++ s) (sym over)))
            ∙ ap (λ r. returned r (sink ++ (buffer ++ body_of ts))) (checked_lem expected))
    ]

-- A response with no size, or of size 0, whose bytes come and are written without an error, is
-- waited on without end, as long as its server does not close the connection.
pub stream_to_sink_waits :
    (buffer : List ℕ) (ts : List Turn) (sink : List ℕ)
    → AllClean ts
    → stream_to_sink buffer none 0 ts sink ≡ waiting (sink ++ (buffer ++ body_of ts))
unfolding stream_to_sink
stream_to_sink_waits buffer ts sink c =
    ap (stream_rest 0 ts) (drained_lem buffer sink)
    ∙ ap (transferred 0 (length buffer)) (
        ap (λ n. transfer_stream_data ts n 0 (sink ++ buffer)) (omega arith)
        ∙ clean-waits ts 0 (sink ++ buffer) c)
    ∙ ap waiting (append_assoc sink buffer (body_of ts))
