-- ===== src/Http/HttpStreamer.antt =====
-- src/network/http/HttpStreamer.hpp: the client that streams the body of a response into a sink. What
-- the network and the sink do is an argument: the error of each phase, and for each turn of the
-- transfer what a read gives and whether its write fails. The sink is the bytes written to it.
pub mod Transfer
pub mod Ending
use hermes_flow_server.Common.{
  ℕ, ◌+◌, ◌-◌, ◌%◌, ◌^◌, ◌==◌, Bool, true, false, ◌||◌, Option, none, some, List, [], ◌∷◌, ◌++◌,
  length, take, ltb, if◌then◌else◌,
}
use hermes_flow_server.Common.Expected.{Expected, value, unexpected}
use hermes_flow_server.Types.{AppError, network_error}

-- What `async_read_some` gives: the end of the stream, another error, or bytes, at most as many as
-- the buffer holds.
pub data Received : Type 0 where
  eof failed : Received
  bytes : List ℕ → Received

-- A turn of the loop. `async_write` writes all bytes, or fails after some of them.
pub record Turn : Type 0 where
  pub received : Received
  pub write_error : Option ℕ

-- A result with the sink as it was left, or a read that never comes back: the stream has no timeout.
pub data Outcome (A : Type 0) : Type 0 where
  returned : Expected AppError A → List ℕ → Outcome A
  waiting : List ℕ → Outcome A

-- The bytes of one `async_write`, and the number that it returns.
abbrev pub written_bytes : Option ℕ → List ℕ → List ℕ
written_bytes none bs = bs
written_bytes (some k) bs = take k bs

abbrev pub is_error : Option ℕ → Bool
is_error none = false
is_error (some k) = true

abbrev pub is_empty : List ℕ → Bool
is_empty [] = true
is_empty (b ∷ bs) = false

-- The body of the loop for bytes that were read, with what the next turn makes of the new total and
-- the sink.
abbrev pub write_chunk : List ℕ → Option ℕ → ℕ → List ℕ → Outcome ℕ → Outcome ℕ
write_chunk bs e total_written sink rest =
    if is_empty bs
    then returned (value total_written) sink
    else (if is_error e
        then returned (unexpected network_error) (sink ++ written_bytes e bs)
        else rest)

-- The total after a turn, and the sink.
abbrev pub next_total : Received → ℕ → ℕ
next_total (bytes bs) total_written = (total_written + length bs) % 2 ^ 64
next_total _ total_written = total_written

abbrev pub next_sink : Received → List ℕ → List ℕ
next_sink (bytes bs) sink = sink ++ bs
next_sink _ sink = sink

abbrev pub transfer_turn : Received → Option ℕ → ℕ → List ℕ → Outcome ℕ → Outcome ℕ
transfer_turn eof e total_written sink rest = returned (value total_written) sink
transfer_turn failed e total_written sink rest = returned (unexpected network_error) sink
transfer_turn (bytes bs) e total_written sink rest = write_chunk bs e total_written sink rest

-- `transfer_stream_data`, from a total on.
unfoldable pub transfer_stream_data : List Turn → ℕ → ℕ → List ℕ → Outcome ℕ
transfer_stream_data [] remaining_size total_written sink =
    if remaining_size == 0 || ltb total_written remaining_size
    then waiting sink
    else returned (value total_written) sink
transfer_stream_data (t ∷ ts) remaining_size total_written sink =
    let rest =
      transfer_stream_data ts remaining_size (next_total t.received total_written)
        (next_sink t.received sink) in
    if remaining_size == 0 || ltb total_written remaining_size
    then transfer_turn t.received t.write_error total_written sink rest
    else returned (value total_written) sink

-- `drain_residual_buffer`: what the parser had read past the header, with the error of its write.
unfoldable pub drain_residual_buffer : List ℕ → Option ℕ → List ℕ → Expected AppError ℕ × List ℕ
drain_residual_buffer buffer e sink = if is_empty buffer then (value 0, sink) else (
  if is_error e then unexpected network_error else value (length buffer),
  sink ++ written_bytes e buffer,
)

-- The comparison with the expected size at the end.
abbrev pub checked : ℕ → ℕ → Expected AppError Unit
checked expected_size total_written =
    if expected_size == 0
    then value tt
    else (if total_written == expected_size then value tt else unexpected network_error)

abbrev pub transferred : ℕ → ℕ → Outcome ℕ → Outcome Unit
transferred expected_size drained (waiting sink) = waiting sink
transferred expected_size drained (returned (unexpected e) sink) = returned (unexpected e) sink
transferred expected_size drained (returned (value n) sink) =
    returned (checked expected_size ((drained + n) % 2 ^ 64)) sink

abbrev pub stream_rest : ℕ → List Turn → Expected AppError ℕ × List ℕ → Outcome Unit
stream_rest expected_size ts (unexpected e, sink) = returned (unexpected e) sink
stream_rest expected_size ts (value drained, sink) =
    if expected_size == 0 || ltb drained expected_size
    then transferred expected_size drained
        (transfer_stream_data ts (expected_size - drained) 0 sink)
    else returned (checked expected_size drained) sink

unfoldable pub stream_to_sink : List ℕ → Option ℕ → ℕ → List Turn → List ℕ → Outcome Unit
unfolding drain_residual_buffer transfer_stream_data
stream_to_sink buffer e expected_size ts sink =
    stream_rest expected_size ts (drain_residual_buffer buffer e sink)

-- `get_content_length`, of the header's field where it is there.
abbrev pub get_content_length : Option ℕ → ℕ
get_content_length none = 0
get_content_length (some n) = n

-- A server, as it meets `execute`: the errors of its phases, whether its status is 200, the field
-- "Content-Length", what came with the header, and the turns of the transfer.
pub record Server : Type 0 where
  pub resolve_error : Bool
  pub connect_error : Bool
  pub request_error : Bool
  pub header_error : Bool
  pub is_ok : Bool
  pub content_length : Option ℕ
  pub buffer : List ℕ
  pub drain_error : Option ℕ
  pub turns : List Turn

unfoldable pub connect : Server → Expected AppError Unit
connect s =
    if s.resolve_error
    then unexpected network_error
    else (if s.connect_error then unexpected network_error else value tt)

-- `handle_error_response`, whose text is left out.
abbrev pub handle_error_response : List ℕ → Outcome Unit
handle_error_response sink = returned (unexpected network_error) sink

abbrev pub connected : Server → List ℕ → Expected AppError Unit → Outcome Unit
connected s sink (unexpected e) = returned (unexpected e) sink
connected s sink (value u) =
    if s.request_error
    then returned (unexpected network_error) sink
    else (if s.header_error
        then returned (unexpected network_error) sink
        else (if s.is_ok
            then stream_to_sink s.buffer s.drain_error (get_content_length s.content_length) s.turns
                sink
            else handle_error_response sink))

unfoldable pub execute : Server → List ℕ → Outcome Unit
unfolding connect stream_to_sink
execute s sink = connected s sink (connect s)
