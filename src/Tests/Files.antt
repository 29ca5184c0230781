-- ===== src/Tests/Files.antt =====
-- Downloads, WAV files, WebSockets and clients at concrete inputs.
use hermes_flow_server.Common.{
  ℕ, ◌*◌, ◌-◌, ◌+◌, ◌≡◌, refl, Bool, true, false, none, some, List, [], ◌∷◌, ◌++◌, replicate, arith,
  ltb,
}
use hermes_flow_server.Common.Expected.{value}
use hermes_flow_server.Common.Int.{ℤ, pos}
use hermes_flow_server.Http.HttpStreamer.{bytes, Turn, returned, Server, stream_to_sink}
use hermes_flow_server.Http.HttpStreamer.Transfer.{Downloads, stream_to_sink-Downloads}
use hermes_flow_server.Http.HttpStreamer.Ending.{stream_to_sink_complete}
use hermes_flow_server.Infra.FileSink.{FileSystem, ensure_file_exists}
use hermes_flow_server.Infra.FileSink.Files.{Leaves, sent_by, ensure_file_exists-Leaves}
use hermes_flow_server.Audio.Wav.{offset, riff_tag, data_tag, get_audio_data_offset}
use hermes_flow_server.Audio.Wav.Offset.{OffsetWithin, get_audio_data_offset-OffsetWithin}
use hermes_flow_server.Audio.Wav.Chunks.{Chunk, IsOther, chunks_bytes, get_audio_data_offset-chunks}
use hermes_flow_server.Config.{hex_to_bytes, loaded, thrown}
use hermes_flow_server.Http.Listener.{Accept, accepted, aborted, do_accept}
use hermes_flow_server.Infra.IoContextPool as Pool
use hermes_flow_server.WebSocket.{
  WebSocketSession, construct, Event, send_event, write_event, accept_event, run,
}
use hermes_flow_server.WebSocket.Queue.{run-IsOrdered, IsOrdered, IsStalled, run-IsStalled}
use hermes_flow_server.Graph.Registry.{
  int64_port, ClientConfig, ClientJson, returned as made, create_clients,
}
use hermes_flow_server.Graph.Registry.Accepted.{AllValid, create_clients-AllValid}

-- Three bytes with the header, and two more.
abbrev turns : List Turn
turns = record { received = bytes (4 ∷ 5 ∷ []); write_error = none } ∷ []

stream_to_sink-Downloads_example :
    Downloads 5 (1 ∷ 2 ∷ 3 ∷ 4 ∷ 5 ∷ []) [] (stream_to_sink (1 ∷ 2 ∷ 3 ∷ []) none 5 turns [])
stream_to_sink-Downloads_example =
    stream_to_sink-Downloads (1 ∷ 2 ∷ 3 ∷ []) none 5 turns [] (omega arith)

stream_to_sink_complete_example :
    stream_to_sink (1 ∷ 2 ∷ 3 ∷ []) none 5 turns [] ≡ returned (value tt) (1 ∷ 2 ∷ 3 ∷ 4 ∷ 5 ∷ [])
stream_to_sink_complete_example =
    stream_to_sink_complete (1 ∷ 2 ∷ 3 ∷ []) 5 turns [] ((refl, refl), tt) (omega arith)
      (omega arith) refl

abbrev server : Server
server = record {
  resolve_error = false;
  connect_error = false;
  request_error = false;
  header_error = false;
  is_ok = true;
  content_length = some 5;
  buffer = 1 ∷ 2 ∷ 3 ∷ [];
  drain_error = none;
  turns = turns;
}

abbrev file_system : FileSystem
file_system = record { dir_error = false; open_error = false; is_removable = true }

ensure_file_exists-Leaves_example :
    Leaves 5 (sent_by server) (ensure_file_exists file_system true server none)
ensure_file_exists-Leaves_example =
    ensure_file_exists-Leaves file_system true server refl (omega arith)

abbrev wav : List ℕ
wav = replicate 44 0

get_audio_data_offset-OffsetWithin_example : OffsetWithin 44 (get_audio_data_offset 45 wav)
get_audio_data_offset-OffsetWithin_example =
    get_audio_data_offset-OffsetWithin 45 wav (omega arith) (omega arith) (omega arith)
      (omega arith)

-- A chunk with a body of sixteen bytes.
abbrev format_chunk : Chunk
format_chunk = record {
  tag = 102 ∷ 109 ∷ 116 ∷ 32 ∷ [];
  size = 16 ∷ 0 ∷ 0 ∷ 0 ∷ [];
  body = replicate 16 0;
}

format_chunk-IsOther : IsOther format_chunk
format_chunk-IsOther = record {
  tag_length = refl;
  size_length = refl;
  body_length = refl;
  other = refl;
}

abbrev form : List ℕ
form = replicate 8 0

get_audio_data_offset-chunks_example :
    get_audio_data_offset 2 (
      (riff_tag ++ form)
      ++ (chunks_bytes (format_chunk ∷ []) ++ (data_tag ++ ((1 ∷ 0 ∷ 0 ∷ 0 ∷ []) ++ (9 ∷ [])))))
    ≡ offset 44
get_audio_data_offset-chunks_example =
    get_audio_data_offset-chunks (format_chunk ∷ []) 2 form (1 ∷ 0 ∷ 0 ∷ 0 ∷ []) (9 ∷ []) refl
      (format_chunk-IsOther, tt) refl (omega arith) (omega arith) (omega arith) (omega arith)

abbrev events : List Event
events = send_event 1 ∷ accept_event false ∷ send_event 2 ∷ write_event false ∷ []

run-IsOrdered_example :
    IsOrdered (run construct events)
    × ((run construct events).delivered ++ (run construct events).send_queue ≡ 1 ∷ 2 ∷ [])
run-IsOrdered_example = run-IsOrdered events

run-IsStalled_example :
    IsStalled (run (run construct events) (write_event true ∷ events))
    × ((run (run construct events) (write_event true ∷ events)).delivered
        ≡ (run construct events).delivered)
unfolding run hermes_flow_server.WebSocket.step hermes_flow_server.WebSocket.send
    hermes_flow_server.WebSocket.on_write hermes_flow_server.WebSocket.do_write
    hermes_flow_server.WebSocket.on_accept
run-IsStalled_example = run-IsStalled events events 2 refl

-- Loss ratios in percent.
abbrev never : ℕ → Bool
never n = false

abbrev above : ℕ → Bool
above n = ltb 100 n

abbrev client_json : ClientJson ℕ never above 0
client_json = record {
  is_object = true;
  ip = some "127.0.0.1";
  port = some (int64_port (pos 5004));
  loss_ratio = none;
}

abbrev client : ClientConfig ℕ never above 0
client = record { ip = "127.0.0.1"; port = 5004; packet_loss_ratio = 0 }

one-created :
    create_clients ℕ never above 0 (some (some (client_json ∷ []))) ≡ made (value (client ∷ []))
unfolding create_clients hermes_flow_server.Graph.Registry.parse_clients
    hermes_flow_server.Graph.Registry.parse_client hermes_flow_server.Graph.Registry.parse_port
one-created = refl

create_clients-AllValid_example : AllValid ℕ never above 0 (client_json ∷ []) (client ∷ [])
create_clients-AllValid_example =
    create_clients-AllValid ℕ never above 0 (client_json ∷ []) (client ∷ []) refl (tt, tt)
      one-created

-- A string of three digits, and one of two.
abbrev digits : ℕ → ℕ → ℤ
digits a b = pos (16 * (a - 48) + (b - 48))

odd_hex : hex_to_bytes digits none none (49 ∷ 50 ∷ 51 ∷ []) ≡ thrown
unfolding hex_to_bytes
odd_hex = refl

even_hex : hex_to_bytes digits none none (49 ∷ 50 ∷ []) ≡ loaded (18 ∷ [])
unfolding hex_to_bytes
even_hex = refl

-- Two connections over a pool of three contexts, with an error between them.
two_accepted :
    (do_accept (accepted ∷ Accept.failed ∷ accepted ∷ aborted ∷ []) (Pool.construct 3)).0
    ≡ 0 ∷ 2 ∷ []
unfolding do_accept hermes_flow_server.Infra.IoContextPool.get_io_context
two_accepted = refl
