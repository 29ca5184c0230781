-- ===== src/Lib.antt =====
-- Hermes Flow Server plays graphs of audio nodes to RTP clients. `ActiveSessions` makes sessions
-- from JSON graphs; a session ticks every 20 ms, asks `AudioExecutor` for a frame of the current
-- node, and hands it to `RTPStreamer`, which encodes it in A-law, packetizes it, and sends it.
--
-- The files, and the code that they model:
--   Rtp.Packet         src/network/rtp/Packet.cpp: `to_buffer` and `from_buffer` over lists of bytes. A
--                      read past the end of the buffer is `fault`, a refused buffer `reject`.
--   Rtp.Packetizer     src/network/rtp/RTPPacketizer.cpp: `packetize` and its counters.
--   Rtp.PacketUtils    src/network/rtp/PacketUtils.hpp: `packet_to_rtp`.
--   Rtp.Streamer       src/network/rtp/RTPStreamer.cpp: clients, packet ring, `send_frame`. A loss ratio
--                      is of any type, with the tests of the code as parameters.
--   Audio.Pcm          src/infra/audio/PcmCast.hpp: samples as two's complement bytes.
--   Audio.Alaw         src/infra/audio/Alaw.cpp: the tables, as the loops fill them, and both directions.
--                      `encode_sample` and `decode_sample` are the bodies of those loops.
--   Audio.Codec        src/infra/audio/CodecStrategy.hpp.
--   Crypto             src/infra/crypto/EncryptionStrategy.cpp: the initial vectors. The cipher is a
--                      parameter. The exception of the constructor is a `Failure` of `Sessions`.
--   Buffer             src/infra/audio/DoubleBuffer.cpp and src/infra/io/AsyncBufferController.cpp. The
--                      refill coroutine is `start_refill`, then `finish_refill` or `fail_refill`.
--   Session            src/core/session/Session.cpp: the coroutine `start`, as a state with the points
--                      where it suspends, and the events that reach it. A session that is over may be
--                      started again; two coroutines of one session at a time are not represented.
--   Session.Loop       the audio loop of Session.cpp with its clocks and statistics, over `Graph.Executor`
--                      and `Rtp.Streamer`: what happens to a session, each with its time.
--   Sessions           src/core/session/ActiveSessions.cpp: the two maps and the pool of ports. A mutex
--                      makes each operation one step, but for the one of a WebSocket, which locks
--                      twice: `put_websocket` is its second part.
--   Graph              src/core/graph/Node.hpp, Node.cpp and nodes/: the nodes and `connect_input`. A
--                      pointer to a node is its index in `Graph::nodes`.
--   Graph.Parse        src/infra/parsers/Json2Graph.cpp, on what Boost.JSON gives of each element.
--   Graph.Executor     src/core/graph/AudioExecutor.cpp with `process_frame` and `close` of the nodes;
--                      which files have a frame ready, and can be closed, are parameters.
--   Graph.Executor.Loops  `prepare`, with the walks of `detect_and_flag_loops` on fuel.
--   Graph.FileInput    src/core/graph/nodes/FileInputNode.cpp: `open`, `fetch_bytes` and the gain.
--   Graph.Registry     src/core/graph/NodeRegistry.cpp and NodeFactory.hpp.
--   Audio.Wav          src/infra/audio/WavUtils.hpp, with reads outside the buffer as an outcome.
--   Audio.PitchShifter src/infra/audio/PitchShifter.cpp, over an interface of the operations of `float`,
--                      of which `Laws` states the behaviour that is relied on.
--   Audio.Mixing       src/infra/audio/AudioMath.hpp and the samples of MixerNode.cpp.
--   Http.Response      src/infra/parsers/response_builder.hpp.
--   Http.Router        src/network/http/Router.cpp: the routes over `Sessions` and `Graph.Parse`. A handler
--                      takes an exchange, the router with the response that is filled, and returns the
--                      error of the code or none.
--   Http.HttpSession   src/network/http/HttpSession.cpp: the loop over one connection, in turns.
--   Http.HttpStreamer  src/network/http/HttpStreamer.hpp: the client, with the network as its argument.
--   Http.Listener      src/network/http/Listener.cpp: opening, and the loop that accepts.
--   Http.Server        src/network/http/Server.cpp: making, start and stop.
--   App                src/app/main.cpp: from the two files of the configuration to the exit code, or to a
--                      server that serves on, where no signal comes.
--   S3                 src/network/s3: S3RequestFactory.cpp, AwsSigner.cpp and S3Session.cpp, with the library
--                      that makes signatures as a parameter.
--   Config             src/core/config/Config.cpp, on what toml++ gives of each key.
--   WebSocket          src/network/websocket/WebSocketSession.cpp: the handlers, as events; and the
--                      messages of WebSocketSessionObserver.hpp.
--   Infra              src/infra/io: the pool of contexts, and the sink with the downloads of
--                      FileInputNode.cpp.
--   Types              src/core/config/Types.hpp.
--   Common             lists, bits, stores and tests that the others share; Tests the witnesses.
--
-- Bytes, words and counters are natural numbers with the wrap-around of their types written out;
-- the `int` counters of frames are not bounded. Identifiers and addresses, which are only compared,
-- are numbers. Fuel bounds the loops that are not structural. `fill_ports` and `frames_until_stop`
-- need not end: where they end, theorems give fuel that is enough, and where they do not, no fuel
-- is. The walks of `detect_and_flag_loops` end within two turns more than there are nodes, and
-- `get_audio_data_offset` within a turn for each byte of the header. The loops of the pitch
-- shifter that bring a number back into its range have a fuel of three turns. The audio loop of a
-- session is over a list of happenings, and needs no fuel.
--
-- Not modelled: the bits of floating-point numbers (the operations are an interface in the pitch
-- shifter, and the products of the gain and the soft clipping are parameters), sockets, timers and
-- threads, the signatures of S3 requests, which a library makes, the logger, and the messages of
-- errors. Exceptions are modelled where the code throws them knowingly;
-- others, and those of the libraries, are left out.
pub mod Common
pub mod Types
pub mod Rtp
pub mod Audio
pub mod Crypto
pub mod Buffer
pub mod Session
pub mod Sessions
pub mod Graph
pub mod Http
pub mod WebSocket
pub mod Infra
pub mod Config
pub mod S3
pub mod App
pub mod Tests
