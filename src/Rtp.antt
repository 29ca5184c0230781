-- ===== src/Rtp.antt =====
-- src/network/rtp: the packet format, the packetizer, and the stream to the clients.
pub mod Packet
pub mod Packetizer
pub mod PacketUtils
pub mod Streamer
