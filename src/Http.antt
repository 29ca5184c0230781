-- ===== src/Http.antt =====
-- src/network/http: the server's side of HTTP, from a request to the sessions that it acts on, and the
-- client that downloads files.
pub mod Response
pub mod Router
pub mod HttpSession
pub mod HttpStreamer
pub mod Listener
pub mod Server
