-- ===== src/Http.antt =====
-- http/: requests, responses, files, WebSocket connections, and the states of a connection.
pub mod Request
pub mod Response
pub mod Files
pub mod Ws
pub mod States
pub mod Server
