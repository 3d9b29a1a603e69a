-- ===== src/Tcp.antt =====
-- tcp/: the connection over a socket, the worker of one client, and the server loop.
pub mod Connection
pub mod Worker
pub mod Server
pub mod Echo
