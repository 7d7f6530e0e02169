-- ===== src/SslServer.antt =====
-- The TLS server (ssl_server.c).
pub mod Auth
pub mod Connections
