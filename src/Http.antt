-- ===== src/Http.antt =====
-- The HTTP server and the proxy of Lab1_HTTP_server.
pub mod Limiter
pub mod LimiterLaws
pub mod Server
pub mod Responses
pub mod Proxy
