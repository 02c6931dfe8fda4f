-- ===== src/Proxy.antt =====
-- internal/proxy: the request handler, and the provider router behind it.
pub mod Health
pub mod Select
pub mod Route
pub mod Rewrite
pub mod Region
pub mod Headers
pub mod Spans
pub mod Forward
pub mod Exchange
pub mod Handler
pub mod Respond
