-- ===== src/Logs.antt =====
-- The request log: what internal/proxy/handler.go records of a request, and how it is written.
pub mod Types
pub mod Record
pub mod Writer
