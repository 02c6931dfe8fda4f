-- ===== src/Provider.antt =====
-- internal/provider: which upstream a request is for, and what its responses say of usage.
pub mod Names
pub mod Detect
pub mod Paths
pub mod Usage
pub mod Translate
pub mod Parser
pub mod Frames
