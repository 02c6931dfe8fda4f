-- ===== src/Tests.antt =====
-- The theorems at concrete inputs: a small catalog, and prices in millionths.
pub mod Fixtures
mod Pricing
mod Provider
pub mod Route
pub mod Request
pub mod Auth
pub mod Metadata
mod Handler
pub mod Usage
mod Service
mod Logs
mod Keys
mod Health
