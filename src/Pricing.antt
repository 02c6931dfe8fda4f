-- ===== src/Pricing.antt =====
-- internal/pricing/service.go: prices per model and per provider, the routing catalog, and the
-- cost of a request. The children hold the operations and their laws.
pub mod Types
pub mod Suffix
pub mod Resolve
pub mod Overlay
pub mod Catalog
pub mod Reload
pub mod Cost
