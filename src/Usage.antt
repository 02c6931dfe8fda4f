-- ===== src/Usage.antt =====
-- The usage reports: what internal/repositories/usage.go and internal/services/usage_service.go compute.
pub mod Aggregate
pub mod Filter
pub mod Reports
pub mod Groups
pub mod Tree
pub mod Runs
pub mod Service
pub mod Health
