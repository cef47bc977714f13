-- ===== src/Domain/Shared.antt =====
-- domain/shared: what the bounded contexts have in common.
pub mod Error
pub mod Types
pub mod Event
pub mod Aggregate
pub mod Stamps
pub mod History
pub mod Tracking
