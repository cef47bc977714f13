-- ===== src/Domain/Tenant.antt =====
-- domain/tenant: the tenant aggregate.
pub mod Types
pub mod Creation
pub mod Plans
pub mod History
pub mod Commands
pub mod Invariants
pub mod Replay
