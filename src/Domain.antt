-- ===== src/Domain.antt =====
-- domain/: the aggregates of the bounded contexts.
pub mod Shared
pub mod User
pub mod Workspace
pub mod Tenant
