-- ===== src/Domain/User.antt =====
-- domain/user: the user aggregate.
pub mod Types
pub mod Account
pub mod Roles
pub mod Sessions
pub mod History
pub mod Commands
pub mod Replay
pub mod Invariants
