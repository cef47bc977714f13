-- ===== src/Domain/Workspace.antt =====
-- domain/workspace: the workspace aggregate.
pub mod Types
pub mod Members
pub mod Lifecycle
pub mod History
pub mod Commands
pub mod Ownership
pub mod Permissions
pub mod Access
pub mod Limits
pub mod Replay
