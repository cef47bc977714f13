-- ===== src/Tests.antt =====
-- Small runs of the modelled code, and what the theorems say of them.
pub mod Users
pub mod Workspaces
pub mod Tenants
pub mod Store
pub mod Breaker
pub mod Gateway
pub mod Delivery
pub mod Hooks
pub mod Access
pub mod Locks
use pyairtable_go_services.Prelude.{ℕ, ◌+◌, String, [], none, trim_space}
use pyairtable_go_services.Domain.Shared.Types.{Env}
use pyairtable_go_services.EventStore.{Db}

-- A clock that starts at t, an identifier, and texts that are in lower case.
abbrev pub world : ℕ → String → Env
world t id = record { now = λ i. t + i; uuid = λ i. id; to_lower = λ s. s }

-- A database that fails no statement
abbrev pub healthy : Db
healthy = record {
  begin_error = none;
  query_error = none;
  insert_error = λ i. none;
  commit_error = none;
}
