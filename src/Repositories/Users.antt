-- ===== src/Repositories/Users.antt =====
-- pkg/repositories/user_aggregate_repository.go: GetByID.
pub mod Rebuild
pub mod Cycle
pub mod Expiry
use pyairtable_go_services.Prelude.{
  ℕ, String, ◌≡◌, refl, Bool, true, false, List, [], ◌∷◌, ◌++◌, Option, none, some, str_eq, not,
  if◌then◌else◌, arith,
}
use pyairtable_go_services.Domain.Shared.Error.{
  Outcome, ok, fail, ◌>>=◌, >>=-eq-ok, or_panic, wrap, errorf, new_domain_error, err_code_not_found,
}
use pyairtable_go_services.Domain.Shared.Types.{Env, Email, new_email}
use pyairtable_go_services.Domain.Shared.Event.{DomainEvent, get_string, event_type_user_registered}
use pyairtable_go_services.Domain.Shared.Aggregate.{BaseAggregateRoot, clear_uncommitted_events}
use pyairtable_go_services.Domain.User.Types.{UserAggregate, UserState}
use pyairtable_go_services.Domain.User.Account.{new_user_aggregate}
use pyairtable_go_services.Domain.User.History.{load_user_from_history}
use pyairtable_go_services.EventStore.{Table, get_events}

-- "Create aggregate with minimal data", its creation event cleared
unfoldable pub blank_user : Env → DomainEvent → Outcome UserAggregate
unfolding get_string new_email clear_uncommitted_events
blank_user env first = do
  user_id ← or_panic (get_string "user_id" first.payload)
  tenant_id ← or_panic (get_string "tenant_id" first.payload)
  email ← or_panic (get_string "email" first.payload)
  first_name ← or_panic (get_string "first_name" first.payload)
  last_name ← or_panic (get_string "last_name" first.payload)
  aggregate ← wrap "failed to create user aggregate: %w" (
      new_user_aggregate env user_id tenant_id (new_email email).0 "placeholder_hash" first_name
        last_name)
  ok (record aggregate { base = clear_uncommitted_events aggregate.base })

-- GetByID behind the query, on the events that it gave
unfoldable pub user_from_events : Env → List DomainEvent → Outcome UserAggregate
user_from_events env [] = fail (new_domain_error err_code_not_found "user not found" none)
user_from_events env (first ∷ rest) =
    if not (str_eq first.event_type event_type_user_registered)
    then fail (errorf "first event must be UserRegistered, got %s" (first.event_type ∷ []))
    else blank_user env first >>= λ u.
        wrap "failed to load aggregate from history: %w" (load_user_from_history (first ∷ rest) u)

-- GetByID; `error` is what the query answered.
unfoldable pub get_user_by_id : Env → Option String → String → Table → Outcome UserAggregate
unfolding user_from_events
get_user_by_id env error id rows =
    wrap "failed to get events: %w" (get_events error id rows) >>= user_from_events env
