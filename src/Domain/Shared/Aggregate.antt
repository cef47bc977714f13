-- ===== src/Domain/Shared/Aggregate.antt =====
-- domain/shared/aggregate.go: the aggregate root that user, tenant and workspace embed.
use pyairtable_go_services.Prelude.{
  ℕ, String, List, [], ◌∷◌, ◌++◌, Option, none, some, if◌then◌else◌, str_eq,
}
use pyairtable_go_services.Domain.Shared.Error.{Error, errorf}
use pyairtable_go_services.Domain.Shared.Types.{Env, new_version, next}
use pyairtable_go_services.Domain.Shared.Event.{DomainEvent, Payload, new_base_domain_event}

pub record BaseAggregateRoot : Type 0 where
  pub id : String
  pub version : ℕ
  pub tenant_id : String
  pub uncommitted_events : List DomainEvent

unfoldable pub new_base_aggregate_root : String → String → BaseAggregateRoot
unfolding new_version
new_base_aggregate_root id tenant_id = record {
  id = id;
  version = new_version;
  tenant_id = tenant_id;
  uncommitted_events = [];
}

unfoldable pub clear_uncommitted_events : BaseAggregateRoot → BaseAggregateRoot
clear_uncommitted_events a = record a { uncommitted_events = [] }

unfoldable pub apply_event : BaseAggregateRoot → DomainEvent → BaseAggregateRoot
unfolding next
apply_event a event = record a {
  uncommitted_events = a.uncommitted_events ++ event ∷ [];
  version = next a.version;
}

-- The base implementation of LoadFromHistory: the events before a foreign one have moved the version.
unfoldable pub load_from_history :
    BaseAggregateRoot → List DomainEvent → BaseAggregateRoot × Option Error
load_from_history a [] = (a, none)
load_from_history a (event ∷ events) =
    if str_eq event.aggregate_id a.id
    then load_from_history (record a { version = event.version }) events
    else (
      a,
      some (
          errorf "event aggregate ID %s does not match aggregate ID %s"
            (event.aggregate_id ∷ a.id ∷ [])),
    )

-- RaiseEvent; its event takes the i-th identifier and the i-th reading of the clock.
unfoldable pub raise_event :
    Env → ℕ → String → String → Payload → BaseAggregateRoot → BaseAggregateRoot
unfolding apply_event new_base_domain_event next
raise_event env i event_type aggregate_type payload a = apply_event a (
    new_base_domain_event env i event_type a.id aggregate_type (next a.version) a.tenant_id payload)
