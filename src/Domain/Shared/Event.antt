-- ===== src/Domain/Shared/Event.antt =====
-- domain/shared/events.go: the events that aggregates raise, with their payloads.
use pyairtable_go_services.Prelude.{ℕ, String, Option, none, some, Dict, lookup}
use pyairtable_go_services.Domain.Shared.Types.{Env}

-- What the aggregates put into a payload's `interface{}`.
pub data Value : Type 0 where
  text : String → Value
  int : ℕ → Value

abbrev pub Payload : Type 0
Payload = Dict Value

pub record DomainEvent : Type 0 where
  pub event_id : String
  pub event_type : String
  pub aggregate_id : String
  pub aggregate_type : String
  pub version : ℕ
  pub occurred_at : ℕ
  pub tenant_id : String
  pub payload : Payload

-- `v.(string)` on what the map gave back; `none` where the assertion does not hold.
abbrev pub as_string : Option Value → Option String
as_string none = none
as_string (some (text s)) = some s
as_string (some (int n)) = none

-- `payload[k].(string)`
unfoldable pub get_string : String → Payload → Option String
unfolding lookup
get_string k p = as_string (lookup k p)

unfoldable pub new_base_domain_event :
    Env → ℕ → String → String → String → ℕ → String → Payload → DomainEvent
new_base_domain_event env i event_type aggregate_id aggregate_type version tenant_id payload =
    record {
      event_id = env.uuid i;
      event_type = event_type;
      aggregate_id = aggregate_id;
      aggregate_type = aggregate_type;
      version = version;
      occurred_at = env.now i;
      tenant_id = tenant_id;
      payload = payload;
    }

abbrev pub event_type_user_registered : String
event_type_user_registered = "user.registered"

abbrev pub event_type_user_activated : String
event_type_user_activated = "user.activated"

abbrev pub event_type_user_deactivated : String
event_type_user_deactivated = "user.deactivated"

abbrev pub event_type_user_updated : String
event_type_user_updated = "user.updated"

abbrev pub event_type_user_role_changed : String
event_type_user_role_changed = "user.role_changed"

abbrev pub event_type_workspace_created : String
event_type_workspace_created = "workspace.created"

abbrev pub event_type_workspace_updated : String
event_type_workspace_updated = "workspace.updated"

abbrev pub event_type_workspace_deactivated : String
event_type_workspace_deactivated = "workspace.deactivated"

abbrev pub event_type_member_added : String
event_type_member_added = "workspace.member_added"

abbrev pub event_type_member_removed : String
event_type_member_removed = "workspace.member_removed"

abbrev pub event_type_member_role_changed : String
event_type_member_role_changed = "workspace.member_role_changed"

abbrev pub event_type_tenant_created : String
event_type_tenant_created = "tenant.created"

abbrev pub event_type_tenant_updated : String
event_type_tenant_updated = "tenant.updated"

abbrev pub event_type_tenant_plan_changed : String
event_type_tenant_plan_changed = "tenant.plan_changed"

abbrev pub event_type_tenant_deactivated : String
event_type_tenant_deactivated = "tenant.deactivated"
