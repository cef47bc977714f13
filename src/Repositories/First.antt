-- ===== src/Repositories/First.antt =====
-- The first Save of a new aggregate (pkg/repositories, domain/shared/types.go).
use pyairtable_go_services.Prelude.{
  ℕ, String, ◌≡◌, ◌≢◌, refl, sym, ap, ◌∙◌, subst, List, [], ◌∷◌, none, some, arith,
}
use pyairtable_go_services.Domain.Shared.Error.{
  Error, ok, wrapped, new_domain_error, err_code_conflict,
}
use pyairtable_go_services.Domain.Shared.Types.{Env, Email}
use pyairtable_go_services.Domain.Shared.Event.{DomainEvent, Payload}
use pyairtable_go_services.Domain.Shared.Aggregate.{
  BaseAggregateRoot, new_base_aggregate_root, raise_event,
}
use pyairtable_go_services.Domain.User.Types.{UserAggregate}
use pyairtable_go_services.Domain.User.Account.{new_user_aggregate, created_user}
use pyairtable_go_services.Domain.Workspace.Types.{WorkspaceAggregate}
use pyairtable_go_services.Domain.Workspace.Lifecycle.{new_workspace_aggregate, created_workspace}
use pyairtable_go_services.Domain.Tenant.Types.{TenantAggregate}
use pyairtable_go_services.Domain.Tenant.Creation.{new_tenant_aggregate, created_tenant}
use pyairtable_go_services.EventStore.{Table, Db, current_version, save_events}
use pyairtable_go_services.Repositories.{expected_version, save, save_pending}
use pyairtable_go_services.Repositories.Users.Rebuild.{new_user-parts}
use pyairtable_go_services.Repositories.Workspaces.Rebuild.{new_workspace-parts}
use pyairtable_go_services.Repositories.Tenants.Rebuild.{new_tenant-parts}

-- The root of an aggregate that one of the three constructors has just returned.
pub data Created : BaseAggregateRoot → Type 0 where
  new_user :
      (env : Env) (id tenant_id : String) (email : Email) (hash first last : String)
      {u : UserAggregate}
      → new_user_aggregate env id tenant_id email hash first last ≡ ok u
      → Created u.base
  new_workspace :
      (env : Env) (id tenant_id name description owner_id : String) {w : WorkspaceAggregate}
      → new_workspace_aggregate env id tenant_id name description owner_id ≡ ok w
      → Created w.base
  new_tenant :
      (env : Env) (id name slug domain : String) (owner : Email) {t : TenantAggregate}
      → new_tenant_aggregate env id name slug domain owner ≡ ok t
      → Created t.base

-- One event is pending, and Save expects version 1 in the table.
abbrev IsFirst : BaseAggregateRoot → Type 0
IsFirst a = (e : DomainEvent) × (a.uncommitted_events ≡ e ∷ []) × (expected_version a ≡ 1)

raise_event-IsFirst :
    (env : Env) (i : ℕ) (event_type aggregate_type : String) (payload : Payload)
    (id tenant_id : String)
    → IsFirst
        (raise_event env i event_type aggregate_type payload (new_base_aggregate_root id tenant_id))
unfolding raise_event new_base_aggregate_root expected_version
raise_event-IsFirst env i event_type aggregate_type payload id tenant_id = (_, refl, refl)

created_user-IsFirst :
    (env : Env) (id tenant_id : String) (email : Email) (hash first last : String)
    → IsFirst (created_user env id tenant_id email hash first last).base
unfolding created_user
created_user-IsFirst env id tenant_id email hash first last =
    raise_event-IsFirst env 4 _ _ _ id tenant_id

created_workspace-IsFirst :
    (env : Env) (id tenant_id name description owner_id : String)
    → IsFirst (created_workspace env id tenant_id name description owner_id).base
unfolding created_workspace
created_workspace-IsFirst env id tenant_id name description owner_id =
    raise_event-IsFirst env 1 _ _ _ id tenant_id

created_tenant-IsFirst :
    (env : Env) (id name slug domain : String) (owner : Email)
    → IsFirst (created_tenant env id name slug domain owner).base
unfolding created_tenant
created_tenant-IsFirst env id name slug domain owner = raise_event-IsFirst env 1 _ _ _ id id

Created-IsFirst : {a : BaseAggregateRoot} → Created a → IsFirst a
Created-IsFirst (new_user env id tenant_id email hash first last made) =
    let parts = new_user-parts env id tenant_id email hash first last made in
    subst (λ u. IsFirst u.base) (sym parts.2)
      (created_user-IsFirst env id tenant_id email hash first last)
Created-IsFirst (new_workspace env id tenant_id name description owner_id made) =
    let parts = new_workspace-parts env id tenant_id name description owner_id made in
    subst (λ w. IsFirst w.base) (sym parts.3)
      (created_workspace-IsFirst env id tenant_id name description owner_id)
Created-IsFirst (new_tenant env id name slug domain owner made) =
    let parts = new_tenant-parts env id name slug domain owner made in
    subst (λ t. IsFirst t.base) (sym parts.4) (created_tenant-IsFirst env id name slug domain owner)

-- What the store answers where it expected another version.
abbrev pub conflict : Error
conflict =
    new_domain_error err_code_conflict "concurrency conflict: expected version %d, got %d" none

save_events-conflict :
    (db : Db) (seen rows : Table) (id : String) (e : DomainEvent) (es : List DomainEvent)
    (expected : ℕ)
    → current_version id seen ≢ expected
    → db.begin_error ≡ none
    → db.query_error ≡ none
    → save_events db seen id (e ∷ es) expected rows ≡ (rows, some conflict)
unfolding save_events
save_events-conflict db seen rows id e es expected stale begins queries = ground arith

save_pending-conflict :
    (db : Db) (seen rows : Table) (e : DomainEvent) (es : List DomainEvent) (a : BaseAggregateRoot)
    → save_events db seen a.id (e ∷ es) (expected_version a) rows ≡ (rows, some conflict)
    → save_pending db seen (e ∷ es) a rows
      ≡ (rows, a, some (wrapped "failed to save events: %w" conflict))
unfolding save_pending
save_pending-conflict db seen rows e es a h = ground arith

-- No new aggregate can be saved: the root that NewUserAggregate, NewWorkspaceAggregate or
-- NewTenantAggregate has returned is refused by Save with a conflict, and nothing changes, where the
-- transaction sees version 0 of it, as it does where the table has no row of it, and the database
-- answers without an error. Save expects to find version 1 of the new aggregate.
pub save_first_event_conflict :
    (db : Db) (seen rows : Table) (a : BaseAggregateRoot)
    → Created a
    → current_version a.id seen ≡ 0
    → db.begin_error ≡ none
    → db.query_error ≡ none
    → save db seen a rows ≡ (rows, a, some (wrapped "failed to save events: %w" conflict))
unfolding save
save_first_event_conflict db seen rows a created fresh begins queries =
    let (e, one, expected) = Created-IsFirst created in
    ap (λ es. save_pending db seen es a rows) one
    ∙ save_pending-conflict db seen rows e [] a (
        save_events-conflict db seen rows a.id e [] (expected_version a)
          (omega (arith, fresh, expected)) begins queries)
