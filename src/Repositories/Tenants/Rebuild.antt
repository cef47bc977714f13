-- ===== src/Repositories/Tenants/Rebuild.antt =====
-- A tenant beside what GetByID rebuilds of its events (pkg/repositories, domain/tenant).
use pyairtable_go_services.Prelude.{
  true, String, trim_space, ◌≡◌, refl, sym, subst, List, [], ◌∷◌, ◌++◌, false, str_eq, eq_refl,
  arith, Bool-cases, inl, inr,
}
use pyairtable_go_services.Domain.Shared.Error.{ok, >>=-eq-ok, wrap}
use pyairtable_go_services.Domain.Shared.Types.{Env, Email, email_is_empty, is_valid_email}
use pyairtable_go_services.Domain.Shared.Event.{DomainEvent, event_type_tenant_created}
use pyairtable_go_services.Domain.Shared.Aggregate.{BaseAggregateRoot, raise_event}
use pyairtable_go_services.Domain.Shared.History.{load_with, load_with-append, replay}
use pyairtable_go_services.Domain.Shared.Tracking.{Tracks, LoadsAppend, Follows-Tracks}
use pyairtable_go_services.Domain.Tenant.Types.{TenantAggregate, TenantState, is_valid_slug}
use pyairtable_go_services.Domain.Tenant.Creation.{created_tenant, new_tenant_aggregate}
use pyairtable_go_services.Domain.Tenant.History.{apply_tenant_event, load_tenant_from_history}
use pyairtable_go_services.Domain.Tenant.Commands.{Command, step, run}
use pyairtable_go_services.Domain.Tenant.Replay.{SameTenant, tenant_step-Follows}
use pyairtable_go_services.Repositories.Users.Rebuild.{wrap-eq-ok}
use pyairtable_go_services.Repositories.Tenants.{blank_tenant, tenant_from_events}

abbrev pub TenantLoads : Env → List DomainEvent → BaseAggregateRoot → TenantState → Type 0
TenantLoads env es b t = tenant_from_events env es ≡ ok (record { base = b; state = t })

load_tenant-parts :
    (es : List DomainEvent) (a : TenantAggregate) (b : BaseAggregateRoot) (t : TenantState)
    → load_tenant_from_history es a ≡ ok (record { base = b; state = t })
    → load_with apply_tenant_event es a.base a.state ≡ ok (b, t)
unfolding load_tenant_from_history
load_tenant-parts es a b t h = ground arith

load_tenant-append :
    (es : List DomainEvent) (e : DomainEvent) (a : TenantAggregate) (b : BaseAggregateRoot)
    (t u : TenantState)
    → load_tenant_from_history es a ≡ ok (record { base = b; state = t })
    → e.aggregate_id ≡ b.id
    → apply_tenant_event e t ≡ ok u
    → load_tenant_from_history (es ++ e ∷ []) a
      ≡ ok (record { base = record b { version = e.version }; state = u })
unfolding load_tenant_from_history
load_tenant-append es e a b t u h i k = rw (
    load_with-append apply_tenant_event es e a.base b a.state t u (load_tenant-parts es a b t h) i
      k)

TenantLoads-append : (env : Env) → LoadsAppend apply_tenant_event SameTenant (TenantLoads env)
unfolding tenant_from_events
TenantLoads-append env [] e b t u h i k = cc
TenantLoads-append env (x ∷ es) e b t u h i k =
    elim (Bool-cases (str_eq x.event_type event_type_tenant_created)) [
      | inl first ↦
          let (u0, p, q) = >>=-eq-ok (blank_tenant env x) _ (rw (first, tenant_from_events) at h) in
          rw (first, p) (rw (load_tenant-append (x ∷ es) e u0 b t u (wrap-eq-ok _ _ q) i k))
      | inr other ↦ ground arith
    ]

-- What GetByID made of an aggregate's events it makes again, with one event more applied.
module _ (env : Env) where
  abbrev TenantTracks : List DomainEvent → TenantAggregate → Type 0
  TenantTracks saved u = Tracks apply_tenant_event SameTenant (TenantLoads env) saved u.base u.state

  step-TenantTracks :
      (saved : List DomainEvent) (env' : Env) (c : Command) (u : TenantAggregate)
      → TenantTracks saved u
      → TenantTracks saved (step env' c u).0
  step-TenantTracks saved env' c u t =
      Follows-Tracks apply_tenant_event SameTenant (TenantLoads env) (TenantLoads-append env) saved
        u.base (step env' c u).0.base u.state (step env' c u).0.state t
        (tenant_step-Follows env' c u t.state t.same)

  run-TenantTracks :
      (saved : List DomainEvent) (cs : List (Env × Command)) (u : TenantAggregate)
      → TenantTracks saved u
      → TenantTracks saved (run cs u)
  unfolding run
  run-TenantTracks saved [] u t = t
  run-TenantTracks saved ((env', c) ∷ cs) u t =
      run-TenantTracks saved cs (step env' c u).0 (step-TenantTracks saved env' c u t)

  -- A tenant just created is rebuilt from its one event.
  created-loads :
      (env' : Env) (id name slug domain : String) (owner : Email)
      → str_eq name "" ≡ false
      → str_eq slug "" ≡ false
      → is_valid_slug slug ≡ true
      → is_valid_email owner.value ≡ true
      → email_is_empty owner ≡ false
      → let w = created_tenant env' id name slug domain owner in
        let t = (created_tenant env id name slug domain owner).state in
        TenantLoads env w.base.uncommitted_events
          (record (w.base) { uncommitted_events = [] })
          (record t { name = name; slug = slug; domain = domain })
  unfolding created_tenant tenant_from_events blank_tenant load_tenant_from_history raise_event
      load_with replay apply_tenant_event new_tenant_aggregate
  created-loads env' id name slug domain owner named slugged formed valid full =
      rw (valid, named, slugged, formed, full) (rw (eq_refl id, wrap) (rw (eq_refl id, wrap)))

  created-TenantTracks :
      (env' : Env) (id name slug domain : String) (owner : Email)
      → str_eq name "" ≡ false
      → str_eq slug "" ≡ false
      → is_valid_slug slug ≡ true
      → is_valid_email owner.value ≡ true
      → email_is_empty owner ≡ false
      → trim_space name ≡ name
      → env'.to_lower (trim_space slug) ≡ slug
      → env'.to_lower (trim_space domain) ≡ domain
      → TenantTracks [] (created_tenant env' id name slug domain owner)
  unfolding created_tenant raise_event
  created-TenantTracks env' id name slug domain owner named slugged formed valid full tn ts td =
      record {
        root = _;
        state = _;
        loads = created-loads env' id name slug domain owner named slugged formed valid full;
        same = record { name = sym tn; slug = sym ts; domain = sym td; plan = refl; quotas = refl };
        same_id = refl;
        same_version = refl;
        same_tenant = refl;
      }

pub new_tenant-parts :
    (env : Env) (id name slug domain : String) (owner : Email) {w : TenantAggregate}
    → new_tenant_aggregate env id name slug domain owner ≡ ok w
    → (str_eq name "" ≡ false)
      × (str_eq slug "" ≡ false)
      × (is_valid_slug slug ≡ true)
      × (email_is_empty owner ≡ false)
      × (w ≡ created_tenant env id name slug domain owner)
unfolding new_tenant_aggregate
new_tenant-parts env id name slug domain owner h = ground arith

-- After any calls on a new tenant with a valid email, whose name has no space at its ends and whose
-- slug and domain are trimmed and in lower case, GetByID on all its events succeeds, whatever clock
-- and identifiers it meets, and gives a tenant of the same identifier and version with the same name,
-- slug, domain, plan and quotas.
pub tenant_run_rebuilds :
    (env env' : Env) (id name slug domain : String) (owner : Email) (cs : List (Env × Command))
    {w : TenantAggregate}
    → is_valid_email owner.value ≡ true
    → trim_space name ≡ name
    → env'.to_lower (trim_space slug) ≡ slug
    → env'.to_lower (trim_space domain) ≡ domain
    → new_tenant_aggregate env' id name slug domain owner ≡ ok w
    → let v = run cs w in
      (r : TenantAggregate) × (tenant_from_events env v.base.uncommitted_events ≡ ok r)
      × SameTenant v.state r.state
      × (r.base.id ≡ v.base.id)
      × (r.base.version ≡ v.base.version)
tenant_run_rebuilds env env' id name slug domain owner cs {w} valid tn ts td h =
    let (named, slugged, formed, full, made) = new_tenant-parts env' id name slug domain owner h in
    let start = subst (TenantTracks env []) (sym made) (
      created-TenantTracks env env' id name slug domain owner named slugged formed valid full tn ts
        td) in
    let t = run-TenantTracks env [] cs w start in
    (record { base = t.root; state = t.state }, t.loads, t.same, t.same_id, t.same_version)
