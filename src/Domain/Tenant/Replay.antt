-- ===== src/Domain/Tenant/Replay.antt =====
-- What LoadFromHistory makes of the events that a tenant's calls raise (domain/tenant/aggregate.go).
use pyairtable_go_services.Prelude.{
  String, ◌≡◌, refl, inl, inr, str_eq, not, ◌&&◌, arith, Bool-cases,
}
use pyairtable_go_services.Domain.Shared.Types.{Env}
use pyairtable_go_services.Domain.Shared.Aggregate.{raise_event}
use pyairtable_go_services.Domain.Shared.Tracking.{Follows}
use pyairtable_go_services.Domain.Tenant.Types.{
  TenantAggregate, TenantState, tenant_status_active, tenant_status_suspended, plan_free,
}
use pyairtable_go_services.Domain.Tenant.Plans.{
  update_tenant, change_plan, update_usage, add_payment_method, suspend, reactivate, tenant_changes,
}
use pyairtable_go_services.Domain.Tenant.History.{apply_tenant_event}
use pyairtable_go_services.Domain.Tenant.Commands.{
  Command, updates_tenant, changes_plan, updates_usage, adds_payment_method, suspends, reactivates,
  step,
}

-- The part of a tenant that its events carry whatever calls there are; the status is not in it.
pub record SameTenant (s t : TenantState) : Type 0 where
  pub name : t.name ≡ s.name
  pub slug : t.slug ≡ s.slug
  pub domain : t.domain ≡ s.domain
  pub plan : t.subscription.plan ≡ s.subscription.plan
  pub quotas : t.quotas ≡ s.quotas

pub SameTenant-refl : (s : TenantState) → SameTenant s s
SameTenant-refl s = record { name = refl; slug = refl; domain = refl; plan = refl; quotas = refl }

abbrev pub TenantFollows : TenantAggregate → TenantAggregate → TenantState → Type 0
TenantFollows w w' t = Follows apply_tenant_event SameTenant w.base w'.base w'.state t

module _ (env : Env) (w : TenantAggregate) (t : TenantState) (h : SameTenant w.state t) where
  update_tenant-Follows : (n d : String) → TenantFollows w (update_tenant env n d w).0 t
  unfolding update_tenant apply_tenant_event raise_event
  update_tenant-Follows n d = elim (Bool-cases (str_eq w.state.status tenant_status_active)) [
    | inr a ↦ rw a (Follows.unchanged refl h)
    | inl a ↦ rw a (elim (Bool-cases (tenant_changes n d w.state)) [
      | inl b ↦ rw b (
          Follows.replayed _ _ refl refl refl refl (record {
            name = refl;
            slug = h.slug;
            domain = refl;
            plan = h.plan;
            quotas = h.quotas;
          }))
      | inr b ↦ rw b (Follows.unchanged refl h)
    ])
  ]

  change_plan-Follows : (p m : String) → TenantFollows w (change_plan env p m w).0 t
  unfolding change_plan apply_tenant_event raise_event
  change_plan-Follows p m = elim (Bool-cases (str_eq w.state.status tenant_status_active)) [
    | inr a ↦ rw a (Follows.unchanged refl h)
    | inl a ↦ rw a (elim (Bool-cases (str_eq w.state.subscription.plan p)) [
      | inl b ↦ rw b (Follows.unchanged refl h)
      | inr b ↦ rw b (elim (Bool-cases (not (str_eq p plan_free) && str_eq m "")) [
        | inl c ↦ rw c (Follows.unchanged refl h)
        | inr c ↦ rw c (
            Follows.replayed _ _ refl refl refl refl (record {
              name = h.name;
              slug = h.slug;
              domain = h.domain;
              plan = ground arith;
              quotas = refl;
            }))
      ])
    ])
  ]

  suspend-Follows : (r : String) → TenantFollows w (suspend env r w).0 t
  unfolding suspend apply_tenant_event raise_event
  suspend-Follows r = elim (Bool-cases (str_eq w.state.status tenant_status_suspended)) [
    | inl a ↦ rw a (Follows.unchanged refl h)
    | inr a ↦ rw a (Follows.replayed _ _ refl refl refl refl (ground arith))
  ]

pub tenant_step-Follows :
    (env : Env) (c : Command) (w : TenantAggregate) (t : TenantState)
    → SameTenant w.state t
    → TenantFollows w (step env c w).0 t
unfolding step update_usage add_payment_method reactivate
tenant_step-Follows env (updates_tenant n d) w t h = update_tenant-Follows env w t h n d
tenant_step-Follows env (changes_plan p m) w t h = change_plan-Follows env w t h p m
tenant_step-Follows env (updates_usage u) w t h = Follows.unchanged (ground arith) (ground arith)
tenant_step-Follows env (adds_payment_method m) w t h =
    Follows.unchanged (ground arith) (ground arith)
tenant_step-Follows env (suspends r) w t h = suspend-Follows env w t h r
tenant_step-Follows env reactivates w t h = Follows.unchanged (ground arith) (ground arith)
