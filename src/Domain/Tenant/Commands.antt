-- ===== src/Domain/Tenant/Commands.antt =====
-- The calls that change a tenant aggregate (domain/tenant/aggregate.go), as values, and runs of them.
use pyairtable_go_services.Prelude.{
  ℕ, String, ◌≡◌, refl, inl, inr, List, [], ◌∷◌, Option, some, str_eq, arith, not, ◌&&◌, Bool-cases,
}
use pyairtable_go_services.Domain.Shared.Error.{Error}
use pyairtable_go_services.Domain.Shared.Types.{Env}
use pyairtable_go_services.Domain.Shared.Stamps.{IsStamped, Raises, quiet, raised, Raises-IsStamped}
use pyairtable_go_services.Domain.Tenant.Types.{
  TenantAggregate, TenantUsage, PaymentMethod, tenant_status_active, tenant_status_suspended,
  plan_free,
}
use pyairtable_go_services.Domain.Tenant.Plans.{
  update_tenant, change_plan, update_usage, add_payment_method, suspend, reactivate, tenant_changes,
}

pub data Command : Type 0 where
  updates_tenant : (name domain : String) → Command
  changes_plan : (new_plan payment_method_id : String) → Command
  updates_usage : (usage : TenantUsage) → Command
  adds_payment_method : (method : PaymentMethod) → Command
  suspends : (reason : String) → Command
  reactivates : Command

unfoldable pub step : Env → Command → TenantAggregate → TenantAggregate × Option Error
step env (updates_tenant n d) t = update_tenant env n d t
step env (changes_plan p m) t = change_plan env p m t
step env (updates_usage u) t = update_usage env u t
step env (adds_payment_method m) t = add_payment_method env m t
step env (suspends r) t = suspend env r t
step env reactivates t = reactivate env t

unfoldable pub run : List (Env × Command) → TenantAggregate → TenantAggregate
run [] t = t
run ((env, c) ∷ cs) t = run cs (step env c t).0

-- A call on a tenant that returns an error leaves the aggregate, its root and its events included, as
-- they were.
tenant_error_unchanged :
    (env : Env) (c : Command) (t : TenantAggregate) {e : Error}
    → (step env c t).1 ≡ some e
    → (step env c t).0 ≡ t
unfolding step update_tenant change_plan update_usage add_payment_method suspend reactivate
tenant_error_unchanged env (updates_tenant n d) t h = ground arith
tenant_error_unchanged env _ t h = ground arith

update_tenant-Raises :
    (env : Env) (n d : String) (t : TenantAggregate)
    → Raises t.base (update_tenant env n d t).0.base
unfolding update_tenant
update_tenant-Raises env n d t = elim (Bool-cases (str_eq t.state.status tenant_status_active)) [
  | inr a ↦ rw a (quiet refl)
  | inl a ↦ rw a (elim (Bool-cases (tenant_changes n d t.state)) [
    | inl b ↦ rw b (raised _ _ _ _ _ refl)
    | inr b ↦ rw b (quiet refl)
  ])
]

change_plan-Raises :
    (env : Env) (p m : String) (t : TenantAggregate) → Raises t.base (change_plan env p m t).0.base
unfolding change_plan
change_plan-Raises env p m t = elim (Bool-cases (str_eq t.state.status tenant_status_active)) [
  | inr a ↦ rw a (quiet refl)
  | inl a ↦ rw a (elim (Bool-cases (str_eq t.state.subscription.plan p)) [
    | inl b ↦ rw b (quiet refl)
    | inr b ↦ rw b (elim (Bool-cases (not (str_eq p plan_free) && str_eq m "")) [
      | inl c ↦ rw c (quiet refl)
      | inr c ↦ rw c (raised _ _ _ _ _ refl)
    ])
  ])
]

suspend-Raises :
    (env : Env) (r : String) (t : TenantAggregate) → Raises t.base (suspend env r t).0.base
unfolding suspend
suspend-Raises env r t = elim (Bool-cases (str_eq t.state.status tenant_status_suspended)) [
  | inl a ↦ rw a (quiet refl)
  | inr a ↦ rw a (raised _ _ _ _ _ refl)
]

tenant_step-Raises :
    (env : Env) (c : Command) (t : TenantAggregate) → Raises t.base (step env c t).0.base
unfolding step update_usage add_payment_method reactivate
tenant_step-Raises env (updates_tenant n d) t = update_tenant-Raises env n d t
tenant_step-Raises env (changes_plan p m) t = change_plan-Raises env p m t
tenant_step-Raises env (updates_usage u) t = quiet (ground arith)
tenant_step-Raises env (adds_payment_method m) t = quiet (ground arith)
tenant_step-Raises env (suspends r) t = suspend-Raises env r t
tenant_step-Raises env reactivates t = quiet (ground arith)

-- Through any run of calls on a tenant, failing ones included, the events not yet saved carry
-- consecutive versions that end at the aggregate's own, with its identifier.
pub tenant_run-IsStamped :
    (saved : ℕ) (cs : List (Env × Command)) (t : TenantAggregate)
    → IsStamped saved t.base
    → IsStamped saved (run cs t).base
unfolding run
tenant_run-IsStamped saved [] t s = s
tenant_run-IsStamped saved ((env, c) ∷ cs) t s =
    tenant_run-IsStamped saved cs (step env c t).0
      (Raises-IsStamped saved t.base (step env c t).0.base (tenant_step-Raises env c t) s)
