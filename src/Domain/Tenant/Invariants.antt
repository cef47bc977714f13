-- ===== src/Domain/Tenant/Invariants.antt =====
-- What every tenant keeps over any calls (domain/tenant/aggregate.go).
use pyairtable_go_services.Prelude.{
  ℕ, suc, ◌≡◌, ltb_ℤ, String, true, false, not, ◌&&◌, refl, sym, ap, ◌∙◌, subst, inl, inr, List, [],
  ◌∷◌, ◌++◌, map, none, str_eq, arith, if◌then◌else◌, Bool-cases,
}
use pyairtable_go_services.Domain.Shared.Types.{Env, Email}
use pyairtable_go_services.Domain.Tenant.Types.{
  TenantAggregate, TenantState, TenantUsage, PaymentMethod, tenant_status_active, plan_free,
  get_plan_limits, get_monthly_price,
}
use pyairtable_go_services.Domain.Tenant.Creation.{created_tenant}
use pyairtable_go_services.Domain.Tenant.Plans.{
  update_tenant, change_plan, update_usage, add_payment_method, add_method, not_default, suspend,
  reactivate, check_quotas, violation,
}
use pyairtable_go_services.Domain.Tenant.Commands.{
  Command, updates_tenant, changes_plan, updates_usage, adds_payment_method, suspends, reactivates,
  step, run,
}

abbrev pub count_default : List PaymentMethod → ℕ
count_default [] = 0
count_default (m ∷ ms) = let rest = count_default ms in if m.is_default then suc rest else rest

count-cleared :
    (ms : List PaymentMethod) (m : PaymentMethod)
    → count_default (map not_default ms ++ record m { is_default = true } ∷ []) ≡ 1
count-cleared [] m = refl
count-cleared (x ∷ ms) m = count-cleared ms m

count-behind :
    (ms : List PaymentMethod) (m : PaymentMethod)
    → m.is_default ≡ false
    → count_default (ms ++ m ∷ []) ≡ count_default ms
count-behind [] m h = ground arith
count-behind (x ∷ ms) m h = ground (arith, count-behind ms m h)

-- No method, or exactly one default
abbrev pub OneDefault : List PaymentMethod → Type 0
OneDefault [] = Unit
OneDefault (m ∷ ms) = count_default (m ∷ ms) ≡ 1

one-OneDefault : (ms : List PaymentMethod) → count_default ms ≡ 1 → OneDefault ms
one-OneDefault [] h = tt
one-OneDefault (m ∷ ms) h = h

add_method-OneDefault :
    (m : PaymentMethod) (ms : List PaymentMethod) → OneDefault ms → OneDefault (add_method m ms)
unfolding add_method
add_method-OneDefault m [] h = refl
add_method-OneDefault m (x ∷ ms) h =
    one-OneDefault (add_method m (x ∷ ms)) (elim (Bool-cases m.is_default) [
      | inl e ↦ ground (arith, e, count-cleared (x ∷ ms) m)
      | inr e ↦ ground (arith, e, h, count-behind (x ∷ ms) m e)
    ])

-- What plan and limits have to do with each other, and a paid plan with its price and the trial
pub record IsBilled (t : TenantState) : Type 0 where
  pub quotas : t.quotas ≡ get_plan_limits t.subscription.plan
  pub price :
      str_eq t.subscription.plan plan_free ≡ false
      → t.subscription.current_period.amount ≡ get_monthly_price t.subscription.plan
  pub trial : str_eq t.subscription.plan plan_free ≡ false → t.subscription.trial_ends_at ≡ none
  pub methods : OneDefault t.billing.payment_methods

same-IsBilled :
    (s t : TenantState)
    → t.quotas ≡ s.quotas
    → t.subscription ≡ s.subscription
    → t.billing ≡ s.billing
    → IsBilled s
    → IsBilled t
same-IsBilled s t q u b h = record {
  quotas = q ∙ h.quotas ∙ ap (λ x. get_plan_limits x.plan) (sym u);
  price =
      subst
        (λ x. str_eq x.plan plan_free ≡ false → x.current_period.amount ≡ get_monthly_price x.plan)
        (sym u) h.price;
  trial = subst (λ x. str_eq x.plan plan_free ≡ false → x.trial_ends_at ≡ none) (sym u) h.trial;
  methods = subst (λ x. OneDefault x.payment_methods) (sym b) h.methods;
}

module _ (env : Env) (t : TenantAggregate) (h : IsBilled t.state) where
  update_tenant-IsBilled : (n d : String) → IsBilled (update_tenant env n d t).0.state
  unfolding update_tenant
  update_tenant-IsBilled n d =
      same-IsBilled t.state _ (ground arith) (ground arith) (ground arith) h

  update_usage-IsBilled : (u : TenantUsage) → IsBilled (update_usage env u t).0.state
  unfolding update_usage
  update_usage-IsBilled u = same-IsBilled t.state _ (ground arith) (ground arith) (ground arith) h

  suspend-IsBilled : (r : String) → IsBilled (suspend env r t).0.state
  unfolding suspend
  suspend-IsBilled r = same-IsBilled t.state _ (ground arith) (ground arith) (ground arith) h

  reactivate-IsBilled : IsBilled (reactivate env t).0.state
  unfolding reactivate
  reactivate-IsBilled = same-IsBilled t.state _ (ground arith) (ground arith) (ground arith) h

  add_payment_method-IsBilled : (m : PaymentMethod) → IsBilled (add_payment_method env m t).0.state
  unfolding add_payment_method
  add_payment_method-IsBilled m = elim (Bool-cases (str_eq t.state.status tenant_status_active)) [
    | inr a ↦ rw a h
    | inl a ↦ rw a (record {
      quotas = h.quotas;
      price = h.price;
      trial = h.trial;
      methods = add_method-OneDefault m t.state.billing.payment_methods h.methods;
    })
  ]

  change_plan-IsBilled : (p m : String) → IsBilled (change_plan env p m t).0.state
  unfolding change_plan
  change_plan-IsBilled p m = elim (Bool-cases (str_eq t.state.status tenant_status_active)) [
    | inr a ↦ rw a h
    | inl a ↦ rw a (elim (Bool-cases (str_eq t.state.subscription.plan p)) [
      | inl b ↦ rw b h
      | inr b ↦ rw b (elim (Bool-cases (not (str_eq p plan_free) && str_eq m "")) [
        | inl c ↦ rw c h
        | inr c ↦ rw c (elim (Bool-cases (str_eq p plan_free)) [
          | inl free ↦ rw free (record {
            quotas = refl;
            price = λ paid. cc (paid, free);
            trial = λ paid. cc (paid, free);
            methods = h.methods;
          })
          | inr paid ↦
              rw paid (record {
                quotas = refl;
                price = λ _. refl;
                trial = λ _. refl;
                methods = h.methods;
              })
        ])
      ])
    ])
  ]

step-IsBilled :
    (env : Env) (c : Command) (t : TenantAggregate)
    → IsBilled t.state
    → IsBilled (step env c t).0.state
unfolding step
step-IsBilled env (updates_tenant n d) t h = update_tenant-IsBilled env t h n d
step-IsBilled env (changes_plan p m) t h = change_plan-IsBilled env t h p m
step-IsBilled env (updates_usage u) t h = update_usage-IsBilled env t h u
step-IsBilled env (adds_payment_method m) t h = add_payment_method-IsBilled env t h m
step-IsBilled env (suspends r) t h = suspend-IsBilled env t h r
step-IsBilled env reactivates t h = reactivate-IsBilled env t h

run-IsBilled :
    (cs : List (Env × Command)) (t : TenantAggregate) → IsBilled t.state → IsBilled (run cs t).state
unfolding run
run-IsBilled [] t h = h
run-IsBilled ((env, c) ∷ cs) t h = run-IsBilled cs (step env c t).0 (step-IsBilled env c t h)

-- After any run of calls on a new tenant, failing ones included, its quotas are those of its plan; on
-- a plan other than the free one it is billed the plan's monthly price and has no trial; and exactly
-- one of its payment methods is the default, if there are any.
pub tenant_run-IsBilled :
    (env : Env) (id name slug domain : String) (owner : Email) (cs : List (Env × Command))
    → IsBilled (run cs (created_tenant env id name slug domain owner)).state
unfolding created_tenant
tenant_run-IsBilled env id name slug domain owner cs =
    run-IsBilled cs (created_tenant env id name slug domain owner)
      (record { quotas = refl; price = λ paid. cc paid; trial = λ paid. cc paid; methods = tt })

-- Where UpdateUsage accepts a usage, CheckQuotas then finds no violation but, since UpdateUsage does
-- not look at them, that of the calls of the API.
pub update_usage-check_quotas :
    (env : Env) (usage : TenantUsage) (t : TenantAggregate)
    → (update_usage env usage t).1 ≡ none
    → check_quotas (update_usage env usage t).0.state
      ≡ violation
          (ltb_ℤ t.state.quotas.max_api_calls_per_month usage.current_api_calls_this_month)
          "API quota exceeded"
unfolding update_usage check_quotas
update_usage-check_quotas env usage t h = ground arith
