-- ===== src/Routing/Selection.antt =====
-- What selectServiceInstance (api-gateway/internal/routing/engine.go) gives, from the registry, the
-- balancer and the sticky sessions together; and what a first request leaves.
use pyairtable_go_services.Prelude.{
  ℕ, ◌<◌, ◌≡◌, ◌⊎◌, refl, subst, inl, inr, String, Bool, true, false, List, [], ◌∷◌, Option, none,
  some, arith, filter, member, str_eq, ◌==◌, ==_iff, Bool-cases, if◌then◌else◌,
}
use pyairtable_go_services.Routing.{Ref, Heap, is_healthy, instances_of, get_healthy_instances}
use pyairtable_go_services.Routing.Balancers.{Floats, Selected, chosen, no_healthy_instances}
use pyairtable_go_services.Routing.Contract.{select_instance-Answers}
use pyairtable_go_services.Routing.Sessions.{Sessions, get_instance, set_instance, remove_session}
use pyairtable_go_services.Routing.Engine.{
  Engine, if_healthy, sticky_instance, bind_session, select_from, select_balanced,
  bound_or_balanced, select_with, select_service_instance,
}

member-filter :
    (p : Ref → Bool) (refs : List Ref) (r : Ref) → member r (filter p refs) ≡ true → p r ≡ true
member-filter p [] r m = absurd (cc)
member-filter p (x ∷ refs) r m = elim (Bool-cases (p x)) [
  | inl e ↦
      let m' = rw e at m in
      elim (Bool-cases (x == r)) [
        | inl same ↦ subst (λ y. p y ≡ true) ((==_iff x r).0 same) e
        | inr other ↦ member-filter p refs r (ground (arith, m'))
      ]
  | inr e ↦ member-filter p refs r (rw e at m)
]

-- The instance that the session is bound to for the service, where it is bound to one.
abbrev pub session_instance : ℕ → String → String → Option Sessions → Option Ref
session_instance now session_id service_name none = none
session_instance now session_id service_name (some sessions) =
    if str_eq session_id "" then none else (get_instance now session_id service_name sessions).0

-- The error, where no instance of the service is healthy; and otherwise a healthy instance, which is
-- the bound one or one of the service.
abbrev pub Serves : Heap → List Ref → Option Ref → Selected → Type 0
Serves heap healthy bound result =
    ((result ≡ no_healthy_instances) × (healthy ≡ []))
    ⊎ ((r : Ref) × (result ≡ chosen r)
        × (is_healthy (heap r) ≡ true)
        × ((bound ≡ some r) ⊎ (member r healthy ≡ true)))

module _ (floats : Floats) (intn : ℕ → ℕ) (intn_below : (k : ℕ) → 0 < k → intn k < k) where
  select_from-Serves :
      (now : ℕ) (session_id service_name : String) (e : Engine) (refs : List Ref)
      (sticky : Option Sessions) (bound : Option Ref)
      → ((r : Ref) → member r refs ≡ true → is_healthy (e.heap r) ≡ true)
      → Serves e.heap refs bound
          (select_from floats intn now session_id service_name refs sticky e).0
  unfolding select_from
  select_from-Serves now session_id service_name e [] sticky bound h = inl (refl, refl)
  select_from-Serves now session_id service_name e (r ∷ rest) none bound h =
      let (q, result, m) =
        select_instance-Answers floats intn intn_below e.heap (r ∷ rest) e.balancer in
      inr (q, result, h q m, inr m)
  select_from-Serves now session_id service_name e (r ∷ rest) (some sessions) bound h =
      let (q, result, m) =
        select_instance-Answers floats intn intn_below e.heap (r ∷ rest) e.balancer in
      inr (q, result, h q m, inr m)

  select_balanced-Serves :
      (now : ℕ) (session_id service_name : String) (e : Engine) (bound : Option Ref)
      → Serves e.heap
          (get_healthy_instances e.heap service_name e.services)
          bound
          (select_balanced floats intn now session_id service_name e).0
  unfolding select_balanced get_healthy_instances
  select_balanced-Serves now session_id service_name e bound =
      select_from-Serves now session_id service_name e
        (filter (λ r. is_healthy (e.heap r)) (instances_of service_name e.services)) e.sticky bound
        (member-filter (λ r. is_healthy (e.heap r)) (instances_of service_name e.services))

  -- A binding is used only where its instance is healthy.
  bound_or_balanced-Serves :
      (now : ℕ) (session_id service_name : String) (e : Engine) (found : Option Ref × Sessions)
      → Serves e.heap
          (get_healthy_instances e.heap service_name e.services)
          found.0
          (bound_or_balanced floats intn now session_id service_name
            (if_healthy e.heap session_id service_name found)
            e).0
  unfolding bound_or_balanced
  bound_or_balanced-Serves now session_id service_name e (none, sessions) =
      select_balanced-Serves now session_id service_name (record e { sticky = some sessions }) none
  bound_or_balanced-Serves now session_id service_name e (some r, sessions) =
      elim (Bool-cases (is_healthy (e.heap r))) [
        | inl healthy ↦ rw healthy (inr (r, refl, healthy, inl refl))
        | inr unhealthy ↦ rw unhealthy (
            select_balanced-Serves now session_id service_name
              (record e { sticky = some (remove_session session_id service_name sessions) })
              (some r))
      ]

  select_with-Serves :
      (now : ℕ) (session_id service_name : String) (e : Engine) (sticky : Option Sessions)
      → Serves e.heap
          (get_healthy_instances e.heap service_name e.services)
          (session_instance now session_id service_name sticky)
          (select_with floats intn now session_id service_name sticky e).0
  unfolding select_with sticky_instance
  select_with-Serves now session_id service_name e none =
      select_balanced-Serves now session_id service_name e none
  select_with-Serves now session_id service_name e (some sessions) =
      elim (Bool-cases (str_eq session_id "")) [
        | inl anonymous ↦ rw anonymous (select_balanced-Serves now session_id service_name e none)
        | inr named ↦ rw named (
            bound_or_balanced-Serves now session_id service_name e
              (get_instance now session_id service_name sessions))
      ]

  -- Every choice of an instance ends with a healthy one, which is the one that the session is bound to
  -- for the service or one of the service's instances, or with the error that there is none, and then
  -- no instance of the service is healthy. It neither panics nor gives nil. rand.Intn(k) is below k.
  pub select_service_instance-Serves :
      (now : ℕ) (session_id service_name : String) (e : Engine)
      → Serves e.heap
          (get_healthy_instances e.heap service_name e.services)
          (session_instance now session_id service_name e.sticky)
          (select_service_instance floats intn now session_id service_name e).0
  unfolding select_service_instance
  select_service_instance-Serves now session_id service_name e =
      select_with-Serves now session_id service_name e e.sticky

module _ (floats : Floats) (intn : ℕ → ℕ) (now : ℕ) (session_id service_name : String) where
  select_from_binds :
      (refs : List Ref) (sessions : Sessions) (e : Engine) (r : Ref)
      → str_eq session_id "" ≡ false
      → (select_from floats intn now session_id service_name refs (some sessions) e).0 ≡ chosen r
      → (select_from floats intn now session_id service_name refs (some sessions) e).1.sticky
        ≡ some (set_instance now session_id service_name r sessions)
  unfolding select_from
  select_from_binds [] sessions e r named first = absurd (cc)
  select_from_binds (q ∷ rest) sessions e r named first = rw (first, bind_session, named) refl

  -- A first request leaves a binding to what it was given.
  pub first_binds :
      (e : Engine) (found : Option Ref × Sessions) (r : Ref)
      → str_eq session_id "" ≡ false
      → found.0 ≡ none
      → (bound_or_balanced floats intn now session_id service_name
          (if_healthy e.heap session_id service_name found)
          e).0
        ≡ chosen r
      → (bound_or_balanced floats intn now session_id service_name
          (if_healthy e.heap session_id service_name found)
          e).1.sticky
        ≡ some (set_instance now session_id service_name r found.1)
  unfolding bound_or_balanced select_balanced
  first_binds e (none, sessions) r named unbound first =
      select_from_binds (get_healthy_instances e.heap service_name e.services) sessions
        (record e { sticky = some sessions }) r named first
  first_binds e (some q, sessions) r named unbound first = absurd (cc)
