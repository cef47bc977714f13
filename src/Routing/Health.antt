-- ===== src/Routing/Health.antt =====
-- What the registry (api-gateway/internal/routing/service_registry.go) holds as healthy after a round
-- of checks and after a registration that is taken back, and which instance the least-connections and
-- the latency balancer of load_balancer.go take.
use pyairtable_go_services.Prelude.{
  ◌≡◌, refl, sym, ◌∙◌, ap, subst, inl, inr, String, Bool, true, false, ◌&&◌, ◌||◌, List, [], ◌∷◌,
  none, some, pos, negsuc, ◌≤ℤ◌, ltb_ℤ, eqb_ℤ, arith, All, filter, member, leb, ltb, ◌==◌, ==_iff,
  if◌then◌else◌, Bool-cases,
}
use pyairtable_go_services.Routing.{
  Ref, Heap, ServiceInstance, Services, modify, is_healthy, instances_of, get_healthy_instances,
  CheckAnswer, no_request, no_response, status, check_instance_health, perform_health_checks,
}
use pyairtable_go_services.Routing.Balancers.{
  chosen, is_nil, pointer, fewest_connections, select_least_connections, lower_latency,
  lowest_latency, select_latency,
}

-- An answer with a status of success.
abbrev pub is_well : CheckAnswer → Bool
is_well (status duration now code) = leb 200 code && ltb code 300
is_well other = false

check_lem :
    (answer : CheckAnswer) (s : ServiceInstance)
    → is_healthy (check_instance_health answer s) ≡ is_well answer
unfolding check_instance_health
check_lem no_request s = refl
check_lem (no_response duration now) s = refl
check_lem (status duration now code) s = elim (Bool-cases (leb 200 code && ltb code 300)) [
  | inl e ↦ rw e refl
  | inr e ↦ rw e refl
]

checked_lem :
    (answers : Ref → CheckAnswer) (refs : List Ref) (heap : Heap) (r : Ref)
    → is_healthy (perform_health_checks answers refs heap r)
      ≡ (if member r refs then is_well (answers r) else is_healthy (heap r))
unfolding perform_health_checks
checked_lem answers [] heap r = refl
checked_lem answers (x ∷ refs) heap r =
    let rest = checked_lem answers refs (modify x (check_instance_health (answers x)) heap) r in
    rest ∙ elim (Bool-cases (member r refs)) [
      | inl e ↦ elim (Bool-cases (x == r)) [ inl f ↦ rw (e, f) refl | inr f ↦ rw (e, f) refl ]
      | inr e ↦ elim (Bool-cases (x == r)) [
        | inl f ↦
            rw (e, f)
              (check_lem (answers x) (heap r) ∙ ap (λ q. is_well (answers q)) ((==_iff x r).0 f))
        | inr f ↦ rw (e, f) refl
      ]
    ]

filter-eq :
    (p q : Ref → Bool) (refs : List Ref)
    → ((r : Ref) → member r refs ≡ true → p r ≡ q r)
    → filter p refs ≡ filter q refs
filter-eq p q [] h = refl
filter-eq p q (r ∷ refs) h =
    let rest = filter-eq p q refs (λ x m. h x (ground arith)) in
    let same : p r ≡ q r = h r (ground arith) in rw (same, rest) refl

-- After a round of checks over all registered instances, the instances of a service that are given to
-- the balancer are exactly those whose check was answered with a status from 200 to 299.
pub get_healthy_instances-perform_health_checks :
    (answers : Ref → CheckAnswer) (all : List Ref) (heap : Heap) (name : String)
    (services : Services)
    → ((r : Ref) → member r (instances_of name services) ≡ true → member r all ≡ true)
    → get_healthy_instances (perform_health_checks answers all heap) name services
      ≡ filter (λ r. is_well (answers r)) (instances_of name services)
unfolding get_healthy_instances
get_healthy_instances-perform_health_checks answers all heap name services covered =
    filter-eq (λ r. is_healthy (perform_health_checks answers all heap r))
      (λ r. is_well (answers r)) (instances_of name services)
      (λ r m. checked_lem answers all heap r ∙ rw (covered r m) refl)

module _ (heap : Heap) where
  fewest_lem :
      (rest : List Ref) (s : Ref)
      → (r : Ref) × (fewest_connections heap rest (some s, (heap s).request_count)
          ≡ (some r, (heap r).request_count))
        × ((heap r).request_count ≤ℤ (heap s).request_count)
        × All (λ x. (heap r).request_count ≤ℤ (heap x).request_count) rest
  unfolding fewest_connections
  fewest_lem [] s = (s, refl, omega arith, tt)
  fewest_lem (x ∷ rest) s =
      elim (Bool-cases (ltb_ℤ (heap x).request_count (heap s).request_count)) [
        | inl e ↦
            let (r, found, below, all) = fewest_lem rest x in
            (r, rw e found, ground (arith, below), (below, all))
        | inr e ↦
            let (r, found, below, all) = fewest_lem rest s in
            (r, rw e found, below, (ground (arith, below), all))
      ]

  -- The least-connections balancer takes an instance that has served no more requests than any other.
  select_least_connections-le :
      (first : Ref) (rest : List Ref)
      → (r : Ref) × (select_least_connections heap (first ∷ rest) ≡ chosen r)
        × All (λ x. (heap r).request_count ≤ℤ (heap x).request_count) (first ∷ rest)
  unfolding select_least_connections fewest_connections
  select_least_connections-le first rest =
      let (r, found, below, all) = fewest_lem rest first in (r, rw found refl, (below, all))

  unmeasured_kept :
      (rest : List Ref) (s : Ref) → lowest_latency heap rest (some s, pos 0) ≡ (some s, pos 0)
  unfolding lowest_latency
  unmeasured_kept [] s = refl
  unmeasured_kept (x ∷ rest) s =
      let kept : lower_latency heap x (some s, pos 0) ≡ (some s, pos 0) = ground arith in
      rw kept (unmeasured_kept rest s)

  -- Where no response time of the first instance is known yet, the latency balancer takes it, however
  -- low the response times of the others are.
  pub select_latency_unmeasured :
      (first : Ref) (rest : List Ref)
      → (heap first).response_time ≡ pos 0
      → select_latency heap (first ∷ rest) ≡ chosen first
  unfolding select_latency lowest_latency
  select_latency_unmeasured first rest h =
      let ends : lowest_latency heap (first ∷ rest) (none, negsuc 0) ≡ (some first, pos 0) =
        subst (λ l. lowest_latency heap rest (some first, l) ≡ (some first, pos 0)) (sym h)
          (unmeasured_kept rest first) in
      subst
        (λ best.
          (if is_nil best.0 || eqb_ℤ best.1 (negsuc 0) then chosen first else pointer best.0)
          ≡ chosen first)
        (sym ends) refl
