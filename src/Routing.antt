-- ===== src/Routing.antt =====
-- api-gateway/internal/routing/service_registry.go: service instances, their counters, and the
-- registry of services. An instance is shared by pointer: the heap maps the address to its fields.
-- The interleaving of the atomic accesses is that of the calls; logging is left out.
pub mod Balancers
pub mod RoundRobin
pub mod Argmax
pub mod Weighted
pub mod Balance
pub mod Shares
pub mod Loops
pub mod Scores
pub mod Contract
pub mod Health
pub mod Registry
pub mod Sessions
pub mod Engine
pub mod Retries
pub mod Selection
pub mod Sticky
use pyairtable_go_services.Prelude.{
  ℕ, ◌+◌, ◌/◌, String, Bool, true, false, ◌&&◌, List, [], ◌∷◌, ◌++◌, Option, none, some, ℤ, pos,
  ◌+ℤ◌, Dict, lookup, insert, erase, filter, str_eq, leb, ltb, ◌==◌, if◌then◌else◌,
}

-- The times and durations are in nanoseconds.
pub record ServiceInstance : Type 0 where
  pub id : String
  pub name : String
  pub url : String
  pub weight : ℤ
  pub healthy : ℕ
  pub last_check : ℕ
  pub response_time : ℤ
  pub request_count : ℤ
  pub error_count : ℤ
  pub health_check_url : String
  pub timeout : ℕ
  pub retry_count : ℤ
  pub retry_delay : ℕ

-- `*ServiceInstance`
abbrev pub Ref : Type 0
Ref = ℕ

abbrev pub Heap : Type 0
Heap = Ref → ServiceInstance

abbrev pub modify : Ref → (ServiceInstance → ServiceInstance) → Heap → Heap
modify r f heap q = if r == q then f (heap q) else heap q

abbrev pub is_healthy : ServiceInstance → Bool
is_healthy s = s.healthy == 1

abbrev pub set_healthy : Bool → ServiceInstance → ServiceInstance
set_healthy healthy s = if healthy then record s { healthy = 1 } else record s { healthy = 0 }

abbrev pub increment_requests : ServiceInstance → ServiceInstance
increment_requests s = record s { request_count = s.request_count +ℤ pos 1 }

abbrev pub increment_errors : ServiceInstance → ServiceInstance
increment_errors s = record s { error_count = s.error_count +ℤ pos 1 }

abbrev pub update_response_time : ℕ → ServiceInstance → ServiceInstance
update_response_time duration s = record s { response_time = pos (duration / 1000000) }

-- ServiceRegistry.services; a list that is missing is nil.
abbrev pub Services : Type 0
Services = Dict (List Ref)

abbrev pub instances_of : String → Services → List Ref
instances_of name services = elim (lookup name services) [ none ↦ [] | some refs ↦ refs ]

abbrev pub ensure_service : String → Services → Services
ensure_service name services = elim (lookup name services) [
  | none ↦ insert name [] services
  | some _ ↦ services
]

unfoldable pub register_service : String → Ref → Services → Services
register_service name r services =
    let known : Services = ensure_service name services in
    insert name (instances_of name known ++ r ∷ []) known

-- The loop of UnregisterService ends at the first instance with the identifier.
unfoldable pub without_first : Heap → String → List Ref → List Ref
without_first heap instance_id [] = []
without_first heap instance_id (r ∷ refs) =
    if str_eq (heap r).id instance_id then refs else r ∷ without_first heap instance_id refs

-- A service with no instance left is removed.
abbrev pub store_instances : String → List Ref → Services → Services
store_instances name [] services = erase name services
store_instances name (r ∷ refs) services = insert name (r ∷ refs) services

unfoldable pub unregister_service : Heap → String → String → Services → Services
unregister_service heap name instance_id services = elim (lookup name services) [
  | none ↦ services
  | some refs ↦ store_instances name (without_first heap instance_id refs) services
]

unfoldable pub get_healthy_instances : Heap → String → Services → List Ref
get_healthy_instances heap name services =
    filter (λ r. is_healthy (heap r)) (instances_of name services)

abbrev pub get_all_instances : String → Services → List Ref
get_all_instances name services = instances_of name services

-- How one health check ends: no request could be made, none was answered, or with a status. The
-- time that it took, and the time at its end.
pub data CheckAnswer : Type 0 where
  no_request : CheckAnswer
  no_response : ℕ → ℕ → CheckAnswer
  status : ℕ → ℕ → ℕ → CheckAnswer

abbrev pub checked : ℕ → ℕ → ServiceInstance → ServiceInstance
checked duration now s = update_response_time duration (record s { last_check = now })

unfoldable pub check_instance_health : CheckAnswer → ServiceInstance → ServiceInstance
check_instance_health no_request s = increment_errors (set_healthy false s)
check_instance_health (no_response duration now) s =
    increment_errors (set_healthy false (checked duration now s))
check_instance_health (status duration now code) s =
    let healthy = leb 200 code && ltb code 300 in
    let s' = set_healthy healthy (checked duration now s) in
    if healthy then s' else increment_errors s'

-- performHealthChecks asks every instance of the list once; `answers` gives what each is told.
unfoldable pub perform_health_checks : (Ref → CheckAnswer) → List Ref → Heap → Heap
perform_health_checks answers [] heap = heap
perform_health_checks answers (r ∷ refs) heap =
    perform_health_checks answers refs (modify r (check_instance_health (answers r)) heap)
