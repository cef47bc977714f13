-- ===== src/Routing/Engine.antt =====
-- api-gateway/internal/routing/engine.go: the choice of an instance and the attempts of a request.
-- What the backend answers to each attempt is a parameter, as is what the circuit breakers of
-- sony/gobreaker let through. Headers and bodies are left out; the identifier of a session comes
-- with the request.
use pyairtable_go_services.Prelude.{
  ℕ, suc, zero, String, Bool, false, ◌&&◌, List, [], ◌∷◌, Option, none, some, ℤ, pos, negsuc,
  str_eq, leb, ltb, if◌then◌else◌,
}
use pyairtable_go_services.Routing.{
  Ref, Heap, ServiceInstance, Services, modify, is_healthy, increment_requests, increment_errors,
  update_response_time, get_healthy_instances,
}
use pyairtable_go_services.Routing.Balancers.{
  Floats, LoadBalancer, Selected, chosen, no_healthy_instances, nil, index_out_of_range,
  select_instance, new_load_balancer,
}
use pyairtable_go_services.Routing.Sessions.{Sessions, get_instance, set_instance, remove_session}

-- `sticky` is none where the sticky sessions are off.
pub record Engine : Type 0 where
  pub heap : Heap
  pub services : Services
  pub balancer : LoadBalancer
  pub sticky : Option Sessions

-- NewEngine fails where the algorithm is unknown.
unfoldable pub new_engine : String → Bool → Heap → Services → Option Engine
new_engine algorithm sticky_session heap services = elim (new_load_balancer algorithm) [
  | none ↦ none
  | some balancer ↦ some (record {
    heap = heap;
    services = services;
    balancer = balancer;
    sticky = if sticky_session then some [] else none;
  })
]

-- The header X-Session-ID, and else the cookie.
abbrev pub extract_session_id : String → String → String
extract_session_id header cookie = if str_eq header "" then cookie else header

-- What becomes of the binding that was found: an unhealthy instance is unbound.
abbrev pub if_healthy : Heap → String → String → Option Ref × Sessions → Option Ref × Sessions
if_healthy heap session_id service_name (none, sessions) = (none, sessions)
if_healthy heap session_id service_name (some r, sessions) =
    if is_healthy (heap r)
    then (some r, sessions)
    else (none, remove_session session_id service_name sessions)

unfoldable pub sticky_instance : ℕ → Heap → String → String → Sessions → Option Ref × Sessions
sticky_instance now heap session_id service_name sessions =
    if_healthy heap session_id service_name (get_instance now session_id service_name sessions)

module _ (floats : Floats) (intn : ℕ → ℕ) (now : ℕ) (session_id service_name : String) where
  abbrev pub bind_session : Selected → Sessions → Sessions
  bind_session (chosen r) sessions =
      if str_eq session_id "" then sessions else set_instance now session_id service_name r sessions
  bind_session failed sessions = sessions

  -- What is done with the healthy instances: one is taken, and bound to the session.
  unfoldable pub select_from : List Ref → Option Sessions → Engine → Selected × Engine
  select_from [] sticky e = (no_healthy_instances, e)
  select_from (r ∷ rest) none e =
      let (result, balancer) = select_instance floats intn e.heap (r ∷ rest) e.balancer in
      (result, record e { balancer = balancer })
  select_from (r ∷ rest) (some sessions) e =
      let (result, balancer) = select_instance floats intn e.heap (r ∷ rest) e.balancer in
      (result, record e { balancer = balancer; sticky = some (bind_session result sessions) })

  unfoldable pub select_balanced : Engine → Selected × Engine
  unfolding select_from
  select_balanced e = select_from (get_healthy_instances e.heap service_name e.services) e.sticky e

  -- The bound instance, and else one from the balancer.
  unfoldable pub bound_or_balanced : Option Ref × Sessions → Engine → Selected × Engine
  unfolding select_balanced
  bound_or_balanced (some r, sessions) e = (chosen r, record e { sticky = some sessions })
  bound_or_balanced (none, sessions) e = select_balanced (record e { sticky = some sessions })

  unfoldable pub select_with : Option Sessions → Engine → Selected × Engine
  unfolding select_balanced bound_or_balanced sticky_instance
  select_with none e = select_balanced e
  select_with (some sessions) e =
      if str_eq session_id ""
      then select_balanced e
      else bound_or_balanced (sticky_instance now e.heap session_id service_name sessions) e

  unfoldable pub select_service_instance : Engine → Selected × Engine
  unfolding select_with
  select_service_instance e = select_with e.sticky e

-- An error with the status code of *fiber.Error, or another one.
pub data RouteError : Type 0 where
  fiber_error : ℕ → RouteError
  other_error : RouteError

-- What can fail when a response is copied: reading the body of a JSON response, or streaming another.
pub data CopyError : Type 0 where
  read_failed stream_failed : CopyError

abbrev pub copy_result : Option CopyError → Option RouteError
copy_result none = none
copy_result (some read_failed) = some (fiber_error 500)
copy_result (some stream_failed) = some other_error

-- How one call of performRequest goes: no request could be created; there was no answer; or there was
-- one, with the failure of copying it, if any. Durations are in nanoseconds.
pub data Attempt : Type 0 where
  not_created : Attempt
  unanswered : ℕ → Attempt
  answered : ℕ → Option CopyError → Attempt

abbrev pub measured : ℕ → ServiceInstance → ServiceInstance
measured duration s = increment_requests (update_response_time duration s)

unfoldable pub perform_request : Attempt → ServiceInstance → Option RouteError × ServiceInstance
perform_request not_created s = (some (fiber_error 500), s)
perform_request (unanswered duration) s =
    (some (fiber_error 502), increment_errors (measured duration s))
perform_request (answered duration copy_error) s = (copy_result copy_error, measured duration s)

abbrev pub is_client_error : RouteError → Bool
is_client_error (fiber_error code) = leb 400 code && ltb code 500
is_client_error other_error = false

-- How often the loop over `attempt := 0; attempt <= maxRetries` runs at most.
abbrev pub rounds : ℤ → ℕ
rounds (pos n) = suc n
rounds (negsuc n) = 0

-- The end of executeRequest, where no attempt succeeded.
abbrev pub give_up : Option RouteError → ServiceInstance → Option RouteError × ServiceInstance
give_up last_error s = (last_error, increment_errors s)

-- An attempt ends the loop where it succeeds or meets a client error.
abbrev pub after_attempt :
    (Option RouteError → ServiceInstance → Option RouteError × ServiceInstance)
    → Option RouteError × ServiceInstance
    → Option RouteError × ServiceInstance
after_attempt next (none, s) = (none, s)
after_attempt next (some e, s) = if is_client_error e then give_up (some e) s else next (some e) s

-- The loop, from an attempt on with so many rounds left.
unfoldable pub attempts_from :
    (ℕ → Attempt)
    → ℕ
    → ℕ
    → Option RouteError
    → ServiceInstance
    → Option RouteError × ServiceInstance
unfolding perform_request
attempts_from answers attempt zero last_error s = give_up last_error s
attempts_from answers attempt (suc left) last_error s =
    after_attempt (attempts_from answers (suc attempt) left) (perform_request (answers attempt) s)

unfoldable pub execute_request :
    (ℕ → Attempt) → ServiceInstance → Option RouteError × ServiceInstance
unfolding attempts_from
execute_request answers s = attempts_from answers 0 (rounds s.retry_count) none s

-- What RouteRequest returns: the two errors of its own, what the breaker reports beside its open
-- state, what the attempts returned, or a panic.
pub data Routed : Type 0 where
  routed : Routed
  temporarily_unavailable : Routed
  breaker_open : Routed
  breaker_busy : Routed
  failed : RouteError → Routed
  panicked : Routed

-- What the breaker of an instance says to a request.
pub data Admission : Type 0 where
  admitted open_state too_many_requests : Admission

abbrev pub routed_result : Option RouteError → Routed
routed_result none = routed
routed_result (some e) = failed e

module _ (floats : Floats) (intn : ℕ → ℕ) (admission : Ref → Admission)
    (answers : ℕ → Attempt) where
  abbrev pub dispatch : Ref → Engine → Routed × Engine
  dispatch r e = elim (admission r) [
    | open_state ↦ (breaker_open, e)
    | too_many_requests ↦ (breaker_busy, e)
    | admitted ↦
        let (error, s) = execute_request answers (e.heap r) in
        (routed_result error, record e { heap = modify r (λ _. s) e.heap })
  ]

  unfoldable pub route_request : ℕ → String → String → Engine → Routed × Engine
  unfolding select_service_instance execute_request
  route_request now session_id service_name e =
      let (selected, e') = select_service_instance floats intn now session_id service_name e in
      elim selected [
        | chosen r ↦ dispatch r e'
        | no_healthy_instances ↦ (temporarily_unavailable, e')
        | nil ↦ (panicked, e')
        | index_out_of_range ↦ (panicked, e')
      ]
