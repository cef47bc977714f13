-- ===== src/Tests/Gateway.antt =====
-- Three instances of one service behind the gateway (api-gateway/internal/routing).
use pyairtable_go_services.Prelude.{
  ℕ, ◌<◌, ◌≡◌, ◌↔◌, refl, String, true, false, List, [], ◌∷◌, some, none, ℤ, pos, arith, All, count,
  filter, lookup, ◌==◌, if◌then◌else◌, ◌+ℤ◌,
}
use pyairtable_go_services.Routing.{
  ServiceInstance, Ref, Heap, Services, instances_of, register_service, unregister_service,
  get_healthy_instances, CheckAnswer, no_response, status, perform_health_checks,
}
use pyairtable_go_services.Routing.Balancers.{
  chosen, Floats, LoadBalancer, round_robin, multi_algorithm, latency, least_connections,
  select_instance, select_latency,
}
use pyairtable_go_services.Routing.RoundRobin.{is_chosen, picks, round_robin_is_fair}
use pyairtable_go_services.Routing.Argmax.{current}
use pyairtable_go_services.Routing.Weighted.{weight_of}
use pyairtable_go_services.Routing.Shares.{weighted_rounds, weighted_shares}
use pyairtable_go_services.Routing.Contract.{select_instance-Answers}
use pyairtable_go_services.Routing.Loops.{Answers}
use pyairtable_go_services.Routing.Health.{
  is_well, get_healthy_instances-perform_health_checks, select_latency_unmeasured,
}
use pyairtable_go_services.Routing.Registry.{unregister_service-register_service}
use pyairtable_go_services.Routing.Sessions.{Sessions, new_binding}
use pyairtable_go_services.Routing.Engine.{
  Engine, Attempt, unanswered, answered, select_service_instance, execute_request,
}
use pyairtable_go_services.Routing.Sticky.{Call, selects, cleans}
use pyairtable_go_services.Routing.Selection.{
  Serves, session_instance, select_service_instance-Serves,
}
use pyairtable_go_services.Routing.Retries.{
  one_succeeds, execute_request-none, execute_request_unanswered,
}

abbrev instance_with : String → ℕ → ServiceInstance
instance_with id weight = record {
  id = id;
  name = "table";
  url = "http://table";
  weight = pos weight;
  healthy = 1;
  last_check = 0;
  response_time = pos 0;
  request_count = pos 0;
  error_count = pos 0;
  health_check_url = "http://table/health";
  timeout = 30;
  retry_count = pos 2;
  retry_delay = 1;
}

-- The instances 0, 1 and 2 weigh 2, 1 and 1.
abbrev heap : Heap
heap r =
    if r == 0
    then instance_with "table-1" 2
    else if r == 1
    then instance_with "table-2" 1
    else instance_with "table-3" 1

abbrev table : List Ref
table = 0 ∷ 1 ∷ 2 ∷ []

abbrev services : Services
services = ("table", table) ∷ []

-- Floats as integers: enough for a witness.
abbrev whole_numbers : Floats
whole_numbers = record {
  Float = ℤ;
  of_int = λ n. n;
  decimal = λ m k. pos m;
  plus = λ a b. a +ℤ b;
  times = λ a b. a;
  over = λ a b. a;
  less = λ a b. false;
}

abbrev first_index : ℕ → ℕ
first_index k = 0

first_index_below : (k : ℕ) → 0 < k → first_index k < k
first_index_below k h = h

round_robin_is_fair_example : count (is_chosen 1) (picks table 3 7) ≡ count (λ x. x == 1) table
round_robin_is_fair_example = round_robin_is_fair 0 (1 ∷ 2 ∷ []) 7 1 (omega arith)

weighted_shares_example :
    All (λ x. count (is_chosen x) (weighted_rounds heap table 4 []).0 ≡ weight_of heap x) table
    × All (λ x. current heap (weighted_rounds heap table 4 []).1 x ≡ pos 0) table
unfolding lookup
weighted_shares_example =
    weighted_shares heap 0 (1 ∷ 2 ∷ []) [] ((refl, (refl, tt)), ((refl, tt), (tt, tt)))
      (refl, (refl, (refl, tt))) (omega arith) (omega arith) (refl, (refl, (refl, tt)))

abbrev switching : LoadBalancer
switching =
    multi_algorithm latency (multi_algorithm least_connections (round_robin 0) (pos 2)) (pos 5)

select_instance-Answers_example :
    Answers table (select_instance whole_numbers first_index heap table switching).0
select_instance-Answers_example =
    select_instance-Answers whole_numbers first_index first_index_below heap table switching

abbrev engine : Engine
engine = record { heap = heap; services = services; balancer = round_robin 0; sticky = some [] }

select_service_instance-Serves_example :
    Serves heap
      (get_healthy_instances heap "table" services)
      (session_instance 5 "session" "table" (some []))
      (select_service_instance whole_numbers first_index 5 "session" "table" engine).0
select_service_instance-Serves_example =
    select_service_instance-Serves whole_numbers first_index first_index_below 5 "session" "table"
      engine

abbrev between : List Call
between = selects 7 "other" "table" ∷ cleans 8 ∷ selects 9 "session" "table" ∷ []

-- The first instance is down.
abbrev check_answers : Ref → CheckAnswer
check_answers r = if r == 0 then no_response 9 100 else status 9 100 204

get_healthy_instances-perform_health_checks_example :
    get_healthy_instances (perform_health_checks check_answers table heap) "table" services
    ≡ filter (λ r. is_well (check_answers r)) table
unfolding lookup
get_healthy_instances-perform_health_checks_example =
    get_healthy_instances-perform_health_checks check_answers table heap "table" services (λ r m. m)

select_latency_unmeasured_example : select_latency heap (0 ∷ 1 ∷ []) ≡ chosen 0
select_latency_unmeasured_example = select_latency_unmeasured heap 0 (1 ∷ []) refl

unregister_service-register_service_example :
    instances_of "table" (
      unregister_service heap "table" "table-3"
        (register_service "table" 2 (("table", 0 ∷ 1 ∷ []) ∷ [])))
    ≡ instances_of "table" (("table", 0 ∷ 1 ∷ []) ∷ [])
unfolding lookup
unregister_service-register_service_example =
    unregister_service-register_service heap "table" "table" 2 (("table", 0 ∷ 1 ∷ []) ∷ [])
      (refl, (refl, tt))

abbrev bound_session : Sessions
bound_session = ("session", ("table", new_binding 5 1) ∷ []) ∷ []

-- No answer at first, and then one.
abbrev second_try : ℕ → Attempt
second_try i = if i == 0 then unanswered 30 else answered 4 none

execute_request-none_example :
    ((execute_request second_try (heap 0)).0 ≡ none) ↔ (one_succeeds second_try 0 3 ≡ true)
execute_request-none_example = execute_request-none second_try (heap 0) 2 refl

execute_request_unanswered_example :
    ((execute_request (λ i. unanswered 30) (heap 0)).1.request_count ≡ pos 3)
    × ((execute_request (λ i. unanswered 30) (heap 0)).1.error_count ≡ pos 4)
execute_request_unanswered_example =
    execute_request_unanswered (λ i. unanswered 30) (λ i. 30) (λ i. refl) (heap 0) 2 0 0 refl refl
      refl (omega arith) (omega arith)
