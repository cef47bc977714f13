-- ===== src/Routing/Balancers.antt =====
-- api-gateway/internal/routing/load_balancer.go. What rand.Intn gives is a parameter, as are Go's
-- floats with their operations. Among equal scores the sort keeps the order, as sort.Slice does up
-- to twelve entries.
use pyairtable_go_services.Prelude.{
  ℕ, ◌+◌, ◌%◌, String, Bool, true, false, ◌&&◌, ◌||◌, List, [], ◌∷◌, Option, none, some, ℤ, pos,
  negsuc, ◌+ℤ◌, ◌-ℤ◌, ltb_ℤ, eqb_ℤ, Dict, lookup, insert, length, get_elem?, str_eq, if◌then◌else◌,
}
use pyairtable_go_services.Routing.{ServiceInstance, Ref, Heap}

-- What a call of SelectInstance gives; an index out of range panics.
pub data Selected : Type 0 where
  chosen : Ref → Selected
  nil : Selected
  no_healthy_instances : Selected
  index_out_of_range : Selected

abbrev pub element : List Ref → ℕ → Selected
element instances index = elim (get_elem? instances index) [
  | none ↦ index_out_of_range
  | some r ↦ chosen r
]

abbrev pub pointer : Option Ref → Selected
pointer none = nil
pointer (some r) = chosen r

abbrev pub is_nil : Option Ref → Bool
is_nil none = true
is_nil (some r) = false

-- The counter is a uint64.
unfoldable pub next_counter : ℕ → ℕ
next_counter counter = (counter + 1) % 18446744073709551616

unfoldable pub select_round_robin : List Ref → ℕ → Selected × ℕ
unfolding next_counter
select_round_robin [] counter = (no_healthy_instances, counter)
select_round_robin (r ∷ rest) counter =
    let counter' = next_counter counter in
    (element (r ∷ rest) (counter' % length (r ∷ rest)), counter')

-- A key that a map does not hold reads as 0.
abbrev pub current_weight : String → Dict ℤ → ℤ
current_weight id weights = elim (lookup id weights) [ none ↦ pos 0 | some w ↦ w ]

abbrev pub init_weight : String → Dict ℤ → Dict ℤ
init_weight id weights = elim (lookup id weights) [
  | none ↦ insert id (pos 0) weights
  | some _ ↦ weights
]

-- The variables of the second loop of WeightedRoundRobinBalancer.SelectInstance.
pub record Race : Type 0 where
  pub weights : Dict ℤ
  pub selected : Option Ref
  pub max_current_weight : ℤ

module _ (heap : Heap) where
  unfoldable pub init_weights : List Ref → Dict ℤ → Dict ℤ
  init_weights [] weights = weights
  init_weights (r ∷ instances) weights = init_weights instances (init_weight (heap r).id weights)

  unfoldable pub weigh : Ref → Race → Race
  weigh r race =
      let current = current_weight (heap r).id race.weights +ℤ (heap r).weight in
      let weights = insert (heap r).id current race.weights in
      if is_nil race.selected || ltb_ℤ race.max_current_weight current
      then record { weights = weights; selected = some r; max_current_weight = current }
      else record race { weights = weights }

  unfoldable pub weigh_all : List Ref → Race → Race
  weigh_all [] race = race
  weigh_all (r ∷ instances) race = weigh_all instances (weigh r race)

  unfoldable pub total_weight : ℤ → List Ref → ℤ
  total_weight total [] = total
  total_weight total (r ∷ instances) = total_weight (total +ℤ (heap r).weight) instances

  -- Where the loops end: the weight of the instance that won is reduced by the total.
  unfoldable pub settle : List Ref → Race → Selected × Dict ℤ
  settle instances race = elim race.selected [
    | none ↦ (nil, race.weights)
    | some r ↦ (
      chosen r,
      insert (heap r).id (current_weight (heap r).id race.weights -ℤ total_weight (pos 0) instances)
          race.weights,
    )
  ]

  abbrev pub start_race : List Ref → Dict ℤ → Race
  start_race instances weights = record {
    weights = init_weights instances weights;
    selected = none;
    max_current_weight = negsuc 0;
  }

  unfoldable pub select_weighted : List Ref → Dict ℤ → Selected × Dict ℤ
  unfolding settle weigh_all init_weights
  select_weighted [] weights = (no_healthy_instances, weights)
  select_weighted (r ∷ rest) weights =
      settle (r ∷ rest) (weigh_all (r ∷ rest) (start_race (r ∷ rest) weights))

  -- The loops of the least-connections and of the latency balancer keep the instance selected so
  -- far and its number.
  abbrev pub fewer_connections : Ref → Option Ref × ℤ → Option Ref × ℤ
  fewer_connections r best =
      let connections = (heap r).request_count in
      if is_nil best.0 || ltb_ℤ connections best.1 then (some r, connections) else best

  unfoldable pub fewest_connections : List Ref → Option Ref × ℤ → Option Ref × ℤ
  fewest_connections [] best = best
  fewest_connections (r ∷ instances) best = fewest_connections instances (fewer_connections r best)

  unfoldable pub select_least_connections : List Ref → Selected
  unfolding fewest_connections
  select_least_connections [] = no_healthy_instances
  select_least_connections (r ∷ rest) = pointer (fewest_connections (r ∷ rest) (none, negsuc 0)).0

  abbrev pub lower_latency : Ref → Option Ref × ℤ → Option Ref × ℤ
  lower_latency r best =
      let latency = (heap r).response_time in
      if is_nil best.0
        || (ltb_ℤ (pos 0) latency && (eqb_ℤ best.1 (negsuc 0) || ltb_ℤ latency best.1))
      then (some r, latency)
      else best

  unfoldable pub lowest_latency : List Ref → Option Ref × ℤ → Option Ref × ℤ
  lowest_latency [] best = best
  lowest_latency (r ∷ instances) best = lowest_latency instances (lower_latency r best)

  unfoldable pub select_latency : List Ref → Selected
  unfolding lowest_latency
  select_latency [] = no_healthy_instances
  select_latency (r ∷ rest) =
      let best = lowest_latency (r ∷ rest) (none, negsuc 0) in
      if is_nil best.0 || eqb_ℤ best.1 (negsuc 0) then chosen r else pointer best.0

unfoldable pub select_random : (ℕ → ℕ) → List Ref → Selected
select_random intn [] = no_healthy_instances
select_random intn (r ∷ rest) = element (r ∷ rest) (intn (length (r ∷ rest)))

-- float64 and its operations; `decimal m k` is the literal m / 10 ^ k.
pub record Floats : Type 1 where
  pub Float : Type 0
  pub of_int : ℤ → Float
  pub decimal : ℕ → ℕ → Float
  pub plus : Float → Float → Float
  pub times : Float → Float → Float
  pub over : Float → Float → Float
  pub less : Float → Float → Bool

module _ (floats : Floats) where
  open floats use {Float, of_int, decimal, plus, times, over, less}

  unfoldable pub get_error_rate : ServiceInstance → Float
  get_error_rate s =
      if eqb_ℤ s.request_count (pos 0)
      then decimal 0 0
      else over (of_int s.error_count) (of_int s.request_count)

  unfoldable pub health_score : ServiceInstance → Float
  unfolding get_error_rate
  health_score s =
      let latency = over (of_int s.response_time) (decimal 1000 0) in
      let normalized = if less (decimal 1 0) latency then decimal 1 0 else latency in
      plus (times normalized (decimal 7 1)) (times (get_error_rate s) (decimal 3 1))

  -- Insertion sort from the front: an entry goes before the first that it is less than.
  unfoldable pub insert_score : Ref × Float → List (Ref × Float) → List (Ref × Float)
  insert_score entry [] = entry ∷ []
  insert_score entry (other ∷ sorted) =
      if less entry.1 other.1 then entry ∷ other ∷ sorted else other ∷ insert_score entry sorted

  unfoldable pub sort_scores : Heap → List (Ref × Float) → List Ref → List (Ref × Float)
  unfolding insert_score health_score
  sort_scores heap sorted [] = sorted
  sort_scores heap sorted (r ∷ instances) =
      sort_scores heap (insert_score (r, health_score (heap r)) sorted) instances

  unfoldable pub select_health_score : Heap → List Ref → Selected
  unfolding sort_scores
  select_health_score heap [] = no_healthy_instances
  select_health_score heap (r ∷ rest) = elim (sort_scores heap [] (r ∷ rest)) [
    | [] ↦ index_out_of_range
    | best ∷ _ ↦ chosen best.0
  ]

-- The types that implement the interface LoadBalancer, with their state.
pub data LoadBalancer : Type 0 where
  round_robin : ℕ → LoadBalancer
  weighted_round_robin : Dict ℤ → LoadBalancer
  least_connections : LoadBalancer
  random : LoadBalancer
  latency : LoadBalancer
  health_score_based : LoadBalancer
  multi_algorithm : LoadBalancer → LoadBalancer → ℤ → LoadBalancer

abbrev pub balancer_name : LoadBalancer → String
balancer_name (round_robin counter) = "round_robin"
balancer_name (weighted_round_robin weights) = "weighted_round_robin"
balancer_name least_connections = "least_connections"
balancer_name random = "random"
balancer_name latency = "latency"
balancer_name health_score_based = "health_score"
balancer_name (multi_algorithm primary fallback threshold) = "multi_algorithm"

-- `none` is ErrUnknownAlgorithm.
unfoldable pub new_load_balancer : String → Option LoadBalancer
new_load_balancer algorithm =
    if str_eq algorithm "round_robin"
    then some (round_robin 0)
    else if str_eq algorithm "weighted_round_robin" || str_eq algorithm "weighted"
    then some (weighted_round_robin [])
    else if str_eq algorithm "least_connections"
    then some least_connections
    else if str_eq algorithm "random"
    then some random
    else if str_eq algorithm "latency"
    then some latency
    else if str_eq algorithm "health_score"
    then some health_score_based
    else none

module _ (floats : Floats) (intn : ℕ → ℕ) (heap : Heap) where
  unfoldable pub select_instance : List Ref → LoadBalancer → Selected × LoadBalancer
  select_instance instances (round_robin counter) =
      let (result, counter') = select_round_robin instances counter in
      (result, round_robin counter')
  select_instance instances (weighted_round_robin weights) =
      let (result, weights') = select_weighted heap instances weights in
      (result, weighted_round_robin weights')
  select_instance instances least_connections =
      (select_least_connections heap instances, least_connections)
  select_instance instances random = (select_random intn instances, random)
  select_instance instances latency = (select_latency heap instances, latency)
  select_instance instances health_score_based =
      (select_health_score floats heap instances, health_score_based)
  select_instance [] (multi_algorithm primary fallback threshold) =
      (no_healthy_instances, multi_algorithm primary fallback threshold)
  select_instance (r ∷ rest) (multi_algorithm primary fallback threshold) =
      let through_fallback = select_instance (r ∷ rest) fallback in
      let through_primary = select_instance (r ∷ rest) primary in
      if ltb_ℤ (pos (length (r ∷ rest))) threshold
      then (through_fallback.0, multi_algorithm primary through_fallback.1 threshold)
      else (through_primary.0, multi_algorithm through_primary.1 fallback threshold)
