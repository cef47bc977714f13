-- ===== src/Routing/Contract.antt =====
-- What the interface LoadBalancer promises (api-gateway/internal/routing/load_balancer.go), for
-- every type that implements it.
use native.Mathlib.Nat.{mod-lt}
use pyairtable_go_services.Prelude.{
  ℕ, ◌%◌, ◌<◌, ◌≡◌, refl, inl, inr, Bool, true, false, List, [], ◌∷◌, Option, none, ℤ, pos, negsuc,
  Dict, arith, length, get_elem?-lt_length, member-get_elem?, ltb_ℤ, if◌then◌else◌, Bool-cases,
  Option-cases,
}
use pyairtable_go_services.Routing.{Ref, Heap}
use pyairtable_go_services.Routing.Balancers.{
  chosen, element, pointer, Race, start_race, select_round_robin, next_counter, weigh, weigh_all,
  settle, select_weighted, fewer_connections, fewest_connections, select_least_connections,
  lower_latency, lowest_latency, select_latency, select_random, Floats, LoadBalancer, round_robin,
  weighted_round_robin, least_connections, random, latency, health_score_based, multi_algorithm,
  select_instance,
}
use pyairtable_go_services.Routing.Loops.{Answers, Picks, loop, loop-Answers, guarded, member_self}
use pyairtable_go_services.Routing.Scores.{select_health_score-Answers}

element-Answers :
    (first : Ref) (rest : List Ref) (i : ℕ)
    → i < length (first ∷ rest)
    → Answers (first ∷ rest) (element (first ∷ rest) i)
element-Answers first rest i h =
    let (r, found) = get_elem?-lt_length (first ∷ rest) i h in
    (r, rw (found, element) refl, member-get_elem? (first ∷ rest) i found)

select_round_robin-Answers :
    (instances : List Ref) (counter : ℕ)
    → Answers instances (select_round_robin instances counter).0
unfolding select_round_robin
select_round_robin-Answers [] counter = refl
select_round_robin-Answers (first ∷ rest) counter =
    element-Answers first rest (next_counter counter % length (first ∷ rest))
      (mod-lt (next_counter counter) (omega arith))

select_random-Answers :
    (intn : ℕ → ℕ)
    → ((k : ℕ) → 0 < k → intn k < k)
    → (instances : List Ref) → Answers instances (select_random intn instances)
unfolding select_random
select_random-Answers intn below [] = refl
select_random-Answers intn below (first ∷ rest) =
    element-Answers first rest (intn (length (first ∷ rest)))
      (below (length (first ∷ rest)) (omega arith))

abbrev best_of : Option Ref × ℤ → Option Ref
best_of best = best.0

abbrev winner : Race → Option Ref
winner race = race.selected

module _ (heap : Heap) where
  weigh-Picks : Picks winner (weigh heap)
  unfolding weigh
  weigh-Picks r race = guarded winner (weigh heap) r _ race _ _ refl refl

  fewer_connections-Picks : Picks best_of (fewer_connections heap)
  fewer_connections-Picks r best = guarded best_of (fewer_connections heap) r _ best _ _ refl refl

  lower_latency-Picks : Picks best_of (lower_latency heap)
  lower_latency-Picks r best = guarded best_of (lower_latency heap) r _ best _ _ refl refl

  weigh_all-eq-loop :
      (rest : List Ref) (race : Race)
      → weigh_all heap rest race ≡ loop winner (weigh heap) rest race
  unfolding weigh_all loop
  weigh_all-eq-loop [] race = refl
  weigh_all-eq-loop (r ∷ rest) race = weigh_all-eq-loop rest (weigh heap r race)

  fewest_connections-eq-loop :
      (rest : List Ref) (best : Option Ref × ℤ)
      → fewest_connections heap rest best ≡ loop best_of (fewer_connections heap) rest best
  unfolding fewest_connections loop
  fewest_connections-eq-loop [] best = refl
  fewest_connections-eq-loop (r ∷ rest) best =
      fewest_connections-eq-loop rest (fewer_connections heap r best)

  lowest_latency-eq-loop :
      (rest : List Ref) (best : Option Ref × ℤ)
      → lowest_latency heap rest best ≡ loop best_of (lower_latency heap) rest best
  unfolding lowest_latency loop
  lowest_latency-eq-loop [] best = refl
  lowest_latency-eq-loop (r ∷ rest) best = lowest_latency-eq-loop rest (lower_latency heap r best)

  settle_result :
      (instances : List Ref) (race : Race) → (settle heap instances race).0 ≡ pointer race.selected
  unfolding settle
  settle_result instances race = elim (Option-cases race.selected) [
    | inl e ↦ rw (e, pointer) refl
    | inr (r, e) ↦ rw (e, pointer) refl
  ]

  select_weighted-Answers :
      (instances : List Ref) (weights : Dict ℤ)
      → Answers instances (select_weighted heap instances weights).0
  unfolding select_weighted
  select_weighted-Answers [] weights = refl
  select_weighted-Answers (first ∷ rest) weights =
      let race = start_race heap (first ∷ rest) weights in
      rw
        (
          settle_result (first ∷ rest) (weigh_all heap (first ∷ rest) race),
          weigh_all-eq-loop (first ∷ rest) race,
        )
        (loop-Answers winner (weigh heap) weigh-Picks first rest race refl)

  select_least_connections-Answers :
      (instances : List Ref) → Answers instances (select_least_connections heap instances)
  unfolding select_least_connections
  select_least_connections-Answers [] = refl
  select_least_connections-Answers (first ∷ rest) =
      rw (fewest_connections-eq-loop (first ∷ rest) (none, negsuc 0)) (
        loop-Answers best_of (fewer_connections heap) fewer_connections-Picks first rest
          (none, negsuc 0) refl)

  latency_fallback :
      (first : Ref) (rest : List Ref) (best : Option Ref × ℤ) (b : Bool)
      → Answers (first ∷ rest) (pointer best.0)
      → Answers (first ∷ rest) (if b then chosen first else pointer best.0)
  latency_fallback first rest best true h = (first, refl, member_self first rest)
  latency_fallback first rest best false h = h

  select_latency-Answers :
      (instances : List Ref) → Answers instances (select_latency heap instances)
  unfolding select_latency
  select_latency-Answers [] = refl
  select_latency-Answers (first ∷ rest) =
      latency_fallback first rest (lowest_latency heap (first ∷ rest) (none, negsuc 0)) _ (
        rw (lowest_latency-eq-loop (first ∷ rest) (none, negsuc 0)) (
          loop-Answers best_of (lower_latency heap) lower_latency-Picks first rest (none, negsuc 0)
            refl))

module _ (floats : Floats) (intn : ℕ → ℕ) (intn_below : (k : ℕ) → 0 < k → intn k < k)
    (heap : Heap) where
  -- Every balancer keeps the interface's promise, in whatever state it stands and through any nesting of
  -- multi-algorithm balancers: without an instance it reports ErrNoHealthyInstances, and otherwise it
  -- returns one of the instances and neither panics nor returns nil. rand.Intn(k) is below k.
  pub select_instance-Answers :
      (instances : List Ref) (balancer : LoadBalancer)
      → Answers instances (select_instance floats intn heap instances balancer).0
  unfolding select_instance
  select_instance-Answers instances (round_robin counter) =
      select_round_robin-Answers instances counter
  select_instance-Answers instances (weighted_round_robin weights) =
      select_weighted-Answers heap instances weights
  select_instance-Answers instances least_connections =
      select_least_connections-Answers heap instances
  select_instance-Answers instances random = select_random-Answers intn intn_below instances
  select_instance-Answers instances latency = select_latency-Answers heap instances
  select_instance-Answers instances health_score_based =
      select_health_score-Answers floats heap instances
  select_instance-Answers [] (multi_algorithm primary fallback threshold) = refl
  select_instance-Answers (r ∷ rest) (multi_algorithm primary fallback threshold) =
      elim (Bool-cases (ltb_ℤ (pos (length (r ∷ rest))) threshold)) [
        | inl e ↦ rw e (select_instance-Answers (r ∷ rest) fallback)
        | inr e ↦ rw e (select_instance-Answers (r ∷ rest) primary)
      ]
