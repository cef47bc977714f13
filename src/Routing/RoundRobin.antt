-- ===== src/Routing/RoundRobin.antt =====
-- Fairness of RoundRobinBalancer (api-gateway/internal/routing/load_balancer.go): where a round of
-- calls visits the instances.
use native.Mathlib.Nat.{mul-add-mod_self_right, mod-eq_of_lt, mod-lt, div-add-mod'}
use pyairtable_go_services.Prelude.{
  ℕ, zero, suc, ◌+◌, ◌-◌, ◌*◌, ◌/◌, ◌%◌, ◌≤◌, ◌<◌, ◌≡◌, refl, ◌∙◌, Bool, false, List, [], ◌∷◌, ◌++◌,
  some, arith, length, take, get_elem?, get_elem?-lt_length, count, count-append, ◌==◌,
  if◌then◌else◌,
}
use pyairtable_go_services.Routing.{Ref}
use pyairtable_go_services.Routing.Balancers.{
  Selected, chosen, element, next_counter, select_round_robin,
}

-- What `calls` calls in a row select.
unfoldable pub picks : List Ref → ℕ → ℕ → List Selected
picks instances zero counter = []
picks instances (suc calls) counter =
    let (result, counter') = select_round_robin instances counter in
    result ∷ picks instances calls counter'

abbrev pub is_chosen : Ref → Selected → Bool
is_chosen r (chosen q) = q == r
is_chosen r other = false

count-take-suc :
    (p : Ref → Bool) (xs : List Ref) (i : ℕ) (x : Ref)
    → get_elem? xs i ≡ some x
    → count p (take (suc i) xs) ≡ count p (take i xs) + (if p x then 1 else 0)
count-take-suc p [] i x h = absurd (cc)
count-take-suc p (y ∷ xs) zero x h = ground arith
count-take-suc p (y ∷ xs) (suc i) x h = ground (arith, count-take-suc p xs i x h)

take_all : (xs : List Ref) → take (length xs) xs ≡ xs
take_all [] = refl
take_all (x ∷ xs) = rw (take_all xs)

abbrev room : ℕ
room = 18446744073709551616

next_counter_fits : (counter : ℕ) → counter + 1 < room → next_counter counter ≡ counter + 1
unfolding next_counter
next_counter_fits counter h = omega arith

mod_at : (n counter q s : ℕ) → counter + 1 ≡ q * n + s → s < n → (counter + 1) % n ≡ s
mod_at n counter q s at_s below = rw at_s (mul-add-mod_self_right q n s ∙ mod-eq_of_lt below)

zero_add : (n : ℕ) → 0 + n ≡ n
zero_add n = omega arith

suc_add : (a b : ℕ) → suc a + b ≡ suc (a + b)
suc_add a b = omega arith

add_zero : (n : ℕ) → n + 0 ≡ n
add_zero n = omega arith

one_right : (a b : ℕ) → a + suc b ≡ a + 1 + b
one_right a b = omega arith

suc_right : (a b : ℕ) → a + suc b ≡ suc a + b
suc_right a b = omega arith

module _ (first : Ref) (rest : List Ref) where
  abbrev instances : List Ref
  instances = first ∷ rest

  abbrev n : ℕ
  n = length instances

  picks_step :
      (calls counter : ℕ)
      → counter + 1 < room
      → picks instances (suc calls) counter
        ≡ element instances ((counter + 1) % n) ∷ picks instances calls (counter + 1)
  unfolding picks select_round_robin
  picks_step calls counter h =
      let e : next_counter counter ≡ counter + 1 = next_counter_fits counter h in rw e

  picks_zero : (counter : ℕ) → picks instances 0 counter ≡ []
  unfolding picks
  picks_zero counter = refl

  picks-append :
      (calls more counter : ℕ)
      → counter + calls < room
      → picks instances (calls + more) counter
        ≡ picks instances calls counter ++ picks instances more (counter + calls)
  picks-append zero more counter h = rw (zero_add more, add_zero counter, picks_zero counter)
  picks-append (suc calls) more counter h = rw (
    suc_add calls more,
    picks_step (calls + more) counter (omega arith),
    picks_step calls counter (omega arith),
    picks-append calls more (counter + 1) (omega arith),
    one_right counter calls,
  )

  -- From index s on, the calls visit one instance after the other.
  picks_within :
      (r : Ref) (calls counter q s : ℕ)
      → counter + calls < room
      → counter + 1 ≡ q * n + s
      → s + calls ≤ n
      → count (is_chosen r) (picks instances calls counter) + count (λ x. x == r) (take s instances)
        ≡ count (λ x. x == r) (take (s + calls) instances)
  picks_within r zero counter q s room_left at_s within =
      rw (picks_zero counter, add_zero s) (omega arith)
  picks_within r (suc calls) counter q s room_left at_s within =
      let (x, found) = get_elem?-lt_length instances s (omega arith) in
      let at_index : (counter + 1) % n ≡ s = mod_at n counter q s at_s (omega arith) in
      let more =
        picks_within r calls (counter + 1) q (suc s) (omega arith) (omega arith) (omega arith) in
      rw (picks_step calls counter (omega arith), at_index, found, suc_right s calls)
        (omega (arith, more, count-take-suc (λ y. y == r) instances s x found))

  -- A round of as many calls as there are instances selects every instance as often as the list of
  -- instances holds it, wherever the counter stands; the counter must not wrap around on the way.
  pub round_robin_is_fair :
      (counter : ℕ) (r : Ref)
      → counter + n < room
      → count (is_chosen r) (picks instances n counter) ≡ count (λ x. x == r) instances
  round_robin_is_fair counter r room_left =
      let q = (counter + 1) / n in
      let s = (counter + 1) % n in
      let below : s < n = mod-lt (counter + 1) (omega arith) in
      let at_s : q * n + s ≡ counter + 1 = div-add-mod' (counter + 1) n in
      let back = picks_within r (n - s) counter q s (omega arith) (omega arith) (omega arith) in
      let front =
        picks_within r s (counter + (n - s)) (suc q) 0 (omega arith) (grind (arith))
          (omega arith) in
      let both = picks-append (n - s) s counter (omega arith) in
      let parts : n - s + s ≡ n = omega arith in
      let total = count-append (is_chosen r) (picks instances (n - s) counter) in
      let whole = rw (parts) at both in
      let to_end : s + (n - s) ≡ n = omega arith in
      let back' = rw (to_end, take_all rest) at back in
      let front' = rw (zero_add s) at front in rw (whole, total) (omega (arith, back', front'))
