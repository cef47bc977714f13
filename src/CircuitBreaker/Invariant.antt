-- ===== src/CircuitBreaker/Invariant.antt =====
-- The breaker under any interleaving of callers (pkg/circuitbreaker): requests start and finish in
-- any order, each finishing with the generation that it was given.
use pyairtable_go_services.Prelude.{
  ℕ, suc, ◌+◌, ◌*◌, ◌≤◌, ◌<◌, ◌≡◌, refl, false, List, [], ◌∷◌, ◌++◌, none, some, All, arith, ◌==◌,
  ◌≢◌, ◌∙◌, leb, ltb, not, ◌&&◌, inl, inr, Bool-cases,
}
use pyairtable_go_services.CircuitBreaker.{
  State, closed, half_open, opened, same_state, u64, on_request_counts, on_success_counts,
  on_failure_counts, CircuitBreaker, RequestError, Config, new_circuit_breaker, to_new_generation,
  set_state, current_state, refresh, admit, on_success, on_failure,
}
use pyairtable_go_services.CircuitBreaker.Counting.{
  count, count-fresh, count-split, All-mono, All-drop,
}

-- `flying` holds the generations of the requests that have started and not finished; g and r bound
-- the generation and the requests counted in it, so that no counter wraps.
pub record Inv (g r : ℕ) (cb : CircuitBreaker) (flying : List ℕ) : Type 0 where
  pub generation_le : cb.generation ≤ g
  pub requests_le : cb.counts.requests ≤ r
  -- A request of the running generation has succeeded, has failed or is under way.
  pub balance :
      cb.counts.total_successes + cb.counts.total_failures + count cb.generation flying
      ≡ cb.counts.requests
  pub earlier : All (λ x. x ≤ cb.generation) flying
  pub streak : cb.counts.consecutive_successes ≤ cb.counts.total_successes
  pub probes : cb.state ≡ half_open → cb.counts.requests ≤ cb.config.max_requests
  pub idle : cb.state ≡ opened → cb.counts.requests ≡ 0
  pub unbroken :
      cb.state ≡ half_open
      → (cb.counts.total_failures ≡ 0)
        × (cb.counts.consecutive_successes ≡ cb.counts.total_successes)

abbrev pub limit : ℕ
limit = 4294967296

pub new-Inv : (config : Config) (now : ℕ) → Inv 1 0 (new_circuit_breaker config now) []
unfolding new_circuit_breaker
new-Inv config now = ground arith

-- A new generation counts nothing yet, and nothing under way belongs to it.
to_new_generation-Inv :
    (g r now : ℕ) (cb : CircuitBreaker) (fl : List ℕ)
    → suc g < 2 * limit
    → cb.generation ≤ g
    → All (λ x. x ≤ cb.generation) fl
    → Inv (suc g) r (to_new_generation now cb) fl
unfolding to_new_generation
to_new_generation-Inv g r now cb fl room le early = record {
  generation_le = omega arith;
  requests_le = omega arith;
  balance =
      omega (arith, count-fresh cb.generation (u64 (cb.generation + 1)) fl early (omega arith));
  earlier = All-mono cb.generation (u64 (cb.generation + 1)) fl (omega arith) early;
  streak = omega arith;
  probes = λ _. omega arith;
  idle = λ _. refl;
  unbroken = λ _. (refl, refl);
}

retold :
    (g r : ℕ) (cb : CircuitBreaker) (fl : List ℕ) (told : List (State × State))
    → Inv g r cb fl
    → Inv g r (record cb { changes = told }) fl
retold g r cb fl told v = record {
  generation_le = v.generation_le;
  requests_le = v.requests_le;
  balance = v.balance;
  earlier = v.earlier;
  streak = v.streak;
  probes = v.probes;
  idle = v.idle;
  unbroken = v.unbroken;
}

set_state-Inv :
    (g r now : ℕ) (state : State) (cb : CircuitBreaker) (fl : List ℕ)
    → same_state cb.state state ≡ false
    → suc g < 2 * limit
    → cb.generation ≤ g
    → All (λ x. x ≤ cb.generation) fl
    → Inv (suc g) r (set_state state now cb) fl
unfolding set_state
set_state-Inv g r now state cb fl other room le early = rw other (
    retold (suc g) r (to_new_generation now (record cb { state = state })) fl _
      (to_new_generation-Inv g r now (record cb { state = state }) fl room le early))

pub Inv-mono : (g r : ℕ) (cb : CircuitBreaker) (fl : List ℕ) → Inv g r cb fl → Inv (suc g) r cb fl
Inv-mono g r cb fl v = record {
  generation_le = omega (arith, v.generation_le);
  requests_le = v.requests_le;
  balance = v.balance;
  earlier = v.earlier;
  streak = v.streak;
  probes = v.probes;
  idle = v.idle;
  unbroken = v.unbroken;
}

refresh-Inv :
    (g r now : ℕ) (st : State) (cb : CircuitBreaker) (fl : List ℕ)
    → st ≡ cb.state
    → suc g < 2 * limit
    → Inv g r cb fl
    → Inv (suc g) r (refresh st now cb) fl
unfolding refresh
refresh-Inv g r now closed cb fl e room v =
    elim (Bool-cases (not (cb.expiry == 0) && ltb cb.expiry now)) [
      | inl over ↦ rw over (to_new_generation-Inv g r now cb fl room v.generation_le v.earlier)
      | inr still ↦ rw still (Inv-mono g r cb fl v)
    ]
refresh-Inv g r now opened cb fl e room v = elim (Bool-cases (ltb cb.expiry now)) [
  | inl over ↦
      rw over (set_state-Inv g r now half_open cb fl (rw (← e)) room v.generation_le v.earlier)
  | inr still ↦ rw still (Inv-mono g r cb fl v)
]
refresh-Inv g r now half_open cb fl e room v = Inv-mono g r cb fl v

pub current_state-Inv :
    (g r now : ℕ) (cb : CircuitBreaker) (fl : List ℕ)
    → suc g < 2 * limit
    → Inv g r cb fl
    → Inv (suc g) r (current_state now cb) fl
unfolding current_state
current_state-Inv g r now cb fl room v = refresh-Inv g r now cb.state cb fl refl room v

closed-half_open : ◌≢◌ {A = State} closed half_open
closed-half_open h = cc

requested-Inv :
    (g r : ℕ) (cb : CircuitBreaker) (fl : List ℕ)
    → suc r < limit
    → cb.state ≢ opened
    → (cb.state ≡ half_open → cb.counts.requests < cb.config.max_requests)
    → Inv g r cb fl
    → Inv g (suc r) (record cb { counts = on_request_counts cb.counts }) (cb.generation ∷ fl)
requested-Inv g r cb fl room not_open few v = record {
  generation_le = v.generation_le;
  requests_le = omega (arith, v.requests_le);
  balance = ground (arith, v.balance, v.requests_le);
  earlier = (omega arith, v.earlier);
  streak = v.streak;
  probes = λ h. omega (arith, few h);
  idle = λ h. absurd (not_open h);
  unbroken = v.unbroken;
}

pub admit-Inv :
    (g r : ℕ) (st : State) (cb : CircuitBreaker) (fl : List ℕ)
    → st ≡ cb.state
    → suc r < limit
    → Inv g r cb fl
    → (admit st cb).1 ≡ none
    → Inv g (suc r) (admit st cb).0 (cb.generation ∷ fl)
unfolding admit
admit-Inv g r opened cb fl e room v h = cc
admit-Inv g r half_open cb fl e room v h =
    elim (Bool-cases (leb cb.config.max_requests cb.counts.requests)) [
      | inl full ↦ ground arith
      | inr few ↦ rw few (requested-Inv g r cb fl room (λ o. cc) (λ _. ground arith) v)
    ]
admit-Inv g r closed cb fl e room v h =
    requested-Inv g r cb fl room (λ o. cc) (λ o. absurd (closed-half_open (e ∙ o))) v

succeeded-Inv :
    (g r : ℕ) (cb : CircuitBreaker) (xs ys : List ℕ)
    → r < limit
    → Inv g r cb (xs ++ cb.generation ∷ ys)
    → Inv g r (record cb { counts = on_success_counts cb.counts }) (xs ++ ys)
succeeded-Inv g r cb xs ys room v =
    let one = count-split cb.generation cb.generation xs ys in
    let room' : cb.counts.total_successes + 1 < limit =
      ground (arith, v.balance, v.requests_le, one) in
    record {
      generation_le = v.generation_le;
      requests_le = v.requests_le;
      balance = ground (arith, v.balance, one);
      earlier = All-drop cb.generation cb.generation xs ys v.earlier;
      streak = omega (arith, v.streak);
      probes = v.probes;
      idle = v.idle;
      unbroken = λ h. ((v.unbroken h).0, omega (arith, (v.unbroken h).1));
    }

failed-Inv :
    (g r : ℕ) (cb : CircuitBreaker) (xs ys : List ℕ)
    → r < limit
    → cb.state ≢ half_open
    → Inv g r cb (xs ++ cb.generation ∷ ys)
    → Inv g r (record cb { counts = on_failure_counts cb.counts }) (xs ++ ys)
failed-Inv g r cb xs ys room firm v =
    let one = count-split cb.generation cb.generation xs ys in
    let room' : cb.counts.total_failures + 1 < limit =
      ground (arith, v.balance, v.requests_le, one) in
    record {
      generation_le = v.generation_le;
      requests_le = v.requests_le;
      balance = ground (arith, v.balance, one);
      earlier = All-drop cb.generation cb.generation xs ys v.earlier;
      streak = omega arith;
      probes = v.probes;
      idle = v.idle;
      unbroken = λ h. absurd (firm h);
    }

pub on_success-Inv :
    (g r now : ℕ) (st : State) (cb : CircuitBreaker) (xs ys : List ℕ)
    → st ≡ cb.state
    → suc g < 2 * limit
    → r < limit
    → Inv g r cb (xs ++ cb.generation ∷ ys)
    → Inv (suc g) r (on_success st now cb) (xs ++ ys)
unfolding on_success
on_success-Inv g r now half_open cb xs ys e gg rr v =
    let cb' : CircuitBreaker = record cb { counts = on_success_counts cb.counts } in
    let v' = succeeded-Inv g r cb xs ys rr v in
    elim (Bool-cases (leb cb.config.max_requests cb'.counts.consecutive_successes)) [
      | inl enough ↦
          rw enough
            (set_state-Inv g r now closed cb' (xs ++ ys) (rw (← e)) gg v'.generation_le v'.earlier)
      | inr more ↦ rw more (Inv-mono g r cb' (xs ++ ys) v')
    ]
on_success-Inv g r now _ cb xs ys e gg rr v =
    Inv-mono g r _ (xs ++ ys) (succeeded-Inv g r cb xs ys rr v)

pub on_failure-Inv :
    (g r now : ℕ) (st : State) (cb : CircuitBreaker) (xs ys : List ℕ)
    → st ≡ cb.state
    → suc g < 2 * limit
    → r < limit
    → Inv g r cb (xs ++ cb.generation ∷ ys)
    → Inv (suc g) r (on_failure st now cb) (xs ++ ys)
unfolding on_failure
on_failure-Inv g r now closed cb xs ys e gg rr v =
    let cb' : CircuitBreaker = record cb { counts = on_failure_counts cb.counts } in
    let v' = failed-Inv g r cb xs ys rr (λ h. absurd (closed-half_open (e ∙ h))) v in
    elim (Bool-cases (cb.config.ready_to_trip cb'.counts)) [
      | inl trip ↦
          rw trip
            (set_state-Inv g r now opened cb' (xs ++ ys) (rw (← e)) gg v'.generation_le v'.earlier)
      | inr calm ↦ rw calm (Inv-mono g r cb' (xs ++ ys) v')
    ]
on_failure-Inv g r now half_open cb xs ys e gg rr v =
    set_state-Inv g r now opened (record cb { counts = on_failure_counts cb.counts }) (xs ++ ys)
      (rw (← e)) gg v.generation_le (All-drop cb.generation cb.generation xs ys v.earlier)
on_failure-Inv g r now opened cb xs ys e gg rr v =
    Inv-mono g r _ (xs ++ ys) (failed-Inv g r cb xs ys rr (λ h. cc) v)

pub admit_refused :
    (st : State) (cb : CircuitBreaker) {e : RequestError}
    → (admit st cb).1 ≡ some e
    → (admit st cb).0 ≡ cb
unfolding admit
admit_refused opened cb h = refl
admit_refused half_open cb h = ground arith
admit_refused closed cb h = cc

-- A request of an earlier generation ends without a trace.
pub dropped-Inv :
    (g r before : ℕ) (cb : CircuitBreaker) (xs ys : List ℕ)
    → (cb.generation == before) ≡ false
    → Inv g r cb (xs ++ before ∷ ys)
    → Inv g r cb (xs ++ ys)
dropped-Inv g r before cb xs ys stale v = record {
  generation_le = v.generation_le;
  requests_le = v.requests_le;
  balance = ground (arith, v.balance, count-split cb.generation before xs ys);
  earlier = All-drop cb.generation before xs ys v.earlier;
  streak = v.streak;
  probes = v.probes;
  idle = v.idle;
  unbroken = v.unbroken;
}

pub requests_mono :
    (g r : ℕ) (cb : CircuitBreaker) (fl : List ℕ) → Inv g r cb fl → Inv g (suc r) cb fl
requests_mono g r cb fl v = record {
  generation_le = v.generation_le;
  requests_le = omega (arith, v.requests_le);
  balance = v.balance;
  earlier = v.earlier;
  streak = v.streak;
  probes = v.probes;
  idle = v.idle;
  unbroken = v.unbroken;
}

pub admit_generation :
    (st : State) (cb : CircuitBreaker) → (admit st cb).0.generation ≡ cb.generation
unfolding admit
admit_generation opened cb = refl
admit_generation half_open cb = ground arith
admit_generation closed cb = refl
