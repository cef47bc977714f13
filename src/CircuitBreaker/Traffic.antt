-- ===== src/CircuitBreaker/Traffic.antt =====
-- Runs of the breaker under concurrent callers (pkg/circuitbreaker): beforeRequest, afterRequest and
-- State in any order, with times that need not rise.
use pyairtable_go_services.Prelude.{
  ℕ, zero, suc, ◌+◌, ◌*◌, ◌≤◌, ◌<◌, ◌≡◌, refl, sym, subst, Bool, true, false, List, [], ◌∷◌, ◌++◌,
  none, some, arith, ◌==◌, inl, inr, Bool-cases, ==_iff, ap, ◌∙◌, if◌then◌else◌,
}
use mathlib.Core.Path.{subst₂}
use pyairtable_go_services.CircuitBreaker.{
  half_open, CircuitBreaker, RequestError, Config, new_circuit_breaker, current_state,
  before_request, on_success, on_failure, after_request,
}
use pyairtable_go_services.CircuitBreaker.Counting.{count}
use pyairtable_go_services.CircuitBreaker.Invariant.{
  Inv, limit, new-Inv, Inv-mono, current_state-Inv, admit-Inv, admit_refused, dropped-Inv,
  requests_mono, admit_generation, on_success-Inv, on_failure-Inv,
}

pub record Traffic : Type 0 where
  pub breaker : CircuitBreaker
  pub flying : List ℕ

pub data Call (s t : Traffic) : Type 0 where
  admitted :
      (now : ℕ)
      → (before_request now s.breaker).1 ≡ none
      → t.breaker ≡ (before_request now s.breaker).0
      → t.flying ≡ t.breaker.generation ∷ s.flying
      → Call s t
  refused :
      (now : ℕ) (e : RequestError)
      → (before_request now s.breaker).1 ≡ some e
      → t.breaker ≡ (before_request now s.breaker).0
      → t.flying ≡ s.flying
      → Call s t
  finished :
      (now before : ℕ) (success : Bool) (xs ys : List ℕ)
      → s.flying ≡ xs ++ before ∷ ys
      → t.breaker ≡ after_request before success now s.breaker
      → t.flying ≡ xs ++ ys
      → Call s t
  asked : (now : ℕ) → t.breaker ≡ current_state now s.breaker → t.flying ≡ s.flying → Call s t

-- So many calls lead from s to t.
pub data Calls (s : Traffic) : ℕ → Traffic → Type 0 where
  here : Calls s zero s
  next : {n : ℕ} {t u : Traffic} → Calls s n t → Call t u → Calls s (suc n) u

after_request-Inv :
    (g r now before : ℕ) (success : Bool) (cb : CircuitBreaker) (xs ys : List ℕ)
    → suc (suc g) < 2 * limit
    → r < limit
    → Inv g r cb (xs ++ before ∷ ys)
    → Inv (suc (suc g)) r (after_request before success now cb) (xs ++ ys)
unfolding after_request
after_request-Inv g r now before success cb xs ys gg rr v =
    let cb' = current_state now cb in
    let v' = current_state-Inv g r now cb (xs ++ before ∷ ys) (omega arith) v in
    elim (Bool-cases (cb'.generation == before)) [
      | inr stale ↦
          rw stale
            (Inv-mono (suc g) r cb' (xs ++ ys) (dropped-Inv (suc g) r before cb' xs ys stale v'))
      | inl fresh ↦
          let v'' =
            subst (λ b. Inv (suc g) r cb' (xs ++ b ∷ ys))
              (sym ((==_iff cb'.generation before).0 fresh)) v' in
          rw fresh (settled success v'')
    ]
  where
    settled :
        (b : Bool)
        → (Inv (suc g) r (current_state now cb) (xs ++ (current_state now cb).generation ∷ ys))
        → Inv
            (suc (suc g))
            r
            (if b
              then on_success (current_state now cb).state now (current_state now cb)
              else on_failure (current_state now cb).state now (current_state now cb))
            (xs ++ ys)
    settled true w = on_success-Inv (suc g) r now _ (current_state now cb) xs ys refl gg rr w
    settled false w = on_failure-Inv (suc g) r now _ (current_state now cb) xs ys refl gg rr w

moved :
    (g r : ℕ) (b c : CircuitBreaker) (xs ys : List ℕ)
    → c ≡ b
    → ys ≡ xs
    → Inv g r b xs
    → Inv g r c ys
moved g r b c xs ys p q v = subst₂ (Inv g r) (sym p) (sym q) v

Call-Inv :
    (g r : ℕ) (s t : Traffic)
    → suc (suc g) < 2 * limit
    → suc r < limit
    → Call s t
    → Inv g r s.breaker s.flying
    → Inv (suc (suc g)) (suc r) t.breaker t.flying
unfolding before_request
Call-Inv g r s t gg rr (admitted now h p q) v =
    let cb = current_state now s.breaker in
    let w =
      admit-Inv (suc g) r cb.state cb s.flying refl rr
        (current_state-Inv g r now s.breaker s.flying (omega arith) v) h in
    moved _ _ _ t.breaker (cb.generation ∷ s.flying) t.flying p
      (q ∙ ap (λ n. n ∷ s.flying) (ap (λ b. b.generation) p ∙ admit_generation cb.state cb))
      (Inv-mono _ _ _ _ w)
Call-Inv g r s t gg rr (refused now e h p q) v =
    let cb = current_state now s.breaker in
    let w = current_state-Inv g r now s.breaker s.flying (omega arith) v in
    moved _ _ cb t.breaker s.flying t.flying (p ∙ admit_refused cb.state cb h) q
      (requests_mono _ _ _ _ (Inv-mono _ _ _ _ w))
Call-Inv g r s t gg rr (finished now before success xs ys split p q) v =
    let w =
      after_request-Inv g r now before success s.breaker xs ys gg (omega arith)
        (subst (Inv g r s.breaker) split v) in
    moved _ _ _ t.breaker (xs ++ ys) t.flying p q (requests_mono _ _ _ _ w)
Call-Inv g r s t gg rr (asked now p q) v =
    let w = current_state-Inv g r now s.breaker s.flying (omega arith) v in
    moved _ _ _ t.breaker s.flying t.flying p q (requests_mono _ _ _ _ (Inv-mono _ _ _ _ w))

abbrev pub start : Config → ℕ → Traffic
start config now = record { breaker = new_circuit_breaker config now; flying = [] }

-- Through any interleaving of fewer than 2^32 - 1 calls on a new breaker the invariant holds: in the
-- running generation the requests counted are those that succeeded, failed or are under way;
-- half-open has let through at most max_requests of them and none has failed; open counts none.
pub Calls-Inv :
    (config : Config) (now n : ℕ) (t : Traffic)
    → suc n < limit
    → Calls (start config now) n t
    → Inv (2 * n + 1) n t.breaker t.flying
Calls-Inv config now n t room here = new-Inv config now
Calls-Inv config now n t room (next {n = m} {t = s} c step) =
    subst (λ g. Inv g (suc m) t.breaker t.flying) (omega arith)
      (Call-Inv (2 * m + 1) m s t (omega arith) (omega arith) step
        (Calls-Inv config now m s (omega arith) c))

-- So a half-open breaker never has more than max_requests probes under way.
pub probes_in_flight :
    (config : Config) (now n : ℕ) (t : Traffic)
    → suc n < limit
    → Calls (start config now) n t
    → t.breaker.state ≡ half_open
    → count t.breaker.generation t.flying ≤ t.breaker.config.max_requests
probes_in_flight config now n t room c h =
    let v = Calls-Inv config now n t room c in omega (arith, v.balance, v.probes h)
