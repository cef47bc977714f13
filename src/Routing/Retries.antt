-- ===== src/Routing/Retries.antt =====
-- The attempts of executeRequest (api-gateway/internal/routing/engine.go): when a request succeeds,
-- and what it adds to the counters of its instance.
use pyairtable_go_services.Prelude.{
  ℕ, zero, suc, ◌+◌, ◌<◌, ◌≡◌, ◌↔◌, refl, sym, ◌∙◌, ap, subst, inl, inr, Bool, true, false, ◌||◌,
  Option, none, some, pos, ◌+ℤ◌, int64_max, increment_exact, arith, Bool-cases,
}
use pyairtable_go_services.Routing.{ServiceInstance, increment_errors}
use pyairtable_go_services.Routing.Engine.{
  RouteError, fiber_error, other_error, read_failed, stream_failed, Attempt, not_created,
  unanswered, answered, measured, perform_request, after_attempt, rounds, attempts_from,
  execute_request,
}

-- An attempt that ends the loop with success.
abbrev pub succeeds : Attempt → Bool
succeeds (answered duration none) = true
succeeds other = false

-- One of the next attempts succeeds.
abbrev pub one_succeeds : (ℕ → Attempt) → ℕ → ℕ → Bool
one_succeeds answers attempt zero = false
one_succeeds answers attempt (suc left) =
    succeeds (answers attempt) || one_succeeds answers (suc attempt) left

module _ (answers : ℕ → Attempt) where
  -- An attempt that fails is followed by the next: none of its errors is a client error.
  after_failure :
      (next : Option RouteError → ServiceInstance → Option RouteError × ServiceInstance)
      (a : Attempt) (s : ServiceInstance)
      → succeeds a ≡ false
      → (e : RouteError) × (after_attempt next (perform_request a s)
          ≡ next (some e) (perform_request a s).1)
  unfolding perform_request
  after_failure next not_created s f = (fiber_error 500, refl)
  after_failure next (unanswered duration) s f = (fiber_error 502, refl)
  after_failure next (answered duration none) s f = absurd (cc)
  after_failure next (answered duration (some read_failed)) s f = (fiber_error 500, refl)
  after_failure next (answered duration (some stream_failed)) s f = (other_error, refl)

  after_success :
      (next : Option RouteError → ServiceInstance → Option RouteError × ServiceInstance)
      (a : Attempt) (s : ServiceInstance)
      → succeeds a ≡ true
      → after_attempt next (perform_request a s) ≡ (none, (perform_request a s).1)
  unfolding perform_request
  after_success next not_created s f = absurd (cc)
  after_success next (unanswered duration) s f = absurd (cc)
  after_success next (answered duration none) s f = refl
  after_success next (answered duration (some e)) s f = absurd (cc)

  failed_step :
      (attempt left : ℕ) (last : Option RouteError) (s : ServiceInstance)
      → succeeds (answers attempt) ≡ false
      → (e : RouteError) × (attempts_from answers attempt (suc left) last s
          ≡ attempts_from answers
              (suc attempt)
              left
              (some e)
              (perform_request (answers attempt) s).1)
  unfolding attempts_from
  failed_step attempt left last s f =
      after_failure (attempts_from answers (suc attempt) left) (answers attempt) s f

  succeeded_step :
      (attempt left : ℕ) (last : Option RouteError) (s : ServiceInstance)
      → succeeds (answers attempt) ≡ true
      → attempts_from answers attempt (suc left) last s
        ≡ (none, (perform_request (answers attempt) s).1)
  unfolding attempts_from
  succeeded_step attempt left last s f =
      after_success (attempts_from answers (suc attempt) left) (answers attempt) s f

  ends_with_error :
      (attempt : ℕ) (e : RouteError) (s : ServiceInstance)
      → ((attempts_from answers attempt zero (some e) s).0 ≡ none) ↔ (false ≡ true)
  unfolding attempts_from
  ends_with_error attempt e s = ((λ h. cc), (λ h. cc))

  attempts_from-none :
      (attempt left : ℕ) (e : RouteError) (s : ServiceInstance)
      → ((attempts_from answers attempt left (some e) s).0 ≡ none)
        ↔ (one_succeeds answers attempt left ≡ true)
  attempts_from-none attempt zero e s = ends_with_error attempt e s
  attempts_from-none attempt (suc left) e s = elim (Bool-cases (succeeds (answers attempt))) [
    | inl ok ↦
        let done = succeeded_step attempt left (some e) s ok in
        rw (ok, done) ((λ h. refl), (λ h. refl))
    | inr bad ↦
        let (e', next) = failed_step attempt left (some e) s bad in
        rw (bad, next)
          (attempts_from-none (suc attempt) left e' (perform_request (answers attempt) s).1)
  ]

  -- A request with a retry count of n is reported as a success exactly when one of its first n + 1
  -- attempts succeeds.
  pub execute_request-none :
      (s : ServiceInstance) (n : ℕ)
      → s.retry_count ≡ pos n
      → ((execute_request answers s).0 ≡ none) ↔ (one_succeeds answers 0 (suc n) ≡ true)
  unfolding execute_request
  execute_request-none s n h =
      subst
        (λ k.
          ((attempts_from answers 0 (rounds k) none s).0 ≡ none)
          ↔ (one_succeeds answers 0 (suc n) ≡ true))
        (sym h)
        (elim (Bool-cases (succeeds (answers 0))) [
          | inl ok ↦ rw (ok, succeeded_step 0 n none s ok) ((λ h. refl), (λ h. refl))
          | inr bad ↦
              let (e, next) = failed_step 0 n none s bad in
              rw (bad, next) (attempts_from-none 1 n e (perform_request (answers 0) s).1)
        ])

  module _ (times : ℕ → ℕ) (silent : (i : ℕ) → answers i ≡ unanswered (times i)) where
    silent_step :
        (attempt left : ℕ) (last : Option RouteError) (s : ServiceInstance)
        → attempts_from answers attempt (suc left) last s
          ≡ attempts_from answers
              (suc attempt)
              left
              (some (fiber_error 502))
              (increment_errors (measured (times attempt) s))
    unfolding attempts_from perform_request
    silent_step attempt left last s =
        subst
          (λ a.
            after_attempt (attempts_from answers (suc attempt) left) (perform_request a s)
            ≡ attempts_from answers (suc attempt) left (some (fiber_error 502))
                (increment_errors (measured (times attempt) s)))
          (sym (silent attempt)) refl

    -- The counters after a number of attempts that were not answered, and the end.
    silent_counts :
        (attempt left requests errors : ℕ) (last : Option RouteError) (s : ServiceInstance)
        → s.request_count ≡ pos requests
        → s.error_count ≡ pos errors
        → requests + left < int64_max
        → errors + left < int64_max
        → ((attempts_from answers attempt left last s).1.request_count ≡ pos (requests + left))
          × ((attempts_from answers attempt left last s).1.error_count ≡ pos (errors + left + 1))
    unfolding attempts_from
    silent_counts attempt zero requests errors last s r e room_r room_e = (
      r ∙ ap pos (omega arith),
      ap (λ c. c +ℤ pos 1) e ∙ (increment_exact errors (omega arith) ∙ ap pos (omega arith)),
    )
    silent_counts attempt (suc left) requests errors last s r e room_r room_e =
        let s' = increment_errors (measured (times attempt) s) in
        let r' : s'.request_count ≡ pos (requests + 1) =
          ap (λ c. c +ℤ pos 1) r ∙ increment_exact requests (omega arith) in
        let e' : s'.error_count ≡ pos (errors + 1) =
          ap (λ c. c +ℤ pos 1) e ∙ increment_exact errors (omega arith) in
        let (requests_after, errors_after) =
          silent_counts (suc attempt) left (requests + 1) (errors + 1) (some (fiber_error 502)) s'
            r' e' (omega arith) (omega arith) in
        rw (silent_step attempt left last s)
          (requests_after ∙ ap pos (omega arith), errors_after ∙ ap pos (omega arith))

    -- A request with a retry count of n that no attempt gets an answer for adds n + 1 to the requests of
    -- the instance and n + 2 to its errors: more errors than requests. The counters have room.
    pub execute_request_unanswered :
        (s : ServiceInstance) (n requests errors : ℕ)
        → s.retry_count ≡ pos n
        → s.request_count ≡ pos requests
        → s.error_count ≡ pos errors
        → requests + n + 1 < int64_max
        → errors + n + 1 < int64_max
        → ((execute_request answers s).1.request_count ≡ pos (requests + n + 1))
          × ((execute_request answers s).1.error_count ≡ pos (errors + n + 2))
    unfolding execute_request
    execute_request_unanswered s n requests errors h r e room_r room_e =
        let counts =
          silent_counts 0 (suc n) requests errors none s r e (omega arith) (omega arith) in
        let counts' =
          subst
            (λ k.
              ((attempts_from answers 0 k none s).1.request_count ≡ pos (requests + suc n))
              × ((attempts_from answers 0 k none s).1.error_count ≡ pos (errors + suc n + 1)))
            (sym (ap rounds h)) counts in
        (counts'.0 ∙ ap pos (omega arith), counts'.1 ∙ ap pos (omega arith))
