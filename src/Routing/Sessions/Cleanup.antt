-- ===== src/Routing/Sessions/Cleanup.antt =====
-- What the cleanup of sticky sessions (api-gateway/internal/routing/sticky_session.go) leaves.
use pyairtable_go_services.Prelude.{
  ℕ, ◌≤◌, ◌≡◌, refl, sym, ◌∙◌, inl, inr, subst, String, true, false, [], ◌∷◌, none, Dict, arith,
  lookup, str_eq, eq_iff, eq_refl, Bool-cases,
}
use pyairtable_go_services.Routing.Sessions.{
  SessionBinding, Bindings, Sessions, is_expired, get_instance, live_bindings, keep_session,
  perform_cleanup, bound, bound_instance, get_instance_result,
}

-- No key stands twice.
abbrev pub Unique {ℓ} : {V : Type ℓ} → Dict V → Type ℓ
Unique [] = Unit
Unique (e ∷ rest) = (lookup e.0 rest ≡ none) × Unique rest

live-none :
    (now : ℕ) (name : String) (bindings : Bindings)
    → lookup name bindings ≡ none
    → lookup name (live_bindings now bindings) ≡ none
unfolding live_bindings lookup
live-none now name [] h = refl
live-none now name (b ∷ bindings) h = ground (arith, live-none now name bindings)

expired_later :
    (now later : ℕ) (b : SessionBinding)
    → now ≤ later
    → is_expired now b ≡ true
    → is_expired later b ≡ true
expired_later now later b h e = ground arith

live_bound :
    (now later : ℕ) (name : String) (bindings : Bindings)
    → now ≤ later
    → Unique bindings
    → bound later name (live_bindings now bindings) ≡ bound later name bindings
unfolding live_bindings lookup
live_bound now later name [] h u = refl
live_bound now later name (b ∷ bindings) h u = elim (Bool-cases (str_eq b.0 name)) [
  | inl same ↦
      let gone =
        live-none now name bindings
          (subst (λ k. lookup k bindings ≡ none) ((eq_iff b.0 name).0 same) u.0) in
      elim (Bool-cases (is_expired now b.1)) [
        | inl old ↦ rw (old, bound, same, gone, expired_later now later b.1 h old) refl
        | inr live ↦ rw (live, bound, same) refl
      ]
  | inr other ↦ elim (Bool-cases (is_expired now b.1)) [
    | inl old ↦ rw (old, bound, other) (live_bound now later name bindings h u.1)
    | inr live ↦ rw (live, bound, other) (live_bound now later name bindings h u.1)
  ]
]

cleanup-none :
    (now : ℕ) (session_id : String) (sessions : Sessions)
    → lookup session_id sessions ≡ none
    → lookup session_id (perform_cleanup now sessions) ≡ none
unfolding perform_cleanup lookup
cleanup-none now session_id [] h = refl
cleanup-none now session_id (s ∷ sessions) h =
    let other : str_eq s.0 session_id ≡ false = ground (arith, h) in
    let rest : lookup session_id sessions ≡ none = rw other at h in
    keep-none s.0 session_id (live_bindings now s.1) (perform_cleanup now sessions) other
      (cleanup-none now session_id sessions rest)
  where
    keep-none :
        (kept session_id : String) (bindings : Bindings) (rest : Sessions)
        → str_eq kept session_id ≡ false
        → lookup session_id rest ≡ none
        → lookup session_id (keep_session kept bindings rest) ≡ none
    keep-none kept session_id [] rest other h = h
    keep-none kept session_id (b ∷ bindings) rest other h = rw other h

abbrev AllUnique : Sessions → Type 0
AllUnique [] = Unit
AllUnique (s ∷ sessions) = Unique s.1 × AllUnique sessions

keep_bound :
    (now : ℕ) (session_id service_name : String) (bindings : Bindings) (rest : Sessions)
    → lookup session_id rest ≡ none
    → bound_instance now session_id service_name (keep_session session_id bindings rest)
      ≡ bound now service_name bindings
unfolding lookup
keep_bound now session_id service_name [] rest h = rw (bound_instance, h) refl
keep_bound now session_id service_name (b ∷ bindings) rest h =
    rw (bound_instance, eq_refl session_id) refl

keep_other :
    (now : ℕ) (kept session_id service_name : String) (bindings : Bindings) (rest : Sessions)
    → str_eq kept session_id ≡ false
    → bound_instance now session_id service_name (keep_session kept bindings rest)
      ≡ bound_instance now session_id service_name rest
unfolding lookup
keep_other now kept session_id service_name [] rest h = refl
keep_other now kept session_id service_name (b ∷ bindings) rest h = rw (bound_instance, h) refl

bound_perform_cleanup :
    (now later : ℕ) (session_id service_name : String) (sessions : Sessions)
    → now ≤ later
    → Unique sessions
    → AllUnique sessions
    → bound_instance later session_id service_name (perform_cleanup now sessions)
      ≡ bound_instance later session_id service_name sessions
unfolding perform_cleanup lookup
bound_perform_cleanup now later session_id service_name [] h u v = refl
bound_perform_cleanup now later session_id service_name (s ∷ sessions) h u v =
    let rest = bound_perform_cleanup now later session_id service_name sessions h u.1 v.1 in
    let kept = live_bindings now s.1 in
    elim (Bool-cases (str_eq s.0 session_id)) [
      | inl same ↦
          let e = (eq_iff s.0 session_id).0 same in
          let gone =
            cleanup-none now session_id sessions (subst (λ k. lookup k sessions ≡ none) e u.0) in
          rw (bound_instance, same)
            (subst
                (λ k.
                  bound_instance later session_id service_name
                    (keep_session k kept (perform_cleanup now sessions))
                  ≡ bound later service_name kept)
                (sym e)
                (keep_bound later session_id service_name kept (perform_cleanup now sessions) gone)
              ∙ live_bound now later service_name s.1 h v.0)
      | inr other ↦
          rw (bound_instance, other)
            (keep_other later s.0 session_id service_name kept (perform_cleanup now sessions) other
              ∙ rest)
    ]

-- The cleanup changes no answer: asked at the time of the cleanup or later, a session is given the
-- instance that it would have been given without, or none where none would have been given.
get_instance-perform_cleanup :
    (now later : ℕ) (session_id service_name : String) (sessions : Sessions)
    → now ≤ later
    → Unique sessions
    → AllUnique sessions
    → (get_instance later session_id service_name (perform_cleanup now sessions)).0
      ≡ (get_instance later session_id service_name sessions).0
get_instance-perform_cleanup now later session_id service_name sessions h u v =
    get_instance_result later session_id service_name (perform_cleanup now sessions)
    ∙ (bound_perform_cleanup now later session_id service_name sessions h u v
        ∙ sym (get_instance_result later session_id service_name sessions))
