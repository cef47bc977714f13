-- ===== src/Routing/Sessions.antt =====
-- api-gateway/internal/routing/sticky_session.go. A call takes the time at which it is made; the
-- cleanup is one step. No map holds a key twice.
pub mod Cleanup
pub mod Kept
use pyairtable_go_services.Prelude.{
  ℕ, ◌+◌, ◌-◌, ◌≤◌, ◌<◌, ◌≡◌, refl, ◌∙◌, inl, inr, subst, String, Bool, true, false, not, ◌&&◌,
  List, [], ◌∷◌, Option, none, some, Dict, arith, All, lookup, insert, erase, lookup-insert,
  lookup-erase, str_eq, eq_iff, eq_refl, ltb, if◌then◌else◌, Bool-cases, Option-cases,
}
use pyairtable_go_services.Routing.{Ref}

pub record SessionBinding : Type 0 where
  pub instance_ref : Ref
  pub created_at : ℕ
  pub last_used : ℕ

abbrev pub Bindings : Type 0
Bindings = Dict SessionBinding

abbrev pub Sessions : Type 0
Sessions = Dict Bindings

-- 30 minutes
abbrev pub session_ttl : ℕ
session_ttl = 1800000000000

abbrev pub is_expired : ℕ → SessionBinding → Bool
is_expired now b = ltb session_ttl (now - b.created_at)

abbrev pub new_binding : ℕ → Ref → SessionBinding
new_binding now r = record { instance_ref = r; created_at = now; last_used = now }

unfoldable pub set_instance : ℕ → String → String → Ref → Sessions → Sessions
set_instance now session_id service_name r sessions =
    let bindings : Bindings = elim (lookup session_id sessions) [
      | none ↦ []
      | some found ↦ found
    ] in
    insert session_id (insert service_name (new_binding now r) bindings) sessions

-- A session that has lost its last binding goes.
abbrev pub keep_bindings : String → Bindings → Sessions → Sessions
keep_bindings session_id [] sessions = erase session_id sessions
keep_bindings session_id (b ∷ bindings) sessions = insert session_id (b ∷ bindings) sessions

unfoldable pub get_instance : ℕ → String → String → Sessions → Option Ref × Sessions
get_instance now session_id service_name sessions = elim (lookup session_id sessions) [
  | none ↦ (none, sessions)
  | some bindings ↦ elim (lookup service_name bindings) [
    | none ↦ (none, sessions)
    | some b ↦
        if is_expired now b
        then (none, keep_bindings session_id (erase service_name bindings) sessions)
        else (
          some b.instance_ref,
          insert session_id (insert service_name (record b { last_used = now }) bindings) sessions,
        )
  ]
]

unfoldable pub remove_session : String → String → Sessions → Sessions
remove_session session_id service_name sessions = elim (lookup session_id sessions) [
  | none ↦ sessions
  | some bindings ↦ keep_bindings session_id (erase service_name bindings) sessions
]

abbrev pub remove_all_sessions : String → Sessions → Sessions
remove_all_sessions session_id sessions = erase session_id sessions

unfoldable pub live_bindings : ℕ → Bindings → Bindings
live_bindings now [] = []
live_bindings now (b ∷ bindings) =
    let rest = live_bindings now bindings in if is_expired now b.1 then rest else b ∷ rest

abbrev pub keep_session : String → Bindings → Sessions → Sessions
keep_session session_id [] rest = rest
keep_session session_id (b ∷ bindings) rest = (session_id, b ∷ bindings) ∷ rest

unfoldable pub perform_cleanup : ℕ → Sessions → Sessions
unfolding live_bindings
perform_cleanup now [] = []
perform_cleanup now (s ∷ sessions) =
    keep_session s.0 (live_bindings now s.1) (perform_cleanup now sessions)

-- The instance that a session is bound to for a service, where the binding still holds.
abbrev pub bound : ℕ → String → Bindings → Option Ref
bound now service_name bindings = elim (lookup service_name bindings) [
  | none ↦ none
  | some b ↦ if is_expired now b then none else some b.instance_ref
]

abbrev pub bound_instance : ℕ → String → String → Sessions → Option Ref
bound_instance now session_id service_name sessions = elim (lookup session_id sessions) [
  | none ↦ none
  | some bindings ↦ bound now service_name bindings
]

pub get_instance_result :
    (now : ℕ) (session_id service_name : String) (sessions : Sessions)
    → (get_instance now session_id service_name sessions).0
      ≡ bound_instance now session_id service_name sessions
unfolding get_instance
get_instance_result now session_id service_name sessions =
    elim (Option-cases (lookup session_id sessions)) [
      | inl e ↦ rw (get_instance, bound_instance, e) refl
      | inr (bindings, e) ↦ elim (Option-cases (lookup service_name bindings)) [
        | inl f ↦ rw (get_instance, bound_instance, e, bound, f) refl
        | inr (b, f) ↦ elim (Bool-cases (is_expired now b)) [
          | inl g ↦ rw (get_instance, bound_instance, e, bound, f, g) refl
          | inr g ↦ rw (get_instance, bound_instance, e, bound, f, g) refl
        ]
      ]
    ]

abbrev bindings_of : String → Sessions → Bindings
bindings_of session_id sessions = elim (lookup session_id sessions) [
  | none ↦ []
  | some found ↦ found
]

bound_of :
    (now : ℕ) (session_id name : String) (sessions : Sessions)
    → bound now name (bindings_of session_id sessions) ≡ bound_instance now session_id name sessions
unfolding lookup
bound_of now session_id name sessions = elim (Option-cases (lookup session_id sessions)) [
  | inl e ↦ rw (bindings_of, bound_instance, e) refl
  | inr (bindings, e) ↦ rw (bindings_of, bound_instance, e) refl
]

bound-insert :
    (later : ℕ) (written name : String) (b : SessionBinding) (bindings : Bindings)
    → bound later name (insert written b bindings) ≡ (
        if str_eq written name
        then if is_expired later b then none else some b.instance_ref
        else bound later name bindings)
bound-insert later written name b bindings =
    rw (bound, lookup-insert written name b bindings)
      (elim (Bool-cases (str_eq written name)) [ inl e ↦ rw e refl | inr e ↦ rw e refl ])

bound_set_instance :
    (now later : ℕ) (session_id service_name other_id other_name : String) (r : Ref)
    (sessions : Sessions)
    → bound_instance later other_id other_name (set_instance now session_id service_name r sessions)
      ≡ (if str_eq session_id other_id && str_eq service_name other_name
          then if ltb session_ttl (later - now) then none else some r
          else bound_instance later other_id other_name sessions)
unfolding set_instance
bound_set_instance now later session_id service_name other_id other_name r sessions =
    let written = insert service_name (new_binding now r) (bindings_of session_id sessions) in
    rw (bound_instance, lookup-insert session_id other_id written sessions)
      (elim (Bool-cases (str_eq session_id other_id)) [
        | inl same ↦
            rw
              (
                same,
                bound-insert later service_name other_name (new_binding now r)
                    (bindings_of session_id sessions),
                bound_of later session_id other_name sessions,
              )
              (subst
                (λ k.
                  (if str_eq service_name other_name
                    then if ltb session_ttl (later - now) then none else some r
                    else bound_instance later session_id other_name sessions)
                  ≡ (if str_eq service_name other_name
                      then if ltb session_ttl (later - now) then none else some r
                      else bound_instance later k other_name sessions))
                ((eq_iff session_id other_id).0 same) refl)
        | inr other ↦ rw other refl
      ])

-- A session is given the instance that was set, until the binding expires; what other sessions and
-- other services are bound to stays.
get_instance-set_instance :
    (now later : ℕ) (session_id service_name other_id other_name : String) (r : Ref)
    (sessions : Sessions)
    → (get_instance later other_id other_name
        (set_instance now session_id service_name r sessions)).0
      ≡ (if str_eq session_id other_id && str_eq service_name other_name
          then if ltb session_ttl (later - now) then none else some r
          else (get_instance later other_id other_name sessions).0)
get_instance-set_instance now later session_id service_name other_id other_name r sessions =
    rw
      (
        get_instance_result later other_id other_name
            (set_instance now session_id service_name r sessions),
        get_instance_result later other_id other_name sessions,
      )
      (bound_set_instance now later session_id service_name other_id other_name r sessions)
