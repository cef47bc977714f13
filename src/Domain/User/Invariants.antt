-- ===== src/Domain/User/Invariants.antt =====
-- What every user aggregate keeps over any calls (domain/user/aggregate.go).
use pyairtable_go_services.Prelude.{
  ℕ, ◌≡◌, String, true, false, refl, sym, ◌∙◌, subst, inl, inr, List, [], ◌∷◌, ◌++◌, Option, none,
  some, Dict, lookup, insert, map_values, lookup-insert, lookup-map_values, str_eq, eq_iff, arith,
  Bool-cases, Option-cases, exists,
}
use pyairtable_go_services.Domain.Shared.Types.{Env, Email}
use pyairtable_go_services.Domain.User.Types.{
  UserAggregate, UserState, UserRole, AuthSession, user_status_active, user_status_deactivated,
  role_user,
}
use pyairtable_go_services.Domain.User.Account.{
  activate, deactivate, update_profile, end_session, created_user,
}
use pyairtable_go_services.Domain.User.Roles.{
  add_role, remove_role, is_role, remove_first, has_role,
}
use pyairtable_go_services.Domain.User.Sessions.{
  create_session, invalidate_session, invalidate_all_sessions, verify_email,
}
use pyairtable_go_services.Domain.User.Commands.{
  Command, activates, deactivates, updates_profile, adds_role, removes_role, creates_session,
  invalidates_session, invalidates_all_sessions, verifies_email, step, run,
}

-- The first role is the base role, for ever.
pub record HasBaseRole (rs : List UserRole) : Type 0 where
  pub first : UserRole
  pub rest : List UserRole
  pub split : rs ≡ first ∷ rest
  pub role : first.role ≡ role_user
  pub for_ever : first.expires_at ≡ none

append-HasBaseRole :
    (rs : List UserRole) (r : UserRole) → HasBaseRole rs → HasBaseRole (rs ++ r ∷ [])
append-HasBaseRole rs r h = record {
  first = h.first;
  rest = h.rest ++ r ∷ [];
  split = rw h.split refl;
  role = h.role;
  for_ever = h.for_ever;
}

remove-HasBaseRole :
    (role : String) (rs : List UserRole)
    → str_eq role role_user ≡ false
    → HasBaseRole rs
    → HasBaseRole (remove_first role rs)
unfolding remove_first
remove-HasBaseRole role rs other h = record {
  first = h.first;
  rest = remove_first role h.rest;
  split = ground (arith, h.split, h.role, eq_iff role_user role, eq_iff role role_user);
  role = h.role;
  for_ever = h.for_ever;
}

-- No session is active.
abbrev pub AllEnded : Dict AuthSession → Type 0
AllEnded sessions =
    (k : String) (s : AuthSession) → lookup k sessions ≡ some s → s.is_active ≡ false

ended-AllEnded : (sessions : Dict AuthSession) → AllEnded (map_values end_session sessions)
ended-AllEnded sessions k s found =
    let e = sym (lookup-map_values end_session k sessions) ∙ found in ground (arith, e)

insert-AllEnded :
    (k : String) (s : AuthSession) (sessions : Dict AuthSession)
    → AllEnded sessions
    → AllEnded (insert k (end_session s) sessions)
insert-AllEnded k s sessions h j t found =
    let e = sym (lookup-insert k j (end_session s) sessions) ∙ found in
    elim (Bool-cases (str_eq k j)) [
      | inl same ↦ ground (arith, e)
      | inr other ↦ h j t (ground arith)
    ]

pub record IsSound (u : UserState) : Type 0 where
  pub base_role : HasBaseRole u.roles
  pub sessions : str_eq u.status user_status_active ≡ false → AllEnded u.sessions

same-IsSound :
    (s t : UserState)
    → t.roles ≡ s.roles
    → t.status ≡ s.status
    → t.sessions ≡ s.sessions
    → IsSound s
    → IsSound t
same-IsSound s t r a e h = record {
  base_role = subst HasBaseRole (sym r) h.base_role;
  sessions = λ inactive. subst AllEnded (sym e) (h.sessions (rw a at inactive));
}

module _ (env : Env) (u : UserAggregate) (h : IsSound u.state) where
  activate-IsSound : IsSound (activate env u).0.state
  unfolding activate
  activate-IsSound = elim (Bool-cases (str_eq u.state.status user_status_active)) [
    | inl e ↦ rw e h
    | inr e ↦ rw e (record { base_role = h.base_role; sessions = λ inactive. cc inactive })
  ]

  deactivate-IsSound : (r : String) → IsSound (deactivate env r u).0.state
  unfolding deactivate
  deactivate-IsSound r = elim (Bool-cases (str_eq u.state.status user_status_deactivated)) [
    | inl e ↦ rw e h
    | inr e ↦
        rw e (record {
          base_role = h.base_role;
          sessions = λ inactive. ended-AllEnded u.state.sessions;
        })
  ]

  update_profile-IsSound : (f l a tz g : String) → IsSound (update_profile env f l a tz g u).0.state
  unfolding update_profile
  update_profile-IsSound f l a tz g =
      same-IsSound u.state _ (ground arith) (ground arith) (ground arith) h

  add_role-IsSound : (r by : String) (x : Option ℕ) → IsSound (add_role env r by x u).0.state
  unfolding add_role
  add_role-IsSound r by x = elim (Bool-cases (str_eq u.state.status user_status_active)) [
    | inr e ↦ rw e h
    | inl e ↦ rw e (elim (Bool-cases (exists (is_role r) u.state.roles)) [
      | inl c ↦ rw c h
      | inr c ↦ rw c (record {
        base_role = append-HasBaseRole u.state.roles _ h.base_role;
        sessions = h.sessions;
      })
    ])
  ]

  remove_role-IsSound : (r by : String) → IsSound (remove_role env r by u).0.state
  unfolding remove_role
  remove_role-IsSound r by = elim (Bool-cases (str_eq u.state.status user_status_active)) [
    | inr e ↦ rw e h
    | inl e ↦ rw e (elim (Bool-cases (str_eq r role_user)) [
      | inl b ↦ rw b h
      | inr b ↦ rw b (elim (Bool-cases (exists (is_role r) u.state.roles)) [
        | inr c ↦ rw c h
        | inl c ↦ rw c (record {
          base_role = remove-HasBaseRole r u.state.roles b h.base_role;
          sessions = h.sessions;
        })
      ])
    ])
  ]

  create_session-IsSound :
      (tok : Option String) (d i a : String) (n : ℕ)
      → IsSound (create_session env tok d i a n u).0.state
  unfolding create_session
  create_session-IsSound none d i a n = ground arith
  create_session-IsSound (some t) d i a n =
      elim (Bool-cases (str_eq u.state.status user_status_active)) [
        | inr e ↦ rw e h
        | inl e ↦
            rw e (record { base_role = h.base_role; sessions = λ inactive. absurd (ground arith) })
      ]

  invalidate_session-IsSound : (i : String) → IsSound (invalidate_session env i u).0.state
  unfolding invalidate_session
  invalidate_session-IsSound i = elim (Option-cases (lookup i u.state.sessions)) [
    | inl e ↦ rw (invalidate_session, e) h
    | inr (s, e) ↦
        rw (invalidate_session, e)
          (record {
            base_role = h.base_role;
            sessions = λ inactive. insert-AllEnded i s u.state.sessions (h.sessions inactive);
          })
  ]

  verify_email-IsSound : IsSound (verify_email env u).0.state
  unfolding verify_email
  verify_email-IsSound = same-IsSound u.state _ (ground arith) (ground arith) (ground arith) h

step-IsSound :
    (env : Env) (c : Command) (u : UserAggregate) → IsSound u.state → IsSound (step env c u).0.state
unfolding step invalidate_all_sessions
step-IsSound env activates u h = activate-IsSound env u h
step-IsSound env (deactivates r) u h = deactivate-IsSound env u h r
step-IsSound env (updates_profile f l a tz g) u h = update_profile-IsSound env u h f l a tz g
step-IsSound env (adds_role r by x) u h = add_role-IsSound env u h r by x
step-IsSound env (removes_role r by) u h = remove_role-IsSound env u h r by
step-IsSound env (creates_session tok d i a n) u h = create_session-IsSound env u h tok d i a n
step-IsSound env (invalidates_session i) u h = invalidate_session-IsSound env u h i
step-IsSound env invalidates_all_sessions u h = record {
  base_role = h.base_role;
  sessions = λ inactive. ended-AllEnded u.state.sessions;
}
step-IsSound env verifies_email u h = verify_email-IsSound env u h

run-IsSound :
    (cs : List (Env × Command)) (u : UserAggregate) → IsSound u.state → IsSound (run cs u).state
unfolding run
run-IsSound [] u h = h
run-IsSound ((env, c) ∷ cs) u h = run-IsSound cs (step env c u).0 (step-IsSound env c u h)

created-IsSound :
    (env : Env) (id tenant_id : String) (email : Email) (hash first last : String)
    → IsSound (created_user env id tenant_id email hash first last).state
unfolding created_user lookup
created-IsSound env id tenant_id email hash first last = record {
  base_role = record { first = _; rest = _; split = refl; role = refl; for_ever = refl };
  sessions = λ inactive k s found. cc found;
}

-- After any run of calls on a new user, failing ones included, no session is active unless the
-- user's status is active.
pub inactive_user-no_session :
    (env : Env) (id tenant_id : String) (email : Email) (hash first last : String)
    (cs : List (Env × Command)) (k : String) (s : AuthSession)
    → str_eq
        (run cs (created_user env id tenant_id email hash first last)).state.status
        user_status_active
      ≡ false
    → lookup k (run cs (created_user env id tenant_id email hash first last)).state.sessions
      ≡ some s
    → s.is_active ≡ false
inactive_user-no_session env id tenant_id email hash first last cs k s inactive =
    let u = created_user env id tenant_id email hash first last in
    (run-IsSound cs u (created-IsSound env id tenant_id email hash first last)).sessions inactive k
      s

first-has_role :
    (env : Env) (u : UserAggregate) → HasBaseRole u.state.roles → has_role env role_user u ≡ true
unfolding has_role
first-has_role env u h = rw (has_role, h.split, h.role, h.for_ever) refl

-- After any run of calls on a new user, failing ones included, HasRole finds the base role, at
-- whatever time.
base_role_stays :
    (env : Env) (id tenant_id : String) (email : Email) (hash first last : String)
    (cs : List (Env × Command)) (env' : Env)
    → has_role env' role_user (run cs (created_user env id tenant_id email hash first last)) ≡ true
base_role_stays env id tenant_id email hash first last cs env' =
    let u = created_user env id tenant_id email hash first last in
    first-has_role env' (run cs u)
      (run-IsSound cs u (created-IsSound env id tenant_id email hash first last)).base_role
