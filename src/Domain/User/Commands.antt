-- ===== src/Domain/User/Commands.antt =====
-- The calls that change a user aggregate (domain/user/aggregate.go), as values, and runs of them.
use pyairtable_go_services.Prelude.{
  ℕ, String, ◌≡◌, refl, ◌∙◌, inl, inr, List, [], ◌∷◌, Option, none, some, exists, str_eq, arith,
  Bool-cases,
}
use pyairtable_go_services.Domain.Shared.Error.{Error}
use pyairtable_go_services.Domain.Shared.Types.{Env}
use pyairtable_go_services.Domain.Shared.Stamps.{
  IsStamped, Raises, quiet, raised, Raises-IsStamped, Raises-id,
}
use pyairtable_go_services.Domain.User.Types.{
  UserAggregate, user_status_active, user_status_deactivated, role_user,
}
use pyairtable_go_services.Domain.User.Account.{
  activate, deactivate, update_profile, profile_changes,
}
use pyairtable_go_services.Domain.User.Roles.{add_role, remove_role, is_role}
use pyairtable_go_services.Domain.User.Sessions.{
  create_session, invalidate_session, invalidate_all_sessions, verify_email,
}

pub data Command : Type 0 where
  activates : Command
  deactivates : (reason : String) → Command
  updates_profile : (first_name last_name avatar timezone language : String) → Command
  adds_role : (role assigned_by : String) → (expires_at : Option ℕ) → Command
  removes_role : (role removed_by : String) → Command
  creates_session :
      (token : Option String)
      → (device_info ip_address user_agent : String) → (duration : ℕ) → Command
  invalidates_session : (session_id : String) → Command
  invalidates_all_sessions : Command
  verifies_email : Command

unfoldable pub step : Env → Command → UserAggregate → UserAggregate × Option Error
step env activates u = activate env u
step env (deactivates reason) u = deactivate env reason u
step env (updates_profile f l a t g) u = update_profile env f l a t g u
step env (adds_role r by t) u = add_role env r by t u
step env (removes_role r by) u = remove_role env r by u
step env (creates_session tok d i a n) u =
    let (u', s, e) = create_session env tok d i a n u in (u', e)
step env (invalidates_session i) u = invalidate_session env i u
step env invalidates_all_sessions u = (invalidate_all_sessions env u, none)
step env verifies_email u = verify_email env u

unfoldable pub run : List (Env × Command) → UserAggregate → UserAggregate
run [] u = u
run ((env, c) ∷ cs) u = run cs (step env c u).0

-- A call on a user that returns an error leaves the aggregate, its root and its events included, as they were.
user_error_unchanged :
    (env : Env) (c : Command) (u : UserAggregate) {e : Error}
    → (step env c u).1 ≡ some e
    → (step env c u).0 ≡ u
unfolding step activate deactivate update_profile add_role remove_role create_session
    invalidate_session verify_email
user_error_unchanged env activates u h = ground arith
user_error_unchanged env _ u h = ground arith

activate-Raises : (env : Env) (u : UserAggregate) → Raises u.base (activate env u).0.base
unfolding activate
activate-Raises env u = elim (Bool-cases (str_eq u.state.status user_status_active)) [
  | inl e ↦ rw e (quiet refl)
  | inr e ↦ rw e (raised _ _ _ _ _ refl)
]

deactivate-Raises :
    (env : Env) (r : String) (u : UserAggregate) → Raises u.base (deactivate env r u).0.base
unfolding deactivate
deactivate-Raises env r u = elim (Bool-cases (str_eq u.state.status user_status_deactivated)) [
  | inl e ↦ rw e (quiet refl)
  | inr e ↦ rw e (raised _ _ _ _ _ refl)
]

update_profile-Raises :
    (env : Env) (f l a t g : String) (u : UserAggregate)
    → Raises u.base (update_profile env f l a t g u).0.base
unfolding update_profile
update_profile-Raises env f l a t g u =
    elim (Bool-cases (str_eq u.state.status user_status_active)) [
      | inl e ↦ rw e (elim (Bool-cases (profile_changes f l a t g u.state)) [
        | inl c ↦ rw c (raised _ _ _ _ _ refl)
        | inr c ↦ rw c (quiet refl)
      ])
      | inr e ↦ rw e (quiet refl)
    ]

add_role-Raises :
    (env : Env) (r by : String) (t : Option ℕ) (u : UserAggregate)
    → Raises u.base (add_role env r by t u).0.base
unfolding add_role
add_role-Raises env r by t u = elim (Bool-cases (str_eq u.state.status user_status_active)) [
  | inl e ↦ rw e (elim (Bool-cases (exists (is_role r) u.state.roles)) [
    | inl x ↦ rw x (quiet refl)
    | inr x ↦ rw x (raised _ _ _ _ _ refl)
  ])
  | inr e ↦ rw e (quiet refl)
]

remove_role-Raises :
    (env : Env) (r by : String) (u : UserAggregate) → Raises u.base (remove_role env r by u).0.base
unfolding remove_role
remove_role-Raises env r by u = elim (Bool-cases (str_eq u.state.status user_status_active)) [
  | inl e ↦ rw e (elim (Bool-cases (str_eq r role_user)) [
    | inl b ↦ rw b (quiet refl)
    | inr b ↦ rw b (elim (Bool-cases (exists (is_role r) u.state.roles)) [
      | inl x ↦ rw x (raised _ _ _ _ _ refl)
      | inr x ↦ rw x (quiet refl)
    ])
  ])
  | inr e ↦ rw e (quiet refl)
]

session-quiet :
    (env : Env) (tok : Option String) (d i a : String) (n : ℕ) (u : UserAggregate)
    → (create_session env tok d i a n u).0.base ≡ u.base
unfolding create_session
session-quiet env tok d i a n u = ground arith

invalidate_session-quiet :
    (env : Env) (i : String) (u : UserAggregate) → (invalidate_session env i u).0.base ≡ u.base
unfolding invalidate_session
invalidate_session-quiet env i u = ground arith

verify_email-quiet : (env : Env) (u : UserAggregate) → (verify_email env u).0.base ≡ u.base
unfolding verify_email
verify_email-quiet env u = ground arith

user_step-Raises :
    (env : Env) (c : Command) (u : UserAggregate) → Raises u.base (step env c u).0.base
unfolding step invalidate_all_sessions
user_step-Raises env activates u = activate-Raises env u
user_step-Raises env (deactivates r) u = deactivate-Raises env r u
user_step-Raises env (updates_profile f l a t g) u = update_profile-Raises env f l a t g u
user_step-Raises env (adds_role r by t) u = add_role-Raises env r by t u
user_step-Raises env (removes_role r by) u = remove_role-Raises env r by u
user_step-Raises env (creates_session tok d i a n) u = quiet (session-quiet env tok d i a n u)
user_step-Raises env (invalidates_session i) u = quiet (invalidate_session-quiet env i u)
user_step-Raises env invalidates_all_sessions u = quiet refl
user_step-Raises env verifies_email u = quiet (verify_email-quiet env u)

-- Through any run of calls on a user, failing ones included, the events not yet saved carry consecutive
-- versions that end at the aggregate's own, with its identifier and its tenant's.
pub user_run-IsStamped :
    (saved : ℕ) (cs : List (Env × Command)) (u : UserAggregate)
    → IsStamped saved u.base
    → IsStamped saved (run cs u).base
unfolding run
user_run-IsStamped saved [] u s = s
user_run-IsStamped saved ((env, c) ∷ cs) u s =
    user_run-IsStamped saved cs (step env c u).0
      (Raises-IsStamped saved u.base (step env c u).0.base (user_step-Raises env c u) s)

pub user_run-id : (cs : List (Env × Command)) (u : UserAggregate) → (run cs u).base.id ≡ u.base.id
unfolding run
user_run-id [] u = refl
user_run-id ((env, c) ∷ cs) u =
    user_run-id cs (step env c u).0
    ∙ Raises-id u.base (step env c u).0.base (user_step-Raises env c u)
