-- ===== src/Domain/User/Replay.antt =====
-- What LoadFromHistory makes of the events that a user's calls raise (domain/user/aggregate.go).
use pyairtable_go_services.Prelude.{
  ℕ, String, ◌≡◌, refl, sym, ap, ◌∙◌, inl, inr, List, [], ◌∷◌, ◌++◌, map, Option, exists, str_eq,
  arith, Bool-cases, if◌then◌else◌,
}
use pyairtable_go_services.Domain.Shared.Types.{Env}
use pyairtable_go_services.Domain.Shared.Aggregate.{raise_event}
use pyairtable_go_services.Domain.Shared.Tracking.{Follows}
use pyairtable_go_services.Domain.User.Types.{
  UserAggregate, UserState, UserRole, user_status_active, user_status_deactivated, role_user,
}
use pyairtable_go_services.Domain.User.Account.{
  activate, deactivate, update_profile, profile_changes,
}
use pyairtable_go_services.Domain.User.Roles.{add_role, remove_role, is_role, remove_first}
use pyairtable_go_services.Domain.User.Sessions.{
  create_session, invalidate_session, invalidate_all_sessions, verify_email,
}
use pyairtable_go_services.Domain.User.History.{apply_user_event}
use pyairtable_go_services.Domain.User.Commands.{
  Command, activates, deactivates, updates_profile, adds_role, removes_role, creates_session,
  invalidates_session, invalidates_all_sessions, verifies_email, step,
}

abbrev pub role_names : List UserRole → List String
role_names = map (λ r. r.role)

-- The part of a user that its events carry.
pub record SameUser (s t : UserState) : Type 0 where
  pub email : t.email ≡ s.email
  pub first_name : t.first_name ≡ s.first_name
  pub last_name : t.last_name ≡ s.last_name
  pub status : t.status ≡ s.status
  pub avatar : t.profile.avatar ≡ s.profile.avatar
  pub timezone : t.profile.timezone ≡ s.profile.timezone
  pub language : t.profile.language ≡ s.profile.language
  pub roles : role_names t.roles ≡ role_names s.roles

pub SameUser-refl : (s : UserState) → SameUser s s
SameUser-refl s = record {
  email = refl;
  first_name = refl;
  last_name = refl;
  status = refl;
  avatar = refl;
  timezone = refl;
  language = refl;
  roles = refl;
}

abbrev pub UserFollows : UserAggregate → UserAggregate → UserState → Type 0
UserFollows u u' t = Follows apply_user_event SameUser u.base u'.base u'.state t

remove_name : String → List String → List String
remove_name r [] = []
remove_name r (x ∷ xs) = if str_eq x r then xs else x ∷ remove_name r xs

-- Which names are left depends on the names alone.
role_names-remove_first :
    (r : String) (rs : List UserRole)
    → role_names (remove_first r rs) ≡ remove_name r (role_names rs)
unfolding remove_first remove_name
role_names-remove_first r [] = refl
role_names-remove_first r (x ∷ rs) = ground (arith, role_names-remove_first r rs)

role_names-append :
    (rs : List UserRole) (x : UserRole) → role_names (rs ++ x ∷ []) ≡ role_names rs ++ x.role ∷ []
role_names-append [] x = refl
role_names-append (r ∷ rs) x = ap (◌∷◌ r.role) (role_names-append rs x)

module _ (env : Env) (u : UserAggregate) (t : UserState) (h : SameUser u.state t) where
  activate-Follows : UserFollows u (activate env u).0 t
  unfolding activate apply_user_event raise_event
  activate-Follows = elim (Bool-cases (str_eq u.state.status user_status_active)) [
    | inl e ↦ rw e (Follows.unchanged refl h)
    | inr e ↦ rw e (Follows.replayed _ _ refl refl refl refl (ground arith))
  ]

  deactivate-Follows : (reason : String) → UserFollows u (deactivate env reason u).0 t
  unfolding deactivate apply_user_event raise_event
  deactivate-Follows reason = elim (Bool-cases (str_eq u.state.status user_status_deactivated)) [
    | inl e ↦ rw e (Follows.unchanged refl h)
    | inr e ↦ rw e (Follows.replayed _ _ refl refl refl refl (ground arith))
  ]

  update_profile-Follows :
      (f l a tz g : String) → UserFollows u (update_profile env f l a tz g u).0 t
  unfolding update_profile apply_user_event raise_event
  update_profile-Follows f l a tz g = elim (Bool-cases (str_eq u.state.status user_status_active)) [
    | inl e ↦ rw e (elim (Bool-cases (profile_changes f l a tz g u.state)) [
      | inl c ↦ rw c (
          Follows.replayed _ _ refl refl refl refl (record {
            email = h.email;
            first_name = refl;
            last_name = refl;
            status = h.status;
            avatar = refl;
            timezone = refl;
            language = refl;
            roles = h.roles;
          }))
      | inr c ↦ rw c (Follows.unchanged refl h)
    ])
    | inr e ↦ rw e (Follows.unchanged refl h)
  ]

  with_roles :
      (rs rs' : List UserRole) (now : ℕ)
      → role_names rs' ≡ role_names rs
      → SameUser (record (u.state) { roles = rs; updated_at = now }) (record t { roles = rs' })
  with_roles rs rs' now e = record {
    email = h.email;
    first_name = h.first_name;
    last_name = h.last_name;
    status = h.status;
    avatar = h.avatar;
    timezone = h.timezone;
    language = h.language;
    roles = e;
  }

  add_role-Follows : (r by : String) (x : Option ℕ) → UserFollows u (add_role env r by x u).0 t
  unfolding add_role apply_user_event raise_event
  add_role-Follows r by x = elim (Bool-cases (str_eq u.state.status user_status_active)) [
    | inl e ↦ rw e (elim (Bool-cases (exists (is_role r) u.state.roles)) [
      | inl c ↦ rw c (Follows.unchanged refl h)
      | inr c ↦ rw c (
          Follows.replayed _ _ refl refl refl refl (
            with_roles _ _ _ (
              role_names-append t.roles _
              ∙ ap (λ ns. ns ++ r ∷ []) h.roles
              ∙ sym (role_names-append u.state.roles _))))
    ])
    | inr e ↦ rw e (Follows.unchanged refl h)
  ]

  remove_role-Follows : (r by : String) → UserFollows u (remove_role env r by u).0 t
  unfolding remove_role apply_user_event raise_event
  remove_role-Follows r by = elim (Bool-cases (str_eq u.state.status user_status_active)) [
    | inl e ↦ rw e (elim (Bool-cases (str_eq r role_user)) [
      | inl b ↦ rw b (Follows.unchanged refl h)
      | inr b ↦ rw b (elim (Bool-cases (exists (is_role r) u.state.roles)) [
        | inl c ↦ rw c (
            Follows.replayed _ _ refl refl refl refl (
              with_roles _ _ _ (
                role_names-remove_first r t.roles
                ∙ ap (remove_name r) h.roles
                ∙ sym (role_names-remove_first r u.state.roles))))
        | inr c ↦ rw c (Follows.unchanged refl h)
      ])
    ])
    | inr e ↦ rw e (Follows.unchanged refl h)
  ]

-- A call that raises no event leaves the part that events carry alone.
pub step-Follows :
    (env : Env) (c : Command) (u : UserAggregate) (t : UserState)
    → SameUser u.state t
    → UserFollows u (step env c u).0 t
unfolding step create_session invalidate_session invalidate_all_sessions verify_email
step-Follows env activates u t h = activate-Follows env u t h
step-Follows env (deactivates r) u t h = deactivate-Follows env u t h r
step-Follows env (updates_profile f l a tz g) u t h = update_profile-Follows env u t h f l a tz g
step-Follows env (adds_role r by x) u t h = add_role-Follows env u t h r by x
step-Follows env (removes_role r by) u t h = remove_role-Follows env u t h r by
step-Follows env (creates_session tok d i a n) u t h =
    Follows.unchanged (ground arith) (ground arith)
step-Follows env (invalidates_session i) u t h = Follows.unchanged (ground arith) (ground arith)
step-Follows env invalidates_all_sessions u t h = Follows.unchanged refl (ground arith)
step-Follows env verifies_email u t h = Follows.unchanged (ground arith) (ground arith)
