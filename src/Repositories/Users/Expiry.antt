-- ===== src/Repositories/Users/Expiry.antt =====
-- What becomes of the expiry of a role when a user is loaded (pkg/repositories, domain/user).
use pyairtable_go_services.Prelude.{
  String, ◌≡◌, ◌⊎◌, false, refl, sym, subst, eq_iff, ap, List, [], ◌∷◌, ◌++◌, All, All-append, none,
  str_eq, Bool-cases, inl, inr, arith,
}
use pyairtable_go_services.Domain.Shared.Error.{Outcome, ok, >>=-eq-ok, or_panic}
use pyairtable_go_services.Domain.Shared.Types.{Env}
use pyairtable_go_services.Domain.Shared.Event.{
  DomainEvent, get_string, event_type_user_registered, event_type_user_role_changed,
}
use pyairtable_go_services.Domain.Shared.History.{replay, load_with-parts}
use pyairtable_go_services.Domain.User.Types.{UserAggregate, UserState, UserRole}
use pyairtable_go_services.Domain.User.Account.{new_user_aggregate, created_user}
use pyairtable_go_services.Domain.User.Roles.{remove_first, is_role}
use pyairtable_go_services.Domain.User.History.{apply_user_event}
use pyairtable_go_services.Repositories.Users.{blank_user, user_from_events}
use pyairtable_go_services.Repositories.Users.Rebuild.{load_user-parts, wrap-eq-ok}

abbrev pub NeverExpires : UserRole → Type 0
NeverExpires r = r.expires_at ≡ none

remove-All :
    (role : String) (rs : List UserRole)
    → All NeverExpires rs
    → All NeverExpires (remove_first role rs)
unfolding remove_first
remove-All role [] h = tt
remove-All role (r ∷ rs) h = elim (Bool-cases (is_role role r)) [
  | inl e ↦ rw e h.1
  | inr e ↦ rw e (h.0, remove-All role rs h.1)
]

other-roles :
    (e : DomainEvent) (s t : UserState)
    → str_eq e.event_type event_type_user_role_changed ≡ false
    → apply_user_event e s ≡ ok t
    → t.roles ≡ s.roles
unfolding apply_user_event
other-roles e s t other k = ground arith

changed-roles :
    (e : DomainEvent) (s t : UserState)
    → e.event_type ≡ event_type_user_role_changed
    → apply_user_event e s ≡ ok t
    → (t.roles ≡ s.roles)
      ⊎ ((role : String) × (t.roles ≡ remove_first role s.roles))
      ⊎ ((r : UserRole) × NeverExpires r × (t.roles ≡ s.roles ++ r ∷ []))
unfolding apply_user_event
changed-roles e s t is k =
    let (role, _, k₁) =
      >>=-eq-ok (or_panic (get_string "role" e.payload)) _ (rw (is, apply_user_event) at k) in
    let (action, _, k₂) = >>=-eq-ok (or_panic (get_string "action" e.payload)) _ k₁ in
    elim (Bool-cases (str_eq action "added")) [
      | inl added ↦ inr (inr (_, refl, sym (ap roles_of (rw added at k₂))))
      | inr not_added ↦ elim (Bool-cases (str_eq action "removed")) [
        | inl removed ↦ inr (inl (role, sym (ap roles_of (rw (not_added, removed) at k₂))))
        | inr neither ↦ inl (sym (ap roles_of (rw (not_added, neither) at k₂)))
      ]
    ]
  where
    roles_of : Outcome UserState → List UserRole
    roles_of (ok u) = u.roles
    roles_of _ = []

apply-All :
    (e : DomainEvent) (s t : UserState)
    → All NeverExpires s.roles
    → apply_user_event e s ≡ ok t
    → All NeverExpires t.roles
apply-All e s t h k = elim (Bool-cases (str_eq e.event_type event_type_user_role_changed)) [
  | inr other ↦ subst (All NeverExpires) (sym (other-roles e s t other k)) h
  | inl is ↦ elim (changed-roles e s t ((eq_iff _ _).0 is) k) [
    | inl same ↦ subst (All NeverExpires) (sym same) h
    | inr (inl (role, e)) ↦ subst (All NeverExpires) (sym e) (remove-All role s.roles h)
    | inr (inr (r, never, e)) ↦
        subst (All NeverExpires) (sym e) (All-append NeverExpires s.roles _ h (never, tt))
  ]
]

replay-All :
    (es : List DomainEvent) (s t : UserState)
    → All NeverExpires s.roles
    → replay apply_user_event es s ≡ ok t
    → All NeverExpires t.roles
unfolding replay
replay-All [] s t h k = subst (λ rs. All NeverExpires rs) (ground arith) h
replay-All (e ∷ es) s t h k =
    let (s', p, q) = >>=-eq-ok (apply_user_event e s) (replay apply_user_event es) k in
    replay-All es s' t (apply-All e s s' h p) q

blank-All :
    (env : Env) (x : DomainEvent) (u : UserAggregate)
    → blank_user env x ≡ ok u
    → All NeverExpires u.state.roles
unfolding blank_user new_user_aggregate created_user
blank-All env x u h = ground arith

-- Whatever its events say of the expiry of a role, and whatever the role had before it was saved, no
-- role of a user that GetByID gives ever expires.
pub loaded_roles-NeverExpires :
    (env : Env) (es : List DomainEvent) (u : UserAggregate)
    → user_from_events env es ≡ ok u
    → All NeverExpires u.state.roles
unfolding user_from_events
loaded_roles-NeverExpires env [] u h = cc
loaded_roles-NeverExpires env (x ∷ es) u h =
    elim (Bool-cases (str_eq x.event_type event_type_user_registered)) [
      | inl first ↦
          let (u0, p, q) = >>=-eq-ok (blank_user env x) _ (rw (first, user_from_events) at h) in
          let (_, replayed) =
            load_with-parts apply_user_event (x ∷ es) u0.base u.base u0.state u.state
              (load_user-parts (x ∷ es) u0 u.base u.state (wrap-eq-ok _ _ q)) in
          replay-All (x ∷ es) u0.state u.state (blank-All env x u0 p) replayed
      | inr other ↦ ground arith
    ]
