-- ===== src/Domain/Workspace/Permissions.antt =====
-- domain/workspace/aggregate.go: what the default permissions of a role come to.
use pyairtable_go_services.Prelude.{
  String, true, false, ◌≡◌, refl, sym, subst, inl, inr, List, [], str_eq, eq_iff, Bool-cases, ◌||◌,
}
use pyairtable_go_services.Domain.Workspace.Types.{
  member_role_owner, member_role_admin, member_role_member, member_role_viewer, member_role_guest,
  get_default_permissions, has_permission, permission_create_projects, permission_manage_workspace,
  permission_manage_members,
}

-- A test on the default permissions of a role, role by role.
by_role :
    (P : String → List String → Type 0) (r : String)
    → P member_role_owner (get_default_permissions member_role_owner)
    → P member_role_admin (get_default_permissions member_role_admin)
    → P member_role_member (get_default_permissions member_role_member)
    → P member_role_viewer (get_default_permissions member_role_viewer)
    → P member_role_guest (get_default_permissions member_role_guest)
    → ((str_eq r member_role_owner ≡ false)
        → (str_eq r member_role_admin ≡ false)
        → (str_eq r member_role_member ≡ false)
        → P r [])
    → P r (get_default_permissions r)
unfolding get_default_permissions
by_role P r o a m v g other = elim (Bool-cases (str_eq r member_role_owner)) [
  | inl e ↦ at member_role_owner e o
  | inr e₁ ↦ elim (Bool-cases (str_eq r member_role_admin)) [
    | inl e ↦ at member_role_admin e a
    | inr e₂ ↦ elim (Bool-cases (str_eq r member_role_member)) [
      | inl e ↦ at member_role_member e m
      | inr e₃ ↦ elim (Bool-cases (str_eq r member_role_viewer)) [
        | inl e ↦ at member_role_viewer e v
        | inr e₄ ↦ elim (Bool-cases (str_eq r member_role_guest)) [
          | inl e ↦ at member_role_guest e g
          | inr e₅ ↦ rw (e₁, e₂, e₃, e₄, e₅) (other e₁ e₂ e₃)
        ]
      ]
    ]
  ]
]
  where
    at :
        (k : String)
        → str_eq r k ≡ true
        → P k (get_default_permissions k)
        → P r (get_default_permissions r)
    at k e p = subst (λ x. P x (get_default_permissions x)) (sym ((eq_iff r k).0 e)) p

pub creates_by_role :
    (r : String)
    → has_permission (get_default_permissions r) permission_create_projects
      ≡ str_eq r member_role_member
unfolding get_default_permissions
creates_by_role r =
    by_role (λ x ps. has_permission ps permission_create_projects ≡ str_eq x member_role_member) r
      refl refl refl refl refl (λ o a m. sym m)

pub manages_workspace_by_role :
    (r : String)
    → has_permission (get_default_permissions r) permission_manage_workspace
      ≡ str_eq r member_role_owner
unfolding get_default_permissions
manages_workspace_by_role r =
    by_role (λ x ps. has_permission ps permission_manage_workspace ≡ str_eq x member_role_owner) r
      refl refl refl refl refl (λ o a m. sym o)

pub manages_members_by_role :
    (r : String)
    → has_permission (get_default_permissions r) permission_manage_members
      ≡ (str_eq r member_role_owner || str_eq r member_role_admin)
unfolding get_default_permissions
manages_members_by_role r =
    by_role
      (λ x ps.
        has_permission ps permission_manage_members
        ≡ (str_eq x member_role_owner || str_eq x member_role_admin))
      r refl refl refl refl refl (λ o a m. rw (o, a) refl)
