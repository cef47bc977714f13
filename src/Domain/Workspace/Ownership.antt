-- ===== src/Domain/Workspace/Ownership.antt =====
-- Who owns a workspace, and what its members may do, over any calls (domain/workspace/aggregate.go).
use pyairtable_go_services.Prelude.{
  String, Bool, true, false, ◌≡◌, refl, sym, ap, ◌∙◌, inl, inr, [], ◌∷◌, Option, none, some, Dict,
  lookup, insert, erase, lookup-insert, lookup-erase, str_eq, eq_iff, eq_refl, arith, if◌then◌else◌,
  Bool-cases, Option-cases, leb,
}
use pyairtable_go_services.Domain.Shared.Types.{Env}
use pyairtable_go_services.Domain.Workspace.Types.{
  WorkspaceAggregate, WorkspaceState, WorkspaceMember, workspace_status_active, member_role_owner,
  member_status_active, get_default_permissions,
}
use pyairtable_go_services.Domain.Workspace.Members.{
  add_member, remove_member, change_member_role, can_manage_members, get_member_count, new_member,
}
use pyairtable_go_services.Domain.Workspace.Lifecycle.{
  update_workspace, archive, create_project, created_workspace,
}
use pyairtable_go_services.Domain.Workspace.Commands.{
  Command, updates, adds_member, removes_member, changes_role, creates_project, archives, step,
}

-- A member under the key of its user, active, with what its role grants, and the owner's role at
-- the owner's key alone.
pub record IsProper (owner key : String) (m : WorkspaceMember) : Type 0 where
  pub user_id : m.user_id ≡ key
  pub permissions : m.permissions ≡ get_default_permissions m.role
  pub status : m.status ≡ member_status_active
  pub sole : m.role ≡ member_role_owner → key ≡ owner

pub record HasOwner (owner : String) (ms : Dict WorkspaceMember) : Type 0 where
  pub member : WorkspaceMember
  pub present : lookup owner ms ≡ some member
  pub role : member.role ≡ member_role_owner
  pub proper : (k : String) (m : WorkspaceMember) → lookup k ms ≡ some m → IsProper owner k m

-- Writing a proper member that is no owner, under another key than the owner's, keeps the owner.
insert-HasOwner :
    (owner k : String) (m : WorkspaceMember) (ms : Dict WorkspaceMember)
    → str_eq k owner ≡ false
    → IsProper owner k m
    → HasOwner owner ms
    → HasOwner owner (insert k m ms)
insert-HasOwner owner k m ms other p h = record {
  member = h.member;
  present = lookup-insert k owner m ms ∙ rw other h.present;
  role = h.role;
  proper = λ j n found. at j n (sym (lookup-insert k j m ms) ∙ found);
}
  where
    at :
        (j : String) (n : WorkspaceMember)
        → (if str_eq k j then some m else lookup j ms) ≡ some n
        → IsProper owner j n
    at j n found = elim (Bool-cases (str_eq k j)) [
      | inl e ↦ ground (arith, eq_iff k j)
      | inr e ↦ h.proper j n (ground arith)
    ]

erase-HasOwner :
    (owner k : String) (ms : Dict WorkspaceMember)
    → str_eq k owner ≡ false
    → HasOwner owner ms
    → HasOwner owner (erase k ms)
erase-HasOwner owner k ms other h = record {
  member = h.member;
  present = lookup-erase k owner ms ∙ rw other h.present;
  role = h.role;
  proper = λ j n found. at j n (sym (lookup-erase k j ms) ∙ found);
}
  where
    at :
        (j : String) (n : WorkspaceMember)
        → (if str_eq k j then none else lookup j ms) ≡ some n
        → IsProper owner j n
    at j n found = h.proper j n (ground arith)

role_test : Option WorkspaceMember → Bool
role_test none = true
role_test (some m) = str_eq m.role member_role_owner

-- A member that is no owner stands under another key than the owner's.
not_owner-key :
    (owner k : String) (m : WorkspaceMember) (ms : Dict WorkspaceMember)
    → HasOwner owner ms
    → lookup k ms ≡ some m
    → str_eq m.role member_role_owner ≡ false
    → str_eq k owner ≡ false
unfolding role_test
not_owner-key owner k m ms h found other = elim (Bool-cases (str_eq k owner)) [
  | inr e ↦ e
  | inl e ↦ absurd (is_owner ((eq_iff k owner).0 e))
]
  where
    is_owner : k ≡ owner → ⊥
    is_owner same =
        let same_member = sym found ∙ ap (λ j. lookup j ms) same ∙ h.present in
        cc (sym other ∙ ap (role_test) same_member, h.role, eq_refl member_role_owner)

absent-key :
    (owner k : String) (ms : Dict WorkspaceMember)
    → HasOwner owner ms
    → lookup k ms ≡ none
    → str_eq k owner ≡ false
absent-key owner k ms h gone = elim (Bool-cases (str_eq k owner)) [
  | inr e ↦ e
  | inl e ↦ ground (arith, eq_iff k owner, h.present)
]

not_owner : (r : String) → str_eq r member_role_owner ≡ false → r ≡ member_role_owner → ⊥
not_owner r f e = cc (f, ap (λ x. str_eq x member_role_owner) e, eq_refl member_role_owner)

abbrev pub Owned : WorkspaceState → Type 0
Owned w = HasOwner w.owner_id w.members

module _ (env : Env) (w : WorkspaceAggregate) (h : Owned w.state) where
  add_member-Owned : (u r by : String) → Owned (add_member env u r by w).0.state
  unfolding add_member
  add_member-Owned u r by = elim (Bool-cases (can_manage_members by w.state)) [
    | inr a ↦ rw a h
    | inl a ↦ rw a (elim (Bool-cases (str_eq w.state.status workspace_status_active)) [
      | inr b ↦ rw b h
      | inl b ↦ rw b (elim (Option-cases (lookup u w.state.members)) [
        | inr (m, c) ↦ rw c h
        | inl c ↦
            rw c (elim (Bool-cases (leb w.state.settings.max_members (get_member_count w.state))) [
              | inl d ↦ rw d h
              | inr d ↦ rw d (elim (Bool-cases (str_eq r member_role_owner)) [
                | inl f ↦ rw f h
                | inr f ↦ rw f (
                    insert-HasOwner _ u _ _ (absent-key _ u _ h c)
                      (record {
                        user_id = refl;
                        permissions = refl;
                        status = refl;
                        sole = λ e. absurd (not_owner r f e);
                      })
                      h)
              ])
            ])
      ])
    ])
  ]

  remove_member-Owned : (u by : String) → Owned (remove_member env u by w).0.state
  unfolding remove_member
  remove_member-Owned u by = elim (Bool-cases (can_manage_members by w.state)) [
    | inr a ↦ rw a h
    | inl a ↦ rw a (elim (Option-cases (lookup u w.state.members)) [
      | inl c ↦ rw c h
      | inr (m, c) ↦ rw c (elim (Bool-cases (str_eq m.role member_role_owner)) [
        | inl d ↦ rw d h
        | inr d ↦
            let kept = erase-HasOwner _ u _ (not_owner-key _ u m _ h c d) h in
            rw d (elim (Bool-cases (str_eq u by)) [ inl f ↦ rw f kept | inr f ↦ rw (f, a) kept ])
      ])
    ])
  ]

  change_role-Owned : (u r by : String) → Owned (change_member_role env u r by w).0.state
  unfolding change_member_role
  change_role-Owned u r by = elim (Bool-cases (can_manage_members by w.state)) [
    | inr a ↦ rw a h
    | inl a ↦ rw a (elim (Option-cases (lookup u w.state.members)) [
      | inl c ↦ rw c h
      | inr (m, c) ↦ rw c (elim (Bool-cases (str_eq m.role member_role_owner)) [
        | inl d ↦ rw d h
        | inr d ↦ rw d (elim (Bool-cases (str_eq r member_role_owner)) [
          | inl d' ↦ rw d' h
          | inr d' ↦ rw d' (elim (Bool-cases (str_eq m.role r)) [
            | inl f ↦ rw f h
            | inr f ↦ rw f (
                insert-HasOwner _ u _ _ (not_owner-key _ u m _ h c d)
                  (record {
                    user_id = (h.proper u m c).user_id;
                    permissions = refl;
                    status = (h.proper u m c).status;
                    sole = λ e. absurd (not_owner r d' e);
                  })
                  h)
          ])
        ])
      ])
    ])
  ]

  update-Owned : (n d by : String) → Owned (update_workspace env n d by w).0.state
  unfolding update_workspace
  update-Owned n d by = ground arith

  create_project-Owned : (p n d by v : String) → Owned (create_project env p n d by v w).0.state
  unfolding create_project
  create_project-Owned p n d by v = ground arith

  archive-Owned : (by : String) → Owned (archive env by w).0.state
  unfolding archive
  archive-Owned by = ground arith

pub step-Owned :
    (env : Env) (c : Command) (w : WorkspaceAggregate)
    → Owned w.state
    → Owned (step env c w).0.state
unfolding step
step-Owned env (updates n d by) w h = update-Owned env w h n d by
step-Owned env (adds_member u r by) w h = add_member-Owned env w h u r by
step-Owned env (removes_member u by) w h = remove_member-Owned env w h u by
step-Owned env (changes_role u r by) w h = change_role-Owned env w h u r by
step-Owned env (creates_project p n d by v) w h = create_project-Owned env w h p n d by v
step-Owned env (archives by) w h = archive-Owned env w h by

pub created-Owned :
    (env : Env) (id tenant_id name description owner_id : String)
    → Owned (created_workspace env id tenant_id name description owner_id).state
unfolding created_workspace lookup
created-Owned env id tenant_id name description owner_id = record {
  member = new_member owner_id member_role_owner owner_id (env.now 0);
  present = rw (eq_refl owner_id) refl;
  role = refl;
  proper = λ k m found. at k m found;
}
  where
    at :
        (k : String) (m : WorkspaceMember)
        → lookup k ((owner_id, new_member owner_id member_role_owner owner_id (env.now 0)) ∷ [])
          ≡ some m
        → IsProper owner_id k m
    at k m found = elim (Bool-cases (str_eq owner_id k)) [
      | inl e ↦ ground (arith, eq_iff owner_id k)
      | inr e ↦ ground arith
    ]
