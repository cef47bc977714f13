-- ===== src/Domain/Workspace/Commands.antt =====
-- The calls that change a workspace aggregate (domain/workspace/aggregate.go), as values, and runs
-- of them.
use pyairtable_go_services.Prelude.{
  ℕ, String, ◌≡◌, refl, ◌∙◌, inl, inr, List, [], ◌∷◌, Option, some, lookup, str_eq, arith, ltb, leb,
  ◌&&◌, ◌||◌, len, Bool-cases, Option-cases,
}
use pyairtable_go_services.Domain.Shared.Error.{Error}
use pyairtable_go_services.Domain.Shared.Types.{Env}
use pyairtable_go_services.Domain.Shared.Stamps.{
  IsStamped, Raises, quiet, raised, Raises-IsStamped, Raises-id,
}
use pyairtable_go_services.Domain.Workspace.Types.{
  WorkspaceAggregate, member_role_owner, workspace_status_active, workspace_status_archived,
}
use pyairtable_go_services.Domain.Workspace.Members.{
  add_member, remove_member, change_member_role, can_manage_workspace, can_manage_members,
  get_member_count,
}
use pyairtable_go_services.Domain.Workspace.Lifecycle.{
  update_workspace, archive, create_project, renames, workspace_changes,
}

pub data Command : Type 0 where
  updates : (name description updated_by : String) → Command
  adds_member : (user_id role added_by : String) → Command
  removes_member : (user_id removed_by : String) → Command
  changes_role : (user_id new_role changed_by : String) → Command
  creates_project : (project_id name description created_by visibility : String) → Command
  archives : (archived_by : String) → Command

unfoldable pub step : Env → Command → WorkspaceAggregate → WorkspaceAggregate × Option Error
step env (updates n d by) w = update_workspace env n d by w
step env (adds_member u r by) w = add_member env u r by w
step env (removes_member u by) w = remove_member env u by w
step env (changes_role u r by) w = change_member_role env u r by w
step env (creates_project p n d by v) w = create_project env p n d by v w
step env (archives by) w = archive env by w

unfoldable pub run : List (Env × Command) → WorkspaceAggregate → WorkspaceAggregate
run [] w = w
run ((env, c) ∷ cs) w = run cs (step env c w).0

-- A call on a workspace that returns an error leaves the aggregate, its root and its events included,
-- as they were.
workspace_error_unchanged :
    (env : Env) (c : Command) (w : WorkspaceAggregate) {e : Error}
    → (step env c w).1 ≡ some e
    → (step env c w).0 ≡ w
unfolding step update_workspace add_member remove_member change_member_role create_project archive
workspace_error_unchanged env (updates n d by) w h = ground arith
workspace_error_unchanged env _ w h = ground arith

update-Raises :
    (env : Env) (n d by : String) (w : WorkspaceAggregate)
    → Raises w.base (update_workspace env n d by w).0.base
unfolding update_workspace
update-Raises env n d by w = elim (Bool-cases (can_manage_workspace by w.state)) [
  | inr a ↦ rw a (quiet refl)
  | inl a ↦ rw a (elim (Bool-cases (str_eq w.state.status workspace_status_active)) [
    | inr b ↦ rw b (quiet refl)
    | inl b ↦ rw b (elim (Bool-cases (renames n w.state && ltb 100 (len n))) [
      | inl c ↦ rw c (quiet refl)
      | inr c ↦ rw c (elim (Bool-cases (workspace_changes n d w.state)) [
        | inl d ↦ rw d (raised _ _ _ _ _ refl)
        | inr d ↦ rw d (quiet refl)
      ])
    ])
  ])
]

add_member-Raises :
    (env : Env) (u r by : String) (w : WorkspaceAggregate)
    → Raises w.base (add_member env u r by w).0.base
unfolding add_member
add_member-Raises env u r by w = elim (Bool-cases (can_manage_members by w.state)) [
  | inr a ↦ rw a (quiet refl)
  | inl a ↦ rw a (elim (Bool-cases (str_eq w.state.status workspace_status_active)) [
    | inr b ↦ rw b (quiet refl)
    | inl b ↦ rw b (elim (Option-cases (lookup u w.state.members)) [
      | inr (m, c) ↦ rw c (quiet refl)
      | inl c ↦
          rw c (elim (Bool-cases (leb w.state.settings.max_members (get_member_count w.state))) [
            | inl d ↦ rw d (quiet refl)
            | inr d ↦ rw d (elim (Bool-cases (str_eq r member_role_owner)) [
              | inl f ↦ rw f (quiet refl)
              | inr f ↦ rw f (raised _ _ _ _ _ refl)
            ])
          ])
    ])
  ])
]

remove_member-Raises :
    (env : Env) (u by : String) (w : WorkspaceAggregate)
    → Raises w.base (remove_member env u by w).0.base
unfolding remove_member
remove_member-Raises env u by w = elim (Bool-cases (can_manage_members by w.state)) [
  | inr a ↦ rw a (quiet refl)
  | inl a ↦ rw a (elim (Option-cases (lookup u w.state.members)) [
    | inl c ↦ rw c (quiet refl)
    | inr (m, c) ↦ rw c (elim (Bool-cases (str_eq m.role member_role_owner)) [
      | inl d ↦ rw d (quiet refl)
      | inr d ↦ rw d (elim (Bool-cases (str_eq u by)) [
        | inl f ↦ rw f (raised _ _ _ _ _ refl)
        | inr f ↦ rw (f, a) (raised _ _ _ _ _ refl)
      ])
    ])
  ])
]

change_role-Raises :
    (env : Env) (u r by : String) (w : WorkspaceAggregate)
    → Raises w.base (change_member_role env u r by w).0.base
unfolding change_member_role
change_role-Raises env u r by w = elim (Bool-cases (can_manage_members by w.state)) [
  | inr a ↦ rw a (quiet refl)
  | inl a ↦ rw a (elim (Option-cases (lookup u w.state.members)) [
    | inl c ↦ rw c (quiet refl)
    | inr (m, c) ↦
        rw c (elim (Bool-cases (str_eq m.role member_role_owner || str_eq r member_role_owner)) [
          | inl d ↦ rw d (quiet refl)
          | inr d ↦ rw d (elim (Bool-cases (str_eq m.role r)) [
            | inl f ↦ rw f (quiet refl)
            | inr f ↦ rw f (raised _ _ _ _ _ refl)
          ])
        ])
  ])
]

create_project-quiet :
    (env : Env) (p n d by v : String) (w : WorkspaceAggregate)
    → (create_project env p n d by v w).0.base ≡ w.base
unfolding create_project
create_project-quiet env p n d by v w = ground arith

archive-Raises :
    (env : Env) (by : String) (w : WorkspaceAggregate) → Raises w.base (archive env by w).0.base
unfolding archive
archive-Raises env by w = elim (Bool-cases (can_manage_workspace by w.state)) [
  | inr a ↦ rw a (quiet refl)
  | inl a ↦ rw a (elim (Bool-cases (str_eq w.state.status workspace_status_archived)) [
    | inl b ↦ rw b (quiet refl)
    | inr b ↦ rw b (raised _ _ _ _ _ refl)
  ])
]

workspace_step-Raises :
    (env : Env) (c : Command) (w : WorkspaceAggregate) → Raises w.base (step env c w).0.base
unfolding step
workspace_step-Raises env (updates n d by) w = update-Raises env n d by w
workspace_step-Raises env (adds_member u r by) w = add_member-Raises env u r by w
workspace_step-Raises env (removes_member u by) w = remove_member-Raises env u by w
workspace_step-Raises env (changes_role u r by) w = change_role-Raises env u r by w
workspace_step-Raises env (creates_project p n d by v) w =
    quiet (create_project-quiet env p n d by v w)
workspace_step-Raises env (archives by) w = archive-Raises env by w

-- Through any run of calls on a workspace, failing ones included, the events not yet saved carry
-- consecutive versions that end at the aggregate's own, with its identifier and its tenant's.
pub workspace_run-IsStamped :
    (saved : ℕ) (cs : List (Env × Command)) (w : WorkspaceAggregate)
    → IsStamped saved w.base
    → IsStamped saved (run cs w).base
unfolding run
workspace_run-IsStamped saved [] w s = s
workspace_run-IsStamped saved ((env, c) ∷ cs) w s =
    workspace_run-IsStamped saved cs (step env c w).0
      (Raises-IsStamped saved w.base (step env c w).0.base (workspace_step-Raises env c w) s)

pub workspace_run-id :
    (cs : List (Env × Command)) (w : WorkspaceAggregate) → (run cs w).base.id ≡ w.base.id
unfolding run
workspace_run-id [] w = refl
workspace_run-id ((env, c) ∷ cs) w =
    workspace_run-id cs (step env c w).0
    ∙ Raises-id w.base (step env c w).0.base (workspace_step-Raises env c w)
