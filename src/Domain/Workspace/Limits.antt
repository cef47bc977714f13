-- ===== src/Domain/Workspace/Limits.antt =====
-- The member limit of a workspace (domain/workspace/aggregate.go, AddMember and GetMemberCount).
use pyairtable_go_services.Prelude.{
  suc, ◌≤◌, ◌≡◌, String, refl, inl, inr, List, [], ◌∷◌, some, Dict, lookup, insert, erase, str_eq,
  arith, Bool-cases, Option-cases,
}
use pyairtable_go_services.Domain.Shared.Types.{Env}
use pyairtable_go_services.Domain.Workspace.Types.{
  WorkspaceAggregate, WorkspaceState, WorkspaceMember,
}
use pyairtable_go_services.Domain.Workspace.Members.{
  add_member, remove_member, change_member_role, count_active, get_member_count, new_member,
  with_role,
}
use pyairtable_go_services.Domain.Workspace.Lifecycle.{
  update_workspace, archive, create_project, created_workspace,
}
use pyairtable_go_services.Domain.Workspace.Commands.{
  Command, updates, adds_member, removes_member, changes_role, creates_project, archives, step, run,
}

insert-count :
    (k : String) (m : WorkspaceMember) (ms : Dict WorkspaceMember)
    → count_active (insert k m ms) ≤ suc (count_active ms)
unfolding insert count_active
insert-count k m [] = ground arith
insert-count k m ((j, n) ∷ ms) = ground (arith, insert-count k m ms)

replace-count :
    (k : String) (m n : WorkspaceMember) (ms : Dict WorkspaceMember)
    → lookup k ms ≡ some n
    → m.status ≡ n.status
    → count_active (insert k m ms) ≡ count_active ms
unfolding insert count_active lookup
replace-count k m n [] found same = ground arith
replace-count k m n ((j, x) ∷ ms) found same = elim (Bool-cases (str_eq j k)) [
  | inl e ↦ ground arith
  | inr e ↦ ground (arith, replace-count k m n ms)
]

erase-count : (k : String) (ms : Dict WorkspaceMember) → count_active (erase k ms) ≤ count_active ms
unfolding erase count_active
erase-count k [] = ground arith
erase-count k ((j, n) ∷ ms) = ground (arith, erase-count k ms)

abbrev pub WithinLimit : WorkspaceState → Type 0
WithinLimit w = get_member_count w ≤ w.settings.max_members

module _ (env : Env) (w : WorkspaceAggregate) (h : WithinLimit w.state) where
  add-WithinLimit : (u r by : String) → WithinLimit (add_member env u r by w).0.state
  unfolding add_member get_member_count
  add-WithinLimit u r by =
      ground (arith, insert-count u (new_member u r by (env.now 0)) w.state.members)

  remove-WithinLimit : (u by : String) → WithinLimit (remove_member env u by w).0.state
  unfolding remove_member get_member_count
  remove-WithinLimit u by = ground (arith, erase-count u w.state.members)

  change-WithinLimit : (u r by : String) → WithinLimit (change_member_role env u r by w).0.state
  unfolding change_member_role get_member_count
  change-WithinLimit u r by = elim (Option-cases (lookup u w.state.members)) [
    | inl gone ↦ ground arith
    | inr (m, found) ↦
        ground (arith, replace-count u (with_role r (env.now 0) m) m w.state.members found refl)
  ]

  update-WithinLimit : (n d by : String) → WithinLimit (update_workspace env n d by w).0.state
  unfolding update_workspace get_member_count
  update-WithinLimit n d by = ground arith

  project-WithinLimit :
      (p n d by v : String) → WithinLimit (create_project env p n d by v w).0.state
  unfolding create_project get_member_count
  project-WithinLimit p n d by v = ground arith

  archive-WithinLimit : (by : String) → WithinLimit (archive env by w).0.state
  unfolding archive get_member_count
  archive-WithinLimit by = ground arith

step-WithinLimit :
    (env : Env) (c : Command) (w : WorkspaceAggregate)
    → WithinLimit w.state
    → WithinLimit (step env c w).0.state
unfolding step
step-WithinLimit env (updates n d by) w h = update-WithinLimit env w h n d by
step-WithinLimit env (adds_member u r by) w h = add-WithinLimit env w h u r by
step-WithinLimit env (removes_member u by) w h = remove-WithinLimit env w h u by
step-WithinLimit env (changes_role u r by) w h = change-WithinLimit env w h u r by
step-WithinLimit env (creates_project p n d by v) w h = project-WithinLimit env w h p n d by v
step-WithinLimit env (archives by) w h = archive-WithinLimit env w h by

run-WithinLimit :
    (cs : List (Env × Command)) (w : WorkspaceAggregate)
    → WithinLimit w.state
    → WithinLimit (run cs w).state
unfolding run
run-WithinLimit [] w h = h
run-WithinLimit ((env, c) ∷ cs) w h =
    run-WithinLimit cs (step env c w).0 (step-WithinLimit env c w h)

created-WithinLimit :
    (env : Env) (id tenant_id name description owner_id : String)
    → WithinLimit (created_workspace env id tenant_id name description owner_id).state
unfolding created_workspace get_member_count count_active
created-WithinLimit env id tenant_id name description owner_id = ground arith

-- After any run of calls on a new workspace, failing ones included, it counts no more active members
-- than its settings allow.
pub members_within_limit :
    (env : Env) (id tenant_id name description owner_id : String) (cs : List (Env × Command))
    → let w = (run cs (created_workspace env id tenant_id name description owner_id)).state in
      get_member_count w ≤ w.settings.max_members
members_within_limit env id tenant_id name description owner_id cs =
    run-WithinLimit cs _ (created-WithinLimit env id tenant_id name description owner_id)
