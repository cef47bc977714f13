-- ===== src/Domain/Workspace/Replay.antt =====
-- What LoadFromHistory makes of the events that a workspace's calls raise
-- (domain/workspace/aggregate.go).
use pyairtable_go_services.Prelude.{
  ℕ, String, ◌≡◌, refl, sym, ap, ◌∙◌, inl, inr, List, Option, none, some, Dict, lookup, insert,
  erase, lookup-insert, lookup-erase, str_eq, ltb, leb, len, ◌&&◌, ◌||◌, arith, Bool-cases,
  Option-cases,
}
use pyairtable_go_services.Domain.Shared.Types.{Env}
use pyairtable_go_services.Domain.Shared.Aggregate.{raise_event}
use pyairtable_go_services.Domain.Shared.Tracking.{Follows}
use pyairtable_go_services.Domain.Workspace.Types.{
  WorkspaceAggregate, WorkspaceState, WorkspaceMember, workspace_status_active,
  workspace_status_archived, member_role_owner,
}
use pyairtable_go_services.Domain.Workspace.Members.{
  add_member, remove_member, change_member_role, can_manage_workspace, can_manage_members,
  get_member_count, with_role,
}
use pyairtable_go_services.Domain.Workspace.Lifecycle.{
  update_workspace, archive, create_project, renames, workspace_changes,
}
use pyairtable_go_services.Domain.Workspace.History.{apply_workspace_event}
use pyairtable_go_services.Domain.Workspace.Commands.{
  Command, updates, adds_member, removes_member, changes_role, creates_project, archives, step,
}

-- A member without its times.
abbrev pub view : Option WorkspaceMember → Option (String × String × List String × String × String)
view none = none
view (some m) = some (m.user_id, m.role, m.permissions, m.added_by, m.status)

-- The part of a workspace that its events carry.
pub record SameWorkspace (s t : WorkspaceState) : Type 0 where
  pub name : t.name ≡ s.name
  pub description : t.description ≡ s.description
  pub owner_id : t.owner_id ≡ s.owner_id
  pub status : t.status ≡ s.status
  pub members : (k : String) → view (lookup k t.members) ≡ view (lookup k s.members)

pub SameWorkspace-refl : (s : WorkspaceState) → SameWorkspace s s
SameWorkspace-refl s = record {
  name = refl;
  description = refl;
  owner_id = refl;
  status = refl;
  members = λ k. refl;
}

abbrev pub WorkspaceFollows : WorkspaceAggregate → WorkspaceAggregate → WorkspaceState → Type 0
WorkspaceFollows w w' t = Follows apply_workspace_event SameWorkspace w.base w'.base w'.state t

pub insert-view :
    (k : String) (m n : WorkspaceMember) (ms ns : Dict WorkspaceMember)
    → view (some n) ≡ view (some m)
    → ((j : String) → view (lookup j ns) ≡ view (lookup j ms))
    → (j : String) → view (lookup j (insert k n ns)) ≡ view (lookup j (insert k m ms))
insert-view k m n ms ns e h j =
    rw (lookup-insert k j n ns, lookup-insert k j m ms)
      (elim (Bool-cases (str_eq k j)) [ inl same ↦ rw same e | inr other ↦ rw other (h j) ])

with_role-view :
    (r : String) (now later : ℕ) (m n : WorkspaceMember)
    → view (some n) ≡ view (some m)
    → view (some (with_role r later n)) ≡ view (some (with_role r now m))
with_role-view r now later m n e = ground arith

erase-view :
    (k : String) (ms ns : Dict WorkspaceMember)
    → ((j : String) → view (lookup j ns) ≡ view (lookup j ms))
    → (j : String) → view (lookup j (erase k ns)) ≡ view (lookup j (erase k ms))
erase-view k ms ns h j =
    rw (lookup-erase k j ns, lookup-erase k j ms)
      (elim (Bool-cases (str_eq k j)) [ inl same ↦ rw same refl | inr other ↦ rw other (h j) ])

module _ (env : Env) (w : WorkspaceAggregate) (t : WorkspaceState)
    (h : SameWorkspace w.state t) where
  update-Follows : (n d by : String) → WorkspaceFollows w (update_workspace env n d by w).0 t
  unfolding update_workspace apply_workspace_event raise_event
  update-Follows n d by = elim (Bool-cases (can_manage_workspace by w.state)) [
    | inr a ↦ rw a (Follows.unchanged refl h)
    | inl a ↦ rw a (elim (Bool-cases (str_eq w.state.status workspace_status_active)) [
      | inr b ↦ rw b (Follows.unchanged refl h)
      | inl b ↦ rw b (elim (Bool-cases (renames n w.state && ltb 100 (len n))) [
        | inl c ↦ rw c (Follows.unchanged refl h)
        | inr c ↦ rw c (elim (Bool-cases (workspace_changes n d w.state)) [
          | inl d ↦ rw d (
              Follows.replayed _ _ refl refl refl refl (record {
                name = refl;
                description = refl;
                owner_id = h.owner_id;
                status = h.status;
                members = h.members;
              }))
          | inr d ↦ rw d (Follows.unchanged refl h)
        ])
      ])
    ])
  ]

  with_members :
      (ms ns : Dict WorkspaceMember) (now : ℕ)
      → ((j : String) → view (lookup j ns) ≡ view (lookup j ms))
      → SameWorkspace
          (record (w.state) { members = ms; updated_at = now })
          (record t { members = ns })
  with_members ms ns now e = record {
    name = h.name;
    description = h.description;
    owner_id = h.owner_id;
    status = h.status;
    members = e;
  }

  add_member-Follows : (u r by : String) → WorkspaceFollows w (add_member env u r by w).0 t
  unfolding add_member apply_workspace_event raise_event
  add_member-Follows u r by = elim (Bool-cases (can_manage_members by w.state)) [
    | inr a ↦ rw a (Follows.unchanged refl h)
    | inl a ↦ rw a (elim (Bool-cases (str_eq w.state.status workspace_status_active)) [
      | inr b ↦ rw b (Follows.unchanged refl h)
      | inl b ↦ rw b (elim (Option-cases (lookup u w.state.members)) [
        | inr (m, c) ↦ rw c (Follows.unchanged refl h)
        | inl c ↦
            rw c (elim (Bool-cases (leb w.state.settings.max_members (get_member_count w.state))) [
              | inl d ↦ rw d (Follows.unchanged refl h)
              | inr d ↦ rw d (elim (Bool-cases (str_eq r member_role_owner)) [
                | inl f ↦ rw f (Follows.unchanged refl h)
                | inr f ↦ rw f (
                    Follows.replayed _ _ refl refl refl refl (
                      with_members _ _ _
                        (insert-view u _ _ w.state.members t.members refl h.members)))
              ])
            ])
      ])
    ])
  ]

  remove_member-Follows : (u by : String) → WorkspaceFollows w (remove_member env u by w).0 t
  unfolding remove_member apply_workspace_event raise_event
  remove_member-Follows u by = elim (Bool-cases (can_manage_members by w.state)) [
    | inr a ↦ rw a (Follows.unchanged refl h)
    | inl a ↦ rw a (elim (Option-cases (lookup u w.state.members)) [
      | inl c ↦ rw c (Follows.unchanged refl h)
      | inr (m, c) ↦ rw c (elim (Bool-cases (str_eq m.role member_role_owner)) [
        | inl d ↦ rw d (Follows.unchanged refl h)
        | inr d ↦ rw d (elim (Bool-cases (str_eq u by)) [
          | inl f ↦ rw f (
              Follows.replayed _ _ refl refl refl refl
                (with_members _ _ _ (erase-view u w.state.members t.members h.members)))
          | inr f ↦
              rw (f, a)
                (Follows.replayed _ _ refl refl refl refl
                  (with_members _ _ _ (erase-view u w.state.members t.members h.members)))
        ])
      ])
    ])
  ]

  -- The member that the rebuilt workspace has under the same key.
  rebuilt_member :
      (u : String) (m : WorkspaceMember)
      → lookup u w.state.members ≡ some m
      → (n : WorkspaceMember) × (lookup u t.members ≡ some n) × (view (some n) ≡ view (some m))
  rebuilt_member u m found = elim (Option-cases (lookup u t.members)) [
    | inl gone ↦ absurd (ground (arith, h.members u))
    | inr (n, there) ↦ (n, there, sym (ap view there) ∙ h.members u ∙ ap view found)
  ]

  change_role-Follows : (u r by : String) → WorkspaceFollows w (change_member_role env u r by w).0 t
  unfolding change_member_role apply_workspace_event raise_event
  change_role-Follows u r by = elim (Bool-cases (can_manage_members by w.state)) [
    | inr a ↦ rw a (Follows.unchanged refl h)
    | inl a ↦ rw a (elim (Option-cases (lookup u w.state.members)) [
      | inl c ↦ rw c (Follows.unchanged refl h)
      | inr (m, c) ↦
          rw c (elim (Bool-cases (str_eq m.role member_role_owner || str_eq r member_role_owner)) [
            | inl d ↦ rw d (Follows.unchanged refl h)
            | inr d ↦ rw d (elim (Bool-cases (str_eq m.role r)) [
              | inl f ↦ rw f (Follows.unchanged refl h)
              | inr f ↦
                  let (n, there, same) = rebuilt_member u m c in
                  rw f (
                    Follows.replayed _
                      (record t { members = insert u (with_role r (env.now 2) n) t.members }) refl
                      refl refl (rw there refl)
                      (with_members _ _ _ (
                        insert-view u (with_role r (env.now 0) m) (with_role r (env.now 2) n)
                          w.state.members t.members
                          (with_role-view r (env.now 0) (env.now 2) m n same) h.members)))
            ])
          ])
    ])
  ]

  create_project-Follows :
      (p n d by v : String) → WorkspaceFollows w (create_project env p n d by v w).0 t
  unfolding create_project
  create_project-Follows p n d by v = Follows.unchanged (ground arith) (ground arith)

  archive-Follows : (by : String) → WorkspaceFollows w (archive env by w).0 t
  unfolding archive apply_workspace_event raise_event
  archive-Follows by = elim (Bool-cases (can_manage_workspace by w.state)) [
    | inr a ↦ rw a (Follows.unchanged refl h)
    | inl a ↦ rw a (elim (Bool-cases (str_eq w.state.status workspace_status_archived)) [
      | inl b ↦ rw b (Follows.unchanged refl h)
      | inr b ↦ rw b (
          Follows.replayed _ _ refl refl refl refl (record {
            name = h.name;
            description = h.description;
            owner_id = h.owner_id;
            status = refl;
            members = h.members;
          }))
    ])
  ]

pub workspace_step-Follows :
    (env : Env) (c : Command) (w : WorkspaceAggregate) (t : WorkspaceState)
    → SameWorkspace w.state t
    → WorkspaceFollows w (step env c w).0 t
unfolding step
workspace_step-Follows env (updates n d by) w t h = update-Follows env w t h n d by
workspace_step-Follows env (adds_member u r by) w t h = add_member-Follows env w t h u r by
workspace_step-Follows env (removes_member u by) w t h = remove_member-Follows env w t h u by
workspace_step-Follows env (changes_role u r by) w t h = change_role-Follows env w t h u r by
workspace_step-Follows env (creates_project p n d by v) w t h =
    create_project-Follows env w t h p n d by v
workspace_step-Follows env (archives by) w t h = archive-Follows env w t h by
