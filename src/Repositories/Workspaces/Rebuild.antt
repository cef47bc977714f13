-- ===== src/Repositories/Workspaces/Rebuild.antt =====
-- A workspace beside what GetByID rebuilds of its events (pkg/repositories, domain/workspace).
use pyairtable_go_services.Prelude.{
  String, insert, len, trim_space, ltb, ◌≡◌, refl, sym, ap, ◌∙◌, subst, List, [], ◌∷◌, ◌++◌, false,
  str_eq, eq_refl, arith, Bool-cases, inl, inr,
}
use mathlib.Core.List.{append-nil}
use pyairtable_go_services.Domain.Shared.Error.{ok, >>=-eq-ok, wrap}
use pyairtable_go_services.Domain.Shared.Types.{Env}
use pyairtable_go_services.Domain.Shared.Event.{DomainEvent, event_type_workspace_created}
use pyairtable_go_services.Domain.Shared.Aggregate.{BaseAggregateRoot, raise_event}
use pyairtable_go_services.Domain.Shared.History.{
  load_with, load_with-append, load_with_uncommitted, replay,
}
use pyairtable_go_services.Domain.Shared.Tracking.{Tracks, LoadsAppend, Follows-Tracks}
use pyairtable_go_services.Domain.Workspace.Types.{
  WorkspaceAggregate, WorkspaceState, member_role_owner,
}
use pyairtable_go_services.Domain.Workspace.Members.{new_member}
use pyairtable_go_services.Domain.Workspace.Lifecycle.{new_workspace_aggregate, created_workspace}
use pyairtable_go_services.Domain.Workspace.History.{
  apply_workspace_event, load_workspace_from_history,
}
use pyairtable_go_services.Domain.Workspace.Commands.{Command, step, run}
use pyairtable_go_services.Domain.Workspace.Replay.{
  SameWorkspace, SameWorkspace-refl, insert-view, workspace_step-Follows,
}
use pyairtable_go_services.Repositories.Users.Rebuild.{wrap-eq-ok}
use pyairtable_go_services.Repositories.Workspaces.{blank_workspace, workspace_from_events}

abbrev pub WorkspaceLoads : Env → List DomainEvent → BaseAggregateRoot → WorkspaceState → Type 0
WorkspaceLoads env es b t = workspace_from_events env es ≡ ok (record { base = b; state = t })

pub load_workspace-parts :
    (es : List DomainEvent) (a : WorkspaceAggregate) (b : BaseAggregateRoot) (t : WorkspaceState)
    → load_workspace_from_history es a ≡ ok (record { base = b; state = t })
    → load_with apply_workspace_event es a.base a.state ≡ ok (b, t)
unfolding load_workspace_from_history
load_workspace-parts es a b t h = ground arith

load_workspace-append :
    (es : List DomainEvent) (e : DomainEvent) (a : WorkspaceAggregate) (b : BaseAggregateRoot)
    (t u : WorkspaceState)
    → load_workspace_from_history es a ≡ ok (record { base = b; state = t })
    → e.aggregate_id ≡ b.id
    → apply_workspace_event e t ≡ ok u
    → load_workspace_from_history (es ++ e ∷ []) a
      ≡ ok (record { base = record b { version = e.version }; state = u })
unfolding load_workspace_from_history
load_workspace-append es e a b t u h i k = rw (
    load_with-append apply_workspace_event es e a.base b a.state t u
      (load_workspace-parts es a b t h) i k)

WorkspaceLoads-append :
    (env : Env) → LoadsAppend apply_workspace_event SameWorkspace (WorkspaceLoads env)
unfolding workspace_from_events
WorkspaceLoads-append env [] e b t u h i k = cc
WorkspaceLoads-append env (x ∷ es) e b t u h i k =
    elim (Bool-cases (str_eq x.event_type event_type_workspace_created)) [
      | inl first ↦
          let (u0, p, q) =
            >>=-eq-ok (blank_workspace env x) _ (rw (first, workspace_from_events) at h) in
          rw (first, p) (rw (load_workspace-append (x ∷ es) e u0 b t u (wrap-eq-ok _ _ q) i k))
      | inr other ↦ ground arith
    ]

-- What GetByID made of an aggregate's events it makes again, with one event more applied.
module _ (env : Env) where
  abbrev WorkspaceTracks : List DomainEvent → WorkspaceAggregate → Type 0
  WorkspaceTracks saved u =
      Tracks apply_workspace_event SameWorkspace (WorkspaceLoads env) saved u.base u.state

  step-WorkspaceTracks :
      (saved : List DomainEvent) (env' : Env) (c : Command) (u : WorkspaceAggregate)
      → WorkspaceTracks saved u
      → WorkspaceTracks saved (step env' c u).0
  step-WorkspaceTracks saved env' c u t =
      Follows-Tracks apply_workspace_event SameWorkspace (WorkspaceLoads env)
        (WorkspaceLoads-append env) saved u.base (step env' c u).0.base u.state
        (step env' c u).0.state t (workspace_step-Follows env' c u t.state t.same)

  run-WorkspaceTracks :
      (saved : List DomainEvent) (cs : List (Env × Command)) (u : WorkspaceAggregate)
      → WorkspaceTracks saved u
      → WorkspaceTracks saved (run cs u)
  unfolding run
  run-WorkspaceTracks saved [] u t = t
  run-WorkspaceTracks saved ((env', c) ∷ cs) u t =
      run-WorkspaceTracks saved cs (step env' c u).0 (step-WorkspaceTracks saved env' c u t)

  -- A workspace just created is rebuilt from its one event.
  created-loads :
      (env' : Env) (id tenant_id name description owner_id : String)
      → str_eq name "" ≡ false
      → ltb 100 (len name) ≡ false
      → str_eq owner_id "" ≡ false
      → let w = created_workspace env' id tenant_id name description owner_id in
        let t = (created_workspace env id tenant_id name description owner_id).state in
        WorkspaceLoads env w.base.uncommitted_events
          (record (w.base) { uncommitted_events = [] })
          (record t { name = name; description = description })
  unfolding created_workspace workspace_from_events blank_workspace load_workspace_from_history
      raise_event load_with replay apply_workspace_event new_workspace_aggregate
  created-loads env' id tenant_id name description owner_id named short owned =
      rw (named, short, owned) (rw (eq_refl id, wrap) (rw (eq_refl id, wrap)))

  created-WorkspaceTracks :
      (env' : Env) (id tenant_id name description owner_id : String)
      → str_eq name "" ≡ false
      → ltb 100 (len name) ≡ false
      → str_eq owner_id "" ≡ false
      → trim_space name ≡ name
      → trim_space description ≡ description
      → WorkspaceTracks [] (created_workspace env' id tenant_id name description owner_id)
  unfolding created_workspace raise_event insert
  created-WorkspaceTracks env' id tenant_id name description owner_id named short owned tn td =
      record {
        root = _;
        state = _;
        loads = created-loads env' id tenant_id name description owner_id named short owned;
        same = record {
          name = sym tn;
          description = sym td;
          owner_id = refl;
          status = refl;
          members =
              insert-view owner_id (new_member owner_id member_role_owner owner_id (env'.now 0))
                (new_member owner_id member_role_owner owner_id (env.now 0)) [] [] refl (λ j. refl);
        };
        same_id = refl;
        same_version = refl;
        same_tenant = refl;
      }

pub new_workspace-parts :
    (env : Env) (id tenant_id name description owner_id : String) {w : WorkspaceAggregate}
    → new_workspace_aggregate env id tenant_id name description owner_id ≡ ok w
    → (str_eq name "" ≡ false)
      × (ltb 100 (len name) ≡ false)
      × (str_eq owner_id "" ≡ false)
      × (w ≡ created_workspace env id tenant_id name description owner_id)
unfolding new_workspace_aggregate
new_workspace-parts env id tenant_id name description owner_id h = ground arith

-- After any calls on a new workspace whose name and description have no space at their ends,
-- GetByID on all its events succeeds, whatever clock and identifiers it meets, and gives a workspace
-- of the same identifier, tenant and version with the same name, description, owner and status and,
-- but for their times, the same members.
pub workspace_run_rebuilds :
    (env env' : Env) (id tenant_id name description owner_id : String) (cs : List (Env × Command))
    {w : WorkspaceAggregate}
    → trim_space name ≡ name
    → trim_space description ≡ description
    → new_workspace_aggregate env' id tenant_id name description owner_id ≡ ok w
    → let v = run cs w in
      (r : WorkspaceAggregate) × (workspace_from_events env v.base.uncommitted_events ≡ ok r)
      × SameWorkspace v.state r.state
      × (r.base.id ≡ v.base.id)
      × (r.base.tenant_id ≡ v.base.tenant_id)
      × (r.base.version ≡ v.base.version)
workspace_run_rebuilds env env' id tenant_id name description owner_id cs {w} tn td h =
    let (named, short, owned, made) =
      new_workspace-parts env' id tenant_id name description owner_id h in
    let start = subst (WorkspaceTracks env []) (sym made) (
      created-WorkspaceTracks env env' id tenant_id name description owner_id named short owned tn
        td) in
    let t = run-WorkspaceTracks env [] cs w start in
    (
      record { base = t.root; state = t.state },
      t.loads,
      t.same,
      t.same_id,
      t.same_tenant,
      t.same_version,
    )

blank_workspace_uncommitted :
    (env : Env) (x : DomainEvent) (u : WorkspaceAggregate)
    → blank_workspace env x ≡ ok u
    → u.base.uncommitted_events ≡ []
unfolding blank_workspace
blank_workspace_uncommitted env x u h = ground arith

pub workspace_loaded_uncommitted :
    (env : Env) (es : List DomainEvent) (u : WorkspaceAggregate)
    → workspace_from_events env es ≡ ok u
    → u.base.uncommitted_events ≡ []
unfolding workspace_from_events
workspace_loaded_uncommitted env [] u h = cc
workspace_loaded_uncommitted env (x ∷ es) u h =
    elim (Bool-cases (str_eq x.event_type event_type_workspace_created)) [
      | inl first ↦
          let (u0, p, q) =
            >>=-eq-ok (blank_workspace env x) _ (rw (first, workspace_from_events) at h) in
          load_with_uncommitted apply_workspace_event (x ∷ es) u0.base u.base u0.state u.state
            (load_workspace-parts (x ∷ es) u0 u.base u.state (wrap-eq-ok _ _ q))
          ∙ blank_workspace_uncommitted env x u0 p
      | inr other ↦ ground arith
    ]

-- After any calls on a workspace that GetByID gave, the saved events followed by the new ones are again
-- read without an error, to a workspace of the same version that agrees in all that events carry.
pub workspace_load_run_rebuilds :
    (env : Env) (saved : List DomainEvent) (cs : List (Env × Command)) (u : WorkspaceAggregate)
    → workspace_from_events env saved ≡ ok u
    → let v = run cs u in
      (r : WorkspaceAggregate) × (workspace_from_events env (saved ++ v.base.uncommitted_events)
        ≡ ok r)
      × SameWorkspace v.state r.state
      × (r.base.version ≡ v.base.version)
workspace_load_run_rebuilds env saved cs u h =
    let none_new =
      ap (λ es. saved ++ es) (workspace_loaded_uncommitted env saved u h) ∙ append-nil saved in
    let start : WorkspaceTracks env saved u = record {
      root = u.base;
      state = u.state;
      loads = ap (workspace_from_events env) none_new ∙ h;
      same = SameWorkspace-refl u.state;
      same_id = refl;
      same_version = refl;
      same_tenant = refl;
    } in
    let t = run-WorkspaceTracks env saved cs u start in
    (record { base = t.root; state = t.state }, t.loads, t.same, t.same_version)
