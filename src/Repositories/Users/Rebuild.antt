-- ===== src/Repositories/Users/Rebuild.antt =====
-- A user beside what GetByID rebuilds of its events (pkg/repositories, domain/user).
use pyairtable_go_services.Prelude.{
  String, ◌≡◌, refl, sym, ap, ◌∙◌, subst, List, [], ◌∷◌, ◌++◌, true, false, str_eq, eq_refl, arith,
  Bool-cases, inl, inr,
}
use mathlib.Core.List.{append-nil}
use pyairtable_go_services.Domain.Shared.Error.{Outcome, ok, fail, panic, >>=-eq-ok, wrap}
use pyairtable_go_services.Domain.Shared.Types.{Env, Email, is_valid_email, email_is_empty}
use pyairtable_go_services.Domain.Shared.Event.{DomainEvent, event_type_user_registered}
use pyairtable_go_services.Domain.Shared.Aggregate.{BaseAggregateRoot, raise_event}
use pyairtable_go_services.Domain.Shared.History.{
  load_with, load_with-append, load_with_uncommitted, replay,
}
use pyairtable_go_services.Domain.Shared.Tracking.{Tracks, LoadsAppend, Follows-Tracks}
use pyairtable_go_services.Domain.User.Types.{UserAggregate, UserState}
use pyairtable_go_services.Domain.User.Account.{new_user_aggregate, created_user}
use pyairtable_go_services.Domain.User.History.{apply_user_event, load_user_from_history}
use pyairtable_go_services.Domain.User.Commands.{Command, step, run}
use pyairtable_go_services.Domain.User.Replay.{SameUser, SameUser-refl, step-Follows}
use pyairtable_go_services.Repositories.Users.{blank_user, user_from_events}

abbrev pub UserLoads : Env → List DomainEvent → BaseAggregateRoot → UserState → Type 0
UserLoads env es b t = user_from_events env es ≡ ok (record { base = b; state = t })

pub load_user-parts :
    (es : List DomainEvent) (a : UserAggregate) (b : BaseAggregateRoot) (t : UserState)
    → load_user_from_history es a ≡ ok (record { base = b; state = t })
    → load_with apply_user_event es a.base a.state ≡ ok (b, t)
unfolding load_user_from_history
load_user-parts es a b t h = ground arith

load_user-append :
    (es : List DomainEvent) (e : DomainEvent) (a : UserAggregate) (b : BaseAggregateRoot)
    (t u : UserState)
    → load_user_from_history es a ≡ ok (record { base = b; state = t })
    → e.aggregate_id ≡ b.id
    → apply_user_event e t ≡ ok u
    → load_user_from_history (es ++ e ∷ []) a
      ≡ ok (record { base = record b { version = e.version }; state = u })
unfolding load_user_from_history
load_user-append es e a b t u h i k =
    rw
      (load_with-append apply_user_event es e a.base b a.state t u (load_user-parts es a b t h) i k)

pub wrap-eq-ok {ℓ} : {A : Type ℓ} (f : String) (m : Outcome A) {a : A} → wrap f m ≡ ok a → m ≡ ok a
wrap-eq-ok f (ok a) h = h
wrap-eq-ok f (fail e) h = cc
wrap-eq-ok f panic h = cc

UserLoads-append : (env : Env) → LoadsAppend apply_user_event SameUser (UserLoads env)
unfolding user_from_events
UserLoads-append env [] e b t u h i k = cc
UserLoads-append env (x ∷ es) e b t u h i k =
    elim (Bool-cases (str_eq x.event_type event_type_user_registered)) [
      | inl first ↦
          let (u0, p, q) = >>=-eq-ok (blank_user env x) _ (rw (first, user_from_events) at h) in
          rw (first, p) (rw (load_user-append (x ∷ es) e u0 b t u (wrap-eq-ok _ _ q) i k))
      | inr other ↦ ground arith
    ]

-- What GetByID made of an aggregate's events it makes again, with one event more applied.
module _ (env : Env) where
  abbrev UserTracks : List DomainEvent → UserAggregate → Type 0
  UserTracks saved u = Tracks apply_user_event SameUser (UserLoads env) saved u.base u.state

  step-UserTracks :
      (saved : List DomainEvent) (env' : Env) (c : Command) (u : UserAggregate)
      → UserTracks saved u
      → UserTracks saved (step env' c u).0
  step-UserTracks saved env' c u t =
      Follows-Tracks apply_user_event SameUser (UserLoads env) (UserLoads-append env) saved u.base
        (step env' c u).0.base u.state (step env' c u).0.state t
        (step-Follows env' c u t.state t.same)

  run-UserTracks :
      (saved : List DomainEvent) (cs : List (Env × Command)) (u : UserAggregate)
      → UserTracks saved u
      → UserTracks saved (run cs u)
  unfolding run
  run-UserTracks saved [] u t = t
  run-UserTracks saved ((env', c) ∷ cs) u t =
      run-UserTracks saved cs (step env' c u).0 (step-UserTracks saved env' c u t)

  -- A user just created is rebuilt from its one event.
  created-loads :
      (env' : Env) (id tenant_id : String) (email : Email) (hash first last : String)
      → is_valid_email email.value ≡ true
      → email_is_empty email ≡ false
      → str_eq first "" ≡ false
      → let u = created_user env' id tenant_id email hash first last in
        let t = (created_user env id tenant_id email "placeholder_hash" first last).state in
        UserLoads env u.base.uncommitted_events (record (u.base) { uncommitted_events = [] }) t
  unfolding created_user user_from_events blank_user load_user_from_history raise_event load_with
      replay apply_user_event new_user_aggregate
  created-loads env' id tenant_id email hash first last valid full named =
      rw (valid, full, named) (rw (eq_refl id, wrap) (rw (valid, wrap) (rw (eq_refl id))))

  created-UserTracks :
      (env' : Env) (id tenant_id : String) (email : Email) (hash first last : String)
      → is_valid_email email.value ≡ true
      → email_is_empty email ≡ false
      → str_eq first "" ≡ false
      → UserTracks [] (created_user env' id tenant_id email hash first last)
  unfolding created_user raise_event
  created-UserTracks env' id tenant_id email hash first last valid full named = record {
    root = _;
    state = _;
    loads = created-loads env' id tenant_id email hash first last valid full named;
    same = record {
      email = refl;
      first_name = refl;
      last_name = refl;
      status = refl;
      avatar = refl;
      timezone = refl;
      language = refl;
      roles = refl;
    };
    same_id = refl;
    same_version = refl;
    same_tenant = refl;
  }

pub new_user-parts :
    (env : Env) (id tenant_id : String) (email : Email) (hash first last : String)
    {u : UserAggregate}
    → new_user_aggregate env id tenant_id email hash first last ≡ ok u
    → (email_is_empty email ≡ false)
      × (str_eq first "" ≡ false)
      × (u ≡ created_user env id tenant_id email hash first last)
unfolding new_user_aggregate
new_user-parts env id tenant_id email hash first last h = ground arith

-- After any calls on a new user with a valid email, GetByID on all its events succeeds, whatever
-- clock and identifiers it meets, and gives a user of the same identifier, tenant and version with
-- the same email, names, status, avatar, timezone and language and the same roles in order.
pub run_rebuilds :
    (env env' : Env) (id tenant_id : String) (email : Email) (hash first last : String)
    (cs : List (Env × Command)) {u : UserAggregate}
    → is_valid_email email.value ≡ true
    → new_user_aggregate env' id tenant_id email hash first last ≡ ok u
    → let v = run cs u in
      (r : UserAggregate) × (user_from_events env v.base.uncommitted_events ≡ ok r)
      × SameUser v.state r.state
      × (r.base.id ≡ v.base.id)
      × (r.base.tenant_id ≡ v.base.tenant_id)
      × (r.base.version ≡ v.base.version)
run_rebuilds env env' id tenant_id email hash first last cs {u} valid h =
    let (full, named, made) = new_user-parts env' id tenant_id email hash first last h in
    let start =
      subst (UserTracks env []) (sym made)
        (created-UserTracks env env' id tenant_id email hash first last valid full named) in
    let t = run-UserTracks env [] cs u start in
    (
      record { base = t.root; state = t.state },
      t.loads,
      t.same,
      t.same_id,
      t.same_tenant,
      t.same_version,
    )

blank_user_uncommitted :
    (env : Env) (x : DomainEvent) (u : UserAggregate)
    → blank_user env x ≡ ok u
    → u.base.uncommitted_events ≡ []
unfolding blank_user
blank_user_uncommitted env x u h = ground arith

pub loaded_uncommitted :
    (env : Env) (es : List DomainEvent) (u : UserAggregate)
    → user_from_events env es ≡ ok u
    → u.base.uncommitted_events ≡ []
unfolding user_from_events
loaded_uncommitted env [] u h = cc
loaded_uncommitted env (x ∷ es) u h =
    elim (Bool-cases (str_eq x.event_type event_type_user_registered)) [
      | inl first ↦
          let (u0, p, q) = >>=-eq-ok (blank_user env x) _ (rw (first, user_from_events) at h) in
          load_with_uncommitted apply_user_event (x ∷ es) u0.base u.base u0.state u.state
            (load_user-parts (x ∷ es) u0 u.base u.state (wrap-eq-ok _ _ q))
          ∙ blank_user_uncommitted env x u0 p
      | inr other ↦ ground arith
    ]

-- After any calls on a user that GetByID gave, the saved events followed by the new ones are again
-- read without an error, to a user of the same version that agrees in all that events carry.
pub load_run_rebuilds :
    (env : Env) (saved : List DomainEvent) (cs : List (Env × Command)) (u : UserAggregate)
    → user_from_events env saved ≡ ok u
    → let v = run cs u in
      (r : UserAggregate) × (user_from_events env (saved ++ v.base.uncommitted_events) ≡ ok r)
      × SameUser v.state r.state
      × (r.base.version ≡ v.base.version)
load_run_rebuilds env saved cs u h =
    let none_new = ap (λ es. saved ++ es) (loaded_uncommitted env saved u h) ∙ append-nil saved in
    let start : UserTracks env saved u = record {
      root = u.base;
      state = u.state;
      loads = ap (user_from_events env) none_new ∙ h;
      same = SameUser-refl u.state;
      same_id = refl;
      same_version = refl;
      same_tenant = refl;
    } in
    let t = run-UserTracks env saved cs u start in
    (record { base = t.root; state = t.state }, t.loads, t.same, t.same_version)
