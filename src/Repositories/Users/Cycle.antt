-- ===== src/Repositories/Users/Cycle.antt =====
-- Loading a user, changing it, saving it and loading it again (pkg/repositories).
use pyairtable_go_services.Prelude.{
  ◌+◌, ◌<◌, String, ◌≡◌, sym, ap, ◌∙◌, List, [], ◌∷◌, none, length, All, inl, inr, str_eq,
  Bool-cases, arith,
}
use pyairtable_go_services.Domain.Shared.Error.{ok, ◌>>=◌, >>=-eq-ok, wrap}
use pyairtable_go_services.Domain.Shared.Types.{Env, int64_room}
use pyairtable_go_services.Domain.Shared.Event.{DomainEvent, event_type_user_registered}
use pyairtable_go_services.Domain.Shared.Stamps.{IsStamped, clean-IsStamped}
use pyairtable_go_services.Domain.Shared.History.{last_version, load_with_loaded}
use pyairtable_go_services.Domain.User.Types.{UserAggregate}
use pyairtable_go_services.Domain.User.History.{apply_user_event}
use pyairtable_go_services.Domain.User.Commands.{Command, run, user_run-IsStamped, user_run-id}
use pyairtable_go_services.Domain.User.Replay.{SameUser}
use pyairtable_go_services.EventStore.{Table, Db, current_version, select, get_events}
use pyairtable_go_services.EventStore.Order.{
  IsAscending, order_by_version-IsAscending, last_version-current_version, select-IsOf,
}
use pyairtable_go_services.Repositories.{save}
use pyairtable_go_services.Repositories.Saving.{save-get_events}
use pyairtable_go_services.Repositories.Users.{blank_user, user_from_events, get_user_by_id}
use pyairtable_go_services.Repositories.Users.Rebuild.{
  load_run_rebuilds, load_user-parts, wrap-eq-ok, loaded_uncommitted,
}

-- What GetByID gives for the events of one aggregate: its identifier and the version of the last.
loaded_root :
    (env : Env) (id : String) (es : List DomainEvent) (u : UserAggregate)
    → All (λ e. e.aggregate_id ≡ id) es
    → user_from_events env es ≡ ok u
    → (u.base.id ≡ id) × (u.base.version ≡ last_version 0 es)
unfolding user_from_events
loaded_root env id [] u own h = cc
loaded_root env id (x ∷ es) u own h =
    elim (Bool-cases (str_eq x.event_type event_type_user_registered)) [
      | inl first ↦
          let (u0, p, q) = >>=-eq-ok (blank_user env x) _ (rw (first, user_from_events) at h) in
          let (i, v, o) =
            load_with_loaded apply_user_event (x ∷ es) u0.base u.base u0.state u.state
              (load_user-parts (x ∷ es) u0 u.base u.state (wrap-eq-ok _ _ q)) in
          (i ∙ sym o.0 ∙ own.0, v)
      | inr other ↦ ground arith
    ]

-- A user that GetByID gives, changed by any calls and saved with success into the table from which
-- it was read, is read back by GetByID: without an error, with the version of the user that was
-- saved, and agreeing with it in all that events carry. The table's rows of the user rise in their
-- versions, and the
-- int64 version has room for the new events: it stays below 2^63. Both calls of GetByID have the same
-- clock and the same source of identifiers.
pub get-save-get_user :
    (env : Env) (db : Db) (id : String) (rows : Table) (cs : List (Env × Command))
    (u : UserAggregate)
    → IsAscending 0 (select id 0 rows)
    → get_user_by_id env none id rows ≡ ok u
    → current_version id rows + length (run cs u).base.uncommitted_events < int64_room
    → (save db rows (run cs u).base rows).2 ≡ none
    → let v = run cs u in
      (r : UserAggregate) × (get_user_by_id env none id (save db rows v.base rows).0 ≡ ok r)
      × SameUser v.state r.state
      × (r.base.version ≡ v.base.version)
unfolding get_user_by_id get_events
get-save-get_user env db id rows cs u asc got room done =
    let events : List DomainEvent = select id 0 rows in
    let read : user_from_events env events ≡ ok u =
      ap (user_from_events env) (sym (order_by_version-IsAscending 0 events asc)) ∙ got in
    let (same_id, version) = loaded_root env id events u (select-IsOf id 0 rows) read in
    let current = version ∙ last_version-current_version id rows asc (omega arith) in
    let stamped : IsStamped (current_version id rows) (run cs u).base =
      user_run-IsStamped _ cs u
        (clean-IsStamped _ u.base (loaded_uncommitted env events u read) current) in
    let (r, again, same, v) = load_run_rebuilds env events cs u read in
    let v_id : (run cs u).base.id ≡ id = user_run-id cs u ∙ same_id in
    let saved = save-get_events db id rows (run cs u).base v_id asc stamped room done in
    (r, ap (λ o. wrap "failed to get events: %w" o >>= user_from_events env) saved ∙ again, same, v)
