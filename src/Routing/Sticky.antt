-- ===== src/Routing/Sticky.antt =====
-- What a sticky session is given by selectServiceInstance (api-gateway/internal/routing/engine.go), over
-- any requests of others and cleanups between.
use pyairtable_go_services.Prelude.{
  ℕ, ◌≡◌, String, true, false, List, [], ◌∷◌, Option, none, some, str_eq,
}
use pyairtable_go_services.Routing.{Ref, is_healthy}
use pyairtable_go_services.Routing.Balancers.{Floats}
use pyairtable_go_services.Routing.Sessions.{Sessions, perform_cleanup}
use pyairtable_go_services.Routing.Sessions.Kept.{Keeps}
use pyairtable_go_services.Routing.Engine.{Engine, select_service_instance}

-- A choice of an instance, with its time, session and service, or a cleanup of the sessions.
pub data Call : Type 0 where
  selects : ℕ → String → String → Call
  cleans : ℕ → Call

abbrev pub time_of : Call → ℕ
time_of (selects time session_id service_name) = time
time_of (cleans time) = time

abbrev pub cleaned : ℕ → Option Sessions → Option Sessions
cleaned time none = none
cleaned time (some sessions) = some (perform_cleanup time sessions)

unfoldable pub obey : Floats → (ℕ → ℕ) → Call → Engine → Engine
obey floats intn (selects time session_id service_name) e =
    (select_service_instance floats intn time session_id service_name e).1
obey floats intn (cleans time) e = record e { sticky = cleaned time e.sticky }

unfoldable pub obey_all : Floats → (ℕ → ℕ) → List Call → Engine → Engine
obey_all floats intn [] e = e
obey_all floats intn (c ∷ calls) e = obey_all floats intn calls (obey floats intn c e)

module _ (floats : Floats) (intn : ℕ → ℕ) (now : ℕ) (session_id service_name : String) (r : Ref)
    (named : str_eq session_id "" ≡ false) where
  -- The sessions keep the binding to r, and r is healthy.
  abbrev Held : Engine → Type 0
  Held e =
      (sessions : Sessions) × (e.sticky ≡ some sessions)
      × Keeps now session_id service_name r sessions
      × (is_healthy (e.heap r) ≡ true)
