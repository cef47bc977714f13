-- ===== src/Domain/User/Sessions.antt =====
-- domain/user/aggregate.go: sessions and the verification of the email. The map holds pointers to
-- sessions that nothing else changes, so a session is kept by value.
use pyairtable_go_services.Prelude.{
  ℕ, ◌+◌, String, true, not, Option, none, some, lookup, insert, map_values, str_eq, if◌then◌else◌,
}
use pyairtable_go_services.Domain.Shared.Error.{
  Error, new_domain_error, err_code_not_found, err_code_internal,
}
use pyairtable_go_services.Domain.Shared.Types.{Env}
use pyairtable_go_services.Domain.User.Types.{UserAggregate, AuthSession, user_status_active}
use pyairtable_go_services.Domain.User.Account.{broken_rule, end_session}

-- CreateSession; `token` is what generateSecureToken gave, `none` where crypto/rand failed.
unfoldable pub create_session :
    Env
    → Option String
    → String
    → String
    → String
    → ℕ
    → UserAggregate
    → UserAggregate × Option AuthSession × Option Error
create_session env token device_info ip_address user_agent duration u =
    if not (str_eq u.state.status user_status_active)
    then (u, none, broken_rule "cannot create session for inactive user")
    else elim token [
      | none ↦ (
        u,
        none,
        some (new_domain_error err_code_internal "failed to generate session token" (some "rand")),
      )
      | some t ↦
          let session : AuthSession = record {
            id = env.uuid 0;
            token = t;
            device_info = device_info;
            ip_address = ip_address;
            user_agent = user_agent;
            created_at = env.now 0;
            expires_at = env.now 1 + duration;
            last_used_at = env.now 2;
            is_active = true;
          } in
          (
            record u {
              state = record (u.state) {
                sessions = insert session.id session u.state.sessions;
                last_login_at = some session.created_at;
                updated_at = env.now 3;
              };
            },
            some session,
            none,
          )
    ]

unfoldable pub invalidate_session : Env → String → UserAggregate → UserAggregate × Option Error
invalidate_session env session_id u = elim (lookup session_id u.state.sessions) [
  | none ↦ (u, some (new_domain_error err_code_not_found "session not found" none))
  | some s ↦ (
    record u {
      state = record (u.state) {
        sessions = insert session_id (end_session s) u.state.sessions;
        updated_at = env.now 0;
      };
    },
    none,
  )
]

unfoldable pub invalidate_all_sessions : Env → UserAggregate → UserAggregate
invalidate_all_sessions env u = record u {
  state = record (u.state) {
    sessions = map_values end_session u.state.sessions;
    updated_at = env.now 0;
  };
}

unfoldable pub verify_email : Env → UserAggregate → UserAggregate × Option Error
verify_email env u =
    if u.state.email_verified then (u, broken_rule "email is already verified") else (
      record u {
        state = record (u.state) {
          email_verified = true;
          email_verified_at = some (env.now 0);
          updated_at = env.now 1;
        };
      },
      none,
    )
