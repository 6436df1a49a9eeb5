-- ===== src/Auth/Session.antt =====
-- Sessions: authentication by token, expiry, revocation and step-up.
use cloud_desk_os.Prelude.{
  ℕ, ◌+◌, min, Bool, not, ◌&&◌, ◌||◌, String, str_eq, Option, none, some, leb, if◌then◌else◌, ok,
  err,
}
use cloud_desk_os.Prelude.Table.{find_where, update_where}
use cloud_desk_os.Auth.Model.{
  AuthPolicy, Crypto, User, Session, Database, SessionPrincipal, AuthResult, database, secret,
  invalid_session, permission_denied, invalid_credentials, invalid_second_factor, audit_event,
  append_audit,
}
use cloud_desk_os.Audit.Event.{NewAuditEvent}
use cloud_desk_os.Auth.Factor.{is_unused, verify_second_factor}
use cloud_desk_os.Auth.Capability.{capabilities_for_user, roles_for_user, can}

abbrev pub has_hash : String → Session → Bool
has_hash id_hash s = str_eq s.id_hash id_hash

abbrev pub is_user : String → User → Bool
is_user id u = str_eq u.id id

-- An `UPDATE sessions … WHERE id_hash = ?`.
unfoldable pub update_session : String → (Session → Session) → Database → Database
update_session id_hash f db = record db { sessions = update_where (has_hash id_hash) f db.sessions }

-- The session that may be used at a time, with its user: `s.revoked_at IS NULL AND u.disabled = 0`,
-- and neither expiry has come.
unfoldable pub usable_session : String → ℕ → Database → Option (Session × User)
usable_session id_hash timestamp db = elim (find_where (has_hash id_hash) db.sessions) [
  | none ↦ none
  | some s ↦ elim (find_where (is_user s.user_id) db.users) [
    | none ↦ none
    | some u ↦
        if is_unused s.revoked_at
          && (not u.disabled
              && not (leb s.idle_expires_at timestamp || leb s.absolute_expires_at timestamp))
        then some (s, u)
        else none
  ]
]

abbrev pub principal_of : Session → User → Database → SessionPrincipal
principal_of s u db = record {
  user_id = s.user_id;
  username = u.username;
  session_id_hash = s.id_hash;
  roles = roles_for_user s.user_id db;
  capabilities = capabilities_for_user s.user_id db;
  step_up_expires_at = s.step_up_expires_at;
}

-- The refresh of the idle time, never past the absolute one.
abbrev pub refreshed : AuthPolicy → ℕ → ℕ → Session → Session
refreshed policy timestamp absolute s = record s {
  last_activity = timestamp;
  idle_expires_at = min (timestamp + policy.idle_timeout_seconds) absolute;
}

module _ (crypto : Crypto) (policy : AuthPolicy) where
  unfoldable pub authenticate : String → ℕ → Database → AuthResult SessionPrincipal × Database
  authenticate token timestamp db =
      let id_hash = crypto.hash_value token in
      elim (usable_session id_hash timestamp db) [
        | none ↦ (err invalid_session, db)
        | some (s, u) ↦ (
          ok (principal_of s u db),
          update_session id_hash (refreshed policy timestamp s.absolute_expires_at) db,
        )
      ]

  unfoldable pub revoke_principal :
      String
      → ℕ
      → String
      → String
      → AuthResult SessionPrincipal
      → Database
      → AuthResult (Unit {0}) × Database
  revoke_principal id_hash timestamp source_ip user_agent (err e) db = (err e, db)
  revoke_principal id_hash timestamp source_ip user_agent (ok principal) db = (
    ok tt,
    append_audit
        (audit_event timestamp (some principal.user_id) "auth.logout" "session" (some id_hash)
          "success" source_ip user_agent)
        (update_session id_hash (λ s. record s { revoked_at = some timestamp }) db),
  )

  -- Log-out.
  unfoldable pub revoke : String → String → String → ℕ → Database → AuthResult (Unit {0}) × Database
  revoke token source_ip user_agent timestamp db =
      let (principal, db') = authenticate token timestamp db in
      revoke_principal (crypto.hash_value token) timestamp source_ip user_agent principal db'

  -- The checks of `step_up` for a user: the password, and the second factor if there is one. A user
  -- with the factor on has a secret; without one the code breaks off.
  unfoldable pub step_up_checks :
      User → String → Option String → ℕ → Database → AuthResult (Unit {0}) × Database
  step_up_checks u password second_factor timestamp db =
      if not (crypto.verify_password password u.password_hash)
      then (err invalid_credentials, db)
      else if not u.totp_enabled
      then (ok tt, db)
      else elim u.totp_secret [
        | none ↦ (err secret, db)
        | some encrypted ↦ elim second_factor [
          | none ↦ (err invalid_second_factor, db)
          | some code ↦
              let (valid, db') = verify_second_factor crypto u.id encrypted code timestamp db in
              elim valid [
                | err e ↦ (err e, db')
                | ok b ↦ ((if b then ok tt else err invalid_second_factor), db')
              ]
        ]
      ]

  -- What a step-up that passes the checks does to the session.
  unfoldable pub finish_step_up :
      SessionPrincipal
      → String
      → String
      → ℕ
      → AuthResult (Unit {0}) × Database
      → AuthResult ℕ × Database
  finish_step_up principal source_ip user_agent timestamp (err e, db) = (err e, db)
  finish_step_up principal source_ip user_agent timestamp (ok done, db) =
      let expires_at = timestamp + policy.step_up_seconds in
      (
        ok expires_at,
        append_audit
            (audit_event timestamp (some principal.user_id) "auth.step_up" "session"
              (some principal.session_id_hash) "success" source_ip user_agent)
            (update_session principal.session_id_hash
              (λ s. record s { step_up_expires_at = some expires_at }) db),
      )

  unfoldable pub step_up_principal :
      String
      → Option String
      → String
      → String
      → ℕ
      → AuthResult SessionPrincipal
      → Database
      → AuthResult ℕ × Database
  step_up_principal password second_factor source_ip user_agent timestamp (err e) db = (err e, db)
  step_up_principal password second_factor source_ip user_agent timestamp (ok principal) db =
      elim (find_where (is_user principal.user_id) db.users) [
        | none ↦ (err database, db)
        | some u ↦
            finish_step_up principal source_ip user_agent timestamp
              (step_up_checks u password second_factor timestamp db)
      ]

  unfoldable pub step_up :
      String → String → Option String → String → String → ℕ → Database → AuthResult ℕ × Database
  step_up token password second_factor source_ip user_agent timestamp db =
      let (principal, db') = authenticate token timestamp db in
      step_up_principal password second_factor source_ip user_agent timestamp principal db'

-- `append_actor_audit`
abbrev pub actor_event :
    SessionPrincipal
    → ℕ
    → String
    → String
    → Option String
    → String
    → String
    → String
    → NewAuditEvent
actor_event actor timestamp action resource_type resource_id result source_ip user_agent =
    record (audit_event timestamp (some actor.user_id) action resource_type resource_id result
      source_ip user_agent) {
        role_snapshot = actor.roles;
        session_id_hash = some actor.session_id_hash;
      }

abbrev pub revoked : ℕ → Session → Session
revoked timestamp s = if is_unused s.revoked_at then record s { revoked_at = some timestamp } else s

-- A user may revoke a session of their own; for others they need `users.manage`.
unfoldable pub revoke_session :
    SessionPrincipal → String → String → String → ℕ → Database → AuthResult (Unit {0}) × Database
revoke_session actor id_hash source_ip user_agent timestamp db =
    elim (find_where (has_hash id_hash) db.sessions) [
      | none ↦ (err invalid_session, db)
      | some s ↦
          if not (str_eq s.user_id actor.user_id) && not (can "users.manage" actor)
          then (err permission_denied, db)
          else (
            ok tt,
            append_audit
                (actor_event actor timestamp "sessions.revoke" "session" (some id_hash) "success"
                  source_ip user_agent)
                (update_session id_hash (revoked timestamp) db),
          )
    ]
