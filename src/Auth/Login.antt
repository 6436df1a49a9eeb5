-- ===== src/Auth/Login.antt =====
-- `login` of crates/auth/src/lib.rs. The random token is an argument.
pub mod Outcome
pub mod Token
use cloud_desk_os.Prelude.{
  ℕ, ◌+◌, Bool, true, false, not, ◌&&◌, ◌||◌, String, str_eq, Option, none, some, List, [], ◌∷◌,
  if◌then◌else◌, Result, ok, err,
}
use cloud_desk_os.Prelude.Table.{find_where}
use cloud_desk_os.Auth.Model.{
  AuthPolicy, Crypto, User, Session, Database, LoginRequest, LoginSuccess, LoginAttempt, AuthResult,
  database, invalid_credentials, audit_event, append_audit,
}
use cloud_desk_os.Auth.Throttle.{enforce_rate_limit, count_failure, clear_buckets}
use cloud_desk_os.Auth.Factor.{verify_second_factor}
use cloud_desk_os.Auth.Session.{has_hash}

abbrev pub has_username : String → User → Bool
has_username username u = str_eq u.username username

-- The user that `login` goes on with: for an unknown name one without identifier, which is disabled
-- and has the dummy password.
abbrev pub stand_in : String → String → User
stand_in username dummy_password_hash = record {
  id = "";
  username = username;
  password_hash = dummy_password_hash;
  totp_secret = none;
  totp_enabled = false;
  disabled = true;
}

unfoldable pub text_or_empty : Option String → String
text_or_empty none = ""
text_or_empty (some s) = s

module _ (crypto : Crypto) (policy : AuthPolicy) where
  abbrev pub account_key : LoginRequest → String
  account_key request = crypto.hash_value (crypto.normalize_username request.username)

  abbrev pub ip_key : LoginRequest → String
  ip_key request = crypto.hash_value request.source_ip

  unfoldable pub record_login_history :
      Option String → LoginRequest → Bool → String → ℕ → Database → Database
  record_login_history user_id request succeeded reason timestamp db = record db {
    attempts =
        (record {
          user_id = user_id;
          attempted_username = crypto.normalize_username request.username;
          source_ip = request.source_ip;
          user_agent = request.user_agent;
          succeeded = succeeded;
          reason = reason;
          created_at = timestamp;
        })
        ∷ db.attempts;
  }

  unfoldable pub record_login_failure :
      Option String → LoginRequest → String → ℕ → Database → Database
  record_login_failure user_id request reason timestamp db =
      let counted : Database = record db {
        buckets =
            count_failure policy.maximum_failures (account_key request) (ip_key request) timestamp
              db.buckets;
      } in
      append_audit
        (audit_event timestamp user_id "auth.login" "session" none "failure" request.source_ip
          request.user_agent)
        (record_login_history user_id request false reason timestamp counted)

  -- The second factor of a user: valid without a check unless it is switched on, and checked only
  -- after a valid password.
  unfoldable pub second_factor_of :
      Bool → User → LoginRequest → ℕ → Database → AuthResult Bool × Database
  second_factor_of password_valid u request timestamp db =
      if password_valid && u.totp_enabled
      then elim u.totp_secret [
        | none ↦ (ok false, db)
        | some encrypted ↦ elim request.second_factor [
          | none ↦ (ok false, db)
          | some code ↦ verify_second_factor crypto u.id encrypted code timestamp db
        ]
      ]
      else (ok (not u.totp_enabled), db)

  abbrev pub absolute_timeout : LoginRequest → ℕ
  absolute_timeout request =
      if request.remember_device
      then policy.remember_timeout_seconds
      else policy.absolute_timeout_seconds

  abbrev pub new_session : User → LoginRequest → String → ℕ → Session
  new_session u request token timestamp = record {
    id_hash = crypto.hash_value token;
    user_id = u.id;
    created_at = timestamp;
    last_activity = timestamp;
    idle_expires_at = timestamp + policy.idle_timeout_seconds;
    absolute_expires_at = timestamp + absolute_timeout request;
    remember_device = request.remember_device;
    source_ip = request.source_ip;
    user_agent = request.user_agent;
    device_label = text_or_empty request.device_label;
    step_up_expires_at = none;
    revoked_at = none;
  }

  -- A log-in that passed. The primary key refuses a session whose hash is taken, after the
  -- statements before it.
  unfoldable pub open_session :
      User → LoginRequest → String → ℕ → Database → AuthResult LoginSuccess × Database
  open_session u request token timestamp db =
      let cleared : Database = record db {
        buckets = clear_buckets (account_key request) (ip_key request) db.buckets;
      } in
      let noted = record_login_history (some u.id) request true "success" timestamp cleared in
      let id_hash = crypto.hash_value token in
      elim (find_where (has_hash id_hash) db.sessions) [
        | some taken ↦ (err database, noted)
        | none ↦ (
          ok (record {
            token = token;
            session_id_hash = id_hash;
            user_id = u.id;
            username = u.username;
            absolute_expires_at = timestamp + absolute_timeout request;
          }),
          append_audit
              (audit_event timestamp (some u.id) "auth.login" "session" (some id_hash) "success"
                request.source_ip request.user_agent)
              (record noted { sessions = new_session u request token timestamp ∷ noted.sessions }),
        )
      ]

  abbrev pub reason_of : Bool → User → String
  reason_of password_valid u =
      if password_valid && u.totp_enabled then "invalid_second_factor" else "invalid_credentials"

  -- The decision, once password and second factor are checked. `known` says that the name is a
  -- user's.
  unfoldable pub decide :
      Bool
      → Bool
      → User
      → LoginRequest
      → String
      → ℕ
      → AuthResult Bool × Database
      → AuthResult LoginSuccess × Database
  decide known password_valid u request token timestamp (err e, db) = (err e, db)
  decide known password_valid u request token timestamp (ok second_factor_valid, db) =
      if not password_valid || (not second_factor_valid || (u.disabled || not known))
      then (
        err invalid_credentials,
        record_login_failure (if known then some u.id else none) request
            (reason_of password_valid u) timestamp db,
      )
      else open_session u request token timestamp db

  unfoldable pub login_as :
      Bool → User → LoginRequest → String → ℕ → Database → AuthResult LoginSuccess × Database
  login_as known u request token timestamp db =
      let password_valid = crypto.verify_password request.password u.password_hash in
      decide known password_valid u request token timestamp
        (second_factor_of password_valid u request timestamp db)

  -- `dummy` is the hash that stands in for the password of an unknown user.
  unfoldable pub login :
      String → LoginRequest → String → ℕ → Database → AuthResult LoginSuccess × Database
  login dummy request token timestamp db =
      let normalized = crypto.normalize_username request.username in
      elim (enforce_rate_limit (account_key request) (ip_key request) timestamp db) [
        | err e ↦ (err e, db)
        | ok free ↦ elim (find_where (has_username normalized) db.users) [
          | none ↦ login_as false (stand_in normalized dummy) request token timestamp db
          | some u ↦ login_as true u request token timestamp db
        ]
      ]
