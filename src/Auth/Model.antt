-- ===== src/Auth/Model.antt =====
-- The rows that crates/auth/src/lib.rs keeps in the database, its policy, and what it takes from
-- other libraries. Times are in seconds.
use cloud_desk_os.Prelude.{ℕ, ◌*◌, Bool, String, Option, List, ◌++◌, ◌∷◌, [], none, Result}
use cloud_desk_os.Audit.Event.{NewAuditEvent, object, end}

pub record AuthPolicy : Type 0 where
  pub idle_timeout_seconds : ℕ
  pub absolute_timeout_seconds : ℕ
  pub remember_timeout_seconds : ℕ
  pub step_up_seconds : ℕ
  pub maximum_failures : ℕ

abbrev pub default_policy : AuthPolicy
default_policy = record {
  idle_timeout_seconds = 30 * 60;
  absolute_timeout_seconds = 12 * 60 * 60;
  remember_timeout_seconds = 30 * 24 * 60 * 60;
  step_up_seconds = 5 * 60;
  maximum_failures = 5;
}

-- Texts and cryptography of other libraries: trimming and changing case, the digits test, SHA-256
-- in hexadecimal, Argon2, the decryption of a secret for a user, and the HMAC code of a counter.
pub record Crypto : Type 0 where
  pub normalize_username : String → String
  pub normalize_recovery_code : String → String
  pub trim : String → String
  pub is_six_digits : String → Bool
  pub hash_value : String → String
  pub verify_password : String → String → Bool
  pub decrypt : String → String → Option String
  pub totp : String → ℕ → String

-- A row of `login_throttle_buckets` for an account or an address.
pub data Dimension : Type 0 where
  account ip : Dimension

pub record Bucket : Type 0 where
  pub dimension : Dimension
  pub bucket_key : String
  pub failure_count : ℕ
  pub locked_until : ℕ
  pub updated_at : ℕ

pub record User : Type 0 where
  pub id : String
  pub username : String
  pub password_hash : String
  pub totp_secret : Option String
  pub totp_enabled : Bool
  pub disabled : Bool

pub record Session : Type 0 where
  pub id_hash : String
  pub user_id : String
  pub created_at : ℕ
  pub last_activity : ℕ
  pub idle_expires_at : ℕ
  pub absolute_expires_at : ℕ
  pub remember_device : Bool
  pub source_ip : String
  pub user_agent : String
  pub device_label : String
  pub step_up_expires_at : Option ℕ
  pub revoked_at : Option ℕ

pub record RecoveryCode : Type 0 where
  pub user_id : String
  pub code_hash : String
  pub used_at : Option ℕ

pub record LoginAttempt : Type 0 where
  pub user_id : Option String
  pub attempted_username : String
  pub source_ip : String
  pub user_agent : String
  pub succeeded : Bool
  pub reason : String
  pub created_at : ℕ

-- A row of the query of `capabilities_for_user`: a permission of one of the user's roles, or one of
-- the user's own, which may deny.
pub record Grant : Type 0 where
  pub user_id : String
  pub permission_name : String
  pub effect : String

pub record UserRole : Type 0 where
  pub user_id : String
  pub role : String

-- The tables. `grants` are the rows of the capability query in the order that it returns them, and
-- `user_roles` those of the role query. Of the audit log only the events are kept here.
pub record Database : Type 0 where
  pub buckets : List Bucket
  pub users : List User
  pub sessions : List Session
  pub codes : List RecoveryCode
  pub user_roles : List UserRole
  pub grants : List Grant
  pub attempts : List LoginAttempt
  pub events : List NewAuditEvent

pub record LoginRequest : Type 0 where
  pub username : String
  pub password : String
  pub second_factor : Option String
  pub remember_device : Bool
  pub source_ip : String
  pub user_agent : String
  pub device_label : Option String

pub record SessionPrincipal : Type 0 where
  pub user_id : String
  pub username : String
  pub session_id_hash : String
  pub roles : List String
  pub capabilities : List String
  pub step_up_expires_at : Option ℕ

pub record LoginSuccess : Type 0 where
  pub token : String
  pub session_id_hash : String
  pub user_id : String
  pub username : String
  pub absolute_expires_at : ℕ

-- The errors of the modelled calls; the statements themselves do not fail here.
pub data AuthError : Type 0 where
  database secret invalid_credentials rate_limited invalid_session : AuthError
  invalid_second_factor permission_denied step_up_required : AuthError

abbrev pub AuthResult {ℓ} : Type ℓ → Type ℓ
AuthResult A = Result A AuthError

unfoldable pub audit_event :
    ℕ → Option String → String → String → Option String → String → String → String → NewAuditEvent
audit_event timestamp user_id action resource_type resource_id result source_ip user_agent =
    record {
      timestamp = timestamp;
      user_id = user_id;
      role_snapshot = [];
      session_id_hash = none;
      source_ip = source_ip;
      user_agent = user_agent;
      action = action;
      resource_type = resource_type;
      resource_id = resource_id;
      path = none;
      remote_target = none;
      result = result;
      metadata = object end;
    }

unfoldable pub append_audit : NewAuditEvent → Database → Database
append_audit event db = record db { events = db.events ++ event ∷ [] }
