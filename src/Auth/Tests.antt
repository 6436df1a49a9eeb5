-- ===== src/Auth/Tests.antt =====
-- Concrete users and sessions on which the theorems about crates/auth apply.
use cloud_desk_os.Prelude.{
  ℕ, ◌+◌, ◌≡◌, refl, true, false, str_eq, none, some, List, [], ◌∷◌, arith, ok, err, inl,
}
use cloud_desk_os.Prelude.Table.{select_where, find_where}
use cloud_desk_os.Auth.Model.{
  Crypto, default_policy, account, Bucket, User, Session, Database, LoginRequest, LoginSuccess,
  rate_limited, invalid_credentials, invalid_session,
}
use cloud_desk_os.Auth.Throttle.{max_locked, is_locked, dimension_eq, is_bucket, enforce_rate_limit}
use cloud_desk_os.Auth.Factor.{is_unused, verify_totp, verify_second_factor}
use cloud_desk_os.Auth.Spent.{recovery_code_once}
use cloud_desk_os.Auth.Capability.{contains, capabilities_for_user}
use cloud_desk_os.Auth.Capability.Decides.{decided, capabilities_for_user-decided}
use cloud_desk_os.Auth.Session.{has_hash, is_user, authenticate, principal_of}
use cloud_desk_os.Auth.Login.{
  open_session, second_factor_of, decide, login_as, account_key, has_username, new_session, login,
}
use cloud_desk_os.Auth.Login.Outcome.{IsAdmitted, login_admits}
use cloud_desk_os.Auth.Login.Token.{authenticate-login}
use cloud_desk_os.Auth.Lockout.{login_locked_out}
use cloud_desk_os.Auth.History.{Call, logs_in, authenticates, run, run_ended}

-- Texts are their own hashes, and the one time-based code is 123456.
abbrev plain : Crypto
plain = record {
  normalize_username = λ s. s;
  normalize_recovery_code = λ s. s;
  trim = λ s. s;
  is_six_digits = λ s. str_eq s "123456";
  hash_value = λ s. s;
  verify_password = λ given stored. str_eq given stored;
  decrypt = λ user_id encrypted. some encrypted;
  totp = λ key counter. "123456";
}

abbrev alice : User
alice = record {
  id = "u1";
  username = "alice";
  password_hash = "secret";
  totp_secret = none;
  totp_enabled = false;
  disabled = false;
}

abbrev four_failures : Bucket
four_failures = record {
  dimension = account;
  bucket_key = "alice";
  failure_count = 4;
  locked_until = 0;
  updated_at = 90;
}

abbrev old_session : Session
old_session = record {
  id_hash = "old";
  user_id = "u1";
  created_at = 10;
  last_activity = 10;
  idle_expires_at = 1810;
  absolute_expires_at = 43210;
  remember_device = false;
  source_ip = "10.0.0.1";
  user_agent = "";
  device_label = "";
  step_up_expires_at = none;
  revoked_at = some 20;
}

abbrev a_database : Database
a_database = record {
  buckets = four_failures ∷ [];
  users = alice ∷ [];
  sessions = old_session ∷ [];
  codes = record { user_id = "u1"; code_hash = "AAAA"; used_at = none } ∷ [];
  user_roles = [];
  grants =
      record { user_id = "u1"; permission_name = "files.read"; effect = "allow" }
      ∷ record { user_id = "u1"; permission_name = "files.read"; effect = "deny" }
      ∷ [];
  attempts = [];
  events = [];
}

abbrev a_request : LoginRequest
a_request = record {
  username = "alice";
  password = "secret";
  second_factor = none;
  remember_device = false;
  source_ip = "10.0.0.1";
  user_agent = "";
  device_label = none;
}

found_bucket :
    find_where (is_bucket account (account_key plain default_policy a_request)) a_database.buckets
    ≡ some four_failures
unfolding find_where dimension_eq
found_bucket = refl

abbrev wrong_request : LoginRequest
wrong_request = record a_request { password = "guess" }

refuses_guess :
    (login plain default_policy "dummy" wrong_request "new" 100 a_database).0
    ≡ err invalid_credentials
unfolding login enforce_rate_limit is_locked max_locked select_where dimension_eq find_where
    login_as decide second_factor_of
refuses_guess = refl

-- The fifth failure at time 100 locks the account for 30 seconds, the right password included.
login_locked_out_example :
    let db' = (login plain default_policy "dummy" wrong_request "new" 100 a_database).1 in
    login plain default_policy "dummy" a_request "new" 129 db' ≡ (err rate_limited, db')
login_locked_out_example =
    login_locked_out plain default_policy "dummy" "dummy" "new" "new" wrong_request a_request 100
      129 a_database four_failures found_bucket (omega arith) refuses_guess (omega arith) refl

abbrev success : LoginSuccess
success = record {
  token = "new";
  session_id_hash = "new";
  user_id = "u1";
  username = "alice";
  absolute_expires_at = 100 + 43200;
}

logs_alice_in : (login plain default_policy "dummy" a_request "new" 100 a_database).0 ≡ ok success
unfolding login enforce_rate_limit is_locked max_locked select_where dimension_eq find_where
    login_as decide second_factor_of open_session
logs_alice_in = refl

login_admits_example :
    (u : User) × (find_where (has_username "alice") a_database.users ≡ some u)
    × (success.user_id ≡ u.id)
    × IsAdmitted plain default_policy u a_request 100 a_database
login_admits_example =
    login_admits plain default_policy "dummy" a_request "new" 100 a_database success logs_alice_in

found_name : find_where (has_username "alice") a_database.users ≡ some alice
unfolding find_where
found_name = refl

found_user : find_where (is_user "u1") a_database.users ≡ some alice
unfolding find_where
found_user = refl

authenticate-login_example :
    let db' = (login plain default_policy "dummy" a_request "new" 100 a_database).1 in
    (authenticate plain default_policy "new" 1000 db').0
    ≡ ok (principal_of (new_session plain default_policy alice a_request "new" 100) alice db')
authenticate-login_example =
    authenticate-login plain default_policy "dummy" a_request "new" 100 1000 a_database success
      alice logs_alice_in found_name found_user (omega arith) (omega arith)

found_session : find_where (has_hash "old") a_database.sessions ≡ some old_session
unfolding find_where
found_session = refl

abbrev some_calls : List Call
some_calls =
    logs_in "dummy" a_request "new" 100 ∷ authenticates "new" 110 ∷ authenticates "old" 120 ∷ []

run_ended_example :
    authenticate plain default_policy "old" 130 (run plain default_policy some_calls a_database)
    ≡ (err invalid_session, run plain default_policy some_calls a_database)
run_ended_example =
    run_ended plain default_policy some_calls a_database "old" 130 old_session found_session
      (inl (unfold is_unused in refl))

no_totp : (t : ℕ) → verify_totp plain "key" "AAAA" t ≡ false
unfolding verify_totp
no_totp t = refl

recovery_code_once_example :
    let db' =
      run plain default_policy some_calls
        (verify_second_factor plain "u1" "key" "AAAA" 100 a_database).1 in
    (verify_second_factor plain "u1" "key" "AAAA" 200 db').0 ≡ ok false
recovery_code_once_example =
    recovery_code_once plain default_policy "u1" "key" "key" "AAAA" some_calls 100 200 a_database
      refl (no_totp 100) (no_totp 200)

accepts_first : (verify_second_factor plain "u1" "key" "AAAA" 100 a_database).0 ≡ ok true
unfolding verify_second_factor is_unused
accepts_first = refl

capabilities_for_user-decided_example :
    contains "files.read" (capabilities_for_user "u1" a_database)
    ≡ decided "u1" "files.read" a_database.grants false
capabilities_for_user-decided_example = capabilities_for_user-decided "u1" "files.read" a_database
