-- ===== src/Auth/Login/Token.antt =====
-- The token that a log-in returns.
use cloud_desk_os.Prelude.{
  ℕ, ◌+◌, ◌<◌, ◌≡◌, refl, subst, true, false, String, str_eq, eq_iff, some, List, ◌∷◌, ok, arith,
}
use cloud_desk_os.Prelude.Table.{find_where}
use cloud_desk_os.Auth.Model.{
  AuthPolicy, Crypto, User, Session, Database, LoginRequest, LoginSuccess,
}
use cloud_desk_os.Auth.Factor.{is_unused}
use cloud_desk_os.Auth.Session.{has_hash, is_user, usable_session, authenticate, principal_of}
use cloud_desk_os.Auth.Login.{has_username, absolute_timeout, new_session, login}
use cloud_desk_os.Auth.Login.Outcome.{Opens, login-Opens}

module _ (crypto : Crypto) (policy : AuthPolicy) where
  usable_session-eq_some :
      (id_hash : String) (t : ℕ) (db : Database) (s : Session) (u : User)
      → find_where (has_hash id_hash) db.sessions ≡ some s
      → find_where (is_user s.user_id) db.users ≡ some u
      → is_unused s.revoked_at ≡ true
      → u.disabled ≡ false
      → t < s.idle_expires_at
      → t < s.absolute_expires_at
      → usable_session id_hash t db ≡ some (s, u)
  unfolding usable_session
  usable_session-eq_some id_hash t db s u found there unused enabled idle absolute = ground arith

  find-new :
      (u : User) (request : LoginRequest) (token : String) (t : ℕ) (rest sessions : List Session)
      → sessions ≡ new_session crypto policy u request token t ∷ rest
      → find_where (has_hash (crypto.hash_value token)) sessions
        ≡ some (new_session crypto policy u request token t)
  unfolding find_where
  find-new u request token t rest sessions opened =
      let self : str_eq (crypto.hash_value token) (crypto.hash_value token) ≡ true =
        (eq_iff (crypto.hash_value token) (crypto.hash_value token)).1 refl in
      rw (opened, find_where, self)

  -- The token that a log-in returns authenticates its user until the idle time or the absolute
  -- time has passed, if identifiers of users differ.
  pub authenticate-login :
      (dummy : String) (request : LoginRequest) (token : String) (t t' : ℕ) (db : Database)
      (s : LoginSuccess) (u : User)
      → (login crypto policy dummy request token t db).0 ≡ ok s
      → find_where (has_username (crypto.normalize_username request.username)) db.users ≡ some u
      → find_where (is_user u.id) db.users ≡ some u
      → t' < t + policy.idle_timeout_seconds
      → t' < t + absolute_timeout crypto policy request
      → let db' = (login crypto policy dummy request token t db).1 in
        (authenticate crypto policy token t' db').0
        ≡ ok (principal_of (new_session crypto policy u request token t) u db')
  unfolding authenticate
  authenticate-login dummy request token t t' db s u h named there idle absolute =
      let (v, found, admitted, opens) = login-Opens crypto policy dummy request token t db s h in
      let same : v ≡ u = ground arith in
      let opened = subst (λ w. Opens crypto policy w request token t db.users s db') same opens in
      let enabled : u.disabled ≡ false =
        subst (λ (w : User). w.disabled ≡ false) same admitted.enabled in
      let usable =
        usable_session-eq_some (crypto.hash_value token) t' db'
          (new_session crypto policy u request token t) u
          (find-new u request token t opened.rest db'.sessions opened.sessions)
          (rw opened.same_users there) (unfold is_unused in refl) enabled idle absolute in
      rw (usable, authenticate)
    where
      db' : Database
      db' = (login crypto policy dummy request token t db).1
