-- ===== src/Auth/Login/Outcome.antt =====
-- What a log-in that succeeds has checked.
use cloud_desk_os.Prelude.{
  ℕ, ◌+◌, ◌-◌, ◌/◌, ◌⊎◌, ◌&&◌, ltb, any, eq_iff, ◌≡◌, refl, sym, ap, ◌∙◌, subst, Bool, true, false,
  not, ◌||◌, String, some, List, ◌∷◌, ok, err, arith, Bool-cases, Option-cases, inl, inr,
}
use cloud_desk_os.Prelude.Table.{find_where, count_where}
use cloud_desk_os.Auth.Model.{
  AuthPolicy, Crypto, account, ip, Bucket, User, Session, Database, LoginRequest, LoginSuccess,
  AuthResult, append_audit,
}
use cloud_desk_os.Auth.Throttle.{enforce_rate_limit}
use cloud_desk_os.Auth.Throttle.{is_bucket}
use cloud_desk_os.Auth.Throttle.Locked.{enforce_rate_limit-unlocked}
use cloud_desk_os.Auth.Factor.{is_open_code, totp_at, verify_totp, use_code, verify_second_factor}
use cloud_desk_os.Auth.Session.{has_hash}
use cloud_desk_os.Auth.Login.{
  has_username, stand_in, account_key, ip_key, new_session, record_login_history, second_factor_of,
  open_session, decide, login_as, login,
}

module _ (crypto : Crypto) (policy : AuthPolicy) where
  -- Six digits that are the time-based code of the step before, at or after the time.
  abbrev pub IsTotp : String → String → ℕ → Type 0
  IsTotp key code t =
      (crypto.is_six_digits (crypto.trim code) ≡ true)
      × ((crypto.totp key ((t - 30) / 30) ≡ crypto.trim code)
          ⊎ ((crypto.totp key (t / 30) ≡ crypto.trim code)
              ⊎ (crypto.totp key ((t + 30) / 30) ≡ crypto.trim code)))

  -- A code that was sent is a time-based code under the user's secret, or exactly one recovery code
  -- of the user that is not used yet.
  abbrev pub HasSecondFactor : User → LoginRequest → ℕ → Database → Type 0
  HasSecondFactor u request t db =
      (encrypted code key : String) × (u.totp_secret ≡ some encrypted)
      × (request.second_factor ≡ some code)
      × (crypto.decrypt u.id encrypted ≡ some key)
      × (IsTotp key code t
          ⊎ (count_where
                (is_open_code u.id (crypto.hash_value (crypto.normalize_recovery_code code)))
                db.codes
              ≡ 1))

  -- What was checked of a user whom a log-in let in.
  pub record IsAdmitted (u : User) (request : LoginRequest) (t : ℕ) (db : Database) : Type 0 where
    pub enabled : u.disabled ≡ false
    pub password : crypto.verify_password request.password u.password_hash ≡ true
    pub factor : (u.totp_enabled ≡ false) ⊎ HasSecondFactor u request t db
    pub unlocked :
        any
          (λ (b : Bucket).
            ((is_bucket account (account_key crypto policy request) b
                || is_bucket ip (ip_key crypto policy request) b)
              && ltb t b.locked_until))
          db.buckets
        ≡ false

  verify_totp-IsTotp :
      (key code : String) (t : ℕ) → verify_totp crypto key code t ≡ true → IsTotp key code t
  unfolding verify_totp totp_at
  verify_totp-IsTotp key code t h = ground (
    arith,
    h,
    eq_iff (crypto.totp key ((t - 30) / 30)) (crypto.trim code),
    eq_iff (crypto.totp key (t / 30)) (crypto.trim code),
    eq_iff (crypto.totp key ((t + 30) / 30)) (crypto.trim code),
  )

  verify_second_factor-checked :
      (user_id encrypted code : String) (t : ℕ) (db : Database)
      → (verify_second_factor crypto user_id encrypted code t db).0 ≡ ok true
      → (key : String) × (crypto.decrypt user_id encrypted ≡ some key)
        × (IsTotp key code t
            ⊎ (count_where
                  (is_open_code user_id (crypto.hash_value (crypto.normalize_recovery_code code)))
                  db.codes
                ≡ 1))
  unfolding verify_second_factor use_code
  verify_second_factor-checked user_id encrypted code t db h =
      elim (Option-cases (crypto.decrypt user_id encrypted)) [
        | inl e ↦ absurd (ground (arith, e, h))
        | inr (key, e) ↦ elim (Bool-cases (verify_totp crypto key code t)) [
          | inl now ↦ (key, e, inl (verify_totp-IsTotp key code t now))
          | inr stale ↦ (key, e, inr (ground (arith, e, stale, h)))
        ]
      ]

  second_factor_of-checked :
      (u : User) (request : LoginRequest) (t : ℕ) (db : Database)
      → (second_factor_of crypto policy true u request t db).0 ≡ ok true
      → (u.totp_enabled ≡ false) ⊎ HasSecondFactor u request t db
  unfolding second_factor_of
  second_factor_of-checked u request t db h = elim (Bool-cases u.totp_enabled) [
    | inr off ↦ inl off
    | inl on ↦ elim (Option-cases u.totp_secret) [
      | inl e ↦ absurd (ground (arith, on, e, h))
      | inr (encrypted, e) ↦ elim (Option-cases request.second_factor) [
        | inl f ↦ absurd (ground (arith, on, e, f, h))
        | inr (code, f) ↦
            let (key, opened, passed) =
              verify_second_factor-checked u.id encrypted code t db (ground (arith, on, e, f, h)) in
            inr (encrypted, code, key, e, f, opened, passed)
      ]
    ]
  ]

  decide-ok :
      (known valid : Bool) (u : User) (request : LoginRequest) (token : String) (t : ℕ)
      (r : AuthResult Bool) (db : Database) (s : LoginSuccess)
      → (decide crypto policy known valid u request token t (r, db)).0 ≡ ok s
      → (known ≡ true)
        × (valid ≡ true)
        × (u.disabled ≡ false)
        × (r ≡ ok true)
        × (decide crypto policy known valid u request token t (r, db)
            ≡ open_session crypto policy u request token t db)
  unfolding decide
  decide-ok known valid u request token t (err e) db s h = cc
  decide-ok known valid u request token t (ok b) db s h =
      elim (Bool-cases (not valid || (not b || (u.disabled || not known)))) [
        | inl c ↦ absurd (ground arith)
        | inr c ↦ (ground arith, ground arith, ground arith, ground arith, rw c)
      ]

  second_factor_of-users :
      (valid : Bool) (u : User) (request : LoginRequest) (t : ℕ) (db : Database)
      → (second_factor_of crypto policy valid u request t db).1.users ≡ db.users
  unfolding second_factor_of verify_second_factor use_code
  second_factor_of-users valid u request t db = ground arith

  -- The session that is opened, in front of those there were.
  pub record Opens (u : User) (request : LoginRequest) (token : String) (t : ℕ) (users : List User)
      (s : LoginSuccess) (db' : Database) : Type 0 where
    pub rest : List Session
    pub sessions : db'.sessions ≡ new_session crypto policy u request token t ∷ rest
    pub same_users : db'.users ≡ users
    pub user : s.user_id ≡ u.id

  open_session-Opens :
      (u : User) (request : LoginRequest) (token : String) (t : ℕ) (db : Database)
      (s : LoginSuccess)
      → (open_session crypto policy u request token t db).0 ≡ ok s
      → Opens u request token t db.users s (open_session crypto policy u request token t db).1
  unfolding open_session record_login_history append_audit
  open_session-Opens u request token t db s h =
      elim (Option-cases (find_where (has_hash (crypto.hash_value token)) db.sessions)) [
        | inr (taken, e) ↦ absurd (ground (arith, e))
        | inl e ↦
            rw (e, open_session)
              (record {
                rest = db.sessions;
                sessions = refl;
                same_users = refl;
                user = ground (arith, e);
              })
      ]

  login_as-Opens :
      (known : Bool) (u : User) (request : LoginRequest) (token : String) (t : ℕ) (db : Database)
      (s : LoginSuccess)
      → (login_as crypto policy known u request token t db).0 ≡ ok s
      → (known ≡ true)
        × (u.disabled ≡ false)
        × (crypto.verify_password request.password u.password_hash ≡ true)
        × ((second_factor_of crypto policy true u request t db).0 ≡ ok true)
        × Opens u request token t db.users s (login_as crypto policy known u request token t db).1
  unfolding login_as
  login_as-Opens known u request token t db s h =
      let checked = second_factor_of crypto policy valid u request t db in
      let (k, v, d, f, same) = decide-ok known valid u request token t checked.0 checked.1 s h in
      (
        k,
        d,
        v,
        subst (λ b. (second_factor_of crypto policy b u request t db).0 ≡ ok true) v f,
        subst (λ (r : AuthResult LoginSuccess × Database). Opens u request token t db.users s r.1)
            (sym same)
            (subst
              (λ us.
                Opens u request token t us s
                  (open_session crypto policy u request token t checked.1).1)
              (second_factor_of-users valid u request t db)
              (open_session-Opens u request token t checked.1 s
                (ap (λ (r : AuthResult LoginSuccess × Database). r.0) (sym same) ∙ h))),
      )
    where
      valid : Bool
      valid = crypto.verify_password request.password u.password_hash

  pub login-Opens :
      (dummy : String) (request : LoginRequest) (token : String) (t : ℕ) (db : Database)
      (s : LoginSuccess)
      → (login crypto policy dummy request token t db).0 ≡ ok s
      → (u : User) × (find_where
            (has_username (crypto.normalize_username request.username))
            db.users
          ≡ some u)
        × IsAdmitted u request t db
        × Opens u request token t db.users s (login crypto policy dummy request token t db).1
  unfolding login
  login-Opens dummy request token t db s h =
      by_limit
        (enforce_rate_limit (account_key crypto policy request) (ip_key crypto policy request) t db)
        refl
    where
      by_limit :
          (r : AuthResult (Unit {0}))
          → enforce_rate_limit
              (account_key crypto policy request)
              (ip_key crypto policy request)
              t
              db
            ≡ r
          → (u : User) × (find_where
                (has_username (crypto.normalize_username request.username))
                db.users
              ≡ some u)
            × IsAdmitted u request t db
            × Opens u request token t db.users s (login crypto policy dummy request token t db).1
      by_limit (err e) made = absurd (ground (arith, made, h))
      by_limit (ok x) made =
          elim (Option-cases
            (find_where (has_username (crypto.normalize_username request.username)) db.users)) [
              | inl e ↦
                  let stand = stand_in (crypto.normalize_username request.username) dummy in
                  let same : login crypto policy dummy request token t db
                      ≡ login_as crypto policy false stand request token t db =
                    rw (made, login, e) in
                  let fake =
                    login_as-Opens false stand request token t db s
                      (ap (λ (r : AuthResult LoginSuccess × Database). r.0) (sym same) ∙ h) in
                  let no : false ≡ true = fake.0 in cc
              | inr (u, e) ↦
                  let same : login crypto policy dummy request token t db
                      ≡ login_as crypto policy true u request token t db =
                    rw (made, login, e) in
                  let (k, d, v, f, opens) =
                    login_as-Opens true u request token t db s
                      (ap (λ (r : AuthResult LoginSuccess × Database). r.0) (sym same) ∙ h) in
                  (
                    u,
                    e,
                    record {
                      enabled = d;
                      password = v;
                      factor = second_factor_of-checked u request t db f;
                      unlocked = enforce_rate_limit-unlocked _ _ t db made;
                    },
                    subst
                        (λ (r : AuthResult LoginSuccess × Database).
                          Opens u request token t db.users s r.1)
                        (sym same) opens,
                  )
            ]

  -- A log-in lets in only a user of the name who is not disabled and whose password fits; whose
  -- second factor is switched off, or who sent a time-based code of the step before, at or after
  -- the time, or a recovery code of which exactly one is unused; and no bucket of whose account or
  -- address is locked at the time.
  pub login_admits :
      (dummy : String) (request : LoginRequest) (token : String) (t : ℕ) (db : Database)
      (s : LoginSuccess)
      → (login crypto policy dummy request token t db).0 ≡ ok s
      → (u : User) × (find_where
            (has_username (crypto.normalize_username request.username))
            db.users
          ≡ some u)
        × (s.user_id ≡ u.id)
        × IsAdmitted u request t db
  login_admits dummy request token t db s h =
      let (u, found, admitted, opens) = login-Opens dummy request token t db s h in
      (u, found, opens.user, admitted)
