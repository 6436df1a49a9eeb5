-- ===== src/Auth/Lasts/Login.antt =====
-- What a log-in keeps of every session.
use cloud_desk_os.Prelude.{
  ℕ, ◌≡◌, refl, Bool, true, false, not, ◌||◌, String, str_eq, subst, eq_iff, none, some, List, ◌∷◌,
  ok, err, arith, inl, inr, Bool-cases, Option-cases,
}
use cloud_desk_os.Prelude.Table.{find_where}
use cloud_desk_os.Auth.Model.{
  AuthPolicy, Crypto, User, Session, Database, LoginRequest, AuthResult, append_audit,
}
use cloud_desk_os.Auth.Throttle.{enforce_rate_limit}
use cloud_desk_os.Auth.Session.{has_hash}
use cloud_desk_os.Auth.Login.{
  has_username, record_login_history, record_login_failure, second_factor_of, open_session,
  account_key, ip_key, decide, login_as, login,
}
use cloud_desk_os.Auth.Lasts.{Ends-refl, Lasts, Lasts-refl, verify_second_factor-sessions}

module _ (h : String) where
  module _ (crypto : Crypto) (policy : AuthPolicy) where
    second_factor_of-sessions :
        (valid : Bool) (u : User) (request : LoginRequest) (t : ℕ) (db : Database)
        → (second_factor_of crypto policy valid u request t db).1.sessions ≡ db.sessions
    unfolding second_factor_of
    second_factor_of-sessions valid u request t db = grind (arith, verify_second_factor-sessions)

    other_hash :
        (token : String) (s : Session) (ss : List Session)
        → find_where (has_hash h) ss ≡ some s
        → find_where (has_hash (crypto.hash_value token)) ss ≡ none
        → str_eq (crypto.hash_value token) h ≡ false
    other_hash token s ss found e = elim (Bool-cases (str_eq (crypto.hash_value token) h)) [
      | inr f ↦ f
      | inl f ↦
          let same = (eq_iff (crypto.hash_value token) h).0 f in
          let gone : find_where (has_hash h) ss ≡ none =
            subst (λ k. find_where (has_hash k) ss ≡ none) same e in
          cc
    ]

    behind :
        (new s : Session) (ss : List Session)
        → find_where (has_hash h) ss ≡ some s
        → str_eq new.id_hash h ≡ false
        → find_where (has_hash h) (new ∷ ss) ≡ some s
    unfolding find_where
    behind new s ss found e = rw e found

    open_session-Lasts :
        (u : User) (request : LoginRequest) (token : String) (t : ℕ) (db : Database)
        → Lasts h db.sessions (open_session crypto policy u request token t db).1.sessions
    unfolding open_session record_login_history append_audit
    open_session-Lasts u request token t db =
        elim (Option-cases (find_where (has_hash (crypto.hash_value token)) db.sessions)) [
          | inr (s, e) ↦ rw (e, open_session) (Lasts-refl h db.sessions)
          | inl e ↦
              rw (e, open_session)
                (λ s found. (
                  s,
                  behind _ s db.sessions found (other_hash token s db.sessions found e),
                  Ends-refl s,
                ))
        ]

    decide-Lasts :
        (known valid : Bool) (u : User) (request : LoginRequest) (token : String) (t : ℕ)
        (r : AuthResult Bool) (db : Database)
        → Lasts h db.sessions
            (decide crypto policy known valid u request token t (r, db)).1.sessions
    unfolding decide record_login_failure record_login_history append_audit
    decide-Lasts known valid u request token t (err e) db = Lasts-refl h db.sessions
    decide-Lasts known valid u request token t (ok b) db =
        elim (Bool-cases (not valid || (not b || (u.disabled || not known)))) [
          | inl c ↦ rw c (Lasts-refl h db.sessions)
          | inr c ↦ rw c (open_session-Lasts u request token t db)
        ]

    login_as-Lasts :
        (known : Bool) (u : User) (request : LoginRequest) (token : String) (t : ℕ) (db : Database)
        → Lasts h db.sessions (login_as crypto policy known u request token t db).1.sessions
    unfolding login_as
    login_as-Lasts known u request token t db =
        let valid = crypto.verify_password request.password u.password_hash in
        let checked = second_factor_of crypto policy valid u request t db in
        subst
          (λ ss. Lasts h ss (decide crypto policy known valid u request token t checked).1.sessions)
          (second_factor_of-sessions valid u request t db)
          (decide-Lasts known valid u request token t checked.0 checked.1)

    pub login-Lasts :
        (dummy : String) (request : LoginRequest) (token : String) (t : ℕ) (db : Database)
        → Lasts h db.sessions (login crypto policy dummy request token t db).1.sessions
    unfolding login
    login-Lasts dummy request token t db =
        by_limit
          (enforce_rate_limit (account_key crypto policy request) (ip_key crypto policy request) t
            db)
          refl
      where
        by_limit :
            (r : AuthResult (Unit {0}))
            → enforce_rate_limit
                (account_key crypto policy request)
                (ip_key crypto policy request)
                t
                db
              ≡ r
            → Lasts h db.sessions (login crypto policy dummy request token t db).1.sessions
        by_limit (err e) made = rw (made, login) (Lasts-refl h db.sessions)
        by_limit (ok x) made =
            elim (Option-cases
              (find_where (has_username (crypto.normalize_username request.username)) db.users)) [
                | inl e ↦ rw (made, login, e) (login_as-Lasts false _ request token t db)
                | inr (u, e) ↦ rw (made, login, e) (login_as-Lasts true u request token t db)
              ]
