-- ===== src/Auth/Spent.antt =====
-- Recovery codes over histories of calls: one that was used is never accepted again.
use cloud_desk_os.Prelude.{
  ℕ, ◌≡◌, refl, ap, ◌∙◌, Bool, true, false, not, ◌&&◌, ◌||◌, String, str_eq, Option, some, List, [],
  ◌∷◌, ok, err, arith, inl, inr, Bool-cases, Option-cases,
}
use cloud_desk_os.Prelude.Table.{find_where, count_where, update_where}
use cloud_desk_os.Auth.Model.{
  AuthPolicy, Crypto, User, Database, RecoveryCode, LoginRequest, SessionPrincipal, AuthResult,
  append_audit,
}
use cloud_desk_os.Auth.Throttle.{enforce_rate_limit}
use cloud_desk_os.Auth.Factor.{is_unused, is_open_code, verify_totp, use_code, verify_second_factor}
use cloud_desk_os.Auth.Factor.Reuse.{used_code, none_open, verify_second_factor-code}
use cloud_desk_os.Auth.Capability.{can}
use cloud_desk_os.Auth.Session.{
  has_hash, is_user, update_session, usable_session, authenticate, revoke_principal, revoke,
  step_up_checks, finish_step_up, step_up_principal, step_up, revoke_session,
}
use cloud_desk_os.Auth.Login.{
  has_username, record_login_history, record_login_failure, second_factor_of, open_session, decide,
  login_as, login, account_key, ip_key,
}
use cloud_desk_os.Auth.History.{
  Call, logs_in, authenticates, logs_out, steps_up, revokes_session, step, run,
}

-- No code of the user with this hash is unused.
abbrev Spent : String → String → List RecoveryCode → Type 0
Spent user_id code_hash cs = count_where (is_open_code user_id code_hash) cs ≡ 0

-- An update that only uses up codes.
Spent-update_where :
    (user_id code_hash : String) (p : RecoveryCode → Bool) (t : ℕ) (cs : List RecoveryCode)
    → Spent user_id code_hash cs
    → Spent user_id code_hash (update_where p (used_code t) cs)
unfolding count_where update_where is_unused
Spent-update_where user_id code_hash p t [] h = refl
Spent-update_where user_id code_hash p t (c ∷ cs) h =
    elim (Bool-cases (is_open_code user_id code_hash c)) [
      | inl e ↦ absurd (ground (arith, e, h))
      | inr e ↦
          ground (arith, e, Spent-update_where user_id code_hash p t cs (ground (arith, e, h)))
    ]

module _ (user_id code_hash : String) (crypto : Crypto) (policy : AuthPolicy) where
  -- The calls that leave the recovery codes alone.
  authenticate-codes :
      (token : String) (t : ℕ) (db : Database)
      → (authenticate crypto policy token t db).1.codes ≡ db.codes
  unfolding authenticate update_session
  authenticate-codes token t db =
      elim (Option-cases (usable_session (crypto.hash_value token) t db)) [
        | inl e ↦ rw (e, authenticate)
        | inr (s, e) ↦ rw (e, authenticate)
      ]

  revoke_principal-codes :
      (id_hash : String) (t : ℕ) (source_ip user_agent : String) (p : AuthResult SessionPrincipal)
      (db : Database)
      → (revoke_principal crypto policy id_hash t source_ip user_agent p db).1.codes ≡ db.codes
  unfolding revoke_principal append_audit update_session
  revoke_principal-codes id_hash t source_ip user_agent (err e) db = refl
  revoke_principal-codes id_hash t source_ip user_agent (ok p) db = refl

  revoke-codes :
      (token source_ip user_agent : String) (t : ℕ) (db : Database)
      → (revoke crypto policy token source_ip user_agent t db).1.codes ≡ db.codes
  unfolding revoke
  revoke-codes token source_ip user_agent t db =
      let after = authenticate crypto policy token t db in
      revoke_principal-codes (crypto.hash_value token) t source_ip user_agent after.0 after.1
      ∙ authenticate-codes token t db

  revoke_session-codes :
      (actor : SessionPrincipal) (id_hash source_ip user_agent : String) (t : ℕ) (db : Database)
      → (revoke_session actor id_hash source_ip user_agent t db).1.codes ≡ db.codes
  unfolding revoke_session append_audit update_session
  revoke_session-codes actor id_hash source_ip user_agent t db =
      elim (Option-cases (find_where (has_hash id_hash) db.sessions)) [
        | inl e ↦ rw (e, revoke_session)
        | inr (s, e) ↦
            elim (Bool-cases
              (not (str_eq s.user_id actor.user_id) && not (can "users.manage" actor))) [
                | inl c ↦ rw (e, revoke_session, c)
                | inr c ↦ rw (e, revoke_session, c)
              ]
      ]

  open_session-codes :
      (u : User) (request : LoginRequest) (token : String) (t : ℕ) (db : Database)
      → (open_session crypto policy u request token t db).1.codes ≡ db.codes
  unfolding open_session record_login_history append_audit
  open_session-codes u request token t db =
      elim (Option-cases (find_where (has_hash (crypto.hash_value token)) db.sessions)) [
        | inr (s, e) ↦ rw (e, open_session)
        | inl e ↦ rw (e, open_session)
      ]

  decide-codes :
      (known valid : Bool) (u : User) (request : LoginRequest) (token : String) (t : ℕ)
      (r : AuthResult Bool) (db : Database)
      → (decide crypto policy known valid u request token t (r, db)).1.codes ≡ db.codes
  unfolding decide record_login_failure record_login_history append_audit
  decide-codes known valid u request token t (err e) db = refl
  decide-codes known valid u request token t (ok b) db =
      elim (Bool-cases (not valid || (not b || (u.disabled || not known)))) [
        | inl c ↦ rw c
        | inr c ↦ rw c (open_session-codes u request token t db)
      ]

  finish_step_up-codes :
      (p : SessionPrincipal) (source_ip user_agent : String) (t : ℕ) (r : AuthResult (Unit {0}))
      (db : Database)
      → (finish_step_up crypto policy p source_ip user_agent t (r, db)).1.codes ≡ db.codes
  unfolding finish_step_up append_audit update_session
  finish_step_up-codes p source_ip user_agent t (err e) db = refl
  finish_step_up-codes p source_ip user_agent t (ok x) db = refl

  -- The calls that may use up codes.
  abbrev Stays : Database → Database → Type 0
  Stays db db' = Spent user_id code_hash db.codes → Spent user_id code_hash db'.codes

  same-Stays : (db db' : Database) → db'.codes ≡ db.codes → Stays db db'
  same-Stays db db' e h = ap (count_where (is_open_code user_id code_hash)) e ∙ h

  verify_second_factor-Stays :
      (user encrypted code : String) (t : ℕ) (db : Database)
      → Stays db (verify_second_factor crypto user encrypted code t db).1
  unfolding verify_second_factor use_code
  verify_second_factor-Stays user encrypted code t db h =
      elim (Option-cases (crypto.decrypt user encrypted)) [
        | inl e ↦ rw (e, verify_second_factor) h
        | inr (key, e) ↦ elim (Bool-cases (verify_totp crypto key code t)) [
          | inl f ↦ rw (e, verify_second_factor, f) h
          | inr f ↦
              rw (e, verify_second_factor, f) (Spent-update_where user_id code_hash _ t db.codes h)
        ]
      ]

  second_factor_of-Stays :
      (valid : Bool) (u : User) (request : LoginRequest) (t : ℕ) (db : Database)
      → Stays db (second_factor_of crypto policy valid u request t db).1
  unfolding second_factor_of
  second_factor_of-Stays valid u request t db h = grind (arith, verify_second_factor-Stays, h)

  step_up_checks-Stays :
      (u : User) (password : String) (second_factor : Option String) (t : ℕ) (db : Database)
      → Stays db (step_up_checks crypto policy u password second_factor t db).1
  unfolding step_up_checks
  step_up_checks-Stays u password second_factor t db h =
      grind (arith, verify_second_factor-Stays, h)

  login_as-Stays :
      (known : Bool) (u : User) (request : LoginRequest) (token : String) (t : ℕ) (db : Database)
      → Stays db (login_as crypto policy known u request token t db).1
  unfolding login_as
  login_as-Stays known u request token t db h =
      let valid = crypto.verify_password request.password u.password_hash in
      let checked = second_factor_of crypto policy valid u request t db in
      same-Stays checked.1 (decide crypto policy known valid u request token t checked).1
        (decide-codes known valid u request token t checked.0 checked.1)
        (second_factor_of-Stays valid u request t db h)

  login-Stays :
      (dummy : String) (request : LoginRequest) (token : String) (t : ℕ) (db : Database)
      → Stays db (login crypto policy dummy request token t db).1
  unfolding login
  login-Stays dummy request token t db h =
      by_limit
        (enforce_rate_limit (account_key crypto policy request) (ip_key crypto policy request) t db)
        refl
    where
      by_limit :
          (r : AuthResult (Unit {0}))
          → enforce_rate_limit
              (account_key crypto policy request)
              (ip_key crypto policy request)
              t
              db
            ≡ r
          → Spent user_id code_hash (login crypto policy dummy request token t db).1.codes
      by_limit (err e) made = rw (made, login) h
      by_limit (ok x) made =
          elim (Option-cases
            (find_where (has_username (crypto.normalize_username request.username)) db.users)) [
              | inl e ↦ rw (made, login, e) (login_as-Stays false _ request token t db h)
              | inr (u, e) ↦ rw (made, login, e) (login_as-Stays true u request token t db h)
            ]

  step_up_principal-Stays :
      (password : String) (second_factor : Option String) (source_ip user_agent : String) (t : ℕ)
      (r : AuthResult SessionPrincipal) (db : Database)
      → Stays db
          (step_up_principal crypto policy password second_factor source_ip user_agent t r db).1
  unfolding step_up_principal
  step_up_principal-Stays password second_factor source_ip user_agent t (err e) db h = h
  step_up_principal-Stays password second_factor source_ip user_agent t (ok p) db h =
      elim (Option-cases (find_where (is_user p.user_id) db.users)) [
        | inl e ↦ rw (e, step_up_principal) h
        | inr (u, e) ↦
            let checks = step_up_checks crypto policy u password second_factor t db in
            rw (e, step_up_principal)
              (same-Stays checks.1 (finish_step_up crypto policy p source_ip user_agent t checks).1
                (finish_step_up-codes p source_ip user_agent t checks.0 checks.1)
                (step_up_checks-Stays u password second_factor t db h))
      ]

  step_up-Stays :
      (token password : String) (second_factor : Option String) (source_ip user_agent : String)
      (t : ℕ) (db : Database)
      → Stays db (step_up crypto policy token password second_factor source_ip user_agent t db).1
  unfolding step_up
  step_up-Stays token password second_factor source_ip user_agent t db h =
      let after = authenticate crypto policy token t db in
      step_up_principal-Stays password second_factor source_ip user_agent t after.0 after.1
        (same-Stays db after.1 (authenticate-codes token t db) h)

  step-Stays : (c : Call) (db : Database) → Stays db (step crypto policy c db)
  unfolding step
  step-Stays (logs_in dummy request token t) db = login-Stays dummy request token t db
  step-Stays (authenticates token t) db =
      same-Stays db (authenticate crypto policy token t db).1 (authenticate-codes token t db)
  step-Stays (logs_out token source_ip user_agent t) db =
      same-Stays db (revoke crypto policy token source_ip user_agent t db).1
        (revoke-codes token source_ip user_agent t db)
  step-Stays (steps_up token password second_factor source_ip user_agent t) db =
      step_up-Stays token password second_factor source_ip user_agent t db
  step-Stays (revokes_session actor id_hash source_ip user_agent t) db =
      same-Stays db (revoke_session actor id_hash source_ip user_agent t db).1
        (revoke_session-codes actor id_hash source_ip user_agent t db)

  run-Stays : (cs : List Call) (db : Database) → Stays db (run crypto policy cs db)
  unfolding run
  run-Stays [] db h = h
  run-Stays (c ∷ cs) db h = run-Stays cs (step crypto policy c db) (step-Stays c db h)

module _ (crypto : Crypto) (policy : AuthPolicy) where
  -- A recovery code is good for one check at most: after any check of a code that is not the
  -- time-based code then, and any history of log-ins, requests, log-outs, step-ups and
  -- revocations, the same code is refused for that user, unless it happens to be the time-based
  -- code at that later time.
  pub recovery_code_once :
      (user_id encrypted key code : String) (cs : List Call) (t t' : ℕ) (db : Database)
      → crypto.decrypt user_id encrypted ≡ some key
      → verify_totp crypto key code t ≡ false
      → verify_totp crypto key code t' ≡ false
      → let db' =
          run crypto policy cs (verify_second_factor crypto user_id encrypted code t db).1 in
        (verify_second_factor crypto user_id encrypted code t' db').0 ≡ ok false
  recovery_code_once user_id encrypted key code cs t t' db opened stale later =
      rw
        (
          verify_second_factor-code crypto user_id encrypted key code t db opened stale,
          verify_second_factor-code crypto user_id encrypted key code t' _ opened later,
        )
        (ap ok again)
    where
      code_hash : String
      code_hash = crypto.hash_value (crypto.normalize_recovery_code code)

      used : Database
      used = (use_code crypto user_id code t db).1

      spent : Spent user_id code_hash used.codes
      spent = unfold use_code in none_open user_id code_hash t db.codes

      again : (use_code crypto user_id code t' (run crypto policy cs used)).0 ≡ false
      again =
          let still = run-Stays user_id code_hash crypto policy cs used spent in
          unfold use_code in rw still refl
