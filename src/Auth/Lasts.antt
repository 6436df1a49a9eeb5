-- ===== src/Auth/Lasts.antt =====
-- What each call on sessions keeps of every session.
pub mod Login
use cloud_desk_os.Prelude.{
  ℕ, ◌≤◌, ◌<◌, ◌≡◌, ◌≢◌, refl, sym, ap, ◌∙◌, Bool, true, false, not, ◌&&◌, ◌||◌, String, str_eq,
  subst, eq_iff, Option, none, some, List, [], ◌∷◌, leb, if◌then◌else◌, Result, ok, err, arith, ◌⊎◌,
  inl, inr, Bool-cases, Option-cases,
}
use cloud_desk_os.Prelude.Table.{find_where, update_where, find_where-update_where}
use cloud_desk_os.Audit.Event.{NewAuditEvent}
use cloud_desk_os.Auth.Model.{
  AuthPolicy, Crypto, User, Session, Database, LoginRequest, SessionPrincipal, AuthResult,
  invalid_session, append_audit,
}
use cloud_desk_os.Auth.Factor.{is_unused, use_code, verify_second_factor, verify_totp}
use cloud_desk_os.Auth.Capability.{can}
use cloud_desk_os.Auth.Throttle.{enforce_rate_limit}
use cloud_desk_os.Auth.Session.{
  has_hash, is_user, update_session, usable_session, refreshed, authenticate, revoke_principal,
  revoke, step_up_checks, finish_step_up, step_up_principal, step_up, revoked, revoke_session,
}
use cloud_desk_os.Auth.Login.{
  has_username, stand_in, record_login_history, record_login_failure, second_factor_of,
  open_session, new_session, account_key, ip_key, decide, login_as, login,
}

-- What cannot be undone: a session keeps its absolute expiry, and stays revoked once it is.
pub record Ends (s s' : Session) : Type 0 where
  pub id_hash : s'.id_hash ≡ s.id_hash
  pub absolute : s'.absolute_expires_at ≡ s.absolute_expires_at
  pub stays : is_unused s.revoked_at ≡ false → is_unused s'.revoked_at ≡ false

pub Ends-refl : (s : Session) → Ends s s
Ends-refl s = record { id_hash = refl; absolute = refl; stays = λ h. h }

Ends-trans : (r s t : Session) → Ends r s → Ends s t → Ends r t
Ends-trans r s t h k = record {
  id_hash = k.id_hash ∙ h.id_hash;
  absolute = k.absolute ∙ h.absolute;
  stays = λ x. k.stays (h.stays x);
}

-- The session with this hash is still there, and ends no later.
abbrev pub Lasts : String → List Session → List Session → Type 0
Lasts h ss ss' =
    (s : Session)
    → find_where (has_hash h) ss ≡ some s
    → (s' : Session) × (find_where (has_hash h) ss' ≡ some s') × Ends s s'

module _ (h : String) where
  pub Lasts-refl : (ss : List Session) → Lasts h ss ss
  Lasts-refl ss s found = (s, found, Ends-refl s)

  pub Lasts-trans : (a b c : List Session) → Lasts h a b → Lasts h b c → Lasts h a c
  Lasts-trans a b c f g s found =
      let (t, at, e) = f s found in let (u, au, k) = g t at in (u, au, Ends-trans s t u e k)

  update_session-Lasts :
      (id_hash : String) (f : Session → Session) (db : Database)
      → ((s : Session) → Ends s (f s))
      → Lasts h db.sessions (update_session id_hash f db).sessions
  unfolding update_session
  update_session-Lasts id_hash f db ends s found = (
    _,
    find_where-update_where (has_hash h) (has_hash id_hash) f db.sessions (λ r. rw (ends r).id_hash)
        s found,
    one (has_hash id_hash s),
  )
    where
      one : (b : Bool) → Ends s (if b then f s else s)
      one true = ends s
      one false = Ends-refl s

  refreshed-Ends :
      (policy : AuthPolicy) (t absolute : ℕ) (s : Session) → Ends s (refreshed policy t absolute s)
  refreshed-Ends policy t absolute s = record { id_hash = refl; absolute = refl; stays = λ x. x }

  revoked-Ends : (t : ℕ) (s : Session) → Ends s (revoked t s)
  revoked-Ends t s = elim (Bool-cases (is_unused s.revoked_at)) [
    | inl e ↦
        simp e (record { id_hash = refl; absolute = refl; stays = λ x. unfold is_unused in refl })
    | inr e ↦ simp e (Ends-refl s)
  ]

  module _ (crypto : Crypto) (policy : AuthPolicy) where
    pub authenticate-Lasts :
        (token : String) (t : ℕ) (db : Database)
        → Lasts h db.sessions (authenticate crypto policy token t db).1.sessions
    unfolding authenticate
    authenticate-Lasts token t db =
        elim (Option-cases (usable_session (crypto.hash_value token) t db)) [
          | inl e ↦ rw (e, authenticate) (Lasts-refl db.sessions)
          | inr ((s, u), e) ↦
              rw (e, authenticate)
                (update_session-Lasts (crypto.hash_value token)
                  (refreshed policy t s.absolute_expires_at) db
                  (refreshed-Ends policy t s.absolute_expires_at))
        ]

    revoke_principal-Lasts :
        (id_hash : String) (t : ℕ) (source_ip user_agent : String) (p : AuthResult SessionPrincipal)
        (db : Database)
        → Lasts h db.sessions
            (revoke_principal crypto policy id_hash t source_ip user_agent p db).1.sessions
    unfolding revoke_principal append_audit
    revoke_principal-Lasts id_hash t source_ip user_agent (err e) db = Lasts-refl db.sessions
    revoke_principal-Lasts id_hash t source_ip user_agent (ok p) db =
        update_session-Lasts id_hash (λ s. record s { revoked_at = some t }) db
          (λ s. record { id_hash = refl; absolute = refl; stays = λ x. unfold is_unused in refl })

    pub revoke-Lasts :
        (token source_ip user_agent : String) (t : ℕ) (db : Database)
        → Lasts h db.sessions (revoke crypto policy token source_ip user_agent t db).1.sessions
    unfolding revoke
    revoke-Lasts token source_ip user_agent t db =
        let after = authenticate crypto policy token t db in
        Lasts-trans db.sessions after.1.sessions _ (authenticate-Lasts token t db)
          (revoke_principal-Lasts (crypto.hash_value token) t source_ip user_agent after.0 after.1)

    pub revoke_session-Lasts :
        (actor : SessionPrincipal) (id_hash source_ip user_agent : String) (t : ℕ) (db : Database)
        → Lasts h db.sessions (revoke_session actor id_hash source_ip user_agent t db).1.sessions
    unfolding revoke_session append_audit
    revoke_session-Lasts actor id_hash source_ip user_agent t db =
        elim (Option-cases (find_where (has_hash id_hash) db.sessions)) [
          | inl e ↦ rw (e, revoke_session) (Lasts-refl db.sessions)
          | inr (s, e) ↦
              elim (Bool-cases
                (not (str_eq s.user_id actor.user_id) && not (can "users.manage" actor))) [
                  | inl c ↦ rw (e, revoke_session, c) (Lasts-refl db.sessions)
                  | inr c ↦
                      rw (e, revoke_session, c)
                        (update_session-Lasts id_hash (revoked t) db (revoked-Ends t))
                ]
        ]

    pub verify_second_factor-sessions :
        (user_id encrypted code : String) (t : ℕ) (db : Database)
        → (verify_second_factor crypto user_id encrypted code t db).1.sessions ≡ db.sessions
    unfolding verify_second_factor use_code
    verify_second_factor-sessions user_id encrypted code t db = ground arith

    step_up_checks-sessions :
        (u : User) (password : String) (second_factor : Option String) (t : ℕ) (db : Database)
        → (step_up_checks crypto policy u password second_factor t db).1.sessions ≡ db.sessions
    unfolding step_up_checks
    step_up_checks-sessions u password second_factor t db =
        grind (arith, verify_second_factor-sessions)

    finish_step_up-Lasts :
        (p : SessionPrincipal) (source_ip user_agent : String) (t : ℕ) (r : AuthResult (Unit {0}))
        (db : Database)
        → Lasts h db.sessions
            (finish_step_up crypto policy p source_ip user_agent t (r, db)).1.sessions
    unfolding finish_step_up append_audit
    finish_step_up-Lasts p source_ip user_agent t (err e) db = Lasts-refl db.sessions
    finish_step_up-Lasts p source_ip user_agent t (ok x) db =
        update_session-Lasts p.session_id_hash _ db
          (λ s. record { id_hash = refl; absolute = refl; stays = λ x. x })

    step_up_principal-Lasts :
        (password : String) (second_factor : Option String) (source_ip user_agent : String) (t : ℕ)
        (r : AuthResult SessionPrincipal) (db : Database)
        → Lasts h db.sessions
            (step_up_principal crypto policy password second_factor source_ip user_agent t r
              db).1.sessions
    unfolding step_up_principal
    step_up_principal-Lasts password second_factor source_ip user_agent t (err e) db =
        Lasts-refl db.sessions
    step_up_principal-Lasts password second_factor source_ip user_agent t (ok p) db =
        elim (Option-cases (find_where (is_user p.user_id) db.users)) [
          | inl e ↦ rw (e, step_up_principal) (Lasts-refl db.sessions)
          | inr (u, e) ↦
              let checks = step_up_checks crypto policy u password second_factor t db in
              rw (e, step_up_principal)
                (subst
                  (λ ss.
                    Lasts h ss
                      (finish_step_up crypto policy p source_ip user_agent t checks).1.sessions)
                  (step_up_checks-sessions u password second_factor t db)
                  (finish_step_up-Lasts p source_ip user_agent t checks.0 checks.1))
        ]

    pub step_up-Lasts :
        (token password : String) (second_factor : Option String) (source_ip user_agent : String)
        (t : ℕ) (db : Database)
        → Lasts h db.sessions
            (step_up crypto policy token password second_factor source_ip user_agent t
              db).1.sessions
    unfolding step_up
    step_up-Lasts token password second_factor source_ip user_agent t db =
        let after = authenticate crypto policy token t db in
        Lasts-trans db.sessions after.1.sessions _ (authenticate-Lasts token t db)
          (step_up_principal-Lasts password second_factor source_ip user_agent t after.0 after.1)
