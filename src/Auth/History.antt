-- ===== src/Auth/History.antt =====
-- Histories of calls on sessions, and what no history can undo.
use cloud_desk_os.Prelude.{
  ℕ, ◌≤◌, ◌≡◌, false, String, Option, none, some, List, [], ◌∷◌, err, arith, ◌⊎◌, inl, inr,
}
use cloud_desk_os.Prelude.Table.{find_where}
use cloud_desk_os.Auth.Model.{
  AuthPolicy, Crypto, Session, Database, LoginRequest, SessionPrincipal, invalid_session,
}
use cloud_desk_os.Auth.Factor.{is_unused}
use cloud_desk_os.Auth.Session.{
  has_hash, usable_session, authenticate, revoke, step_up, revoke_session,
}
use cloud_desk_os.Auth.Login.{login}
use cloud_desk_os.Auth.Lasts.{
  Lasts, Lasts-refl, Lasts-trans, authenticate-Lasts, revoke-Lasts, revoke_session-Lasts,
  step_up-Lasts,
}
use cloud_desk_os.Auth.Lasts.Login.{login-Lasts}

-- Each with the reading of its clock. The dummy password hash of a log-in is an argument.
pub data Call : Type 0 where
  logs_in : String → LoginRequest → String → ℕ → Call
  authenticates : String → ℕ → Call
  logs_out : String → String → String → ℕ → Call
  steps_up : String → String → Option String → String → String → ℕ → Call
  revokes_session : SessionPrincipal → String → String → String → ℕ → Call

module _ (crypto : Crypto) (policy : AuthPolicy) where
  unfoldable pub step : Call → Database → Database
  step (logs_in dummy request token t) db = (login crypto policy dummy request token t db).1
  step (authenticates token t) db = (authenticate crypto policy token t db).1
  step (logs_out token source_ip user_agent t) db =
      (revoke crypto policy token source_ip user_agent t db).1
  step (steps_up token password second_factor source_ip user_agent t) db =
      (step_up crypto policy token password second_factor source_ip user_agent t db).1
  step (revokes_session actor id_hash source_ip user_agent t) db =
      (revoke_session actor id_hash source_ip user_agent t db).1

  unfoldable pub run : List Call → Database → Database
  run [] db = db
  run (c ∷ cs) db = run cs (step c db)

  step-Lasts : (h : String) (c : Call) (db : Database) → Lasts h db.sessions (step c db).sessions
  unfolding step
  step-Lasts h (logs_in dummy request token t) db =
      login-Lasts h crypto policy dummy request token t db
  step-Lasts h (authenticates token t) db = authenticate-Lasts h crypto policy token t db
  step-Lasts h (logs_out token source_ip user_agent t) db =
      revoke-Lasts h crypto policy token source_ip user_agent t db
  step-Lasts h (steps_up token password second_factor source_ip user_agent t) db =
      step_up-Lasts h crypto policy token password second_factor source_ip user_agent t db
  step-Lasts h (revokes_session actor id_hash source_ip user_agent t) db =
      revoke_session-Lasts h crypto policy actor id_hash source_ip user_agent t db

  run-Lasts :
      (h : String) (cs : List Call) (db : Database) → Lasts h db.sessions (run cs db).sessions
  unfolding run
  run-Lasts h [] db = Lasts-refl h db.sessions
  run-Lasts h (c ∷ cs) db =
      Lasts-trans h db.sessions (step c db).sessions _ (step-Lasts h c db)
        (run-Lasts h cs (step c db))

  -- A session that is revoked, or past its absolute expiry, is not usable.
  usable_session-ended :
      (id_hash : String) (t : ℕ) (db : Database) (s : Session)
      → find_where (has_hash id_hash) db.sessions ≡ some s
      → (is_unused s.revoked_at ≡ false) ⊎ (s.absolute_expires_at ≤ t)
      → usable_session id_hash t db ≡ none
  unfolding usable_session
  usable_session-ended id_hash t db s found ended = ground arith

  -- Once a session is revoked, or at any time past the absolute expiry that it was opened with, no
  -- history of log-ins, requests, log-outs, step-ups and revocations makes its token valid again.
  pub run_ended :
      (cs : List Call) (db : Database) (token : String) (t : ℕ) (s : Session)
      → find_where (has_hash (crypto.hash_value token)) db.sessions ≡ some s
      → (is_unused s.revoked_at ≡ false) ⊎ (s.absolute_expires_at ≤ t)
      → authenticate crypto policy token t (run cs db) ≡ (err invalid_session, run cs db)
  unfolding authenticate
  run_ended cs db token t s found ended =
      let (q, there, e) = run-Lasts (crypto.hash_value token) cs db s found in
      let still : (is_unused q.revoked_at ≡ false) ⊎ (q.absolute_expires_at ≤ t) = elim ended [
        | inl gone ↦ inl (e.stays gone)
        | inr late ↦ inr (omega (arith, e.absolute))
      ] in
      rw (usable_session-ended (crypto.hash_value token) t (run cs db) q there still, authenticate)
