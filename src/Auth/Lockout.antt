-- ===== src/Auth/Lockout.antt =====
-- What failed log-ins lock.
use cloud_desk_os.Prelude.{
  ℕ, ◌+◌, ◌-◌, ◌*◌, ◌^◌, min, ◌≤◌, ◌<◌, ◌≡◌, ◌≢◌, sym, ap, subst, ◌∙◌, Bool, true, false, not, ◌&&◌,
  ◌||◌, String, some, List, [], ◌∷◌, ltb, ok, err, arith, any, Bool-cases, Option-cases, inl, inr,
}
use cloud_desk_os.Prelude.Table.{select_where, find_where, update_where}
use cloud_desk_os.Auth.Model.{
  AuthPolicy, Crypto, account, ip, Bucket, User, Database, LoginRequest, LoginSuccess, AuthResult,
  rate_limited, invalid_credentials, append_audit,
}
use cloud_desk_os.Auth.Throttle.{
  dimension_eq, is_bucket, backoff_seconds, max_locked, is_locked, enforce_rate_limit, fail_bucket,
  count_failure,
}
use cloud_desk_os.Auth.Throttle.Locked.{is_locked-max_locked}
use cloud_desk_os.Auth.Factor.{verify_second_factor, use_code}
use cloud_desk_os.Auth.Session.{has_hash}
use cloud_desk_os.Auth.Login.{
  account_key, ip_key, has_username, stand_in, record_login_history, record_login_failure,
  second_factor_of, open_session, decide, login_as, login,
}

any-update_where :
    (p q : Bucket → Bool) (f : Bucket → Bucket) (bs : List Bucket) (b : Bucket)
    → find_where p bs ≡ some b
    → q (f b) ≡ true
    → any q (update_where p f bs) ≡ true
unfolding find_where update_where any
any-update_where p q f [] b found h = cc
any-update_where p q f (x ∷ xs) b found h = elim (Bool-cases (p x)) [
  | inl e ↦ let here : x ≡ b = ground arith in rw (e, here, h)
  | inr e ↦ rw e (ground (arith, any-update_where p q f xs b (ground arith) h))
]

-- An update of other buckets.
any-update_where_apart :
    (p q : Bucket → Bool) (f : Bucket → Bucket) (bs : List Bucket)
    → ((b : Bucket) → q b ≡ true → p b ≡ false)
    → any q bs ≡ true
    → any q (update_where p f bs) ≡ true
unfolding update_where any
any-update_where_apart p q f [] apart h = h
any-update_where_apart p q f (x ∷ xs) apart h = elim (Bool-cases (q x)) [
  | inl e ↦ ground (arith, apart x e)
  | inr e ↦ ground (arith, any-update_where_apart p q f xs apart (ground arith))
]

-- A bucket of an account that is locked at the time `t`.
abbrev locks : String → ℕ → Bucket → Bool
locks key t b = is_bucket account key b && ltb t b.locked_until

fail_bucket-locks :
    (maximum_failures : ℕ) (key : String) (t t' : ℕ) (bs : List Bucket) (b : Bucket)
    → find_where (is_bucket account key) bs ≡ some b
    → is_bucket account key b ≡ true
    → t' < t + backoff_seconds (b.failure_count + 1) maximum_failures
    → any (locks key t') (fail_bucket maximum_failures account key t bs) ≡ true
unfolding fail_bucket
fail_bucket-locks maximum_failures key t t' bs b found fits early =
    rw (found, fail_bucket)
      (any-update_where (is_bucket account key) (locks key t') _ bs b found (ground arith))

fail_bucket-keeps :
    (maximum_failures : ℕ) (key other : String) (t t' : ℕ) (bs : List Bucket)
    → any (locks key t') bs ≡ true
    → any (locks key t') (fail_bucket maximum_failures ip other t bs) ≡ true
unfolding fail_bucket any dimension_eq
fail_bucket-keeps maximum_failures key other t t' bs h =
    elim (Option-cases (find_where (is_bucket ip other) bs)) [
      | inl e ↦ rw (e, fail_bucket) (ground (arith, h))
      | inr (b, e) ↦
          rw (e, fail_bucket)
            (any-update_where_apart (is_bucket ip other) (locks key t') _ bs (λ b q. ground arith)
              h)
    ]

any-imp {ℓ} :
    {A : Type ℓ} (p q : A → Bool) (xs : List A)
    → ((x : A) → p x ≡ true → q x ≡ true)
    → any p xs ≡ true
    → any q xs ≡ true
unfolding any
any-imp p q [] imp h = h
any-imp p q (x ∷ xs) imp h = elim (Bool-cases (p x)) [
  | inl e ↦ ground (arith, imp x e)
  | inr e ↦ ground (arith, any-imp p q xs imp (ground arith))
]

find_where-fits {ℓ} :
    {R : Type ℓ} (p : R → Bool) (rs : List R) (r : R) → find_where p rs ≡ some r → p r ≡ true
unfolding find_where
find_where-fits p [] r found = cc
find_where-fits p (x ∷ xs) r found = elim (Bool-cases (p x)) [
  | inl e ↦ (let here : x ≡ r = ground arith in ap p (sym here) ∙ e)
  | inr e ↦ find_where-fits p xs r (ground arith)
]

enforce_rate_limit-locked :
    (key other : String) (t : ℕ) (db : Database)
    → any (locks key t) db.buckets ≡ true
    → enforce_rate_limit key other t db ≡ err rate_limited
unfolding enforce_rate_limit
enforce_rate_limit-locked key other t db h =
    let locked =
      any-imp (locks key t)
        (λ b. (is_bucket account key b || is_bucket ip other b) && ltb t b.locked_until) db.buckets
        (λ b q. ground arith) h in
    rw (
      is_locked-max_locked (λ b. is_bucket account key b || is_bucket ip other b) t db.buckets,
      locked,
    )

module _ (crypto : Crypto) (policy : AuthPolicy) where
  abbrev key_of : LoginRequest → String
  key_of = account_key crypto policy

  login-limited :
      (dummy token : String) (request : LoginRequest) (t : ℕ) (db : Database)
      → enforce_rate_limit (key_of request) (ip_key crypto policy request) t db ≡ err rate_limited
      → login crypto policy dummy request token t db ≡ (err rate_limited, db)
  unfolding login
  login-limited dummy token request t db h = rw (h, login)

  open_session-error :
      (u : User) (request : LoginRequest) (token : String) (t : ℕ) (db : Database)
      → (open_session crypto policy u request token t db).0 ≢ err invalid_credentials
  unfolding open_session
  open_session-error u request token t db =
      elim (Option-cases (find_where (has_hash (crypto.hash_value token)) db.sessions)) [
        | inl e ↦ rw (e, open_session) (λ p. cc)
        | inr (s, e) ↦ rw (e, open_session) (λ p. cc)
      ]

  second_factor_of-error :
      (valid : Bool) (u : User) (request : LoginRequest) (t : ℕ) (db : Database)
      → (second_factor_of crypto policy valid u request t db).0 ≢ err invalid_credentials
  unfolding second_factor_of verify_second_factor
  second_factor_of-error valid u request t db h = ground (arith, h)

  second_factor_of-buckets :
      (valid : Bool) (u : User) (request : LoginRequest) (t : ℕ) (db : Database)
      → (second_factor_of crypto policy valid u request t db).1.buckets ≡ db.buckets
  unfolding second_factor_of verify_second_factor use_code
  second_factor_of-buckets valid u request t db = ground arith

  -- The buckets after a failure.
  abbrev counted : LoginRequest → ℕ → Database → List Bucket
  counted request t db =
      count_failure policy.maximum_failures (key_of request) (ip_key crypto policy request) t
        db.buckets

  decide-counted :
      (known valid : Bool) (u : User) (request : LoginRequest) (token : String) (t : ℕ)
      (r : AuthResult Bool) (db : Database)
      → r ≢ err invalid_credentials
      → (decide crypto policy known valid u request token t (r, db)).0 ≡ err invalid_credentials
      → (decide crypto policy known valid u request token t (r, db)).1.buckets
        ≡ counted request t db
  unfolding decide record_login_failure record_login_history append_audit
  decide-counted known valid u request token t (err e) db other h =
      absurd (other (ap (λ (r : AuthResult LoginSuccess). error_of r) h))
    where
      error_of : AuthResult LoginSuccess → AuthResult Bool
      error_of (ok s) = ok true
      error_of (err e) = err e
  decide-counted known valid u request token t (ok b) db other h =
      elim (Bool-cases (not valid || (not b || (u.disabled || not known)))) [
        | inl c ↦ rw c
        | inr c ↦
            let same : decide crypto policy known valid u request token t (ok b, db)
                ≡ open_session crypto policy u request token t db =
              rw c in
            absurd (
              open_session-error u request token t db
                (ap (λ (r : AuthResult LoginSuccess × Database). r.0) (sym same) ∙ h))
      ]

  login_as-counted :
      (known : Bool) (u : User) (request : LoginRequest) (token : String) (t : ℕ) (db : Database)
      → (login_as crypto policy known u request token t db).0 ≡ err invalid_credentials
      → (login_as crypto policy known u request token t db).1.buckets ≡ counted request t db
  unfolding login_as
  login_as-counted known u request token t db h =
      let valid = crypto.verify_password request.password u.password_hash in
      let checked = second_factor_of crypto policy valid u request t db in
      decide-counted known valid u request token t checked.0 checked.1
        (second_factor_of-error valid u request t db) h
      ∙ ap (count_failure policy.maximum_failures (key_of request) (ip_key crypto policy request) t)
          (second_factor_of-buckets valid u request t db)

  -- A log-in that is refused for its credentials counts as a failure.
  login-counted :
      (dummy token : String) (request : LoginRequest) (t : ℕ) (db : Database)
      → (login crypto policy dummy request token t db).0 ≡ err invalid_credentials
      → (login crypto policy dummy request token t db).1.buckets ≡ counted request t db
  unfolding login enforce_rate_limit
  login-counted dummy token request t db h =
      elim (Bool-cases (is_locked (max_locked (select_where near db.buckets)) t)) [
        | inl limited ↦ absurd (ground (arith, limited, h))
        | inr free ↦
            elim (Option-cases
              (find_where (has_username (crypto.normalize_username request.username)) db.users)) [
                | inl e ↦
                    let same : login crypto policy dummy request token t db
                        ≡ login_as crypto policy false
                            (stand_in (crypto.normalize_username request.username) dummy) request
                            token t db =
                      rw (login, free, e) in
                    rw same (
                      login_as-counted false _ request token t db
                        (ap (λ (r : AuthResult LoginSuccess × Database). r.0) (sym same) ∙ h))
                | inr (u, e) ↦
                    let same : login crypto policy dummy request token t db
                        ≡ login_as crypto policy true u request token t db =
                      rw (login, free, e) in
                    rw same (
                      login_as-counted true u request token t db
                        (ap (λ (r : AuthResult LoginSuccess × Database). r.0) (sym same) ∙ h))
              ]
      ]
    where
      near : Bucket → Bool
      near b = is_bucket account (key_of request) b || is_bucket ip (ip_key crypto policy request) b

  -- After a log-in at `t` that is refused for its credentials and brings the failures of an account
  -- that failed before to the maximum or beyond, every log-in to the account is refused, from any
  -- address and with any password, and changes nothing: for 30 seconds at the maximum, twice that
  -- after each further failure, at most 7680.
  pub login_locked_out :
      (dummy dummy' token token' : String) (request again : LoginRequest) (t t' : ℕ) (db : Database)
      (b : Bucket)
      → find_where (is_bucket account (account_key crypto policy request)) db.buckets ≡ some b
      → policy.maximum_failures ≤ b.failure_count + 1
      → (login crypto policy dummy request token t db).0 ≡ err invalid_credentials
      → t' < t + 2 ^ min (b.failure_count + 1 - policy.maximum_failures) 8 * 30
      → account_key crypto policy again ≡ account_key crypto policy request
      → let db' = (login crypto policy dummy request token t db).1 in
        login crypto policy dummy' again token' t' db' ≡ (err rate_limited, db')
  unfolding count_failure
  login_locked_out dummy dummy' token token' request again t t' db b found many failed early same =
      let wait : backoff_seconds (b.failure_count + 1) policy.maximum_failures
          ≡ 2 ^ min (b.failure_count + 1 - policy.maximum_failures) 8 * 30 =
        unfold backoff_seconds in ground arith in
      let first =
        fail_bucket-locks policy.maximum_failures (key_of request) t t' db.buckets b found
          (find_where-fits _ db.buckets b found) (rw wait early) in
      let both =
        fail_bucket-keeps policy.maximum_failures (key_of request) (ip_key crypto policy request) t
          t' _ first in
      let locked : any (locks (key_of request) t') after.buckets ≡ true =
        ap (any (locks (key_of request) t')) (login-counted dummy token request t db failed)
        ∙ both in
      login-limited dummy' token' again t' after (
        subst (λ k. enforce_rate_limit k (ip_key crypto policy again) t' after ≡ err rate_limited)
          (sym same)
          (enforce_rate_limit-locked (key_of request) (ip_key crypto policy again) t' after locked))
    where
      after : Database
      after = (login crypto policy dummy request token t db).1
