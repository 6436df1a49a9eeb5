-- ===== src/Auth/Factor/Reuse.antt =====
-- Which second factors can be used again.
use cloud_desk_os.Prelude.{
  ℕ, ◌+◌, ◌-◌, ◌/◌, ◌≤◌, ◌<◌, ◌≡◌, refl, ap, ◌∙◌, true, false, String, eq_iff, some, List, [], ◌∷◌,
  ok, arith, inl, inr, ◌⊎◌,
}
use cloud_desk_os.Prelude.Table.{count_where, update_where}
use cloud_desk_os.Auth.Model.{Crypto, RecoveryCode, Database}
use cloud_desk_os.Auth.Factor.{
  is_unused, is_open_code, totp_at, totp_period_seconds, verify_totp, use_code,
  verify_second_factor,
}

abbrev pub used_code : ℕ → RecoveryCode → RecoveryCode
used_code t c = record c { used_at = some t }

pub none_open :
    (user_id code_hash : String) (t : ℕ) (cs : List RecoveryCode)
    → count_where
        (is_open_code user_id code_hash)
        (update_where (is_open_code user_id code_hash) (used_code t) cs)
      ≡ 0
unfolding count_where update_where is_unused
none_open user_id code_hash t [] = refl
none_open user_id code_hash t (c ∷ cs) = ground (arith, none_open user_id code_hash t cs)

-- Within a period the step is the same, or the one before is.
steps :
    (t t' : ℕ)
    → t ≤ t'
    → t' < t + totp_period_seconds
    → (t' / totp_period_seconds ≡ t / totp_period_seconds)
      ⊎ ((t' - totp_period_seconds) / totp_period_seconds ≡ t / totp_period_seconds)
steps t t' after before = ground arith

module _ (crypto : Crypto) where
  pub verify_second_factor-code :
      (user_id encrypted key code : String) (t : ℕ) (db : Database)
      → crypto.decrypt user_id encrypted ≡ some key
      → verify_totp crypto key code t ≡ false
      → verify_second_factor crypto user_id encrypted code t db
        ≡ (ok (use_code crypto user_id code t db).0, (use_code crypto user_id code t db).1)
  unfolding verify_second_factor
  verify_second_factor-code user_id encrypted key code t db opened stale =
      rw (opened, verify_second_factor, stale)

  -- A code that belongs to the step at a time, or to the one before, is accepted.
  accepts :
      (key code : String) (t : ℕ)
      → crypto.is_six_digits (crypto.trim code) ≡ true
      → (crypto.totp key ((t - totp_period_seconds) / totp_period_seconds) ≡ crypto.trim code)
        ⊎ (crypto.totp key (t / totp_period_seconds) ≡ crypto.trim code)
      → verify_totp crypto key code t ≡ true
  unfolding verify_totp totp_at
  accepts key code t digits (inl e) = ground (
    arith,
    digits,
    (eq_iff (crypto.totp key ((t - totp_period_seconds) / totp_period_seconds))
          (crypto.trim code)).1
        e,
  )
  accepts key code t digits (inr e) =
      ground
        (arith, digits, (eq_iff (crypto.totp key (t / totp_period_seconds)) (crypto.trim code)).1 e)

  -- A time-based code is not used up: one that is the code of the time `t` is accepted at every
  -- check from `t` until 30 seconds later, as often as it is sent, and no check changes anything.
  pub totp_reusable :
      (user_id encrypted key code : String) (t t' : ℕ) (db : Database)
      → crypto.decrypt user_id encrypted ≡ some key
      → crypto.is_six_digits (crypto.trim code) ≡ true
      → totp_at crypto key t ≡ crypto.trim code
      → t ≤ t'
      → t' < t + totp_period_seconds
      → verify_second_factor crypto user_id encrypted code t' db ≡ (ok true, db)
  unfolding verify_second_factor
  totp_reusable user_id encrypted key code t t' db opened digits now after before =
      let valid : verify_totp crypto key code t' ≡ true = elim (steps t t' after before) [
        | inl e ↦ accepts key code t' digits (inr (ap (crypto.totp key) e ∙ unfold totp_at in now))
        | inr e ↦ accepts key code t' digits (inl (ap (crypto.totp key) e ∙ unfold totp_at in now))
      ] in
      rw (opened, verify_second_factor, valid)
