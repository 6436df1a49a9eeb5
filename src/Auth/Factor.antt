-- ===== src/Auth/Factor.antt =====
-- The second factor: time-based codes, and recovery codes that are used up.
pub mod Reuse
use cloud_desk_os.Prelude.{
  ℕ, ◌+◌, ◌-◌, ◌/◌, Bool, true, false, ◌&&◌, ◌||◌, String, str_eq, Option, none, some, List, ◌==◌,
  if◌then◌else◌, Result, ok, err,
}
use cloud_desk_os.Prelude.Table.{count_where, update_where}
use cloud_desk_os.Auth.Model.{Crypto, RecoveryCode, Database, AuthResult, secret}

abbrev pub totp_period_seconds : ℕ
totp_period_seconds = 30

unfoldable pub is_unused : Option ℕ → Bool
is_unused none = true
is_unused (some t) = false

-- `WHERE user_id = ? AND code_hash = ? AND used_at IS NULL`
abbrev pub is_open_code : String → String → RecoveryCode → Bool
is_open_code user_id code_hash c =
    str_eq c.user_id user_id && (str_eq c.code_hash code_hash && is_unused c.used_at)

module _ (crypto : Crypto) where
  -- The counter of a time before 1970 is 0, as the difference is here.
  unfoldable pub totp_at : String → ℕ → String
  totp_at key timestamp = crypto.totp key (timestamp / totp_period_seconds)

  -- The steps before, at and after the time.
  unfoldable pub verify_totp : String → String → ℕ → Bool
  unfolding totp_at
  verify_totp key code timestamp =
      let normalized = crypto.trim code in
      crypto.is_six_digits normalized
      && (str_eq (totp_at key (timestamp - totp_period_seconds)) normalized
          || (str_eq (totp_at key timestamp) normalized
              || str_eq (totp_at key (timestamp + totp_period_seconds)) normalized))

  unfoldable pub use_code : String → String → ℕ → Database → Bool × Database
  unfolding count_where update_where
  use_code user_id code timestamp db =
      let code_hash = crypto.hash_value (crypto.normalize_recovery_code code) in
      (
        count_where (is_open_code user_id code_hash) db.codes == 1,
        record db {
          codes =
              update_where (is_open_code user_id code_hash)
                (λ c. record c { used_at = some timestamp }) db.codes;
        },
      )

  unfoldable pub verify_second_factor :
      String → String → String → ℕ → Database → AuthResult Bool × Database
  unfolding use_code verify_totp
  verify_second_factor user_id encrypted code timestamp db =
      elim (crypto.decrypt user_id encrypted) [
        | none ↦ (err secret, db)
        | some key ↦
            if verify_totp key code timestamp
            then (ok true, db)
            else let (used, db') = use_code user_id code timestamp db in (ok used, db')
      ]
