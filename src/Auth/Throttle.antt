-- ===== src/Auth/Throttle.antt =====
-- Throttling of log-ins: the buckets of an account and of an address.
pub mod Locked
use cloud_desk_os.Prelude.{
  ℕ, ◌+◌, ◌-◌, ◌*◌, ◌^◌, min, max, Bool, true, false, not, ◌&&◌, ◌||◌, String, str_eq, Option, none,
  some, List, [], ◌∷◌, ltb, if◌then◌else◌, ok, err,
}
use cloud_desk_os.Prelude.Table.{select_where, find_where, update_where}
use cloud_desk_os.Auth.Model.{Dimension, account, ip, Bucket, Database, AuthResult, rate_limited}

unfoldable pub dimension_eq : Dimension → Dimension → Bool
dimension_eq account account = true
dimension_eq ip ip = true
dimension_eq account ip = false
dimension_eq ip account = false

-- `dimension = ? AND bucket_key = ?`
abbrev pub is_bucket : Dimension → String → Bucket → Bool
is_bucket d key b = dimension_eq b.dimension d && str_eq b.bucket_key key

unfoldable pub backoff_seconds : ℕ → ℕ → ℕ
backoff_seconds failure_count maximum_failures =
    if ltb failure_count maximum_failures
    then 0
    else 2 ^ min (failure_count - maximum_failures) 8 * 30

-- `MAX(locked_until)`, which is NULL on no rows; `locked_until` is never negative.
unfoldable pub max_locked : List Bucket → Option ℕ
max_locked [] = none
max_locked (b ∷ bs) = elim (max_locked bs) [
  | none ↦ some b.locked_until
  | some m ↦ some (max b.locked_until m)
]

unfoldable pub is_locked : Option ℕ → ℕ → Bool
is_locked none timestamp = false
is_locked (some locked_until) timestamp = ltb timestamp locked_until

unfoldable pub enforce_rate_limit : String → String → ℕ → Database → AuthResult (Unit {0})
enforce_rate_limit account_key ip_key timestamp db =
    if is_locked
      (max_locked
        (select_where (λ b. is_bucket account account_key b || is_bucket ip ip_key b) db.buckets))
      timestamp
    then err rate_limited
    else ok tt

-- One more failure in a bucket: the upsert, and the lock that its count asks for.
unfoldable pub fail_bucket : ℕ → Dimension → String → ℕ → List Bucket → List Bucket
fail_bucket maximum_failures d key timestamp buckets = elim (find_where (is_bucket d key) buckets) [
  | none ↦
      (record {
        dimension = d;
        bucket_key = key;
        failure_count = 1;
        locked_until = timestamp + backoff_seconds 1 maximum_failures;
        updated_at = timestamp;
      })
      ∷ buckets
  | some _ ↦
      update_where (is_bucket d key)
        (λ b. record b {
          failure_count = b.failure_count + 1;
          locked_until = timestamp + backoff_seconds (b.failure_count + 1) maximum_failures;
          updated_at = timestamp;
        })
        buckets
]

unfoldable pub count_failure : ℕ → String → String → ℕ → List Bucket → List Bucket
count_failure maximum_failures account_key ip_key timestamp buckets =
    fail_bucket maximum_failures ip ip_key timestamp
      (fail_bucket maximum_failures account account_key timestamp buckets)

-- A log-in that succeeds clears both buckets.
unfoldable pub clear_buckets : String → String → List Bucket → List Bucket
clear_buckets account_key ip_key =
    select_where (λ b. not (is_bucket account account_key b || is_bucket ip ip_key b))
