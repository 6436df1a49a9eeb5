-- ===== src/Wopi/Locks.antt =====
-- The rows of `office_locks` and the statements of services/clouddeskd/src/wopi.rs on them.
use cloud_desk_os.Prelude.{
  ℕ, ◌+◌, ◌*◌, Bool, not, String, str_eq, Option, none, some, List, ◌∷◌, leb, if◌then◌else◌,
}
use cloud_desk_os.Prelude.Table.{find_where, update_where, select_where, count_where}

-- Collabora refreshes a lock about every 30 seconds.
abbrev pub lock_ttl_seconds : ℕ
lock_ttl_seconds = 10 * 60

pub record LockRow : Type 0 where
  pub file_id : String
  pub lock_value : String
  pub owner_user_id : String
  pub snapshot_size : ℕ
  pub snapshot_mtime : ℕ
  pub created_at : ℕ
  pub expires_at : ℕ

abbrev pub Locks : Type 0
Locks = List LockRow

abbrev pub is_file : String → LockRow → Bool
is_file file_id r = str_eq r.file_id file_id

-- An expired lock counts as absent.
unfoldable pub get_lock : String → ℕ → Locks → Option LockRow
get_lock file_id now locks = elim (find_where (is_file file_id) locks) [
  | none ↦ none
  | some r ↦ if leb r.expires_at now then none else some r
]

abbrev pub fresh_lock : String → String → String → ℕ → ℕ → ℕ → LockRow
fresh_lock file_id lock_value owner_user_id size mtime now = record {
  file_id = file_id;
  lock_value = lock_value;
  owner_user_id = owner_user_id;
  snapshot_size = size;
  snapshot_mtime = mtime;
  created_at = now;
  expires_at = now + lock_ttl_seconds;
}

-- `INSERT … ON CONFLICT(file_id) DO UPDATE` of every column.
unfoldable pub acquire_lock : String → String → String → ℕ → ℕ → ℕ → Locks → Locks
acquire_lock file_id lock_value owner_user_id size mtime now locks =
    let row = fresh_lock file_id lock_value owner_user_id size mtime now in
    elim (find_where (is_file file_id) locks) [
      | none ↦ row ∷ locks
      | some _ ↦ update_where (is_file file_id) (λ r. row) locks
    ]

unfoldable pub refresh_lock : String → ℕ → Locks → Locks
refresh_lock file_id now =
    update_where (is_file file_id) (λ r. record r { expires_at = now + lock_ttl_seconds })

unfoldable pub release_lock : String → Locks → Locks
release_lock file_id = select_where (λ r. not (is_file file_id r))

unfoldable pub sweep_expired_locks : ℕ → Locks → ℕ × Locks
sweep_expired_locks now locks = (
  count_where (λ r. leb r.expires_at now) locks,
  select_where (λ r. not (leb r.expires_at now)) locks,
)
