-- ===== src/Wopi/Operation.antt =====
-- `file_operation` of services/clouddeskd/src/lib.rs: the WOPI requests that lock a file. The token
-- was verified before; what it allows, and what a stat of the file finds, are part of the request.
use cloud_desk_os.Prelude.{ℕ, Bool, not, String, str_eq, Option, none, some, ltb, if◌then◌else◌}
use cloud_desk_os.Wopi.Locks.{LockRow, Locks, get_lock, acquire_lock, refresh_lock, release_lock}

-- The `X-WOPI-Override` header.
pub data Override : Type 0 where
  lock refresh unlock get rename missing unknown : Override

-- `lock_bytes` is the length of the `X-WOPI-Lock` header; a missing one is the empty text.
pub record Request : Type 0 where
  pub file_id : String
  pub override : Override
  pub presented_lock : String
  pub lock_bytes : ℕ
  pub user_id : String
  pub read_write : Bool
  pub size : ℕ
  pub mtime : ℕ

-- The status, with the lock that a conflict or a `GET_LOCK` echoes.
pub data Response : Type 0 where
  done bad_request forbidden not_found not_implemented : Response
  conflict : Option String → Response
  holds : String → Response

abbrev pub max_wopi_lock_bytes : ℕ
max_wopi_lock_bytes = 1024

unfoldable pub value_of : Option LockRow → String
value_of none = ""
value_of (some l) = l.lock_value

-- What each request does with the lock that it found; the rows may have changed since.
unfoldable pub answer : Request → ℕ → Option LockRow → Locks → Response × Locks
answer request now current locks = elim request.override [
  | lock ↦ if not request.read_write then (forbidden, locks) else elim current [
    | none ↦ (
      done,
      acquire_lock request.file_id request.presented_lock request.user_id request.size request.mtime
          now locks,
    )
    | some l ↦
        if str_eq l.lock_value request.presented_lock
        then (done, refresh_lock request.file_id now locks)
        else (conflict (some l.lock_value), locks)
  ]
  | refresh ↦ elim current [
    | none ↦ (not_found, locks)
    | some l ↦
        if str_eq l.lock_value request.presented_lock
        then (done, refresh_lock request.file_id now locks)
        else (conflict (some l.lock_value), locks)
  ]
  | unlock ↦ elim current [
    | none ↦ (conflict none, locks)
    | some l ↦
        if str_eq l.lock_value request.presented_lock
        then (done, release_lock request.file_id locks)
        else (conflict (some l.lock_value), locks)
  ]
  | get ↦ (holds (value_of current), locks)
  | rename ↦ (not_implemented, locks)
  | missing ↦ (bad_request, locks)
  | unknown ↦ (bad_request, locks)
]

-- The whole request, with no other between its look-up and its write: the code runs them as two
-- statements without a transaction, so requests that overlap are not runs of this function.
unfoldable pub file_operation : Request → ℕ → Locks → Response × Locks
file_operation request now locks =
    if ltb max_wopi_lock_bytes request.lock_bytes
    then (bad_request, locks)
    else answer request now (get_lock request.file_id now locks) locks
