-- ===== src/Transfers/Queue.antt =====
-- `TransferQueue` of crates/transfers/src/lib.rs: each method is a function on the rows of
-- `transfer_jobs`. The clock readings of `now()` and the identifier of `random_id()` are arguments.
use cloud_desk_os.Prelude.{
  ℕ, ◌+◌, ◌^◌, min, max, Bool, true, false, ◌&&◌, ◌||◌, Option, none, some, List, [], ◌∷◌, ltb, leb,
  ◌==◌, if◌then◌else◌, take, ok, err, ◌>>=◌,
}
use cloud_desk_os.Prelude.Table.{
  update_where, count_where, select_where, find_where, order_by, first_by,
}
use cloud_desk_os.Transfers.Endpoint.{Bytes}
use cloud_desk_os.Transfers.Names.{
  TransferState, queued, running, paused, completed, failed, cancelled, too_large, not_found,
  invalid_transition, duplicate_id, TransferResult, state_eq,
}
use cloud_desk_os.Transfers.Rows.{
  max_transfer_attempts, i64_max, max_error_chars, NewTransfer, Row, TransferJob, Rows, row_to_job,
  Serde, new_row,
}

abbrev pub has_id : ℕ → Row → Bool
has_id id r = r.id == id

-- `INSERT`, which the primary key refuses on an identifier that is taken.
unfoldable pub insert_row : TransferResult Row → Rows → TransferResult ℕ × Rows
unfolding count_where
insert_row (err e) rows = (err e, rows)
insert_row (ok r) rows =
    if count_where (has_id r.id) rows == 0 then (ok r.id, r ∷ rows) else (err duplicate_id, rows)

unfoldable pub enqueue : Serde → ℕ → NewTransfer → ℕ → ℕ → Rows → TransferResult ℕ × Rows
unfolding new_row insert_row
enqueue serde owner transfer id t rows = insert_row (new_row serde owner transfer id t) rows

abbrev pub is_running : Row → Bool
is_running r = state_eq r.state running

-- The rows of one job in one state: `WHERE id = ? AND state = …`.
abbrev pub in_state : ℕ → TransferState → Row → Bool
in_state id s r = r.id == id && state_eq r.state s

unfoldable pub recover_interrupted : Bytes → ℕ → Rows → ℕ × Rows
unfolding count_where update_where state_eq
recover_interrupted message t rows = (
  count_where is_running rows,
  update_where is_running
      (λ r. record r {
        state = queued;
        next_attempt_at = t;
        updated_at = t;
        last_error = some message;
      })
      rows,
)

unfoldable pub get : Serde → ℕ → Rows → TransferResult TransferJob
unfolding find_where row_to_job
get serde id rows = elim (find_where (has_id id) rows) [
  | none ↦ err not_found
  | some r ↦ row_to_job serde r
]

unfoldable pub get_owned : Serde → ℕ → ℕ → Rows → TransferResult TransferJob
unfolding find_where row_to_job
get_owned serde id owner rows =
    elim (find_where (λ r. r.id == id && r.owner_user_id == owner) rows) [
      | none ↦ err not_found
      | some r ↦ row_to_job serde r
    ]

-- `WHERE state = 'queued' AND next_attempt_at <= ?`
abbrev pub is_due : ℕ → Row → Bool
is_due t r = state_eq r.state queued && leb r.next_attempt_at t

-- `ORDER BY created_at, id`; identifiers are hexadecimal texts of one width, ordered as numbers.
abbrev pub before : Row → Row → Bool
before r s = ltb r.created_at s.created_at || (r.created_at == s.created_at && ltb r.id s.id)

abbrev pub claim_row : ℕ → Row → Row
claim_row t r = record r { state = running; attempts = r.attempts + 1; updated_at = t }

-- The `UPDATE … RETURNING id` of `claim_next`.
unfoldable pub claim_id : ℕ → Rows → Option ℕ × Rows
unfolding first_by update_where state_eq
claim_id t rows = elim (first_by before (is_due t) rows) [
  | none ↦ (none, rows)
  | some r ↦ (some r.id, update_where (in_state r.id queued) (claim_row t) rows)
]

unfoldable pub claim_next : Serde → ℕ → Rows → TransferResult (Option TransferJob) × Rows
unfolding claim_id get
claim_next serde t rows =
    let (claimed, rows') = claim_id t rows in
    elim claimed [
      | none ↦ (ok none, rows')
      | some id ↦ ((do job ← get serde id rows'; ok (some job)), rows')
    ]

unfoldable pub ensure_updated : ℕ → TransferResult (Unit {0})
ensure_updated rows = if rows == 1 then ok tt else err invalid_transition

-- An `UPDATE` whose `rows_affected` must be one.
unfoldable pub update_one : (Row → Bool) → (Row → Row) → Rows → TransferResult (Unit {0}) × Rows
unfolding ensure_updated count_where update_where
update_one p f rows = (ensure_updated (count_where p rows), update_where p f rows)

unfoldable pub update_progress : ℕ → ℕ → ℕ → Rows → TransferResult (Unit {0}) × Rows
unfolding update_one state_eq
update_progress id bytes t rows =
    if leb bytes i64_max
    then update_one (in_state id running)
        (λ r. record r { bytes_transferred = bytes; updated_at = t }) rows
    else (err too_large, rows)

unfoldable pub complete : ℕ → Option Bytes → ℕ → Rows → TransferResult (Unit {0}) × Rows
unfolding update_one state_eq
complete id checksum t rows =
    update_one (in_state id running)
      (λ r. record r { state = completed; checksum = checksum; updated_at = t }) rows

unfoldable pub fail : ℕ → Bytes → ℕ → Rows → TransferResult (Unit {0}) × Rows
unfolding update_one state_eq
fail id error t rows =
    update_one (in_state id running)
      (λ r. record r {
        state = failed;
        last_error = some (take max_error_chars error);
        updated_at = t;
      })
      rows

-- `2_i64.pow(attempts.clamp(0, 8))`
unfoldable pub backoff : ℕ → ℕ
backoff attempts = 2 ^ min attempts 8

-- `retry` past its look-up: `due` and `t` are its two readings of the clock.
unfoldable pub retry_row : ℕ → Bytes → Bool → ℕ → ℕ → Row → Rows → TransferResult (Unit {0}) × Rows
unfolding fail backoff update_one state_eq
retry_row id error permanent due t found rows =
    if permanent || leb max_transfer_attempts found.attempts
    then fail id error t rows
    else update_one (in_state id running)
        (λ r. record r {
          state = queued;
          last_error = some (take max_error_chars error);
          next_attempt_at = due + backoff found.attempts;
          updated_at = t;
        })
        rows

unfoldable pub retry : ℕ → Bytes → Bool → ℕ → ℕ → Rows → TransferResult (Unit {0}) × Rows
unfolding retry_row find_where
retry id error permanent due t rows = elim (find_where (has_id id) rows) [
  | none ↦ (err not_found, rows)
  | some found ↦ retry_row id error permanent due t found rows
]

unfoldable pub retry_failed : ℕ → ℕ → ℕ → ℕ → Rows → TransferResult (Unit {0}) × Rows
unfolding update_one state_eq
retry_failed id owner due t rows =
    update_one (λ r. in_state id failed r && r.owner_user_id == owner)
      (λ r. record r {
        state = queued;
        attempts = 0;
        last_error = none;
        next_attempt_at = due;
        updated_at = t;
      })
      rows

-- The states from which `set_state` may leave for the given one.
unfoldable pub allowed_from : TransferState → TransferState → Bool
unfolding state_eq
allowed_from paused s = state_eq s queued || state_eq s running
allowed_from queued s = state_eq s paused
allowed_from cancelled s = state_eq s queued || state_eq s running || state_eq s paused
allowed_from running s = false
allowed_from completed s = false
allowed_from failed s = false

-- `matches!(state, Paused | Queued | Cancelled)`
unfoldable pub is_settable : TransferState → Bool
is_settable paused = true
is_settable queued = true
is_settable cancelled = true
is_settable running = false
is_settable completed = false
is_settable failed = false

unfoldable pub set_state : ℕ → TransferState → ℕ → Rows → TransferResult (Unit {0}) × Rows
unfolding update_one allowed_from is_settable
set_state id state t rows =
    if is_settable state
    then update_one (λ r. r.id == id && allowed_from state r.state)
        (λ r. record r { state = state; updated_at = t }) rows
    else (err invalid_transition, rows)

-- `collect` into a `TransferResult`: the first error, or every job.
unfoldable pub collect_jobs : Serde → Rows → TransferResult (List TransferJob)
unfolding row_to_job
collect_jobs serde [] = ok []
collect_jobs serde (r ∷ rs) = do
  job ← row_to_job serde r
  jobs ← collect_jobs serde rs
  ok (job ∷ jobs)

unfoldable pub list_owner : Serde → ℕ → ℕ → Rows → TransferResult (List TransferJob)
unfolding select_where order_by collect_jobs
list_owner serde owner limit rows = collect_jobs serde (
    take (max 1 (min limit 200))
      (order_by (λ r s. before s r) (select_where (λ r. r.owner_user_id == owner) rows)))
