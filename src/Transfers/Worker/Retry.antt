-- ===== src/Transfers/Worker/Retry.antt =====
-- The retry budget.
use cloud_desk_os.Prelude.{
  ◌∙◌, ap, ℕ, zero, suc, ◌+◌, ◌≤◌, ◌<◌, ◌^◌, min, ◌≡◌, refl, Bool, false, ◌||◌, some, List, [], ◌∷◌,
  leb, if◌then◌else◌, arith, take, if-holds, Bool-cases, inl, inr, ok, err,
}
use cloud_desk_os.Prelude.Table.{find_where}
use cloud_desk_os.Transfers.Endpoint.{Bytes, TransferEndpoint}
use cloud_desk_os.Transfers.Names.{queued, running, failed, invalid_transition, state_eq}
use cloud_desk_os.Transfers.Rows.{Serde, Row, Rows, max_transfer_attempts, max_error_chars}
use cloud_desk_os.Transfers.Queue.{claim_next, claim_row, has_id, retry, retry_row, fail, backoff}
use cloud_desk_os.Transfers.Find.{Distinct, update_one_lem}
use cloud_desk_os.Transfers.Worker.{Turn, failed_with, work_once, work, process_claimed, finish_job}
use cloud_desk_os.Transfers.Codec.{
  Decodes, job_of, row_to_job_lem, parse-state_name, parse-strategy_name,
}

-- The row of a running job after a failed attempt.
abbrev pub after_failure : Bytes → Bool → ℕ → ℕ → Row → Row
after_failure error permanent due t r =
    if permanent || leb max_transfer_attempts r.attempts
    then record r { state = failed; last_error = some (take max_error_chars error); updated_at = t }
    else record r {
      state = queued;
      last_error = some (take max_error_chars error);
      next_attempt_at = due + 2 ^ min r.attempts 8;
      updated_at = t;
    }

-- `retry` on a running job fails it at once if the error is permanent or six attempts are spent,
-- and otherwise queues it again, due 2^attempts seconds later but at most 256; a job in another
-- state is left alone and the call is refused. This is for a table whose identifiers differ.
pub retry_lem :
    (id : ℕ) (error : Bytes) (permanent : Bool) (due t : ℕ) (rows : Rows) (r : Row)
    → Distinct rows
    → find_where (has_id id) rows ≡ some r
    → let (answer, rows') = retry id error permanent due t rows in
      (answer ≡ (if state_eq r.state running then ok tt else err invalid_transition))
      × (find_where (has_id id) rows'
          ≡ some (if state_eq r.state running then after_failure error permanent due t r else r))
unfolding retry retry_row fail backoff
retry_lem id error permanent due t rows r d h =
    elim (Bool-cases (permanent || leb max_transfer_attempts r.attempts)) [
      | inl e ↦
          rw (h, retry, e)
            (update_one_lem id (λ q. state_eq q.state running) _ rows r d h (λ q. refl))
      | inr e ↦
          rw (h, retry, e)
            (update_one_lem id (λ q. state_eq q.state running) _ rows r d h (λ q. refl))
    ]

-- A turn at one time in which processing fails with an error that is not permanent.
abbrev pub failing_turn : Bytes → ℕ → Turn
failing_turn message time = record {
  claimed_at = time;
  due = time;
  finished_at = time;
  checksum = [];
  process = λ job. ([], failed_with message false);
}

abbrev pub failing_turns : Bytes → (ℕ → ℕ) → ℕ → ℕ → List Turn
failing_turns message clock k zero = []
failing_turns message clock k (suc n) =
    failing_turn message (clock k) ∷ failing_turns message clock (suc k) n

claim_alone :
    (serde : Serde) (source destination : TransferEndpoint) (time : ℕ) (r : Row)
    → Decodes serde r source destination
    → r.state ≡ queued
    → r.next_attempt_at ≤ time
    → r.attempts < max_transfer_attempts
    → claim_next serde time (r ∷ [])
      ≡ (ok (some (job_of (claim_row time r) source destination)), claim_row time r ∷ [])
unfolding claim_next
claim_alone serde source destination time r texts q due few = ground (
  arith,
  row_to_job_lem serde (claim_row time r) source destination texts,
  parse-state_name running,
  parse-strategy_name r.strategy,
)

retry_alone :
    (message : Bytes) (time : ℕ) (r : Row)
    → r.state ≡ running
    → (retry r.id message false time time (r ∷ [])).1 ≡ after_failure message false time time r ∷ []
unfolding retry
retry_alone message time r e = ground arith

-- One such turn on a job that is alone in the table.
failing_turn_lem :
    (serde : Serde) (source destination : TransferEndpoint) (message : Bytes) (time : ℕ) (r : Row)
    → Decodes serde r source destination
    → r.state ≡ queued
    → r.next_attempt_at ≤ time
    → r.attempts < max_transfer_attempts
    → work_once serde (failing_turn message time) (r ∷ [])
      ≡ after_failure message false time time
          (record r { state = running; attempts = r.attempts + 1; updated_at = time })
        ∷ []
unfolding work_once process_claimed finish_job
failing_turn_lem serde source destination message time r texts q due few =
    rw (claim_alone serde source destination time r texts q due few, process_claimed)
      (retry_alone message time (claim_row time r) refl)

backoff-le : (n : ℕ) → n ≤ 5 → 2 ^ min n 8 ≤ 256
backoff-le zero h = omega arith
backoff-le (suc zero) h = omega arith
backoff-le (suc (suc zero)) h = omega arith
backoff-le (suc (suc (suc zero))) h = omega arith
backoff-le (suc (suc (suc (suc zero)))) h = omega arith
backoff-le (suc (suc (suc (suc (suc zero))))) h = omega arith
backoff-le (suc (suc (suc (suc (suc (suc n)))))) h = absurd (omega arith)

-- A failed attempt with budget left.
requeued :
    (message : Bytes) (time : ℕ) (r : Row)
    → r.attempts ≤ 5
    → let q = after_failure message false time time r in
      (q.id ≡ r.id)
      × (q.state ≡ queued)
      × (q.attempts ≡ r.attempts)
      × (q.next_attempt_at ≤ time + 256)
requeued message time r few =
    (ground arith, ground arith, ground arith, ground (arith, backoff-le r.attempts few))

-- Six attempts, then failure: a due job that is alone in the queue, was tried `6 - n` times and fails
-- on every turn, is `failed` with six attempts after `n` turns, if each turn comes at least 256
-- seconds after the one before and the texts of its endpoints can be read.
pub work_gives_up :
    (serde : Serde) (source destination : TransferEndpoint) (message : Bytes) (clock : ℕ → ℕ)
    (k n : ℕ) (r : Row)
    → ((i : ℕ) → clock i + 256 ≤ clock (suc i))
    → Decodes serde r source destination
    → r.state ≡ queued
    → r.next_attempt_at ≤ clock k
    → 0 < n
    → r.attempts + n ≡ max_transfer_attempts
    → (q : Row) × (work serde (failing_turns message clock k n) (r ∷ []) ≡ q ∷ [])
      × (q.id ≡ r.id)
      × (q.state ≡ failed)
      × (q.attempts ≡ max_transfer_attempts)
unfolding work
work_gives_up serde source destination message clock k zero r slow texts e due pos budget =
    absurd (omega arith)
work_gives_up serde source destination message clock k (suc zero) r slow texts e due pos budget = (
  after_failure message false (clock k) (clock k) (claim_row (clock k) r),
  failing_turn_lem serde source destination message (clock k) r texts e due (omega arith),
  ground arith,
  ground arith,
  ground arith,
)
work_gives_up serde source destination message clock k (suc (suc n)) r slow texts e due pos budget =
    let last = claim_row (clock k) r in
    let next = after_failure message false (clock k) (clock k) last in
    let (id, state, attempts, at) = requeued message (clock k) last (omega arith) in
    let (q, ends, same, over, spent) =
      work_gives_up serde source destination message clock (suc k) (suc n) next slow
        (if-holds (λ (q : Row). Decodes serde q source destination)
          (false || leb max_transfer_attempts last.attempts) _ _ texts texts)
        state (omega (arith, slow k)) (omega arith) (omega arith) in
    (
      q,
      ap (work serde (failing_turns message clock (suc k) (suc n))) (
            failing_turn_lem serde source destination message (clock k) r texts e due (omega arith))
          ∙ ends,
      same ∙ id,
      over,
      spent,
    )
