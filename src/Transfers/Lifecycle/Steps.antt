-- ===== src/Transfers/Lifecycle/Steps.antt =====
-- Each call changes a row along a move, or not at all; `enqueue` is left to the parent module.
use cloud_desk_os.Prelude.{
  ℕ, ◌≡◌, refl, Bool, true, ◌||◌, Option, none, leb, arith, Option-cases, Bool-cases, inl, inr,
}
use cloud_desk_os.Prelude.Table.{find_where, first_by}
use cloud_desk_os.Transfers.Endpoint.{Bytes}
use cloud_desk_os.Transfers.Names.{
  TransferState, queued, running, paused, completed, failed, cancelled, state_eq,
}
use cloud_desk_os.Transfers.Rows.{Serde, Row, Rows, i64_max, max_transfer_attempts}
use cloud_desk_os.Transfers.Queue.{
  has_id, recover_interrupted, claim_id, claim_next, update_one, update_progress, complete, fail,
  retry_row, retry, retry_failed, allowed_from, is_settable, set_state, is_due, before, claim_row,
}
use cloud_desk_os.Transfers.Moves.{
  Move, stay, claim, finish, give_up, requeue, retry_by_owner, pause_queued, pause_running, resume,
  cancel_queued, cancel_running, cancel_paused, IsFinal, Follows, Evolves, Evolves-refl,
  Evolves-update_where, Follows-of_Move, state_eq-eq, not-IsFinal, running_moves,
  running_of_in_state, same_job,
}

pub recover-Evolves :
    (message : Bytes) (t : ℕ) (rows : Rows) → Evolves rows (recover_interrupted message t rows).1
unfolding recover_interrupted
recover-Evolves message t rows =
    Evolves-update_where _ _ rows
      (λ r h. running_moves r _ queued (state_eq-eq r.state running h) refl (same_job r) requeue)

update_one-Evolves :
    (p : Row → Bool) (f : Row → Row) (rows : Rows)
    → ((r : Row) → p r ≡ true → Follows r (f r))
    → Evolves rows (update_one p f rows).1
unfolding update_one
update_one-Evolves p f rows keep = Evolves-update_where p f rows keep

pub progress-Evolves :
    (id bytes t : ℕ) (rows : Rows) → Evolves rows (update_progress id bytes t rows).1
unfolding update_progress
progress-Evolves id bytes t rows = elim (Bool-cases (leb bytes i64_max)) [
  | inl e ↦ rw e (
      update_one-Evolves _ _ rows (λ r h.
        running_moves r _ running (running_of_in_state id r h) (running_of_in_state id r h)
          (same_job r) (stay running)))
  | inr e ↦ rw e (Evolves-refl rows)
]

pub complete-Evolves :
    (id : ℕ) (checksum : Option Bytes) (t : ℕ) (rows : Rows)
    → Evolves rows (complete id checksum t rows).1
unfolding complete
complete-Evolves id checksum t rows =
    update_one-Evolves _ _ rows
      (λ r h. running_moves r _ completed (running_of_in_state id r h) refl (same_job r) finish)

pub fail-Evolves :
    (id : ℕ) (error : Bytes) (t : ℕ) (rows : Rows) → Evolves rows (fail id error t rows).1
unfolding fail
fail-Evolves id error t rows =
    update_one-Evolves _ _ rows
      (λ r h. running_moves r _ failed (running_of_in_state id r h) refl (same_job r) give_up)

retry_row-Evolves :
    (id : ℕ) (error : Bytes) (permanent : Bool) (due t : ℕ) (found : Row) (rows : Rows)
    → Evolves rows (retry_row id error permanent due t found rows).1
unfolding retry_row
retry_row-Evolves id error permanent due t found rows =
    elim (Bool-cases (permanent || leb max_transfer_attempts found.attempts)) [
      | inl e ↦ rw e (fail-Evolves id error t rows)
      | inr e ↦ rw e (
          update_one-Evolves _ _ rows (λ r h.
            running_moves r _ queued (running_of_in_state id r h) refl (same_job r) requeue))
    ]

pub retry-Evolves :
    (id : ℕ) (error : Bytes) (permanent : Bool) (due t : ℕ) (rows : Rows)
    → Evolves rows (retry id error permanent due t rows).1
unfolding retry
retry-Evolves id error permanent due t rows = elim (Option-cases (find_where (has_id id) rows)) [
  | inl e ↦ rw (e, retry) (Evolves-refl rows)
  | inr (r, e) ↦ rw (e, retry) (retry_row-Evolves id error permanent due t r rows)
]

pub retry_failed-Evolves :
    (id owner due t : ℕ) (rows : Rows) → Evolves rows (retry_failed id owner due t rows).1
unfolding retry_failed
retry_failed-Evolves id owner due t rows =
    update_one-Evolves _ _ rows (λ r h. moves r (state_eq-eq r.state failed (ground arith)))
  where
    moves :
        (r : Row)
        → r.state ≡ failed
        → Follows r (record r {
          state = queued;
          attempts = 0;
          last_error = none;
          next_attempt_at = due;
          updated_at = t;
        })
    moves r e =
        Follows-of_Move r _ (same_job r) (rw e retry_by_owner)
          (not-IsFinal r.state failed e (λ x. cc) (λ x. cc))

pub claim-Evolves : (t : ℕ) (rows : Rows) → Evolves rows (claim_id t rows).1
unfolding claim_id
claim-Evolves t rows = elim (Option-cases (first_by before (is_due t) rows)) [
  | inl e ↦ rw (e, claim_id) (Evolves-refl rows)
  | inr (r, e) ↦
      rw (e, claim_id)
        (Evolves-update_where _ _ rows (λ q h. moves q (state_eq-eq q.state queued (ground arith))))
]
  where
    moves : (q : Row) → q.state ≡ queued → Follows q (claim_row t q)
    moves q e =
        Follows-of_Move q _ (same_job q) (rw e claim)
          (not-IsFinal q.state queued e (λ x. cc) (λ x. cc))

pub claim_next-rows :
    (serde : Serde) (t : ℕ) (rows : Rows) → (claim_next serde t rows).1 ≡ (claim_id t rows).1
unfolding claim_next
claim_next-rows serde t rows = ground arith

allowed-Move : (s t : TransferState) → allowed_from t s ≡ true → Move s t × (¬ IsFinal s)
unfolding allowed_from state_eq
allowed-Move queued paused h = (pause_queued, not-IsFinal queued queued refl (λ x. cc) (λ x. cc))
allowed-Move running paused h =
    (pause_running, not-IsFinal running running refl (λ x. cc) (λ x. cc))
allowed-Move paused queued h = (resume, not-IsFinal paused paused refl (λ x. cc) (λ x. cc))
allowed-Move queued cancelled h =
    (cancel_queued, not-IsFinal queued queued refl (λ x. cc) (λ x. cc))
allowed-Move running cancelled h =
    (cancel_running, not-IsFinal running running refl (λ x. cc) (λ x. cc))
allowed-Move paused cancelled h =
    (cancel_paused, not-IsFinal paused paused refl (λ x. cc) (λ x. cc))
allowed-Move s t h = absurd (ground arith)

pub set_state-Evolves :
    (id : ℕ) (state : TransferState) (t : ℕ) (rows : Rows)
    → Evolves rows (set_state id state t rows).1
unfolding set_state
set_state-Evolves id state t rows = elim (Bool-cases (is_settable state)) [
  | inl e ↦
      rw e
        (update_one-Evolves _ _ rows (λ r h. moves r (allowed-Move r.state state (ground arith))))
  | inr e ↦ rw e (Evolves-refl rows)
]
  where
    moves :
        (r : Row)
        → Move r.state state × (¬ IsFinal r.state)
        → Follows r (record r { state = state; updated_at = t })
    moves r m = Follows-of_Move r _ (same_job r) m.0 m.1
