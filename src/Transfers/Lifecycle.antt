-- ===== src/Transfers/Lifecycle.antt =====
-- The life of a transfer job: what one call, and any history of calls, may do to a row.
mod Steps
use cloud_desk_os.Prelude.{
  subst, ℕ, suc, ◌+◌, ◌≤◌, ◌≡◌, refl, sym, ap, ◌∙◌, Bool, true, false, not, ◌&&◌, ◌||◌, Option,
  none, some, List, [], ◌∷◌, ltb, leb, ◌==◌, if◌then◌else◌, arith, Option-cases, Bool-cases, inl,
  inr, ◌⊎◌, ◌≢◌, Result, ok, err, ◌>>=◌, ◌>>◌, require,
}
use cloud_desk_os.Prelude.Table.{update_where, count_where, find_where, first_by}
use cloud_desk_os.Transfers.Endpoint.{Bytes}
use cloud_desk_os.Transfers.Names.{
  TransferState, queued, running, paused, completed, failed, cancelled, TransferResult, state_eq,
}
use cloud_desk_os.Transfers.Rows.{
  Serde, NewTransfer, Row, Rows, new_row, i64_max, max_transfer_attempts,
}
use cloud_desk_os.Transfers.Queue.{
  has_id, insert_row, enqueue, recover_interrupted, claim_id, claim_next, update_one,
  update_progress, complete, fail, retry_row, retry, retry_failed, allowed_from, is_settable,
  set_state, is_due, before, claim_row,
}
use cloud_desk_os.Transfers.History.{
  Call, enqueues, recovers, claims, progresses, completes, fails, retries, retries_failed,
  sets_state, step, run,
}
use cloud_desk_os.Transfers.Moves.{
  Move, stay, claim, finish, give_up, requeue, retry_by_owner, pause_queued, pause_running, resume,
  cancel_queued, cancel_running, cancel_paused, IsFinal, Follows, Evolves, SameJob, Evolves-refl,
  Follows-refl, same_job,
}
use Steps.{
  recover-Evolves, progress-Evolves, complete-Evolves, fail-Evolves, retry-Evolves,
  retry_failed-Evolves, claim-Evolves, claim_next-rows, set_state-Evolves,
}

-- Every job that was there is still there, in a row that follows the one before.
abbrev Later : Rows → Rows → Type 0
Later rows rows' =
    (id : ℕ) (r : Row)
    → find_where (has_id id) rows ≡ some r
    → (q : Row) × (find_where (has_id id) rows' ≡ some q) × Follows r q

Later-of_Evolves : (rows rows' : Rows) → Evolves rows rows' → Later rows rows'
unfolding find_where
Later-of_Evolves [] rows' ev id r e = cc
Later-of_Evolves (x ∷ xs) [] ev id r e = absurd ev
Later-of_Evolves (x ∷ xs) (y ∷ ys) ev id r e = elim (Bool-cases (x.id == id)) [
  | inl hit ↦
      let here : x ≡ r = ground arith in
      (y, ground (arith, ev.0.id), subst (λ z. Follows z y) here ev.0)
  | inr miss ↦
      let (q, found, fol) = Later-of_Evolves xs ys ev.1 id r (ground arith) in
      (q, ground (arith, ev.0.id), fol)
]

taken :
    (id : ℕ) (r : Row) (rows : Rows)
    → find_where (has_id id) rows ≡ some r
    → (count_where (has_id id) rows == 0) ≡ false
unfolding find_where count_where
taken id r [] e = cc
taken id r (x ∷ xs) e = ground (arith, taken id r xs)

insert_row-Later : (x : TransferResult Row) (rows : Rows) → Later rows (insert_row x rows).1
unfolding insert_row find_where
insert_row-Later (err e) rows id r found = (r, found, Follows-refl r)
insert_row-Later (ok x) rows id r found = (r, ground (arith, taken id r rows found), Follows-refl r)

step-Later : (serde : Serde) (c : Call) (rows : Rows) → Later rows (step serde c rows)
unfolding step enqueue
step-Later serde (enqueues owner transfer id t) rows =
    insert_row-Later (new_row serde owner transfer id t) rows
step-Later serde (recovers message t) rows =
    Later-of_Evolves rows _ (recover-Evolves message t rows)
step-Later serde (claims t) rows =
    rw (claim_next-rows serde t rows) (Later-of_Evolves rows _ (claim-Evolves t rows))
step-Later serde (progresses id bytes t) rows =
    Later-of_Evolves rows _ (progress-Evolves id bytes t rows)
step-Later serde (completes id checksum t) rows =
    Later-of_Evolves rows _ (complete-Evolves id checksum t rows)
step-Later serde (fails id error t) rows = Later-of_Evolves rows _ (fail-Evolves id error t rows)
step-Later serde (retries id error permanent due t) rows =
    Later-of_Evolves rows _ (retry-Evolves id error permanent due t rows)
step-Later serde (retries_failed id owner due t) rows =
    Later-of_Evolves rows _ (retry_failed-Evolves id owner due t rows)
step-Later serde (sets_state id state t) rows =
    Later-of_Evolves rows _ (set_state-Evolves id state t rows)

same_of_Follows : (r q : Row) → Follows r q → SameJob r q
same_of_Follows r q fol =
    (fol.id, fol.owner, fol.source, fol.destination, fol.strategy, fol.total, fol.created)

-- Every call keeps every job of the table, with what identifies it, and leaves its state as it is
-- or moves it along one of the permitted moves.
pub step_moves :
    (serde : Serde) (c : Call) (rows : Rows) (id : ℕ) (r : Row)
    → find_where (has_id id) rows ≡ some r
    → (q : Row) × (find_where (has_id id) (step serde c rows) ≡ some q)
      × SameJob r q
      × Move r.state q.state
step_moves serde c rows id r found =
    let (q, there, fol) = step-Later serde c rows id r found in
    (q, there, same_of_Follows r q fol, fol.moved)

-- Once a job is completed or cancelled, no history of calls changes its row.
pub run_final :
    (serde : Serde) (cs : List Call) (rows : Rows) (id : ℕ) (r : Row)
    → find_where (has_id id) rows ≡ some r
    → IsFinal r.state
    → find_where (has_id id) (run serde cs rows) ≡ some r
unfolding run
run_final serde [] rows id r found fin = found
run_final serde (c ∷ cs) rows id r found fin =
    let (q, there, fol) = step-Later serde c rows id r found in
    run_final serde cs (step serde c rows) id r (there ∙ ap some (fol.frozen fin)) fin

Same-trans : (r q s : Row) → SameJob r q → SameJob q s → SameJob r s
Same-trans r q s h k = ground arith

-- Whatever the history, a job keeps its identifier, owner, endpoints, strategy, size and date.
pub run_same_job :
    (serde : Serde) (cs : List Call) (rows : Rows) (id : ℕ) (r : Row)
    → find_where (has_id id) rows ≡ some r
    → (q : Row) × (find_where (has_id id) (run serde cs rows) ≡ some q) × SameJob r q
unfolding run
run_same_job serde [] rows id r found = (r, found, same_job r)
run_same_job serde (c ∷ cs) rows id r found =
    let (q, there, fol) = step-Later serde c rows id r found in
    let (s, last, same) = run_same_job serde cs (step serde c rows) id q there in
    (s, last, Same-trans r q s (same_of_Follows r q fol) same)
