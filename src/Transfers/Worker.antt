-- ===== src/Transfers/Worker.antt =====
-- The loop of `TransferWorker::spawn` in services/clouddeskd/src/worker.rs: claim, process, and
-- complete or retry. What `process_job` does is an argument: the calls that it, or anyone else,
-- makes on the queue meanwhile, and how it ends.
pub mod Retry
use cloud_desk_os.Prelude.{
  ℕ, Bool, Option, none, some, List, [], ◌∷◌, Result, ok, err, ◌>>=◌, ◌>>◌, require,
}
use cloud_desk_os.Transfers.Endpoint.{Bytes}
use cloud_desk_os.Transfers.Names.{TransferResult}
use cloud_desk_os.Transfers.Rows.{Serde, TransferJob, Rows}
use cloud_desk_os.Transfers.Queue.{claim_next, complete, retry}
use cloud_desk_os.Transfers.History.{Call, run}

-- `Ok(())`, or the message and the permanence of `retry_classification`.
pub data Outcome : Type 0 where
  succeeded : Outcome
  failed_with : Bytes → Bool → Outcome

-- The readings of the clock in one turn of the loop, and the checksum text of the worker.
pub record Turn : Type 0 where
  pub claimed_at : ℕ
  pub due : ℕ
  pub finished_at : ℕ
  pub checksum : Bytes
  pub process : TransferJob → List Call × Outcome

unfoldable pub finish_job : Turn → ℕ → Outcome → Rows → Rows
unfolding complete retry
finish_job turn id succeeded rows = (complete id (some turn.checksum) turn.finished_at rows).1
finish_job turn id (failed_with message permanent) rows =
    (retry id message permanent turn.due turn.finished_at rows).1

unfoldable pub process_claimed : Serde → Turn → TransferResult (Option TransferJob) → Rows → Rows
unfolding finish_job run
process_claimed serde turn (err e) rows = rows
process_claimed serde turn (ok none) rows = rows
process_claimed serde turn (ok (some job)) rows =
    let (calls, outcome) = turn.process job in finish_job turn job.id outcome (run serde calls rows)

unfoldable pub work_once : Serde → Turn → Rows → Rows
unfolding claim_next process_claimed
work_once serde turn rows =
    let (claimed, rows') = claim_next serde turn.claimed_at rows in
    process_claimed serde turn claimed rows'

unfoldable pub work : Serde → List Turn → Rows → Rows
unfolding work_once
work serde [] rows = rows
work serde (turn ∷ turns) rows = work serde turns (work_once serde turn rows)
