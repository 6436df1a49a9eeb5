-- ===== src/Transfers/History.antt =====
-- Histories of the transfer queue: every statement that changes `transfer_jobs`, in any order.
use cloud_desk_os.Prelude.{ℕ, Bool, Option, List, [], ◌∷◌}
use cloud_desk_os.Transfers.Endpoint.{Bytes}
use cloud_desk_os.Transfers.Names.{TransferState}
use cloud_desk_os.Transfers.Rows.{Serde, NewTransfer, Rows}
use cloud_desk_os.Transfers.Queue.{
  enqueue, recover_interrupted, claim_next, update_progress, complete, fail, retry, retry_failed,
  set_state,
}

pub data Call : Type 0 where
  enqueues : ℕ → NewTransfer → ℕ → ℕ → Call
  recovers : Bytes → ℕ → Call
  claims : ℕ → Call
  progresses : ℕ → ℕ → ℕ → Call
  completes : ℕ → Option Bytes → ℕ → Call
  fails : ℕ → Bytes → ℕ → Call
  retries : ℕ → Bytes → Bool → ℕ → ℕ → Call
  retries_failed : ℕ → ℕ → ℕ → ℕ → Call
  sets_state : ℕ → TransferState → ℕ → Call

unfoldable pub step : Serde → Call → Rows → Rows
unfolding enqueue recover_interrupted claim_next update_progress complete fail retry retry_failed
    set_state
step serde (enqueues owner transfer id t) rows = (enqueue serde owner transfer id t rows).1
step serde (recovers message t) rows = (recover_interrupted message t rows).1
step serde (claims t) rows = (claim_next serde t rows).1
step serde (progresses id bytes t) rows = (update_progress id bytes t rows).1
step serde (completes id checksum t) rows = (complete id checksum t rows).1
step serde (fails id error t) rows = (fail id error t rows).1
step serde (retries id error permanent due t) rows = (retry id error permanent due t rows).1
step serde (retries_failed id owner due t) rows = (retry_failed id owner due t rows).1
step serde (sets_state id state t) rows = (set_state id state t rows).1

unfoldable pub run : Serde → List Call → Rows → Rows
run serde [] rows = rows
run serde (c ∷ cs) rows = run serde cs (step serde c rows)
