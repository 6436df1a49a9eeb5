-- ===== src/Transfers/Rows.antt =====
-- The rows of `transfer_jobs` and the jobs read from them (crates/transfers/src/lib.rs).
use cloud_desk_os.Prelude.{
  ℕ, ◌^◌, ◌-◌, Option, none, some, String, List, ltb, leb, if◌then◌else◌, ok, err, ◌>>=◌, ◌>>◌,
  require,
}
use cloud_desk_os.Transfers.Endpoint.{
  Bytes, TransferEndpoint, TransferStrategy, select_strategy, passes_scp_policy,
  is_nonempty_endpoint,
}
use cloud_desk_os.Transfers.Names.{
  TransferState, queued, invalid_endpoint, too_large, corrupt, serialization, TransferResult,
  state_name, parse_state, strategy_name, parse_strategy,
}

abbrev pub max_transfer_attempts : ℕ
max_transfer_attempts = 6

abbrev pub i64_max : ℕ
i64_max = 2 ^ 63 - 1

abbrev pub u32_mod : ℕ
u32_mod = 2 ^ 32

abbrev pub max_error_chars : ℕ
max_error_chars = 1024

-- `serde_json` on endpoints, `to_string` and `from_str`; either may fail.
pub record Serde : Type 0 where
  pub to_string : TransferEndpoint → Option String
  pub from_str : String → Option TransferEndpoint

abbrev pub or_serialization : {A : Type 0} → Option A → TransferResult A
or_serialization none = err serialization
or_serialization (some a) = ok a

pub record NewTransfer : Type 0 where
  pub source : TransferEndpoint
  pub destination : TransferEndpoint
  pub bytes_total : Option ℕ

-- A row of `transfer_jobs`. The `CHECK` constraints of the table keep `strategy` and `state` to
-- the names of the two enumerations, which stand here for their names.
pub record Row : Type 0 where
  pub id : ℕ
  pub owner_user_id : ℕ
  pub source_json : String
  pub destination_json : String
  pub strategy : TransferStrategy
  pub state : TransferState
  pub bytes_total : Option ℕ
  pub bytes_transferred : ℕ
  pub checksum : Option Bytes
  pub attempts : ℕ
  pub next_attempt_at : ℕ
  pub last_error : Option Bytes
  pub created_at : ℕ
  pub updated_at : ℕ

pub record TransferJob : Type 0 where
  pub id : ℕ
  pub owner_user_id : ℕ
  pub source : TransferEndpoint
  pub destination : TransferEndpoint
  pub strategy : TransferStrategy
  pub state : TransferState
  pub bytes_total : Option ℕ
  pub bytes_transferred : ℕ
  pub attempts : ℕ
  pub next_attempt_at : ℕ
  pub last_error : Option Bytes
  pub created_at : ℕ
  pub updated_at : ℕ

abbrev pub Rows : Type 0
Rows = List Row

unfoldable pub row_to_job : Serde → Row → TransferResult TransferJob
unfolding state_name parse_state strategy_name parse_strategy
row_to_job serde row = do
  source ← or_serialization (serde.from_str row.source_json)
  destination ← or_serialization (serde.from_str row.destination_json)
  strategy ← parse_strategy (strategy_name row.strategy)
  state ← parse_state (state_name row.state)
  require (ltb row.attempts u32_mod) corrupt
  ok (record {
    id = row.id;
    owner_user_id = row.owner_user_id;
    source = source;
    destination = destination;
    strategy = strategy;
    state = state;
    bytes_total = row.bytes_total;
    bytes_transferred = row.bytes_transferred;
    attempts = row.attempts;
    next_attempt_at = row.next_attempt_at;
    last_error = row.last_error;
    created_at = row.created_at;
    updated_at = row.updated_at;
  })

unfoldable pub validate_endpoint : TransferEndpoint → TransferResult (Unit {0})
unfolding passes_scp_policy is_nonempty_endpoint
validate_endpoint endpoint = do
  require (passes_scp_policy endpoint) invalid_endpoint
  require (is_nonempty_endpoint endpoint) invalid_endpoint

unfoldable pub checked_total : Option ℕ → TransferResult (Option ℕ)
checked_total none = ok none
checked_total (some n) = if leb n i64_max then ok (some n) else err too_large

-- The row that `enqueue` inserts.
unfoldable pub new_row : Serde → ℕ → NewTransfer → ℕ → ℕ → TransferResult Row
unfolding validate_endpoint checked_total select_strategy
new_row serde owner transfer id t = do
  validate_endpoint transfer.source
  validate_endpoint transfer.destination
  source_json ← or_serialization (serde.to_string transfer.source)
  destination_json ← or_serialization (serde.to_string transfer.destination)
  total ← checked_total transfer.bytes_total
  ok (record {
    id = id;
    owner_user_id = owner;
    source_json = source_json;
    destination_json = destination_json;
    strategy = select_strategy transfer.source transfer.destination;
    state = queued;
    bytes_total = total;
    bytes_transferred = 0;
    checksum = none;
    attempts = 0;
    next_attempt_at = t;
    last_error = none;
    created_at = t;
    updated_at = t;
  })
