-- ===== src/Transfers/Names.antt =====
-- The states, the errors and the text columns of crates/transfers/src/lib.rs.
use cloud_desk_os.Prelude.{Bool, true, false, String, str_eq, if◌then◌else◌, Result, ok, err}
use cloud_desk_os.Transfers.Endpoint.{TransferStrategy, direct, server_relay}

pub data TransferState : Type 0 where
  queued running paused completed failed cancelled : TransferState

-- The errors that the modelled code returns; the statements themselves do not fail here.
pub data TransferError : Type 0 where
  invalid_endpoint too_large not_found invalid_transition corrupt serialization duplicate_id :
      TransferError

abbrev pub TransferResult {ℓ} : Type ℓ → Type ℓ
TransferResult A = Result A TransferError

unfoldable pub state_name : TransferState → String
state_name queued = "queued"
state_name running = "running"
state_name paused = "paused"
state_name completed = "completed"
state_name failed = "failed"
state_name cancelled = "cancelled"

unfoldable pub parse_state : String → TransferResult TransferState
parse_state value =
    if str_eq value "queued"
    then ok queued
    else if str_eq value "running"
    then ok running
    else if str_eq value "paused"
    then ok paused
    else if str_eq value "completed"
    then ok completed
    else if str_eq value "failed"
    then ok failed
    else if str_eq value "cancelled"
    then ok cancelled
    else err corrupt

unfoldable pub strategy_name : TransferStrategy → String
strategy_name direct = "direct"
strategy_name server_relay = "server-relay"

unfoldable pub parse_strategy : String → TransferResult TransferStrategy
parse_strategy value =
    if str_eq value "direct"
    then ok direct
    else if str_eq value "server-relay"
    then ok server_relay
    else err corrupt

unfoldable pub state_eq : TransferState → TransferState → Bool
state_eq queued queued = true
state_eq running running = true
state_eq paused paused = true
state_eq completed completed = true
state_eq failed failed = true
state_eq cancelled cancelled = true
state_eq _ _ = false
