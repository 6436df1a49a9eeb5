-- ===== src/Audit/Chain.antt =====
-- Appending to the audit log and verifying it (crates/audit/src/lib.rs).
use cloud_desk_os.Prelude.{
  ℕ, Bool, zero, suc, ◌+◌, String, str_eq, Option, none, some, List, [], ◌∷◌, ◌++◌, not,
  if◌then◌else◌, length, Result, ok, err,
}
use cloud_desk_os.Audit.Event.{Value, NewAuditEvent, CanonicalEvent, Format, sort_json}

pub record Row : Type 0 where
  pub id : ℕ
  pub timestamp : ℕ
  pub user_id : Option String
  pub role_snapshot : String
  pub session_id_hash : Option String
  pub source_ip : String
  pub user_agent : String
  pub action : String
  pub resource_type : String
  pub resource_id : Option String
  pub path : Option String
  pub remote_target : Option String
  pub result : String
  pub metadata_json : String
  pub previous_hash : String
  pub event_hash : String

-- The rows in the order of their identifiers, and the single row of `audit_chain_head`.
pub record Log : Type 0 where
  pub rows : List Row
  pub last_hash : String

abbrev pub empty : Log
empty = record { rows = []; last_hash = "" }

pub record AuditReceipt : Type 0 where
  pub id : ℕ
  pub event_hash : String

pub data AuditError : Type 0 where
  serialization database : AuditError
  broken_chain invalid_hash : ℕ → AuditError

abbrev pub AuditResult {ℓ} : Type ℓ → Type ℓ
AuditResult A = Result A AuditError

module _ (format : Format) where
  open format use {roles_to_string, roles_from_str, value_to_string, value_from_str, digest}

  unfoldable pub canonical_json : Value → String
  unfolding sort_json
  canonical_json value = value_to_string (sort_json value)

  abbrev pub canonical : NewAuditEvent → String → String → String → CanonicalEvent
  canonical event role_snapshot metadata_json previous_hash = record {
    timestamp = event.timestamp;
    user_id = event.user_id;
    role_snapshot = role_snapshot;
    session_id_hash = event.session_id_hash;
    source_ip = event.source_ip;
    user_agent = event.user_agent;
    action = event.action;
    resource_type = event.resource_type;
    resource_id = event.resource_id;
    path = event.path;
    remote_target = event.remote_target;
    result = event.result;
    metadata_json = metadata_json;
    previous_hash = previous_hash;
  }

  unfoldable pub hash_event : NewAuditEvent → String → String → String → String
  hash_event event role_snapshot metadata_json previous_hash =
      digest (canonical event role_snapshot metadata_json previous_hash)

  -- The row that an event is stored in, with the next identifier.
  unfoldable pub event_row : ℕ → String → NewAuditEvent → Row
  unfolding canonical_json hash_event
  event_row id previous_hash event =
      let role_snapshot = roles_to_string event.role_snapshot in
      let metadata_json = canonical_json event.metadata in
      record {
        id = id;
        timestamp = event.timestamp;
        user_id = event.user_id;
        role_snapshot = role_snapshot;
        session_id_hash = event.session_id_hash;
        source_ip = event.source_ip;
        user_agent = event.user_agent;
        action = event.action;
        resource_type = event.resource_type;
        resource_id = event.resource_id;
        path = event.path;
        remote_target = event.remote_target;
        result = event.result;
        metadata_json = metadata_json;
        previous_hash = previous_hash;
        event_hash = hash_event event role_snapshot metadata_json previous_hash;
      }

  unfoldable pub append_in_transaction : NewAuditEvent → Log → AuditReceipt × Log
  unfolding event_row
  append_in_transaction event log =
      let row = event_row (length log.rows + 1) log.last_hash event in
      (
        record { id = row.id; event_hash = row.event_hash },
        record { rows = log.rows ++ row ∷ []; last_hash = row.event_hash },
      )

  -- The event that `verify_chain` builds from a row.
  abbrev pub event_of : Row → List String → Value → NewAuditEvent
  event_of row roles metadata = record {
    timestamp = row.timestamp;
    user_id = row.user_id;
    role_snapshot = roles;
    session_id_hash = row.session_id_hash;
    source_ip = row.source_ip;
    user_agent = row.user_agent;
    action = row.action;
    resource_type = row.resource_type;
    resource_id = row.resource_id;
    path = row.path;
    remote_target = row.remote_target;
    result = row.result;
    metadata = metadata;
  }

  -- The checks on one row, after a row with the hash `expected`.
  unfoldable pub verify_row : String → Row → AuditResult (Unit {0})
  unfolding hash_event
  verify_row expected row =
      if not (str_eq row.previous_hash expected)
      then err (broken_chain row.id)
      else elim (roles_from_str row.role_snapshot) [
        | none ↦ err serialization
        | some roles ↦ elim (value_from_str row.metadata_json) [
          | none ↦ err serialization
          | some metadata ↦
              if str_eq
                (hash_event (event_of row roles metadata) row.role_snapshot row.metadata_json
                  row.previous_hash)
                row.event_hash
              then ok tt
              else err (invalid_hash row.id)
        ]
      ]

  unfoldable pub verify_from : String → List Row → AuditResult (Unit {0})
  verify_from expected [] = ok tt
  verify_from expected (row ∷ rows) =
      let rest = verify_from row.event_hash rows in
      elim (verify_row expected row) [ ok _ ↦ rest | err e ↦ err e ]

  unfoldable pub verify_chain : Log → AuditResult (Unit {0})
  unfolding verify_from
  verify_chain log = verify_from "" log.rows

-- What the database answers to one statement: it is done, the database is locked or busy, or it
-- fails otherwise.
pub data Answer : Type 0 where
  done busy broken : Answer

-- What one try of `append` meets: the answers to `begin`, to the four statements of
-- `append_in_transaction` and to `commit`, and whether serde_json writes the texts.
pub record Try : Type 0 where
  pub begins : Answer
  pub locks_head : Answer
  pub reads_head : Answer
  pub serializes : Bool
  pub inserts : Answer
  pub moves_head : Answer
  pub commits : Answer

-- The error of a try: that of a busy database, or another.
pub data Failure : Type 0 where
  retryable : Failure
  fatal : AuditError → Failure

abbrev pub TryResult : Type 0
TryResult = Result AuditReceipt Failure × Log

-- A statement and what comes after it; `work` is what the transaction has changed so far.
unfoldable pub and_then : Answer → Log → TryResult → TryResult
and_then done work next = next
and_then busy work next = (err retryable, work)
and_then broken work next = (err (fatal database), work)

module _ (format : Format) where
  -- `append_in_transaction` by its statements, on the working copy of the transaction: the row is
  -- inserted before the head moves.
  unfoldable pub transaction : Try → NewAuditEvent → Log → TryResult
  unfolding event_row and_then
  transaction t event log =
      let row = event_row format (length log.rows + 1) log.last_hash event in
      let inserted : Log = record log { rows = log.rows ++ row ∷ [] } in
      and_then t.locks_head log (
        and_then t.reads_head log (
          if t.serializes
          then and_then t.inserts log (
              and_then t.moves_head inserted (
                ok (record { id = row.id; event_hash = row.event_hash }),
                record inserted { last_hash = row.event_hash },
              ))
          else (err (fatal serialization), log)))

  -- The end of a try: a transaction that is committed takes the place of the log; one that is not
  -- is dropped, which the database rolls back.
  unfoldable pub end_try :
      Answer → AuditResult AuditReceipt × Log → Log → TryResult → AuditResult AuditReceipt × Log
  end_try commits again log (err retryable, work) = again
  end_try commits again log (err (fatal e), work) = (err e, log)
  end_try done again log (ok receipt, work) = (ok receipt, work)
  end_try busy again log (ok receipt, work) = (err database, log)
  end_try broken again log (ok receipt, work) = (err database, log)

  -- The loop of `append`; `attempts` counts the busy tries. Only a busy statement is tried again,
  -- not a busy `begin` or `commit`.
  unfoldable pub append_loop :
      ℕ → (ℕ → Try) → ℕ → NewAuditEvent → Log → AuditResult AuditReceipt × Log
  unfolding transaction end_try
  append_loop zero tries attempts event log = (err database, log)
  append_loop (suc left) tries attempts event log =
      let again = append_loop left tries (suc attempts) event log in
      elim (tries attempts).begins [
        | busy ↦ (err database, log)
        | broken ↦ (err database, log)
        | done ↦ end_try (tries attempts).commits again log (transaction (tries attempts) event log)
      ]

  -- More than 30 busy tries are an error: 31 tries in all.
  unfoldable pub append : (ℕ → Try) → NewAuditEvent → Log → AuditResult AuditReceipt × Log
  unfolding append_loop
  append tries event log = append_loop 31 tries 0 event log
