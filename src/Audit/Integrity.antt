-- ===== src/Audit/Integrity.antt =====
-- What the hash chain of the audit log guarantees.
use cloud_desk_os.Prelude.{
  ℕ, ◌+◌, ◌≡◌, refl, sym, String, eq_iff, List, [], ◌∷◌, ◌++◌, length, arith, All, ok,
}
use cloud_desk_os.Audit.Event.{NewAuditEvent, CanonicalEvent, Format, ReadsBack}
use cloud_desk_os.Audit.Chain.{
  Row, Log, empty, event_row, append_in_transaction, verify_row, verify_from, verify_chain,
}

-- What the hash of a row covers: every column but the identifier and the hash itself.
abbrev pub content : Row → CanonicalEvent
content row = record {
  timestamp = row.timestamp;
  user_id = row.user_id;
  role_snapshot = row.role_snapshot;
  session_id_hash = row.session_id_hash;
  source_ip = row.source_ip;
  user_agent = row.user_agent;
  action = row.action;
  resource_type = row.resource_type;
  resource_id = row.resource_id;
  path = row.path;
  remote_target = row.remote_target;
  result = row.result;
  metadata_json = row.metadata_json;
  previous_hash = row.previous_hash;
}

-- The hash of the last row, or the one before all rows.
abbrev pub last_from : String → List Row → String
last_from before [] = before
last_from before (row ∷ rows) = last_from row.event_hash rows

module _ (format : Format) where
  pub verify_row-ok :
      (expected : String) (row : Row)
      → verify_row format expected row ≡ ok tt
      → (row.previous_hash ≡ expected) × (format.digest (content row) ≡ row.event_hash)
  unfolding verify_row
  verify_row-ok expected row h = ground (
    arith,
    eq_iff row.previous_hash expected,
    eq_iff (format.digest (content row)) row.event_hash,
  )

  -- A row that `append` made passes the checks after the hash that it was chained to.
  event_row-passes :
      (id : ℕ) (expected : String) (event : NewAuditEvent)
      → ReadsBack format event
      → verify_row format expected (event_row format id expected event) ≡ ok tt
  unfolding verify_row event_row
  event_row-passes id expected event back = ground (
    arith,
    back.roles,
    back.metadata,
    eq_iff expected expected,
    eq_iff (format.digest (content (event_row format id expected event)))
        (event_row format id expected event).event_hash,
  )

  pub verify_from-cons :
      (expected : String) (row : Row) (rows : List Row)
      → verify_from format expected (row ∷ rows) ≡ ok tt
      → (verify_row format expected row ≡ ok tt) × (verify_from format row.event_hash rows ≡ ok tt)
  unfolding verify_from
  verify_from-cons expected row rows h = ground arith

  -- One more row is verified if the rows before it are and it passes after the last of them.
  verify_from-snoc :
      (expected : String) (rows : List Row) (row : Row)
      → verify_from format expected rows ≡ ok tt
      → verify_row format (last_from expected rows) row ≡ ok tt
      → verify_from format expected (rows ++ row ∷ []) ≡ ok tt
  unfolding verify_from
  verify_from-snoc expected [] row h k = ground arith
  verify_from-snoc expected (r ∷ rows) row h k =
      let (first, rest) = verify_from-cons expected r rows h in
      ground (arith, first, verify_from-snoc r.event_hash rows row rest k)

  last_from-snoc :
      (expected : String) (rows : List Row) (row : Row)
      → last_from expected (rows ++ row ∷ []) ≡ row.event_hash
  last_from-snoc expected [] row = refl
  last_from-snoc expected (r ∷ rows) row = last_from-snoc r.event_hash rows row

  -- The log is verified, and its head is the hash of its last row.
  pub record IsSound (log : Log) : Type 0 where
    pub verified : verify_chain format log ≡ ok tt
    pub head : log.last_hash ≡ last_from "" log.rows

  append-IsSound :
      (event : NewAuditEvent) (log : Log)
      → ReadsBack format event
      → IsSound log
      → IsSound (append_in_transaction format event log).1
  unfolding append_in_transaction verify_chain
  append-IsSound event log back s = record {
    verified =
        verify_from-snoc "" log.rows (event_row format (length log.rows + 1) log.last_hash event)
          s.verified
          (rw (← s.head) (event_row-passes (length log.rows + 1) log.last_hash event back));
    head =
        sym
          (last_from-snoc "" log.rows (event_row format (length log.rows + 1) log.last_hash event));
  }

  -- The log after appending events one after the other.
  abbrev pub append_all : List NewAuditEvent → Log → Log
  append_all [] log = log
  append_all (event ∷ events) log = append_all events (append_in_transaction format event log).1

  append_all-IsSound :
      (events : List NewAuditEvent) (log : Log)
      → All (ReadsBack format) events
      → IsSound log
      → IsSound (append_all events log)
  append_all-IsSound [] log back s = s
  append_all-IsSound (event ∷ events) log back s =
      append_all-IsSound events (append_in_transaction format event log).1 back.1
        (append-IsSound event log back.0 s)

  empty-IsSound : IsSound empty
  empty-IsSound = record { verified = unfold verify_chain verify_from in refl; head = refl }

  -- Whatever events are appended to an empty log, if what is printed of each can be parsed again,
  -- the log is verified and its head is the hash of its last row.
  pub append_all_verified :
      (events : List NewAuditEvent)
      → All (ReadsBack format) events
      → IsSound (append_all events empty)
  append_all_verified events back = append_all-IsSound events empty back empty-IsSound
