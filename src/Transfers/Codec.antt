-- ===== src/Transfers/Codec.antt =====
-- What is written to a text column is read back, and what is read back was written.
use cloud_desk_os.Prelude.{
  subst, ℕ, ◌≡◌, refl, ap, ◌∙◌, String, eq_iff, Option, none, some, arith, ltb, ◌==◌, if◌then◌else◌,
  Bool-cases, ◌∷◌, ◌↔◌, inl, inr, ok, err,
}
use cloud_desk_os.Transfers.Endpoint.{
  TransferEndpoint, select_strategy, TransferStrategy, direct, server_relay,
}
use cloud_desk_os.Transfers.Names.{
  TransferState, queued, running, paused, completed, failed, cancelled, TransferResult, corrupt,
  state_name, parse_state, strategy_name, parse_strategy,
}
use cloud_desk_os.Transfers.Queue.{enqueue, insert_row, has_id, get_owned}
use cloud_desk_os.Prelude.Table.{find_where, count_where}
use cloud_desk_os.Transfers.Rows.{
  new_row, checked_total, Rows, NewTransfer, Row, TransferJob, Serde, row_to_job, u32_mod,
}

pub parse-state_name : (s : TransferState) → parse_state (state_name s) ≡ ok s
unfolding parse_state state_name
parse-state_name queued = refl
parse-state_name running = refl
parse-state_name paused = refl
parse-state_name completed = refl
parse-state_name failed = refl
parse-state_name cancelled = refl

state_name-parse :
    (value : String) (s : TransferState) → parse_state value ≡ ok s → state_name s ≡ value
unfolding parse_state state_name
state_name-parse value s h = ground (
  arith,
  eq_iff value "queued",
  eq_iff value "running",
  eq_iff value "paused",
  eq_iff value "completed",
  eq_iff value "failed",
  eq_iff value "cancelled",
)

-- A text reads back as a state exactly if it is the name of that state.
pub parse_state_iff :
    (value : String) (s : TransferState) → (parse_state value ≡ ok s) ↔ (state_name s ≡ value)
parse_state_iff value s =
    (state_name-parse value s, λ e. subst (λ v. parse_state v ≡ ok s) e (parse-state_name s))

pub parse-strategy_name : (s : TransferStrategy) → parse_strategy (strategy_name s) ≡ ok s
unfolding parse_strategy strategy_name
parse-strategy_name direct = refl
parse-strategy_name server_relay = refl

-- The job with the fields of a row, and the endpoints that its texts stand for.
abbrev pub job_of : Row → TransferEndpoint → TransferEndpoint → TransferJob
job_of row source destination = record {
  id = row.id;
  owner_user_id = row.owner_user_id;
  source = source;
  destination = destination;
  strategy = row.strategy;
  state = row.state;
  bytes_total = row.bytes_total;
  bytes_transferred = row.bytes_transferred;
  attempts = row.attempts;
  next_attempt_at = row.next_attempt_at;
  last_error = row.last_error;
  created_at = row.created_at;
  updated_at = row.updated_at;
}

-- The texts of a row stand for these endpoints.
abbrev pub Decodes : Serde → Row → TransferEndpoint → TransferEndpoint → Type 0
Decodes serde r source destination =
    (serde.from_str r.source_json ≡ some source)
    × (serde.from_str r.destination_json ≡ some destination)

pub row_to_job_lem :
    (serde : Serde) (r : Row) (source destination : TransferEndpoint)
    → Decodes serde r source destination
    → row_to_job serde r
      ≡ (if ltb r.attempts u32_mod then ok (job_of r source destination) else err corrupt)
unfolding row_to_job
row_to_job_lem serde r source destination h =
    ground (arith, h.0, h.1, parse-strategy_name r.strategy, parse-state_name r.state)

-- The row of a new transfer, with the texts of its endpoints.
abbrev pub fresh_row : ℕ → NewTransfer → String → String → ℕ → ℕ → Row
fresh_row owner transfer source_json destination_json id t = record {
  id = id;
  owner_user_id = owner;
  source_json = source_json;
  destination_json = destination_json;
  strategy = select_strategy transfer.source transfer.destination;
  state = queued;
  bytes_total = transfer.bytes_total;
  bytes_transferred = 0;
  checksum = none;
  attempts = 0;
  next_attempt_at = t;
  last_error = none;
  created_at = t;
  updated_at = t;
}

pub new_row-eq_ok :
    (serde : Serde) (owner : ℕ) (transfer : NewTransfer) (id t : ℕ) (r : Row)
    → new_row serde owner transfer id t ≡ ok r
    → (source_json destination_json : String) × (serde.to_string transfer.source ≡ some source_json)
      × (serde.to_string transfer.destination ≡ some destination_json)
      × (r ≡ fresh_row owner transfer source_json destination_json id t)
unfolding new_row checked_total
new_row-eq_ok serde owner transfer id t r h =
    by_texts (serde.to_string transfer.source) (serde.to_string transfer.destination) refl refl
  where
    by_texts :
        (a b : Option String)
        → serde.to_string transfer.source ≡ a
        → serde.to_string transfer.destination ≡ b
        → (source_json destination_json : String) × (serde.to_string transfer.source
            ≡ some source_json)
          × (serde.to_string transfer.destination ≡ some destination_json)
          × (r ≡ fresh_row owner transfer source_json destination_json id t)
    by_texts none b ea eb = absurd (ground (arith, ea, h))
    by_texts (some a) none ea eb = absurd (ground (arith, ea, eb, h))
    by_texts (some a) (some b) ea eb = (a, b, ea, eb, ground (arith, ea, eb, h))

insert_row-eq_ok :
    (x : TransferResult Row) (rows : Rows) (n : ℕ)
    → (insert_row x rows).0 ≡ ok n
    → (r : Row) × (x ≡ ok r) × (n ≡ r.id) × ((insert_row x rows).1 ≡ r ∷ rows)
unfolding insert_row
insert_row-eq_ok (err e) rows n h = cc
insert_row-eq_ok (ok r) rows n h = elim (Bool-cases (count_where (has_id r.id) rows == 0)) [
  | inl e ↦ (r, refl, ground arith, ground arith)
  | inr e ↦ absurd (ground arith)
]

get_owned-head :
    (serde : Serde) (r : Row) (rows : Rows)
    → get_owned serde r.id r.owner_user_id (r ∷ rows) ≡ row_to_job serde r
unfolding get_owned find_where
get_owned-head serde r rows = ground arith

-- The job of a new transfer.
abbrev pub new_job : ℕ → NewTransfer → ℕ → ℕ → TransferJob
new_job owner transfer id t = record {
  id = id;
  owner_user_id = owner;
  source = transfer.source;
  destination = transfer.destination;
  strategy = select_strategy transfer.source transfer.destination;
  state = queued;
  bytes_total = transfer.bytes_total;
  bytes_transferred = 0;
  attempts = 0;
  next_attempt_at = t;
  last_error = none;
  created_at = t;
  updated_at = t;
}

-- A transfer that `enqueue` accepts is read back by its owner as a queued job with its endpoints
-- and its size, no attempts, and the strategy that its endpoints select, if `serde_json` reads the
-- text of an endpoint back.
pub get_owned-enqueue :
    (serde : Serde) (owner : ℕ) (transfer : NewTransfer) (id t : ℕ) (rows : Rows) (n : ℕ)
    → ((endpoint : TransferEndpoint) (text : String)
        → serde.to_string endpoint ≡ some text
        → serde.from_str text ≡ some endpoint)
    → (enqueue serde owner transfer id t rows).0 ≡ ok n
    → (n ≡ id)
      × (get_owned serde n owner (enqueue serde owner transfer id t rows).1
          ≡ ok (new_job owner transfer id t))
unfolding enqueue get_owned
get_owned-enqueue serde owner transfer id t rows n reads_back h =
    let (r, made, named, inserted) =
      insert_row-eq_ok (new_row serde owner transfer id t) rows n h in
    let (a, b, ea, eb, e) = new_row-eq_ok serde owner transfer id t r made in
    let m : n ≡ id = named ∙ ap (λ (z : Row). z.id) e in
    (
      m,
      rw (inserted, e, m)
          (get_owned-head serde (fresh_row owner transfer a b id t) rows
            ∙ row_to_job_lem serde (fresh_row owner transfer a b id t) transfer.source
                transfer.destination
                (reads_back transfer.source a ea, reads_back transfer.destination b eb)),
    )
