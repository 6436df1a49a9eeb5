-- ===== src/Orchestrator/Store.antt =====
-- crates/orchestrator/src/store.rs: the rows of `runtime_instances` and the switches of
-- `runtime_config`. The reading of the clock is an argument.
use cloud_desk_os.Prelude.{
  ℕ, ◌+◌, Bool, false, not, String, str_eq, Option, none, some, List, [], ◌∷◌, if◌then◌else◌,
}
use cloud_desk_os.Prelude.Table.{update_where, select_where, find_where}
use cloud_desk_os.Orchestrator.Model.{
  RuntimeKind, InstanceState, Persistence, InstanceId, kind_eq, id_eq,
}

pub record InstanceRow : Type 0 where
  pub id : InstanceId
  pub generation : ℕ
  pub state : InstanceState
  pub persistence : Persistence
  pub port : Option ℕ
  pub pid : Option ℕ
  pub created_at : ℕ
  pub updated_at : ℕ
  pub last_activity_at : ℕ
  pub restart_count : ℕ
  pub exit_code : Option ℕ
  pub exit_signal : Option String
  pub failure_message : Option String

pub record RuntimeStore : Type 0 where
  pub config : List (RuntimeKind × Bool)
  pub rows : List InstanceRow

-- `SELECT enabled …`, with a missing row read as 0.
unfoldable pub enabled_in : RuntimeKind → List (RuntimeKind × Bool) → Bool
enabled_in kind [] = false
enabled_in kind ((k, b) ∷ config) = if kind_eq k kind then b else enabled_in kind config

-- `INSERT … ON CONFLICT (kind) DO UPDATE`
unfoldable pub put_enabled :
    RuntimeKind → Bool → List (RuntimeKind × Bool) → List (RuntimeKind × Bool)
put_enabled kind b [] = (kind, b) ∷ []
put_enabled kind b ((k, c) ∷ config) =
    if kind_eq k kind then (k, b) ∷ config else (k, c) ∷ put_enabled kind b config

unfoldable pub is_enabled : RuntimeKind → RuntimeStore → Bool
unfolding enabled_in
is_enabled kind store = enabled_in kind store.config

unfoldable pub set_enabled : RuntimeKind → Bool → RuntimeStore → RuntimeStore
unfolding put_enabled
set_enabled kind b store = record store { config = put_enabled kind b store.config }

-- `WHERE kind = ? AND owner_user_id = ? AND instance_id = ?`
abbrev pub has_id : InstanceId → InstanceRow → Bool
has_id id row = id_eq row.id id

-- `INSERT … ON CONFLICT (kind, owner_user_id, instance_id) DO UPDATE`
unfoldable pub upsert_instance :
    InstanceId
    → ℕ
    → InstanceState
    → Persistence
    → Option ℕ
    → Option ℕ
    → ℕ
    → RuntimeStore
    → RuntimeStore
unfolding find_where update_where
upsert_instance id generation state persistence port pid t store = record store {
  rows = elim (find_where (has_id id) store.rows) [
    | some _ ↦
        update_where (has_id id)
          (λ row. record row {
            generation = generation;
            state = state;
            persistence = persistence;
            port = port;
            pid = pid;
            updated_at = t;
          })
          store.rows
    | none ↦
        (record {
          id = id;
          generation = generation;
          state = state;
          persistence = persistence;
          port = port;
          pid = pid;
          created_at = t;
          updated_at = t;
          last_activity_at = t;
          restart_count = 0;
          exit_code = none;
          exit_signal = none;
          failure_message = none;
        })
        ∷ store.rows
  ];
}

-- An `UPDATE` of the row of one instance.
unfoldable pub update_row : InstanceId → (InstanceRow → InstanceRow) → RuntimeStore → RuntimeStore
unfolding update_where
update_row id f store = record store { rows = update_where (has_id id) f store.rows }

unfoldable pub set_state :
    InstanceId → InstanceState → Option String → ℕ → RuntimeStore → RuntimeStore
unfolding update_row
set_state id state failure_message t =
    update_row id
      (λ row. record row { state = state; failure_message = failure_message; updated_at = t })

unfoldable pub record_exit : InstanceId → Option ℕ → Option String → ℕ → RuntimeStore → RuntimeStore
unfolding update_row
record_exit id exit_code exit_signal t =
    update_row id
      (λ row. record row { exit_code = exit_code; exit_signal = exit_signal; updated_at = t })

unfoldable pub touch_activity : InstanceId → ℕ → RuntimeStore → RuntimeStore
unfolding update_row
touch_activity id t = update_row id (λ row. record row { last_activity_at = t })

unfoldable pub get : InstanceId → RuntimeStore → Option InstanceRow
unfolding find_where
get id store = find_where (has_id id) store.rows

-- `row.map_or(0, |r| r.restart_count)`
abbrev pub restarts_of : Option InstanceRow → ℕ
restarts_of none = 0
restarts_of (some row) = row.restart_count

unfoldable pub increment_restart_count : InstanceId → ℕ → RuntimeStore → ℕ × RuntimeStore
unfolding update_row get
increment_restart_count id t store =
    let store' =
      update_row id (λ row. record row { restart_count = row.restart_count + 1; updated_at = t })
        store in
    (restarts_of (get id store'), store')

unfoldable pub list_for_owner : String → RuntimeStore → List InstanceRow
unfolding select_where
list_for_owner owner store = select_where (λ row. str_eq row.id.owner_user_id owner) store.rows

unfoldable pub list_all : RuntimeStore → List InstanceRow
list_all store = store.rows

unfoldable pub delete : InstanceId → RuntimeStore → RuntimeStore
unfolding select_where
delete id store = record store { rows = select_where (λ row. not (has_id id row)) store.rows }
