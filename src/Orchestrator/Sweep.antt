-- ===== src/Orchestrator/Sweep.antt =====
-- The operations of `RuntimeManager` on many instances: switching a kind off, the idle sweep, the
-- shutdown, and the reconciliation of the stored rows at startup.
pub mod Reconcile
pub mod Shutdown
pub mod Disable
use cloud_desk_os.Prelude.{
  ℕ, ◌+◌, ◌-◌, Bool, false, ◌&&◌, none, some, List, [], ◌∷◌, leb, if◌then◌else◌,
}
use cloud_desk_os.Prelude.Table.{select_where}
use cloud_desk_os.Orchestrator.Model.{
  RuntimeKind, failed, InstanceId, persistent, ephemeral, kind_eq, is_running,
  is_terminal_for_reconciliation,
}
use cloud_desk_os.Orchestrator.Store.{
  InstanceRow, set_state, set_enabled as store_enabled, list_all,
}
use cloud_desk_os.Orchestrator.Instance.{LiveInstance, Host}
use cloud_desk_os.Orchestrator.Stop.{StopAnswers}
use cloud_desk_os.Orchestrator.Manager.{RuntimeManager, get_live, stop_found}

-- `for instance in … { self.stop_live(&instance, false).await }`: each instance as the map has it
-- when its turn comes. `answers` is what the world answers to the stop of each.
unfoldable pub stop_one : (InstanceId → StopAnswers) → InstanceId → RuntimeManager → RuntimeManager
stop_one answers id m = elim (get_live id m.live) [
  | none ↦ m
  | some l ↦ stop_found false (answers id) l m
]

unfoldable pub stop_each :
    (InstanceId → StopAnswers) → List LiveInstance → RuntimeManager → RuntimeManager
stop_each answers [] m = m
stop_each answers (l ∷ ls) m = stop_each answers ls (stop_one answers l.id m)

abbrev pub of_kind : RuntimeKind → LiveInstance → Bool
of_kind kind l = kind_eq l.id.kind kind

-- Disabling stops every live instance of the kind, and stores the switch last.
unfoldable pub set_enabled :
    (InstanceId → StopAnswers) → RuntimeKind → Bool → RuntimeManager → RuntimeManager
set_enabled answers kind enabled m =
    let m' = if enabled then m else stop_each answers (select_where (of_kind kind) m.live) m in
    record m' { host = record (m'.host) { store = store_enabled kind enabled m'.host.store } }

-- `state == Running && last_activity.elapsed() >= idle_timeout`
unfoldable pub is_idle : ℕ → LiveInstance → Bool
is_idle t l = elim l.policy.idle_timeout [
  | none ↦ false
  | some idle_timeout ↦ is_running l.runtime.state && leb idle_timeout (t - l.runtime.last_activity)
]

-- The idle test is made when the instance's turn comes.
unfoldable pub sweep_one :
    (InstanceId → StopAnswers) → ℕ → InstanceId → RuntimeManager → RuntimeManager
sweep_one answers t id m = elim (get_live id m.live) [
  | none ↦ m
  | some l ↦ if is_idle t l then stop_found false (answers id) l m else m
]

unfoldable pub sweep_each :
    (InstanceId → StopAnswers) → ℕ → List LiveInstance → RuntimeManager → RuntimeManager
sweep_each answers t [] m = m
sweep_each answers t (l ∷ ls) m = sweep_each answers t ls (sweep_one answers t l.id m)

unfoldable pub sweep_idle_once : (InstanceId → StopAnswers) → ℕ → RuntimeManager → RuntimeManager
sweep_idle_once answers t m = sweep_each answers t m.live m

unfoldable pub shutdown_all : (InstanceId → StopAnswers) → RuntimeManager → RuntimeManager
shutdown_all answers m = stop_each answers m.live m

-- A row that claims a state which only a live process could vouch for.
unfoldable pub reconcile_row : ℕ → InstanceRow → Host → Host
reconcile_row t row host =
    let host' : Host = record host {
      store = set_state row.id failed (some "reconciled after restart") t host.store;
    } in
    elim row.persistence [
      | persistent ↦ host'
      | ephemeral ↦ record host' { cleaned = row.id ∷ host'.cleaned }
    ]

unfoldable pub reconcile_rows : ℕ → List InstanceRow → ℕ × Host → ℕ × Host
reconcile_rows t [] (reconciled, host) = (reconciled, host)
reconcile_rows t (row ∷ rows) (reconciled, host) = reconcile_rows t rows (
    if is_terminal_for_reconciliation row.state
    then (reconciled, host)
    else (reconciled + 1, reconcile_row t row host))

unfoldable pub reconcile_on_startup : ℕ → Host → ℕ × Host
reconcile_on_startup t host = reconcile_rows t (list_all host.store) (0, host)
