-- ===== src/Orchestrator/Clients.antt =====
-- The remaining operations of `RuntimeManager` on one instance: activity, restart, state and port.
pub mod Spares
pub mod Isolation
use cloud_desk_os.Prelude.{
  ℕ, false, not, String, str_eq, Option, none, some, ltb, if◌then◌else◌, ok, err,
}
use cloud_desk_os.Orchestrator.Model.{InstanceState, failed, InstanceId, is_running}
use cloud_desk_os.Orchestrator.Store.{
  set_state, increment_restart_count, touch_activity as touch_row,
}
use cloud_desk_os.Orchestrator.Instance.{
  LiveInstance, Answers, not_found, not_owner, crash_loop, RuntimeResult,
}
use cloud_desk_os.Orchestrator.Stop.{StopAnswers}
use cloud_desk_os.Orchestrator.Manager.{
  RuntimeManager, get_live, store_live, start_instance, stop_found,
}

abbrev pub crash_loop_max_restarts : ℕ
crash_loop_max_restarts = 3

unfoldable pub touched : ℕ → LiveInstance → RuntimeManager → RuntimeManager
touched t l m =
    store_live
      (
        record l { runtime = record (l.runtime) { last_activity = t } },
        record (m.host) { store = touch_row l.id t m.host.store },
      )
      m

unfoldable pub touch_activity :
    String → InstanceId → ℕ → RuntimeManager → RuntimeResult (Unit {0}) × RuntimeManager
touch_activity owner id t m =
    if not (str_eq id.owner_user_id owner)
    then (err not_owner, m)
    else elim (get_live id m.live) [ none ↦ (err not_found, m) | some l ↦ (ok tt, touched t l m) ]

-- The counter after a stop: one restart more.
unfoldable pub count_restart : InstanceId → ℕ → RuntimeManager → ℕ × RuntimeManager
count_restart id t m =
    let (count, store) = increment_restart_count id t m.host.store in
    (count, record m { host = record (m.host) { store = store } })

-- Past the threshold: `Failed`, in the instance and in its row.
unfoldable pub trip : InstanceId → ℕ → Option LiveInstance → RuntimeManager → RuntimeManager
trip id t none m = m
trip id t (some l) m =
    store_live
      (
        record l { runtime = record (l.runtime) { state = failed } },
        record (m.host) {
          store = set_state id failed (some "crash-loop threshold exceeded") t m.host.store;
        },
      )
      m

unfoldable pub restart_counted :
    String
    → InstanceId
    → Answers
    → ℕ
    → ℕ × RuntimeManager
    → RuntimeResult (Unit {0}) × RuntimeManager
restart_counted owner id answers t (count, m) =
    if ltb crash_loop_max_restarts count
    then (err crash_loop, trip id t (get_live id m.live) m)
    else start_instance owner id answers m

unfoldable pub restart_instance :
    String
    → InstanceId
    → StopAnswers
    → Answers
    → RuntimeManager
    → RuntimeResult (Unit {0}) × RuntimeManager
restart_instance owner id stop answers m =
    if not (str_eq id.owner_user_id owner) then (err not_owner, m) else elim (get_live id m.live) [
      | none ↦ (err not_found, m)
      | some l ↦
          restart_counted owner id answers stop.clock
            (count_restart id stop.clock (stop_found false stop l m))
    ]

unfoldable pub status : String → InstanceId → RuntimeManager → Option InstanceState
status owner id m =
    if not (str_eq id.owner_user_id owner)
    then none
    else elim (get_live id m.live) [ none ↦ none | some l ↦ some l.runtime.state ]

unfoldable pub instance_port : String → InstanceId → RuntimeManager → Option ℕ
instance_port owner id m =
    if not (str_eq id.owner_user_id owner) then none else elim (get_live id m.live) [
      | none ↦ none
      | some l ↦ if is_running l.runtime.state then l.runtime.port else none
    ]
