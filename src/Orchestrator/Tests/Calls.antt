-- ===== src/Orchestrator/Tests/Calls.antt =====
-- A concrete manager on which the theorems about the calls of users apply.
use cloud_desk_os.Prelude.{◌≤◌, ◌≡◌, refl, true, not, none, some, [], ◌∷◌, arith, All, ok, eq_iff}
use cloud_desk_os.Prelude.Table.{count_where, find_where}
use cloud_desk_os.Orchestrator.Model.{
  is_failed, kind_eq, id_eq, RuntimeKind, running, ephemeral, persistent, default_policy,
}
use cloud_desk_os.Orchestrator.Store.{list_all, list_for_owner, InstanceRow, has_id, is_enabled}
use cloud_desk_os.Orchestrator.Instance.{LiveInstance, Host, is_down}
use cloud_desk_os.Orchestrator.Manager.{
  RuntimeManager, Adapter, Creation, get_live, find_adapter, policy_for, create_instance,
  may_create, find_policy,
}
use cloud_desk_os.Orchestrator.Manager.Limits.{
  owned_count, total_count, created_id, create_instance_limits,
}
use cloud_desk_os.Orchestrator.Clients.Isolation.{restarts, serve, serve_spares}
use cloud_desk_os.Orchestrator.Sweep.{shutdown_all, reconcile_on_startup}
use cloud_desk_os.Orchestrator.Sweep.Shutdown.{shutdown_all_down}
use cloud_desk_os.Orchestrator.Sweep.Reconcile.{is_settled, reconcile_on_startup_settles}
use cloud_desk_os.Orchestrator.Tests.{code_id, live_in, a_host, good_answers, stop_answers}

abbrev code_adapter : Adapter
code_adapter = record { kind = RuntimeKind.code; is_available = true }

abbrev a_row : InstanceRow
a_row = record {
  id = code_id;
  generation = 2;
  state = running;
  persistence = ephemeral;
  port = some 5000;
  pid = some 7;
  created_at = 10;
  updated_at = 20;
  last_activity_at = 20;
  restart_count = 0;
  exit_code = none;
  exit_signal = none;
  failure_message = none;
}

abbrev full_host : Host
full_host = record a_host { store = record (a_host.store) { rows = a_row ∷ [] } }

abbrev a_manager : RuntimeManager
a_manager = record {
  adapters = code_adapter ∷ [];
  policy = default_policy;
  kind_policies = [];
  live = live_in running ∷ [];
  host = full_host;
}

found_live : get_live code_id a_manager.live ≡ some (live_in running)
unfolding get_live id_eq kind_eq
found_live = refl

found_adapter : find_adapter code_id.kind a_manager.adapters ≡ some code_adapter
unfolding find_adapter kind_eq
found_adapter = refl

abbrev a_creation : Creation
a_creation = record { instance_id = "i2"; directory = true; clock = 30 }

-- Another user may create an instance, the owner of the first may not.
creates_second :
    (create_instance "u2" RuntimeKind.code persistent a_creation a_manager).0
    ≡ ok (created_id "u2" RuntimeKind.code a_creation)
unfolding create_instance may_create is_enabled policy_for find_adapter kind_eq find_policy
    count_where list_for_owner list_all is_failed
creates_second = refl

new_id :
    find_where (has_id (created_id "u2" RuntimeKind.code a_creation)) full_host.store.rows ≡ none
unfolding find_where id_eq kind_eq
new_id = refl

create_instance_limits_example :
    let store' =
      (create_instance "u2" RuntimeKind.code persistent a_creation a_manager).1.host.store in
    (owned_count "u2" RuntimeKind.code store'
      ≤ (policy_for RuntimeKind.code a_manager).max_instances_per_user)
    × (total_count RuntimeKind.code store'
        ≤ (policy_for RuntimeKind.code a_manager).max_instances_global)
create_instance_limits_example =
    create_instance_limits "u2" RuntimeKind.code persistent a_creation a_manager new_id
      creates_second

serve_spares_example :
    get_live code_id (serve "u2" (restarts code_id stop_answers good_answers) a_manager).live
    ≡ get_live code_id a_manager.live
serve_spares_example =
    serve_spares "u2" (restarts code_id stop_answers good_answers) a_manager code_id
      (λ e. ground (arith, eq_iff "u1" "u2"))

shutdown_all_down_example :
    (q : LiveInstance) × (get_live code_id (shutdown_all (λ id. stop_answers) a_manager).live
      ≡ some q)
    × (is_down q.runtime.state ≡ true)
shutdown_all_down_example =
    shutdown_all_down (λ id. stop_answers) a_manager code_id (live_in running) code_adapter
      found_live found_adapter

reconcile_on_startup_settles_example :
    let (n, host') = reconcile_on_startup 50 full_host in
    (n ≡ count_where (λ r. not (is_settled r)) full_host.store.rows)
    × All (λ r. is_settled r ≡ true) host'.store.rows
    × (reconcile_on_startup 60 host' ≡ (0, host'))
reconcile_on_startup_settles_example = reconcile_on_startup_settles 50 60 full_host
