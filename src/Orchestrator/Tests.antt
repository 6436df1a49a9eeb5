-- ===== src/Orchestrator/Tests.antt =====
-- Concrete instances on which the theorems about the orchestrator apply.
mod Calls
mod Polls
use mathlib.Core.Option
use cloud_desk_os.Prelude.{
  ◌+◌, ◌≡◌, ◌≢◌, refl, true, false, Option, none, some, List, [], ◌∷◌, arith, ◌⊎◌, ok, err,
}
use cloud_desk_os.Orchestrator.Model.{
  RuntimeKind, InstanceState, stopped, starting, running, failed, unhealthy, ephemeral, InstanceId,
  id_eq, kind_eq, default_policy, kind_parse, kind_as_str, state_parse, state_as_str,
  names_read_back,
}
use cloud_desk_os.Orchestrator.Store.{InstanceRow, get, set_state, record_exit, upsert_instance}
use cloud_desk_os.Orchestrator.Port.{allocate, Allocates, allocate-Allocates}
use cloud_desk_os.Orchestrator.Instance.{
  process, InstanceRuntime, LiveInstance, Host, ready, storage_error, Answers, is_up, is_down,
}
use cloud_desk_os.Orchestrator.Start.{
  Attempt, began, begin_start, continue_start, start_live, becomes_ready, wait_ready, written,
  perform,
}
use cloud_desk_os.Orchestrator.Start.First.{first_attempt}
use cloud_desk_os.Orchestrator.Start.Outcome.{IsRunning, HasFailed, IsStuck, start_live_ends}
use cloud_desk_os.Orchestrator.Stop.{
  StopAnswers, stop_live, Findings, supervise, watch_handle, watch_health, ends, is_watched,
  is_process, is_ready, is_state, lose, note_exit,
}
use cloud_desk_os.Orchestrator.Stop.Outcome.{HasStopped, stop_live_stops}
use cloud_desk_os.Orchestrator.Races.{GoesWell, stop_lost, stuck_start, start_unhealthy_leaks}
use cloud_desk_os.Orchestrator.Interleave.{
  Event, begins, begins_stop, touches, supervises, goes_on_with, leave, perform_at, World, step,
  run, run_held, run_superseded,
}

abbrev pub code_id : InstanceId
code_id = record { kind = RuntimeKind.code; owner_user_id = "u1"; instance_id = "i1" }

abbrev idle_runtime : InstanceRuntime
idle_runtime = record {
  state = stopped;
  handle = none;
  generation = 0;
  cgroup = false;
  last_activity = 0;
  port = none;
}

abbrev idle_live : LiveInstance
idle_live = record {
  id = code_id;
  policy = default_policy;
  persistence = ephemeral;
  runtime = idle_runtime;
}

abbrev pub live_in : InstanceState → LiveInstance
live_in state = record idle_live {
  runtime = record idle_runtime {
    state = state;
    handle = some (process 7);
    generation = 2;
    port = some 5000;
  };
}

abbrev pub a_host : Host
a_host = record {
  store = record { config = (RuntimeKind.code, true) ∷ []; rows = [] };
  reserved = 5000 ∷ [];
  killed = [];
  cleaned = [];
}

-- Everything succeeds, with the process 9.
abbrev pub good_answers : Answers
good_answers = record {
  binds = λ i. some (6000 + i);
  first_write = true;
  directory = true;
  prepared = true;
  started = some (process 9);
  second_write = true;
  confined = true;
  health = λ i. ready;
  clock = λ i. 1000 + i;
  last_write = true;
  begun_at = 900;
  launched_at = 950;
  waits_from = 960;
  active_at = 1100;
  ended_at = 1110;
}

abbrev pub stop_answers : StopAnswers
stop_answers = record { stopping_write = true; exits = false; stopped_write = true; clock = 2000 }

abbrev healthy : Findings
healthy = record {
  exited = false;
  exit_code = none;
  exit_signal = none;
  health = ready;
  gone = false;
  wrote = true;
  clock = 3000;
}

allocate-Allocates_example : Allocates (allocate good_answers.binds (6031 ∷ [])) (6031 ∷ [])
allocate-Allocates_example = allocate-Allocates good_answers.binds (6031 ∷ [])

-- The first offer is taken, so the next one counts.
allocates_next : allocate good_answers.binds (6031 ∷ []) ≡ (some 6030, 6030 ∷ 6031 ∷ [])
unfolding allocate
allocates_next = refl

start_live_ends_example :
    IsRunning good_answers idle_live a_host (start_live good_answers idle_live a_host)
    ⊎ (HasFailed a_host (start_live good_answers idle_live a_host)
        ⊎ IsStuck good_answers a_host (start_live good_answers idle_live a_host))
start_live_ends_example = start_live_ends good_answers idle_live a_host (unfold is_up in refl)

stop_live_stops_example :
    HasStopped false stop_answers
      (process 7)
      (live_in running)
      a_host
      (stop_live false stop_answers (live_in running) a_host)
stop_live_stops_example =
    stop_live_stops false stop_answers (process 7) (live_in running) a_host (unfold is_down in refl)
      refl

abbrev old_attempt : Attempt
old_attempt = record { generation = 1; port = some 4000 }

-- The supervisor of the attempt 2 finds the process gone and the lock is dropped; a newer start
-- begins, and only then is the port given back.
abbrev lost : Findings
lost = record healthy { exited = true }

abbrev some_events : List Event
some_events =
    supervises (record { generation = 2; port = some 5000 }) lost
    ∷ begins good_answers
    ∷ goes_on_with 0
    ∷ touches true 5
    ∷ begins_stop stop_answers
    ∷ []

abbrev a_world : World
a_world = (live_in running, a_host, [])

abbrev quiet_events : List Event
quiet_events =
    touches true 5
    ∷ supervises (record { generation = 2; port = some 5000 }) healthy
    ∷ goes_on_with 1
    ∷ []

quiet_watched : is_watched (run quiet_events a_world).0.runtime.state ≡ true
unfolding run step leave written perform_at supervise watch_handle watch_health is_watched
    is_process is_ready is_state
quiet_watched = refl

run_held_example : (run quiet_events a_world).0.runtime.handle ≢ none
run_held_example = run_held quiet_events a_world (λ e k. cc) quiet_watched

run_superseded_example :
    let (live, host, tasks) = run some_events a_world in
    let (result, live', host', left) = continue_start good_answers old_attempt live host in
    ((live' ≡ live) × (host'.store ≡ host.store) × (host'.reserved ≡ host.reserved) × (left ≡ []))
    × (supervise old_attempt lost live host ≡ (ends, live, host, []))
run_superseded_example =
    run_superseded some_events a_world good_answers lost old_attempt (omega arith)

abbrev raced_events : List Event
raced_events =
    supervises (record { generation = 2; port = some 5000 }) lost
    ∷ begins good_answers
    ∷ goes_on_with 0
    ∷ goes_on_with 0
    ∷ goes_on_with 0
    ∷ []

-- What was left to do before the newer start can still come after it: the row of the instance that
-- is being started then says `Failed`.
raced :
    ((run raced_events a_world).0.runtime.state ≡ starting)
    × (Option.map (λ (r : InstanceRow). r.state) (get code_id (run raced_events a_world).1.store)
        ≡ some failed)
unfolding run step leave written perform_at perform supervise watch_handle lose note_exit
    begin_start is_watched is_process is_up get set_state record_exit upsert_instance id_eq kind_eq
raced = (refl, refl)
