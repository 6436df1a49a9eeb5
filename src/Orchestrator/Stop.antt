-- ===== src/Orchestrator/Stop.antt =====
-- `stop_live` and the supervisor of crates/orchestrator/src/manager.rs, by the sections that run
-- under the lock of the instance, with what each leaves to do after it.
pub mod Outcome
use cloud_desk_os.Prelude.{
  ℕ, Bool, true, false, ◌&&◌, not, String, Option, none, some, List, [], ◌∷◌, ◌++◌, ◌==◌,
  if◌then◌else◌, Result, ok, err, ◌>>=◌, ◌>>◌, require,
}
use cloud_desk_os.Orchestrator.Model.{
  InstanceState, stopped, starting, running, unhealthy, stopping, failed, persistent, ephemeral,
  InstanceId,
}
use cloud_desk_os.Orchestrator.Store.{set_state, record_exit}
use cloud_desk_os.Orchestrator.Instance.{
  RunningHandle, process, opaque, LiveInstance, Host, HealthStatus, ready, not_ready_yet,
  unhealthy_now, is_down, Effect, releases, writes, cleans,
}
use cloud_desk_os.Orchestrator.Start.{Attempt, kill, Section, settle, written}

-- What the world answers to a stop: whether each store write succeeds, whether a process exits
-- within `stop_timeout`, and the clock.
pub record StopAnswers : Type 0 where
  pub stopping_write : Bool
  pub exits : Bool
  pub stopped_write : Bool
  pub clock : ℕ

-- A stop between its two locked sections holds the handle that it took; otherwise it is over.
pub data StopBegun : Type 0 where
  over : StopBegun
  holds : RunningHandle → StopBegun

-- `let _ = store.set_state(…)`: a failed write is ignored.
unfoldable pub note_state : Bool → InstanceId → InstanceState → ℕ → List Effect
unfolding written
note_state wrote id state t = written wrote (set_state id state none t)

unfoldable pub begin_stop : StopAnswers → LiveInstance → Host → Section StopBegun
begin_stop answers live host =
    if is_down live.runtime.state then (over, live, host, []) else elim live.runtime.handle [
      | none ↦ (over, record live { runtime = record (live.runtime) { state = stopped } }, host, [])
      | some handle ↦ (
        holds handle,
        record live { runtime = record (live.runtime) { state = stopping; handle = none } },
        host,
        note_state answers.stopping_write live.id stopping answers.clock,
      )
    ]

-- `adapter.stop`, the bounded wait, and the kill: always if forced, else if a process stays.
unfoldable pub terminate : Bool → StopAnswers → RunningHandle → Host → Host
terminate true answers handle host = kill handle host
terminate false answers (opaque name) host = host
terminate false answers (process pid) host = if answers.exits then host else kill (process pid) host

unfoldable pub clean_up : LiveInstance → List Effect
clean_up live = elim live.persistence [ persistent ↦ [] | ephemeral ↦ cleans live.id ∷ [] ]

unfoldable pub finish_stop : StopAnswers → LiveInstance → Host → Section (Unit {0})
finish_stop answers live host = (
  tt,
  record live {
    runtime = record (live.runtime) { state = stopped; handle = none; port = none; cgroup = false };
  },
  host,
  releases live.runtime.port
      ∷ (note_state answers.stopped_write live.id stopped answers.clock ++ clean_up live),
)

unfoldable pub stop_begun :
    Bool → StopAnswers → StopBegun × LiveInstance × Host → LiveInstance × Host
stop_begun force answers (over, live, host) = (live, host)
stop_begun force answers (holds handle, live, host) =
    let (done, live', host') =
      settle (finish_stop answers live (terminate force answers handle host)) in
    (live', host')

-- `stop_live` with no other operation in between.
unfoldable pub stop_live : Bool → StopAnswers → LiveInstance → Host → LiveInstance × Host
stop_live force answers live host = stop_begun force answers (settle (begin_stop answers live host))

-- What a supervisor finds in one round: whether the process has exited, with its status, the
-- health report, and whether the adapter says that the container is gone.
pub record Findings : Type 0 where
  pub exited : Bool
  pub exit_code : Option ℕ
  pub exit_signal : Option String
  pub health : HealthStatus
  pub gone : Bool
  pub wrote : Bool
  pub clock : ℕ

pub data Watch : Type 0 where
  goes_on ends : Watch

unfoldable pub is_process : RunningHandle → Bool
is_process (process pid) = true
is_process (opaque name) = false

unfoldable pub is_ready : HealthStatus → Bool
is_ready ready = true
is_ready not_ready_yet = false
is_ready unhealthy_now = false

-- `Running | Unhealthy`
unfoldable pub is_watched : InstanceState → Bool
is_watched running = true
is_watched unhealthy = true
is_watched InstanceState.unavailable = false
is_watched InstanceState.disabled = false
is_watched stopped = false
is_watched starting = false
is_watched stopping = false
is_watched failed = false

-- An exit that the supervisor saw: the instance is `Failed`; once the lock is dropped the port goes
-- back, the exit is noted and the row is made `Failed`.
unfoldable pub lose :
    String → List Effect → Attempt → Findings → LiveInstance → Host → Section Watch
unfolding written
lose message noted attempt found live host = (
  ends,
  record live { runtime = record (live.runtime) { state = failed; handle = none; port = none } },
  host,
  releases attempt.port
      ∷ (noted ++ written found.wrote (set_state live.id failed (some message) found.clock)),
)

-- A process exit records its status before the state.
unfoldable pub note_exit : Findings → LiveInstance → List Effect
unfolding written
note_exit found live =
    written found.wrote (record_exit live.id found.exit_code found.exit_signal found.clock)

-- The state that a health report stands for.
abbrev pub watched_state : HealthStatus → InstanceState
watched_state ready = running
watched_state not_ready_yet = unhealthy
watched_state unhealthy_now = unhealthy

unfoldable pub is_state : InstanceState → InstanceState → Bool
is_state running running = true
is_state unhealthy unhealthy = true
is_state _ _ = false

unfoldable pub watch_health : Findings → LiveInstance → Host → Section Watch
watch_health found live host =
    let state = watched_state found.health in
    if is_state live.runtime.state state then (goes_on, live, host, []) else (
      goes_on,
      record live { runtime = record (live.runtime) { state = state } },
      host,
      note_state found.wrote live.id state found.clock,
    )

unfoldable pub watch_handle :
    RunningHandle → Attempt → Findings → LiveInstance → Host → Section Watch
watch_handle handle attempt found live host =
    if is_process handle && found.exited
    then lose "unexpected exit" (note_exit found live) attempt found live host
    else if not (is_ready found.health) && found.gone
    then lose "container exited" [] attempt found live host
    else watch_health found live host

-- One round of the supervisor that belongs to an attempt.
unfoldable pub supervise : Attempt → Findings → LiveInstance → Host → Section Watch
supervise attempt found live host =
    if live.runtime.generation == attempt.generation && is_watched live.runtime.state
    then elim live.runtime.handle [
      | none ↦ (ends, live, host, [])
      | some handle ↦ watch_handle handle attempt found live host
    ]
    else (ends, live, host, [])
