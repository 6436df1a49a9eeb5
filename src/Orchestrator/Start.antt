-- ===== src/Orchestrator/Start.antt =====
-- `start_instance` of crates/orchestrator/src/manager.rs, by the sections that run under the lock
-- of the instance and what happens between them.
pub mod First
pub mod Outcome
pub mod Ready
use cloud_desk_os.Prelude.{
  ℕ, zero, suc, ◌+◌, ◌/◌, Bool, true, false, String, Option, none, some, List, [], ◌∷◌, ◌==◌, leb,
  if◌then◌else◌, Result, ok, err, ◌>>=◌, ◌>>◌, require,
}
use cloud_desk_os.Orchestrator.Model.{starting, running, failed, ResourcePolicy}
use cloud_desk_os.Orchestrator.Port.{Reserved, allocate, release}
use cloud_desk_os.Orchestrator.Store.{RuntimeStore, upsert_instance, set_state}
use cloud_desk_os.Orchestrator.Instance.{
  RunningHandle, process, opaque, LiveInstance, Host, HealthStatus, ready, not_ready_yet,
  unhealthy_now, StartError, adapter_error, storage_error, db_error, start_timeout, RuntimeResult,
  Answers, Effect, releases, writes, cleans, is_up,
}

-- An attempt between the two locked sections of `start_instance`.
pub record Attempt : Type 0 where
  pub generation : ℕ
  pub port : Option ℕ

pub data Begun : Type 0 where
  already : Begun
  began : Attempt → Begun
  refused : StartError → Begun

-- The first locked section of `start_instance`, up to `drop(runtime)`.
unfoldable pub begin_start : Answers → LiveInstance → Host → Begun × LiveInstance × Host
begin_start answers live host =
    if is_up live.runtime.state
    then (already, live, host)
    else let generation = live.runtime.generation + 1 in
      let (port, reserved) = allocate answers.binds host.reserved in
      let live' : LiveInstance = record live {
        runtime = record (live.runtime) { state = starting; generation = generation; port = port };
      } in
      if answers.first_write
      then (
        began (record { generation = generation; port = port }),
        live',
        record host {
          reserved = reserved;
          store =
              upsert_instance live.id generation starting live.persistence port none
                answers.begun_at host.store;
        },
      )
      else (refused db_error, live', record host { reserved = reserved })

-- `prepare` and `start`, between the locked sections.
unfoldable pub launch : Answers → RuntimeResult (Option RunningHandle)
launch answers =
    if answers.directory
    then (if answers.prepared then ok answers.started else err adapter_error)
    else err storage_error

unfoldable pub pid_of : RunningHandle → Option ℕ
pid_of (process pid) = some pid
pid_of (opaque name) = none

unfoldable pub release_port : Option ℕ → Reserved → Reserved
release_port none reserved = reserved
release_port (some port) reserved = release port reserved

unfoldable pub kill : RunningHandle → Host → Host
kill handle host = record host { killed = handle ∷ host.killed }

unfoldable pub perform : Effect → Host → Host
perform (releases port) host = record host { reserved = release_port port host.reserved }
perform (writes change) host = record host { store = change host.store }
perform (cleans id) host = record host { cleaned = id ∷ host.cleaned }

unfoldable pub perform_all : List Effect → Host → Host
perform_all [] host = host
perform_all (e ∷ es) host = perform_all es (perform e host)

-- A section that returns, its instance and host when it drops the lock, and what it then does.
abbrev pub Section {ℓ} : Type ℓ → Type ℓ
Section A = A × LiveInstance × Host × List Effect

-- A section whose effects come at once, with no other task in between.
unfoldable pub settle {ℓ} : {A : Type ℓ} → Section A → A × LiveInstance × Host
settle (a, live, host, left) = (a, live, perform_all left host)

-- A store write that may fail.
unfoldable pub written : Bool → (RuntimeStore → RuntimeStore) → List Effect
written wrote change = if wrote then writes change ∷ [] else []

-- The readiness loop: report `i` comes at `clock i`; `none` means that the fuel ran out.
unfoldable pub wait_ready : ℕ → (ℕ → HealthStatus) → (ℕ → ℕ) → ℕ → ℕ → Option Bool
wait_ready zero health clock deadline i = none
wait_ready (suc fuel) health clock deadline i =
    let again = wait_ready fuel health clock deadline (suc i) in
    elim (health i) [
      | ready ↦ some true
      | unhealthy_now ↦ some false
      | not_ready_yet ↦ if leb deadline (clock i) then some false else again
    ]

abbrev pub poll_interval : ℕ
poll_interval = 150

-- The reports that fit before the deadline, with 150 ms between two, and one past it.
abbrev pub poll_fuel : ResourcePolicy → ℕ
poll_fuel policy = (policy.start_timeout + policy.health_timeout) / poll_interval + 2

unfoldable pub becomes_ready : ResourcePolicy → Answers → Bool
becomes_ready policy answers =
    let deadline = answers.waits_from + policy.start_timeout + policy.health_timeout in
    elim (wait_ready (poll_fuel policy) answers.health answers.clock deadline 0) [
      | none ↦ false
      | some b ↦ b
    ]

-- The failed ends of `finish_start`: the instance is `Failed`, and once the lock is dropped the port
-- goes back and the row is made `Failed`.
unfoldable pub fail_start :
    StartError
    → String
    → Answers
    → Attempt
    → LiveInstance
    → Host
    → Section (RuntimeResult (Unit {0}))
unfolding written
fail_start error message answers attempt live host = (
  if answers.last_write then err error else err db_error,
  record live { runtime = record (live.runtime) { state = failed; port = none } },
  host,
  releases attempt.port
      ∷ written answers.last_write (set_state live.id failed (some message) answers.ended_at),
)

-- The successful end of the second locked section; the row is made `Running` once the lock is
-- dropped.
unfoldable pub mark_running :
    RunningHandle → Answers → LiveInstance → Host → Section (RuntimeResult (Unit {0}))
unfolding written
mark_running handle answers live host = (
  if answers.last_write then ok tt else err db_error,
  record live {
    runtime = record (live.runtime) {
      state = running;
      handle = some handle;
      cgroup = answers.confined;
      last_activity = answers.active_at;
    };
  },
  host,
  written answers.last_write (set_state live.id running none answers.ended_at),
)

-- The rest of the second locked section, for a started handle.
unfoldable pub await_ready :
    RunningHandle → Answers → Attempt → LiveInstance → Host → Section (RuntimeResult (Unit {0}))
await_ready handle answers attempt live host =
    if answers.second_write
    then (let host' : Host = record host {
      store =
          upsert_instance live.id attempt.generation starting live.persistence attempt.port
            (pid_of handle) answers.launched_at host.store;
    } in
        if becomes_ready live.policy answers
        then mark_running handle answers live host'
        else fail_start start_timeout "start/health timeout" answers attempt live
            (kill handle host'))
    else (err db_error, live, host, [])

-- What becomes of a handle whose attempt was superseded.
unfoldable pub kill_stale : Option RunningHandle → Host → Host
kill_stale none host = host
kill_stale (some handle) host = kill handle host

-- The second locked section, for the attempt that is current.
unfoldable pub finish_current :
    Answers
    → Attempt
    → Option RunningHandle
    → LiveInstance
    → Host
    → Section (RuntimeResult (Unit {0}))
finish_current answers attempt none live host =
    fail_start adapter_error "failed to start" answers attempt live host
finish_current answers attempt (some handle) live host =
    await_ready handle answers attempt live host

-- The second locked section of `start_instance`.
unfoldable pub finish_start :
    Answers
    → Attempt
    → Option RunningHandle
    → LiveInstance
    → Host
    → Section (RuntimeResult (Unit {0}))
finish_start answers attempt launched live host =
    if live.runtime.generation == attempt.generation
    then finish_current answers attempt launched live host
    else (ok tt, live, kill_stale launched host, [])

-- After `drop(runtime)`: `launch`, and the second section if it got that far.
unfoldable pub continue_start :
    Answers → Attempt → LiveInstance → Host → Section (RuntimeResult (Unit {0}))
continue_start answers attempt live host = elim (launch answers) [
  | err e ↦ (err e, live, host, [])
  | ok launched ↦ finish_start answers attempt launched live host
]

unfoldable pub start_begun :
    Answers → Begun × LiveInstance × Host → RuntimeResult (Unit {0}) × LiveInstance × Host
start_begun answers (already, live, host) = (ok tt, live, host)
start_begun answers (refused e, live, host) = (err e, live, host)
start_begun answers (began attempt, live, host) = settle (continue_start answers attempt live host)

-- `start_instance` past its checks, with no other operation in between.
unfoldable pub start_live :
    Answers → LiveInstance → Host → RuntimeResult (Unit {0}) × LiveInstance × Host
start_live answers live host = start_begun answers (begin_start answers live host)
