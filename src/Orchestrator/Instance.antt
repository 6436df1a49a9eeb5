-- ===== src/Orchestrator/Instance.antt =====
-- One live instance of crates/orchestrator/src/manager.rs: what its lock protects, and the sections
-- of `start_instance`, `stop_live` and the supervisor that run under the lock. The store, the
-- reserved ports and the state directories, which all instances share, are the `Host`.
use cloud_desk_os.Prelude.{ℕ, Bool, true, false, Option, List, Result}
use cloud_desk_os.Orchestrator.Model.{
  InstanceState, stopped, starting, running, unhealthy, stopping, failed, Persistence, InstanceId,
  ResourcePolicy,
}
use cloud_desk_os.Orchestrator.Port.{Reserved}
use cloud_desk_os.Orchestrator.Store.{RuntimeStore}

-- A process or a container; the manager never looks inside, so a handle is a number.
pub data RunningHandle : Type 0 where
  process opaque : ℕ → RunningHandle

pub record InstanceRuntime : Type 0 where
  pub state : InstanceState
  pub handle : Option RunningHandle
  pub generation : ℕ
  pub cgroup : Bool
  pub last_activity : ℕ
  pub port : Option ℕ

pub record LiveInstance : Type 0 where
  pub id : InstanceId
  pub policy : ResourcePolicy
  pub persistence : Persistence
  pub runtime : InstanceRuntime

-- What all instances share. `killed` collects the handles that `adapter.kill` was called on, and
-- `cleaned` the instances whose ephemeral state was removed.
pub record Host : Type 0 where
  pub store : RuntimeStore
  pub reserved : Reserved
  pub killed : List RunningHandle
  pub cleaned : List InstanceId

pub data HealthStatus : Type 0 where
  ready not_ready_yet unhealthy_now : HealthStatus

pub data StartError : Type 0 where
  unknown_kind disabled_kind unavailable_kind per_user_limit_reached global_limit_reached :
      StartError
  not_found not_owner adapter_error storage_error db_error start_timeout crash_loop : StartError

abbrev pub RuntimeResult {ℓ} : Type ℓ → Type ℓ
RuntimeResult A = Result A StartError

-- What the world answers to one attempt to start: the ports that the system offers, whether each
-- store write succeeds, whether the state directory and `prepare` succeed, what `start` and the
-- operating system return, each health report, and the clock (in milliseconds): at the store writes,
-- when the wait for readiness begins, after each report, and when the instance runs.
pub record Answers : Type 0 where
  pub binds : ℕ → Option ℕ
  pub first_write : Bool
  pub directory : Bool
  pub prepared : Bool
  pub started : Option RunningHandle
  pub second_write : Bool
  pub confined : Bool
  pub health : ℕ → HealthStatus
  pub clock : ℕ → ℕ
  pub last_write : Bool
  pub begun_at : ℕ
  pub launched_at : ℕ
  pub waits_from : ℕ
  pub active_at : ℕ
  pub ended_at : ℕ

-- What a section of code leaves to do once it has dropped the lock of the instance: give a port
-- back, write to the store, remove the state directory.
pub data Effect : Type 0 where
  releases : Option ℕ → Effect
  writes : (RuntimeStore → RuntimeStore) → Effect
  cleans : InstanceId → Effect

-- `Running | Starting`
unfoldable pub is_up : InstanceState → Bool
is_up running = true
is_up starting = true
is_up InstanceState.unavailable = false
is_up InstanceState.disabled = false
is_up stopped = false
is_up unhealthy = false
is_up stopping = false
is_up failed = false

-- `Stopped | Failed`
unfoldable pub is_down : InstanceState → Bool
is_down stopped = true
is_down failed = true
is_down InstanceState.unavailable = false
is_down InstanceState.disabled = false
is_down starting = false
is_down running = false
is_down unhealthy = false
is_down stopping = false
