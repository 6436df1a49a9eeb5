-- ===== src/Orchestrator/Start/Outcome.antt =====
-- How an uninterrupted `start_instance` ends.
use cloud_desk_os.Prelude.{
  ℕ, ◌+◌, ◌≡◌, ◌≢◌, refl, false, ◌&&◌, String, Option, none, some, ==_self, arith, Bool-cases,
  Option-cases, inl, inr, ◌⊎◌, ok, err,
}
use cloud_desk_os.Orchestrator.Model.{starting, running, failed}
use cloud_desk_os.Orchestrator.Port.{Reserved, allocate, allocate-Allocates, Allocates}
use cloud_desk_os.Orchestrator.Instance.{
  RunningHandle, LiveInstance, Host, StartError, adapter_error, storage_error, start_timeout,
  RuntimeResult, Answers, is_up,
}
use cloud_desk_os.Orchestrator.Start.{
  Attempt, launch, kill, release_port, becomes_ready, fail_start, mark_running, await_ready,
  finish_start, finish_current, continue_start, start_begun, start_live, settle, perform_all,
  perform, written,
}
use cloud_desk_os.Orchestrator.Start.First.{
  first_attempt, first_live, first_host, begin_start-down, begin_start-unwritten,
}

-- The attempt got to its end: the instance runs the new handle, under the next generation and with
-- the port that was allocated.
pub record IsRunning (answers : Answers) (live : LiveInstance) (host : Host)
    (after : RuntimeResult (Unit {0}) × LiveInstance × Host) : Type 0 where
  pub handle : RunningHandle
  pub launched : answers.started ≡ some handle
  pub state : after.1.runtime.state ≡ running
  pub holds : after.1.runtime.handle ≡ some handle
  pub port : after.1.runtime.port ≡ (allocate answers.binds host.reserved).0
  pub generation : after.1.runtime.generation ≡ live.runtime.generation + 1
  pub reserved : after.2.reserved ≡ (allocate answers.binds host.reserved).1

-- The attempt failed: no port is held, and those reserved are the ones reserved before.
pub record HasFailed (host : Host) (after : RuntimeResult (Unit {0}) × LiveInstance × Host)
    : Type 0 where
  pub error : after.0 ≢ ok tt
  pub state : after.1.runtime.state ≡ failed
  pub port : after.1.runtime.port ≡ none
  pub reserved : after.2.reserved ≡ host.reserved

-- The attempt broke off: the instance is left `Starting`, with its port still reserved.
pub record IsStuck (answers : Answers) (host : Host)
    (after : RuntimeResult (Unit {0}) × LiveInstance × Host) : Type 0 where
  pub error : after.0 ≢ ok tt
  pub state : after.1.runtime.state ≡ starting
  pub reserved : after.2.reserved ≡ (allocate answers.binds host.reserved).1
  pub cause :
      (answers.first_write && (answers.directory && (answers.prepared && answers.second_write)))
      ≡ false

release-allocate :
    (binds : ℕ → Option ℕ) (reserved : Reserved)
    → release_port (allocate binds reserved).0 (allocate binds reserved).1 ≡ reserved
unfolding release_port
release-allocate binds reserved = go (allocate binds reserved) (allocate-Allocates binds reserved)
  where
    go : (a : Option ℕ × Reserved) → Allocates a reserved → release_port a.0 a.1 ≡ reserved
    go (none, after) h = h
    go (some port, after) h = h.2

fail_start-HasFailed :
    (error : StartError) (message : String) (answers : Answers) (attempt : Attempt)
    (live : LiveInstance) (before host : Host)
    → release_port attempt.port host.reserved ≡ before.reserved
    → HasFailed before (settle (fail_start error message answers attempt live host))
unfolding fail_start settle perform_all perform written
fail_start-HasFailed error message answers attempt live before host back =
    elim (Bool-cases answers.last_write) [
      | inl e ↦ rw e (record { error = λ p. cc; state = refl; port = refl; reserved = back })
      | inr e ↦ rw e (record { error = λ p. cc; state = refl; port = refl; reserved = back })
    ]

abbrev Ends :
    Answers → LiveInstance → Host → RuntimeResult (Unit {0}) × LiveInstance × Host → Type 0
Ends answers live host after =
    IsRunning answers live host after ⊎ (HasFailed host after ⊎ IsStuck answers host after)

-- The rest of the attempt once the handle is there.
await_ready-Ends :
    (answers : Answers) (live : LiveInstance) (host : Host) (handle : RunningHandle)
    → answers.started ≡ some handle
    → Ends answers live host (
        settle (
          await_ready handle answers
            (first_attempt answers live host)
            (first_live answers live host)
            (first_host answers live host)))
unfolding await_ready mark_running kill settle perform_all perform written
await_ready-Ends answers live host handle launched = elim (Bool-cases answers.second_write) [
  | inr e ↦ inr (
      inr
        (simp e (record { error = λ p. cc; state = refl; reserved = refl; cause = ground arith })))
  | inl e ↦ elim (Bool-cases (becomes_ready live.policy answers)) [
    | inr r ↦ inr (
        inl (
          simp (e, r)
            (fail_start-HasFailed start_timeout _ answers _ _ host _
              (release-allocate answers.binds host.reserved))))
    | inl r ↦ elim (Bool-cases answers.last_write) [
      | inl w ↦ inl (
          simp (e, r, w)
            (record {
              handle = handle;
              launched = launched;
              state = refl;
              holds = refl;
              port = refl;
              generation = refl;
              reserved = refl;
            }))
      | inr w ↦ inl (
          simp (e, r, w)
            (record {
              handle = handle;
              launched = launched;
              state = refl;
              holds = refl;
              port = refl;
              generation = refl;
              reserved = refl;
            }))
    ]
  ]
]

finish_start-Ends :
    (answers : Answers) (live : LiveInstance) (host : Host)
    → Ends answers live host (
        settle (
          finish_start answers
            (first_attempt answers live host)
            answers.started
            (first_live answers live host)
            (first_host answers live host)))
unfolding finish_start finish_current
finish_start-Ends answers live host = elim (Option-cases answers.started) [
  | inl e ↦
      simp (==_self, e)
        (inr (
          inl (
            fail_start-HasFailed adapter_error _ answers _ _ host _
              (release-allocate answers.binds host.reserved))))
  | inr (handle, e) ↦ simp (==_self, e) (await_ready-Ends answers live host handle e)
]

launch-cases :
    (answers : Answers)
    → (launch answers ≡ ok answers.started)
      ⊎ ((error : StartError) × (launch answers ≡ err error)
          × ((answers.first_write
                && (answers.directory && (answers.prepared && answers.second_write)))
              ≡ false))
unfolding launch
launch-cases answers = elim (Bool-cases answers.directory) [
  | inr e ↦ inr (storage_error, ground arith, ground arith)
  | inl e ↦ elim (Bool-cases answers.prepared) [
    | inr f ↦ inr (adapter_error, ground arith, ground arith)
    | inl f ↦ inl (ground arith)
  ]
]

continue_start-Ends :
    (answers : Answers) (live : LiveInstance) (host : Host)
    → Ends answers live host (
        settle (
          continue_start answers
            (first_attempt answers live host)
            (first_live answers live host)
            (first_host answers live host)))
unfolding continue_start settle perform_all
continue_start-Ends answers live host = elim (launch-cases answers) [
  | inl e ↦ rw (e, continue_start) (finish_start-Ends answers live host)
  | inr (error, e, cause) ↦
      rw (e, continue_start)
        (inr (inr (record { error = λ p. cc; state = refl; reserved = refl; cause = cause })))
]

-- A start of an instance that is not up ends in one of three ways: the instance runs the handle
-- that the adapter returned, under the next generation and on the port that was allocated; or it
-- has failed, holds no port, and the reserved ports are those reserved before; or, where a store
-- write, the state directory or the preparation failed, it is left `Starting` with its port
-- reserved. In the last two cases the call is an error.
pub start_live_ends :
    (answers : Answers) (live : LiveInstance) (host : Host)
    → is_up live.runtime.state ≡ false
    → IsRunning answers live host (start_live answers live host)
      ⊎ (HasFailed host (start_live answers live host)
          ⊎ IsStuck answers host (start_live answers live host))
unfolding start_live start_begun
start_live_ends answers live host down = elim (Bool-cases answers.first_write) [
  | inr e ↦
      rw (begin_start-unwritten answers live host down e) (
        inr (inr (record { error = λ p. cc; state = refl; reserved = refl; cause = ground arith })))
  | inl e ↦ rw (begin_start-down answers live host down e) (continue_start-Ends answers live host)
]
