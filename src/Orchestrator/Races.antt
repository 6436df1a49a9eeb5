-- ===== src/Orchestrator/Races.antt =====
-- Starts and stops of one instance that overlap, or that meet it in an unusual state.
use cloud_desk_os.Prelude.{
  ◌≡◌, ◌≢◌, refl, ap, Bool, true, false, Option, none, some, [], ◌==◌, arith, ok, err,
}
use cloud_desk_os.Orchestrator.Model.{starting, running, stopped, unhealthy, ResourcePolicy}
use cloud_desk_os.Orchestrator.Instance.{
  RunningHandle, LiveInstance, Host, storage_error, RuntimeResult, Answers, is_up, is_down,
}
use cloud_desk_os.Orchestrator.Start.{
  Attempt, began, begin_start, launch, kill, becomes_ready, mark_running, await_ready, finish_start,
  finish_current, continue_start, start_begun, start_live, kill_stale, Section, settle, written,
  perform, perform_all,
}
use cloud_desk_os.Orchestrator.Start.First.{first_attempt, first_live, first_host, begin_start-down}
use cloud_desk_os.Orchestrator.Stop.{
  StopAnswers, begin_stop, stop_begun, stop_live, Findings, supervise, ends,
}

-- Every call that an attempt makes succeeds, with this handle.
pub record GoesWell (policy : ResourcePolicy) (answers : Answers) (handle : RunningHandle)
    : Type 0 where
  pub first : answers.first_write ≡ true
  pub directory : answers.directory ≡ true
  pub prepared : answers.prepared ≡ true
  pub started : answers.started ≡ some handle
  pub second : answers.second_write ≡ true
  pub ready : becomes_ready policy answers ≡ true
  pub last : answers.last_write ≡ true

abbrev pub running_with : RunningHandle → Answers → LiveInstance → LiveInstance
running_with handle answers live = record live {
  runtime = record (live.runtime) {
    state = running;
    handle = some handle;
    cgroup = answers.confined;
    last_activity = answers.active_at;
  };
}

-- Such an attempt, whatever happened to the instance meanwhile, if no newer attempt began.
pub continue_start-well :
    (answers : Answers) (handle : RunningHandle) (attempt : Attempt) (live : LiveInstance)
    (host : Host)
    → GoesWell live.policy answers handle
    → live.runtime.generation ≡ attempt.generation
    → let after = settle (continue_start answers attempt live host) in
      (after.0 ≡ ok tt)
      × (after.1 ≡ running_with handle answers live)
      × (after.2.reserved ≡ host.reserved)
      × (after.2.killed ≡ host.killed)
continue_start-well answers handle attempt live host well same =
    let launched : launch answers ≡ ok (some handle) =
      unfold launch in ground (arith, well.directory, well.prepared, well.started) in
    let current : (live.runtime.generation == attempt.generation) ≡ true = ground arith in
    unfold continue_start finish_start finish_current await_ready mark_running written settle
      perform_all perform in
    rw (launched, continue_start)
      (simp (current, well.second, well.ready, well.last) (refl, refl, refl, refl))

abbrev halted : LiveInstance → LiveInstance
halted live = record live { runtime = record (live.runtime) { state = stopped } }

-- A stop that finds no handle.
pub stop_live-idle :
    (force : Bool) (stop : StopAnswers) (live : LiveInstance) (host : Host)
    → is_down live.runtime.state ≡ false
    → live.runtime.handle ≡ none
    → stop_live force stop live host ≡ (halted live, host)
unfolding stop_live begin_stop
stop_live-idle force stop live host up idle =
    simp (up, idle) (unfold stop_begun settle perform_all in refl)

-- A stop that comes while an instance without a handle is being started returns with the instance
-- `Stopped`, and the start that it met then runs the instance all the same, if its calls succeed.
pub stop_lost :
    (answers : Answers) (handle : RunningHandle) (stop : StopAnswers) (force : Bool)
    (live : LiveInstance) (host : Host)
    → is_up live.runtime.state ≡ false
    → live.runtime.handle ≡ none
    → GoesWell live.policy answers handle
    → let (begun, live₁, host₁) = begin_start answers live host in
      let (live₂, host₂) = stop_live force stop live₁ host₁ in
      let after = settle (continue_start answers (first_attempt answers live host) live₂ host₂) in
      (begun ≡ began (first_attempt answers live host))
      × (live₂.runtime.state ≡ stopped)
      × (after.0 ≡ ok tt)
      × (after.1.runtime.state ≡ running)
      × (after.1.runtime.handle ≡ some handle)
stop_lost answers handle stop force live host down idle well =
    let at_first = begin_start-down answers live host down well.first in
    let at_stop =
      stop_live-idle force stop (first_live answers live host) (first_host answers live host)
        (unfold is_down in refl) idle in
    let end =
      continue_start-well answers handle (first_attempt answers live host)
        (halted (first_live answers live host)) (first_host answers live host) well refl in
    rw (at_first, at_stop)
      (
        refl,
        refl,
        end.0,
        ap (λ (x : LiveInstance). x.runtime.state) end.1,
        ap (λ (x : LiveInstance). x.runtime.handle) end.1,
      )

-- An instance whose start broke off because its state directory could not be made stays
-- `Starting`: a later start, whatever it meets, answers that it succeeded, and does nothing.
pub stuck_start :
    (answers later : Answers) (live : LiveInstance) (host : Host)
    → is_up live.runtime.state ≡ false
    → answers.first_write ≡ true
    → answers.directory ≡ false
    → let (result, live₁, host₁) = start_live answers live host in
      (result ≡ err storage_error)
      × (live₁.runtime.state ≡ starting)
      × (start_live later live₁ host₁ ≡ (ok tt, live₁, host₁))
unfolding start_live start_begun continue_start begin_start settle perform_all
stuck_start answers later live host down e none_there =
    let broken : launch answers ≡ err storage_error = unfold launch in ground arith in
    rw (begin_start-down answers live host down e, start_begun, continue_start, broken)
      (refl, refl, unfold start_begun begin_start is_up in refl)

-- A start of an `Unhealthy` instance whose calls succeed launches a second process: the handle of
-- the first is dropped without a kill.
pub start_unhealthy_leaks :
    (answers : Answers) (old new : RunningHandle) (live : LiveInstance) (host : Host)
    → live.runtime.state ≡ unhealthy
    → live.runtime.handle ≡ some old
    → GoesWell live.policy answers new
    → let (result, live₁, host₁) = start_live answers live host in
      (result ≡ ok tt)
      × (live₁.runtime.state ≡ running)
      × (live₁.runtime.handle ≡ some new)
      × (host₁.killed ≡ host.killed)
unfolding start_live start_begun
start_unhealthy_leaks answers old new live host sick held well =
    let down : is_up live.runtime.state ≡ false = unfold is_up in rw sick in
    let end =
      continue_start-well answers new (first_attempt answers live host)
        (first_live answers live host) (first_host answers live host) well refl in
    rw (begin_start-down answers live host down well.first) (
      end.0,
      ap (λ (x : LiveInstance). x.runtime.state) end.1,
      ap (λ (x : LiveInstance). x.runtime.handle) end.1,
      end.3,
    )

-- What a superseded attempt leaves alone: nothing is left to do after the lock either.
abbrev Inert : LiveInstance → Host → Section (RuntimeResult (Unit {0})) → Type 0
Inert live host (result, live', host', left) =
    (live' ≡ live) × (host'.store ≡ host.store) × (host'.reserved ≡ host.reserved) × (left ≡ [])

kill_stale-Inert :
    (launched : Option RunningHandle) (live : LiveInstance) (host : Host)
    → Inert live host (ok tt, live, kill_stale launched host, [])
unfolding kill_stale kill
kill_stale-Inert none live host = (refl, refl, refl, refl)
kill_stale-Inert (some handle) live host = (refl, refl, refl, refl)

continue_start-Inert :
    (answers : Answers) (attempt : Attempt) (live : LiveInstance) (host : Host)
    (launched : RuntimeResult (Option RunningHandle))
    → launch answers ≡ launched
    → (live.runtime.generation == attempt.generation) ≡ false
    → Inert live host (continue_start answers attempt live host)
unfolding continue_start finish_start
continue_start-Inert answers attempt live host (err e) made stale =
    rw (made, continue_start) (refl, refl, refl, refl)
continue_start-Inert answers attempt live host (ok launched) made stale =
    rw (made, continue_start, stale) (kill_stale-Inert launched live host)

-- An attempt that a newer one has superseded, and the supervisor of such an attempt, change
-- neither the instance, nor the store, nor the reserved ports, and have nothing left to do once
-- they drop the lock.
pub superseded_is_inert :
    (answers : Answers) (found : Findings) (attempt : Attempt) (live : LiveInstance) (host : Host)
    → live.runtime.generation ≢ attempt.generation
    → let (result, live', host', left) = continue_start answers attempt live host in
      ((live' ≡ live) × (host'.store ≡ host.store) × (host'.reserved ≡ host.reserved) × (left ≡ []))
      × (supervise attempt found live host ≡ (ends, live, host, []))
unfolding supervise
superseded_is_inert answers found attempt live host newer =
    let stale : (live.runtime.generation == attempt.generation) ≡ false = ground arith in
    (continue_start-Inert answers attempt live host (launch answers) refl stale, rw stale)
