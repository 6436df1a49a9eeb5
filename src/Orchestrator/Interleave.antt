-- ===== src/Orchestrator/Interleave.antt =====
-- The locked sections of one instance in any order, as the tasks of crates/orchestrator/src/manager.rs
-- may take the lock: starts, stops, supervisors and clients that overlap, and what they do after they
-- dropped the lock, in between.
pub mod Sections
use cloud_desk_os.Prelude.{
  String, ℕ, zero, suc, ◌≤◌, ◌<◌, ◌≡◌, ◌≢◌, refl, ◌∙◌, Bool, true, false, ◌&&◌, not, Option, none,
  some, List, [], ◌∷◌, ◌==◌, arith, Bool-cases, Option-cases, inl, inr, ok, err,
}
use cloud_desk_os.Orchestrator.Model.{failed}
use cloud_desk_os.Orchestrator.Store.{touch_activity, set_state}
use cloud_desk_os.Orchestrator.Instance.{
  StartError, adapter_error, start_timeout, RunningHandle, LiveInstance, Host, Answers,
  RuntimeResult, is_up, is_down, Effect,
}
use cloud_desk_os.Orchestrator.Start.{
  becomes_ready, Attempt, begin_start, launch, continue_start, finish_start, finish_current,
  fail_start, await_ready, mark_running, Section, perform, written,
}
use cloud_desk_os.Orchestrator.Stop.{
  ends, is_process, is_ready, StopAnswers, begin_stop, finish_stop, terminate, Findings, supervise,
  watch_handle, lose, watch_health, is_watched, is_state, watched_state,
}
use cloud_desk_os.Orchestrator.Races.{superseded_is_inert}
use cloud_desk_os.Orchestrator.Interleave.Sections.{
  Keeps, Keeps-refl, moved-Keeps, begin_start-Keeps, fail_start-Keeps, mark_running-Keeps,
  await_ready-Keeps, finish_current-Keeps, finish_start-Keeps, continue_start-Keeps,
  begin_stop-Keeps, finish_stop-Keeps, lose-Keeps, watch_health-Keeps, watch_handle-Keeps,
  supervise-Keeps, Keeps-trans,
}

-- One locked section, or the next thing that a task does of what it left to do after one. An
-- attempt, or a handle that a stop took, is whatever the task brought along.
pub data Event : Type 0 where
  begins : Answers → Event
  continues : Answers → Attempt → Event
  begins_stop : StopAnswers → Event
  finishes_stop : Bool → StopAnswers → RunningHandle → Event
  supervises : Attempt → Findings → Event
  touches : Bool → ℕ → Event
  gives_up : Bool → ℕ → Event
  goes_on_with : ℕ → Event

-- The instance, what all share, and what each task that dropped the lock has still to do.
abbrev pub World : Type 0
World = LiveInstance × Host × List (List Effect)

-- The next effect of the task at an index.
unfoldable pub perform_at : ℕ → Host → List (List Effect) → Host × List (List Effect)
perform_at i host [] = (host, [])
perform_at zero host ([] ∷ tasks) = (host, tasks)
perform_at zero host ((e ∷ es) ∷ tasks) = (perform e host, es ∷ tasks)
perform_at (suc i) host (task ∷ tasks) =
    let (host', tasks') = perform_at i host tasks in (host', task ∷ tasks')

-- What a section leaves to do is added as the list of a task. The two sections of a stop, or of a
-- start, are two lists here, so that more orders are possible than in the code.
unfoldable pub leave {ℓ} : {A : Type ℓ} → Section A → List (List Effect) → World
leave (a, live, host, left) tasks = (live, host, left ∷ tasks)

unfoldable pub step : Event → World → World
unfolding leave written
step (begins answers) (live, host, tasks) =
    let (begun, live', host') = begin_start answers live host in (live', host', tasks)
step (continues answers attempt) (live, host, tasks) =
    leave (continue_start answers attempt live host) tasks
step (begins_stop answers) (live, host, tasks) = leave (begin_stop answers live host) tasks
step (finishes_stop force answers handle) (live, host, tasks) =
    leave (finish_stop answers live (terminate force answers handle host)) tasks
step (supervises attempt found) (live, host, tasks) =
    leave (supervise attempt found live host) tasks
step (touches wrote t) (live, host, tasks) = (
  record live { runtime = record (live.runtime) { last_activity = t } },
  host,
  written wrote (touch_activity live.id t) ∷ tasks,
)
step (gives_up wrote t) (live, host, tasks) = (
  record live { runtime = record (live.runtime) { state = failed } },
  host,
  written wrote (set_state live.id failed (some "crash-loop threshold exceeded") t) ∷ tasks,
)
step (goes_on_with i) (live, host, tasks) =
    let (host', tasks') = perform_at i host tasks in (live, host', tasks')

unfoldable pub run : List Event → World → World
run [] w = w
run (e ∷ es) w = run es (step e w)

step-Keeps : (e : Event) (w : World) → Keeps w.0 (step e w).0
unfolding step leave
step-Keeps (begins answers) (live, host, tasks) = begin_start-Keeps answers live host
step-Keeps (continues answers attempt) (live, host, tasks) =
    continue_start-Keeps answers attempt live host
step-Keeps (begins_stop answers) (live, host, tasks) = begin_stop-Keeps answers live host
step-Keeps (finishes_stop force answers handle) (live, host, tasks) =
    finish_stop-Keeps answers live (terminate force answers handle host)
step-Keeps (supervises attempt found) (live, host, tasks) = supervise-Keeps attempt found live host
step-Keeps (touches wrote t) (live, host, tasks) = record {
  held = λ h. h;
  generation = omega arith;
  id = refl;
}
step-Keeps (gives_up wrote t) (live, host, tasks) =
    moved-Keeps live _ (unfold is_watched in refl) (omega arith) refl
step-Keeps (goes_on_with i) (live, host, tasks) = Keeps-refl live

run-Keeps : (es : List Event) (w : World) → Keeps w.0 (run es w).0
unfolding run
run-Keeps [] w = Keeps-refl w.0
run-Keeps (e ∷ es) w = Keeps-trans w.0 (step e w).0 _ (step-Keeps e w) (run-Keeps es (step e w))

-- However starts, stops, supervisors and clients take turns at the lock, an instance that ends up
-- `Running` or `Unhealthy` has a handle, if that was so at first.
pub run_held :
    (es : List Event) (w : World)
    → (is_watched w.0.runtime.state ≡ true → w.0.runtime.handle ≢ none)
    → is_watched (run es w).0.runtime.state ≡ true
    → (run es w).0.runtime.handle ≢ none
run_held es w held = (run-Keeps es w).held held

-- Whatever the turns, the generation of an instance never falls.
run_generation :
    (es : List Event) (w : World) → w.0.runtime.generation ≤ (run es w).0.runtime.generation
run_generation es w = (run-Keeps es w).generation

-- Once a newer start has begun, an older attempt and its supervisor stay without effect when they
-- next take the lock, whatever happens before: they change neither the instance, nor the store, nor
-- the reserved ports, and leave nothing to do after the lock. This is not said of what they had
-- left to do when they last dropped the lock, before the newer start.
pub run_superseded :
    (es : List Event) (w : World) (answers : Answers) (found : Findings) (attempt : Attempt)
    → attempt.generation < w.0.runtime.generation
    → let (live, host, tasks) = run es w in
      let (result, live', host', left) = continue_start answers attempt live host in
      ((live' ≡ live) × (host'.store ≡ host.store) × (host'.reserved ≡ host.reserved) × (left ≡ []))
      × (supervise attempt found live host ≡ (ends, live, host, []))
run_superseded es w answers found attempt newer =
    superseded_is_inert answers found attempt (run es w).0 (run es w).1
      (λ e. absurd (omega (arith, run_generation es w)))
