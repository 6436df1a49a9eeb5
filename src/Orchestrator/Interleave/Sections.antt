-- ===== src/Orchestrator/Interleave/Sections.antt =====
-- What each locked section keeps of an instance.
use cloud_desk_os.Prelude.{
  String, ◌≤◌, ◌≡◌, ◌≢◌, refl, ◌∙◌, true, false, ◌&&◌, not, Option, none, some, List, [], ◌==◌,
  arith, Bool-cases, Option-cases, inl, inr, ok, err,
}
use cloud_desk_os.Orchestrator.Instance.{
  StartError, adapter_error, start_timeout, RunningHandle, LiveInstance, Host, Answers,
  RuntimeResult, is_up, is_down, Effect,
}
use cloud_desk_os.Orchestrator.Start.{
  becomes_ready, Attempt, begin_start, launch, continue_start, finish_start, finish_current,
  fail_start, await_ready, mark_running,
}
use cloud_desk_os.Orchestrator.Stop.{
  is_process, is_ready, note_exit, StopAnswers, begin_stop, finish_stop, Findings, supervise,
  watch_handle, lose, watch_health, is_watched, is_state, watched_state,
}

-- A `Running` or `Unhealthy` instance has a handle.
abbrev pub IsHeld : LiveInstance → Type 0
IsHeld live = is_watched live.runtime.state ≡ true → live.runtime.handle ≢ none

pub record Keeps (live live' : LiveInstance) : Type 0 where
  pub held : IsHeld live → IsHeld live'
  pub generation : live.runtime.generation ≤ live'.runtime.generation
  pub id : live'.id ≡ live.id

pub Keeps-refl : (live : LiveInstance) → Keeps live live
Keeps-refl live = record { held = λ h. h; generation = omega arith; id = refl }

-- A change to a state that is not watched, of the same or a later generation.
pub moved-Keeps :
    (live live' : LiveInstance)
    → is_watched live'.runtime.state ≡ false
    → live.runtime.generation ≤ live'.runtime.generation
    → live'.id ≡ live.id
    → Keeps live live'
moved-Keeps live live' off g e = record { held = λ h k. cc; generation = g; id = e }

pub begin_start-Keeps :
    (answers : Answers) (live : LiveInstance) (host : Host)
    → Keeps live (begin_start answers live host).1
unfolding begin_start
begin_start-Keeps answers live host = elim (Bool-cases (is_up live.runtime.state)) [
  | inl e ↦ simp e (Keeps-refl live)
  | inr e ↦ elim (Bool-cases answers.first_write) [
    | inl f ↦ simp (e, f) (moved-Keeps live _ (unfold is_watched in refl) (omega arith) refl)
    | inr f ↦ simp (e, f) (moved-Keeps live _ (unfold is_watched in refl) (omega arith) refl)
  ]
]

pub fail_start-Keeps :
    (error : StartError) (message : String) (answers : Answers) (attempt : Attempt)
    (live : LiveInstance) (host : Host)
    → Keeps live (fail_start error message answers attempt live host).1
unfolding fail_start
fail_start-Keeps error message answers attempt live host =
    moved-Keeps live _ (unfold is_watched in refl) (omega arith) refl

pub mark_running-Keeps :
    (handle : RunningHandle) (answers : Answers) (live : LiveInstance) (host : Host)
    → Keeps live (mark_running handle answers live host).1
unfolding mark_running
mark_running-Keeps handle answers live host = record {
  held = λ h k p. cc;
  generation = omega arith;
  id = refl;
}

pub await_ready-Keeps :
    (handle : RunningHandle) (answers : Answers) (attempt : Attempt) (live : LiveInstance)
    (host : Host)
    → Keeps live (await_ready handle answers attempt live host).1
unfolding await_ready
await_ready-Keeps handle answers attempt live host = elim (Bool-cases answers.second_write) [
  | inr e ↦ simp e (Keeps-refl live)
  | inl e ↦ elim (Bool-cases (becomes_ready live.policy answers)) [
    | inl r ↦ simp (e, r) (mark_running-Keeps handle answers live _)
    | inr r ↦ simp (e, r) (fail_start-Keeps start_timeout _ answers attempt live _)
  ]
]

pub finish_current-Keeps :
    (answers : Answers) (attempt : Attempt) (launched : Option RunningHandle) (live : LiveInstance)
    (host : Host)
    → Keeps live (finish_current answers attempt launched live host).1
unfolding finish_current
finish_current-Keeps answers attempt none live host =
    fail_start-Keeps adapter_error _ answers attempt live host
finish_current-Keeps answers attempt (some handle) live host =
    await_ready-Keeps handle answers attempt live host

pub finish_start-Keeps :
    (answers : Answers) (attempt : Attempt) (launched : Option RunningHandle) (live : LiveInstance)
    (host : Host)
    → Keeps live (finish_start answers attempt launched live host).1
unfolding finish_start
finish_start-Keeps answers attempt launched live host =
    elim (Bool-cases (live.runtime.generation == attempt.generation)) [
      | inr e ↦ rw (e, finish_start) (Keeps-refl live)
      | inl e ↦ rw (e, finish_start) (finish_current-Keeps answers attempt launched live host)
    ]

pub continue_start-Keeps :
    (answers : Answers) (attempt : Attempt) (live : LiveInstance) (host : Host)
    → Keeps live (continue_start answers attempt live host).1
unfolding continue_start
continue_start-Keeps answers attempt live host = by_launch (launch answers) refl
  where
    by_launch :
        (l : RuntimeResult (Option RunningHandle))
        → launch answers ≡ l
        → Keeps live (continue_start answers attempt live host).1
    by_launch (err e) made = rw (made, continue_start) (Keeps-refl live)
    by_launch (ok launched) made =
        rw (made, continue_start) (finish_start-Keeps answers attempt launched live host)

pub begin_stop-Keeps :
    (answers : StopAnswers) (live : LiveInstance) (host : Host)
    → Keeps live (begin_stop answers live host).1
unfolding begin_stop
begin_stop-Keeps answers live host = elim (Bool-cases (is_down live.runtime.state)) [
  | inl e ↦ simp e (Keeps-refl live)
  | inr e ↦ elim (Option-cases live.runtime.handle) [
    | inl f ↦ simp (e, f) (moved-Keeps live _ (unfold is_watched in refl) (omega arith) refl)
    | inr (h, f) ↦ simp (e, f) (moved-Keeps live _ (unfold is_watched in refl) (omega arith) refl)
  ]
]

pub finish_stop-Keeps :
    (answers : StopAnswers) (live : LiveInstance) (host : Host)
    → Keeps live (finish_stop answers live host).1
unfolding finish_stop
finish_stop-Keeps answers live host =
    moved-Keeps live _ (unfold is_watched in refl) (omega arith) refl

pub lose-Keeps :
    (message : String) (noted : List Effect) (attempt : Attempt) (found : Findings)
    (live : LiveInstance) (host : Host)
    → Keeps live (lose message noted attempt found live host).1
unfolding lose
lose-Keeps message noted attempt found live host =
    moved-Keeps live _ (unfold is_watched in refl) (omega arith) refl

pub watch_health-Keeps :
    (handle : RunningHandle) (found : Findings) (live : LiveInstance) (host : Host)
    → live.runtime.handle ≡ some handle
    → Keeps live (watch_health found live host).1
unfolding watch_health
watch_health-Keeps handle found live host there =
    elim (Bool-cases (is_state live.runtime.state (watched_state found.health))) [
      | inl e ↦ simp e (Keeps-refl live)
      | inr e ↦ simp e (record { held = λ h k p. cc; generation = omega arith; id = refl })
    ]

pub watch_handle-Keeps :
    (handle : RunningHandle) (attempt : Attempt) (found : Findings) (live : LiveInstance)
    (host : Host)
    → live.runtime.handle ≡ some handle
    → Keeps live (watch_handle handle attempt found live host).1
unfolding watch_handle
watch_handle-Keeps handle attempt found live host there =
    elim (Bool-cases (is_process handle && found.exited)) [
      | inl e ↦ simp e (lose-Keeps "unexpected exit" (note_exit found live) attempt found live host)
      | inr e ↦ elim (Bool-cases (not (is_ready found.health) && found.gone)) [
        | inl f ↦ simp (e, f) (lose-Keeps "container exited" [] attempt found live host)
        | inr f ↦ simp (e, f) (watch_health-Keeps handle found live host there)
      ]
    ]

pub supervise-Keeps :
    (attempt : Attempt) (found : Findings) (live : LiveInstance) (host : Host)
    → Keeps live (supervise attempt found live host).1
unfolding supervise
supervise-Keeps attempt found live host =
    elim (Bool-cases
      (live.runtime.generation == attempt.generation && is_watched live.runtime.state)) [
        | inr e ↦ simp e (Keeps-refl live)
        | inl e ↦ elim (Option-cases live.runtime.handle) [
          | inl f ↦ simp (e, f) (Keeps-refl live)
          | inr (h, f) ↦ simp (e, f) (watch_handle-Keeps h attempt found live host f)
        ]
      ]

pub Keeps-trans : (a b c : LiveInstance) → Keeps a b → Keeps b c → Keeps a c
Keeps-trans a b c h k = record {
  held = λ x. k.held (h.held x);
  generation = omega (arith, h.generation, k.generation);
  id = k.id ∙ h.id;
}
