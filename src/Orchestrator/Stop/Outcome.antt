-- ===== src/Orchestrator/Stop/Outcome.antt =====
-- How an uninterrupted stop ends.
use cloud_desk_os.Prelude.{
  ℕ, ◌≡◌, ap, ◌∙◌, refl, Bool, true, false, ◌&&◌, ◌||◌, not, none, some, List, [], ◌∷◌, ◌++◌,
  Bool-cases, inl, inr, arith, if◌then◌else◌,
}
use cloud_desk_os.Orchestrator.Model.{
  InstanceId, InstanceState, Persistence, stopped, stopping, persistent, ephemeral,
}
use cloud_desk_os.Orchestrator.Instance.{
  RunningHandle, process, opaque, LiveInstance, Host, is_down, Effect,
}
use cloud_desk_os.Orchestrator.Start.{kill, release_port, settle, perform, perform_all, written}
use cloud_desk_os.Orchestrator.Stop.{
  StopAnswers, note_state, begin_stop, terminate, clean_up, finish_stop, stop_begun, stop_live,
  is_process,
}

-- The kill at the end of a stop: always if forced, else for a process that does not exit in time.
abbrev pub needs_kill : Bool → StopAnswers → RunningHandle → Bool
needs_kill force answers handle = force || (is_process handle && not answers.exits)

-- What a stop of an instance with a handle comes to.
pub record HasStopped (force : Bool) (answers : StopAnswers) (handle : RunningHandle)
    (live : LiveInstance) (host : Host) (after : LiveInstance × Host) : Type 0 where
  pub state : after.0.runtime.state ≡ stopped
  pub dropped : after.0.runtime.handle ≡ none
  pub port : after.0.runtime.port ≡ none
  pub reserved : after.1.reserved ≡ release_port live.runtime.port host.reserved
  pub killed :
      after.1.killed
      ≡ (if needs_kill force answers handle then handle ∷ host.killed else host.killed)
  pub cleaned :
      after.1.cleaned
      ≡ elim live.persistence [ persistent ↦ host.cleaned | ephemeral ↦ live.id ∷ host.cleaned ]

perform_all-append :
    (es fs : List Effect) (host : Host)
    → perform_all (es ++ fs) host ≡ perform_all fs (perform_all es host)
unfolding perform_all
perform_all-append [] fs host = refl
perform_all-append (e ∷ es) fs host = perform_all-append es fs (perform e host)

-- The two tails that follow the release of the port.
note_state-same :
    (wrote : Bool) (id : InstanceId) (state : InstanceState) (t : ℕ) (host : Host)
    → let noted = perform_all (note_state wrote id state t) host in
      (noted.reserved ≡ host.reserved)
      × (noted.killed ≡ host.killed)
      × (noted.cleaned ≡ host.cleaned)
unfolding note_state written perform_all perform
note_state-same wrote id state t host = elim (Bool-cases wrote) [
  | inl e ↦ simp e (refl, refl, refl)
  | inr e ↦ simp e (refl, refl, refl)
]

clean_up-same :
    (live : LiveInstance) (host : Host)
    → let cleaned = perform_all (clean_up live) host in
      (cleaned.reserved ≡ host.reserved)
      × (cleaned.killed ≡ host.killed)
      × (cleaned.cleaned ≡ elim live.persistence [
        | persistent ↦ host.cleaned
        | ephemeral ↦ live.id ∷ host.cleaned
      ])
unfolding clean_up perform_all perform
clean_up-same live host = by_persistence live.persistence refl
  where
    by_persistence :
        (p : Persistence)
        → live.persistence ≡ p
        → let cleaned = perform_all (clean_up live) host in
          (cleaned.reserved ≡ host.reserved)
          × (cleaned.killed ≡ host.killed)
          × (cleaned.cleaned ≡ elim live.persistence [
            | persistent ↦ host.cleaned
            | ephemeral ↦ live.id ∷ host.cleaned
          ])
    by_persistence persistent e = rw (e, clean_up) (refl, refl, refl)
    by_persistence ephemeral e = rw (e, clean_up) (refl, refl, refl)

terminate-same :
    (force : Bool) (answers : StopAnswers) (handle : RunningHandle) (host : Host)
    → ((terminate force answers handle host).reserved ≡ host.reserved)
      × ((terminate force answers handle host).killed
          ≡ (if needs_kill force answers handle then handle ∷ host.killed else host.killed))
      × ((terminate force answers handle host).cleaned ≡ host.cleaned)
unfolding terminate kill is_process
terminate-same true answers handle host = (refl, refl, refl)
terminate-same false answers (opaque name) host = (refl, refl, refl)
terminate-same false answers (process pid) host = ground arith

abbrev stopping_live : LiveInstance → LiveInstance
stopping_live live = record live {
  runtime = record (live.runtime) { state = stopping; handle = none };
}

-- The host when the second locked section begins.
abbrev mid_host : Bool → StopAnswers → RunningHandle → LiveInstance → Host → Host
mid_host force answers handle live host =
    terminate force answers handle
      (perform_all (note_state answers.stopping_write live.id stopping answers.clock) host)

pub stop_live-held :
    (force : Bool) (answers : StopAnswers) (handle : RunningHandle) (live : LiveInstance)
    (host : Host)
    → is_down live.runtime.state ≡ false
    → live.runtime.handle ≡ some handle
    → let (done, live', host') =
        settle
          (finish_stop answers (stopping_live live) (mid_host force answers handle live host)) in
      stop_live force answers live host ≡ (live', host')
unfolding stop_live begin_stop
stop_live-held force answers handle live host up held =
    simp (up, held) (unfold stop_begun settle in refl)

-- A stop of an instance with a handle that is not down: afterwards it is stopped, holds neither
-- handle nor port, its port alone is given back, the handle was killed exactly if the stop was
-- forced or a process did not exit in time, and its state directory was removed exactly if it was
-- ephemeral.
pub stop_live_stops :
    (force : Bool) (answers : StopAnswers) (handle : RunningHandle) (live : LiveInstance)
    (host : Host)
    → is_down live.runtime.state ≡ false
    → live.runtime.handle ≡ some handle
    → HasStopped force answers handle live host (stop_live force answers live host)
stop_live_stops force answers handle live host up held =
    let stopping_noted =
      note_state-same answers.stopping_write live.id stopping answers.clock host in
    let ended =
      terminate-same force answers handle
        (perform_all (note_state answers.stopping_write live.id stopping answers.clock) host) in
    let mid = mid_host force answers handle live host in
    let freed : Host = record mid { reserved = release_port live.runtime.port mid.reserved } in
    let tail = note_state answers.stopped_write live.id stopped answers.clock in
    let noted = note_state-same answers.stopped_write live.id stopped answers.clock freed in
    let clean = clean_up-same (stopping_live live) (perform_all tail freed) in
    let split = perform_all-append tail (clean_up (stopping_live live)) freed in
    rw (stop_live-held force answers handle live host up held) (
      unfold finish_stop settle perform_all perform in
      rw split (record {
        state = refl;
        dropped = refl;
        port = refl;
        reserved =
            clean.0 ∙ noted.0 ∙ ap (release_port live.runtime.port) (ended.0 ∙ stopping_noted.0);
        killed = cc (clean.1, noted.1, ended.1, stopping_noted.1);
        cleaned = cc (clean.2, noted.2, ended.2, stopping_noted.2);
      }))
