-- ===== src/Orchestrator/Start/First.antt =====
-- What the first locked section of `start_instance` leaves.
use cloud_desk_os.Prelude.{◌+◌, ◌≡◌, true, false, none}
use cloud_desk_os.Orchestrator.Model.{starting}
use cloud_desk_os.Orchestrator.Store.{upsert_instance}
use cloud_desk_os.Orchestrator.Port.{allocate}
use cloud_desk_os.Orchestrator.Instance.{LiveInstance, Host, db_error, Answers, is_up}
use cloud_desk_os.Orchestrator.Start.{Attempt, began, refused, begin_start}

-- The attempt, the instance and the host after the first locked section.
abbrev pub first_attempt : Answers → LiveInstance → Host → Attempt
first_attempt answers live host = record {
  generation = live.runtime.generation + 1;
  port = (allocate answers.binds host.reserved).0;
}

abbrev pub first_live : Answers → LiveInstance → Host → LiveInstance
first_live answers live host = record live {
  runtime = record (live.runtime) {
    state = starting;
    generation = live.runtime.generation + 1;
    port = (allocate answers.binds host.reserved).0;
  };
}

abbrev pub first_host : Answers → LiveInstance → Host → Host
first_host answers live host = record host {
  reserved = (allocate answers.binds host.reserved).1;
  store =
      upsert_instance live.id (live.runtime.generation + 1) starting live.persistence
        (allocate answers.binds host.reserved).0 none answers.begun_at host.store;
}

pub begin_start-down :
    (answers : Answers) (live : LiveInstance) (host : Host)
    → is_up live.runtime.state ≡ false
    → answers.first_write ≡ true
    → begin_start answers live host ≡ (
      began (first_attempt answers live host),
      first_live answers live host,
      first_host answers live host,
    )
unfolding begin_start
begin_start-down answers live host down e = rw (down, e)

pub begin_start-unwritten :
    (answers : Answers) (live : LiveInstance) (host : Host)
    → is_up live.runtime.state ≡ false
    → answers.first_write ≡ false
    → begin_start answers live host ≡ (
      refused db_error,
      first_live answers live host,
      record host { reserved = (allocate answers.binds host.reserved).1 },
    )
unfolding begin_start
begin_start-unwritten answers live host down e = rw (down, e)
