-- ===== src/Orchestrator/Tests/Polls.antt =====
-- A start that polls every 200 milliseconds.
use cloud_desk_os.Prelude.{ℕ, ◌+◌, ◌*◌, ◌≡◌, ◌≢◌, ◌↔◌, true, none, arith}
use cloud_desk_os.Orchestrator.Model.{default_policy}
use cloud_desk_os.Orchestrator.Instance.{Answers}
use cloud_desk_os.Orchestrator.Start.{wait_ready, poll_fuel, becomes_ready}
use cloud_desk_os.Orchestrator.Start.Ready.{IsReadyAt, becomes_ready_iff}
use cloud_desk_os.Orchestrator.Tests.{good_answers}

abbrev slow_answers : Answers
slow_answers = record good_answers { clock = λ i. 961 + 200 * i }

becomes_ready_iff_example :
    let deadline =
      slow_answers.waits_from + default_policy.start_timeout + default_policy.health_timeout in
    (wait_ready (poll_fuel default_policy) slow_answers.health slow_answers.clock deadline 0 ≢ none)
    × ((becomes_ready default_policy slow_answers ≡ true)
        ↔ ((n : ℕ) × IsReadyAt slow_answers.health slow_answers.clock deadline 0 n))
becomes_ready_iff_example =
    becomes_ready_iff default_policy slow_answers (omega arith) (λ j. omega arith)
