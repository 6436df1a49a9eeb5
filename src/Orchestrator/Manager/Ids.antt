-- ===== src/Orchestrator/Manager/Ids.antt =====
-- A start or a stop leaves the identifier of the instance as it was.
use cloud_desk_os.Prelude.{Bool, ◌≡◌, refl, ◌∙◌}
use cloud_desk_os.Orchestrator.Instance.{LiveInstance, Host, Answers}
use cloud_desk_os.Orchestrator.Start.{
  Begun, already, began, refused, begin_start, start_begun, start_live, settle,
}
use cloud_desk_os.Orchestrator.Stop.{
  StopAnswers, StopBegun, over, holds, begin_stop, stop_begun, stop_live, terminate,
}
use cloud_desk_os.Orchestrator.Interleave.Sections.{
  begin_start-Keeps, continue_start-Keeps, begin_stop-Keeps, finish_stop-Keeps,
}

start_begun-id :
    (answers : Answers) (begun : Begun) (live : LiveInstance) (host : Host)
    → (start_begun answers (begun, live, host)).1.id ≡ live.id
unfolding start_begun settle
start_begun-id answers already live host = refl
start_begun-id answers (refused e) live host = refl
start_begun-id answers (began attempt) live host =
    (continue_start-Keeps answers attempt live host).id

pub start_live-id :
    (answers : Answers) (live : LiveInstance) (host : Host)
    → (start_live answers live host).1.id ≡ live.id
unfolding start_live
start_live-id answers live host =
    let begun = begin_start answers live host in
    start_begun-id answers begun.0 begun.1 begun.2 ∙ (begin_start-Keeps answers live host).id

stop_begun-id :
    (force : Bool) (answers : StopAnswers) (begun : StopBegun) (live : LiveInstance) (host : Host)
    → (stop_begun force answers (begun, live, host)).0.id ≡ live.id
unfolding stop_begun settle
stop_begun-id force answers over live host = refl
stop_begun-id force answers (holds handle) live host =
    (finish_stop-Keeps answers live (terminate force answers handle host)).id

pub stop_live-id :
    (force : Bool) (answers : StopAnswers) (live : LiveInstance) (host : Host)
    → (stop_live force answers live host).0.id ≡ live.id
unfolding stop_live settle
stop_live-id force answers live host =
    let begun = settle (begin_stop answers live host) in
    stop_begun-id force answers begun.0 begun.1 begun.2 ∙ (begin_stop-Keeps answers live host).id
