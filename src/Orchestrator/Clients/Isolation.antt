-- ===== src/Orchestrator/Clients/Isolation.antt =====
-- What a user's calls leave alone: the instances of every other user.
use cloud_desk_os.Prelude.{ℕ, ◌≡◌, ◌≢◌, String}
use cloud_desk_os.Orchestrator.Model.{InstanceId, RuntimeKind, Persistence}
use cloud_desk_os.Orchestrator.Instance.{Answers}
use cloud_desk_os.Orchestrator.Stop.{StopAnswers}
use cloud_desk_os.Orchestrator.Manager.{
  RuntimeManager, Creation, get_live, start_instance, stop_instance, create_instance,
}
use cloud_desk_os.Orchestrator.Clients.{touch_activity, restart_instance}
use cloud_desk_os.Orchestrator.Clients.Spares.{
  start_instance-Spares, stop_instance-Spares, touch_activity-Spares, restart_instance-Spares,
  create_instance-Spares, on_target,
}

-- What a user may ask of the manager.
pub data Request : Type 0 where
  creates : RuntimeKind → Persistence → Creation → Request
  starts : InstanceId → Answers → Request
  stops : InstanceId → StopAnswers → Request
  restarts : InstanceId → StopAnswers → Answers → Request
  touches : InstanceId → ℕ → Request

unfoldable pub serve : String → Request → RuntimeManager → RuntimeManager
serve user (creates kind persistence creation) m =
    (create_instance user kind persistence creation m).1
serve user (starts id answers) m = (start_instance user id answers m).1
serve user (stops id answers) m = (stop_instance user id answers m).1
serve user (restarts id stop answers) m = (restart_instance user id stop answers m).1
serve user (touches id t) m = (touch_activity user id t m).1

-- Whatever a user asks of the manager, if requests are served one after the other, the live
-- instances of every other user stay as they were.
pub serve_spares :
    (user : String) (request : Request) (m : RuntimeManager) (id : InstanceId)
    → id.owner_user_id ≢ user
    → get_live id (serve user request m).live ≡ get_live id m.live
unfolding serve start_instance stop_instance restart_instance touch_activity
serve_spares user (creates kind persistence creation) m id foreign =
    create_instance-Spares id user kind persistence creation m foreign
serve_spares user (starts target answers) m id foreign =
    on_target id user target m (start_instance user target answers m).1 foreign
      (λ e. rw (e, start_instance)) (λ other. start_instance-Spares id user target other answers m)
serve_spares user (stops target answers) m id foreign =
    on_target id user target m (stop_instance user target answers m).1 foreign
      (λ e. rw (e, stop_instance)) (λ other. stop_instance-Spares id user target other answers m)
serve_spares user (restarts target stop answers) m id foreign =
    on_target id user target m (restart_instance user target stop answers m).1 foreign
      (λ e. rw (e, restart_instance))
      (λ other. restart_instance-Spares id user target other stop answers m)
serve_spares user (touches target t) m id foreign =
    on_target id user target m (touch_activity user target t m).1 foreign
      (λ e. rw (e, touch_activity)) (λ other. touch_activity-Spares id user target other t m)
