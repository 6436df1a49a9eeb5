-- ===== src/Orchestrator/Manager.antt =====
-- `RuntimeManager` of crates/orchestrator/src/manager.rs: its operations on the map of live
-- instances, each run to its end before the next. `Interleave` has those that overlap.
pub mod Lookup
pub mod Ids
pub mod Limits
use cloud_desk_os.Prelude.{
  ℕ, Bool, false, ◌&&◌, not, String, str_eq, Option, none, some, List, [], ◌∷◌, leb, if◌then◌else◌,
  ok, err,
}
use cloud_desk_os.Prelude.Table.{count_where}
use cloud_desk_os.Orchestrator.Model.{
  RuntimeKind, stopped, Persistence, InstanceId, ResourcePolicy, kind_eq, id_eq, is_failed,
}
use cloud_desk_os.Orchestrator.Store.{
  InstanceRow, is_enabled, upsert_instance, list_for_owner, list_all,
}
use cloud_desk_os.Orchestrator.Instance.{
  LiveInstance, InstanceRuntime, Host, Answers, unknown_kind, disabled_kind, unavailable_kind,
  per_user_limit_reached, global_limit_reached, not_found, not_owner, storage_error, RuntimeResult,
}
use cloud_desk_os.Orchestrator.Start.{start_live}
use cloud_desk_os.Orchestrator.Stop.{StopAnswers, stop_live}

-- A registered adapter: its kind, and whether it says that the runtime is available.
pub record Adapter : Type 0 where
  pub kind : RuntimeKind
  pub is_available : Bool

pub record RuntimeManager : Type 0 where
  pub adapters : List Adapter
  pub policy : ResourcePolicy
  pub kind_policies : List (RuntimeKind × ResourcePolicy)
  pub live : List LiveInstance
  pub host : Host

unfoldable pub find_adapter : RuntimeKind → List Adapter → Option Adapter
find_adapter kind [] = none
find_adapter kind (a ∷ as') = if kind_eq a.kind kind then some a else find_adapter kind as'

unfoldable pub find_policy :
    RuntimeKind → List (RuntimeKind × ResourcePolicy) → Option ResourcePolicy
find_policy kind [] = none
find_policy kind ((k, p) ∷ ps) = if kind_eq k kind then some p else find_policy kind ps

unfoldable pub policy_for : RuntimeKind → RuntimeManager → ResourcePolicy
policy_for kind m = elim (find_policy kind m.kind_policies) [ none ↦ m.policy | some p ↦ p ]

-- `live.get(&key_of(id))`
unfoldable pub get_live : InstanceId → List LiveInstance → Option LiveInstance
get_live id [] = none
get_live id (l ∷ ls) = if id_eq l.id id then some l else get_live id ls

-- What the lock's holder leaves in the instance.
unfoldable pub put_live : LiveInstance → List LiveInstance → List LiveInstance
put_live l [] = []
put_live l (x ∷ xs) = if id_eq x.id l.id then l ∷ xs else x ∷ put_live l xs

-- A row that counts against the limits.
abbrev pub counts : RuntimeKind → InstanceRow → Bool
counts kind row = kind_eq row.id.kind kind && not (is_failed row.state)

-- What the world answers to `create_instance`: the random identifier, and whether the state
-- directory can be made.
pub record Creation : Type 0 where
  pub instance_id : String
  pub directory : Bool
  pub clock : ℕ

-- The checks of `create_instance`, in order.
unfoldable pub may_create : String → RuntimeKind → RuntimeManager → RuntimeResult (Unit {0})
may_create owner kind m = elim (find_adapter kind m.adapters) [
  | none ↦ err unknown_kind
  | some adapter ↦
      if not (is_enabled kind m.host.store)
      then err disabled_kind
      else if not adapter.is_available
      then err unavailable_kind
      else if leb (policy_for kind m).max_instances_per_user
          (count_where (counts kind) (list_for_owner owner m.host.store))
      then err per_user_limit_reached
      else if leb (policy_for kind m).max_instances_global
          (count_where (counts kind) (list_all m.host.store))
      then err global_limit_reached
      else ok tt
]

-- The state of an instance that has not been started.
abbrev pub fresh_runtime : ℕ → InstanceRuntime
fresh_runtime t = record {
  state = stopped;
  handle = none;
  generation = 0;
  cgroup = false;
  last_activity = t;
  port = none;
}

unfoldable pub insert_instance :
    InstanceId → Persistence → Creation → RuntimeManager → RuntimeManager
insert_instance id persistence creation m = record m {
  live =
      (record {
        id = id;
        policy = policy_for id.kind m;
        persistence = persistence;
        runtime = fresh_runtime creation.clock;
      })
      ∷ m.live;
  host = record (m.host) {
    store = upsert_instance id 0 stopped persistence none none creation.clock m.host.store;
  };
}

unfoldable pub create_instance :
    String
    → RuntimeKind
    → Persistence
    → Creation
    → RuntimeManager
    → RuntimeResult InstanceId × RuntimeManager
create_instance owner kind persistence creation m =
    let id : InstanceId = record {
      kind = kind;
      owner_user_id = owner;
      instance_id = creation.instance_id;
    } in
    elim (may_create owner kind m) [
      | err e ↦ (err e, m)
      | ok _ ↦
          if creation.directory
          then (ok id, insert_instance id persistence creation m)
          else (err storage_error, m)
    ]

-- The instance and the host that an operation leaves.
unfoldable pub store_live : LiveInstance × Host → RuntimeManager → RuntimeManager
store_live (l, host) m = record m { live = put_live l m.live; host = host }

unfoldable pub start_found :
    Answers → LiveInstance → RuntimeManager → RuntimeResult (Unit {0}) × RuntimeManager
start_found answers l m =
    let (result, l', host) = start_live answers l m.host in (result, store_live (l', host) m)

-- The checks of `start_instance`, and the start.
unfoldable pub start_instance :
    String → InstanceId → Answers → RuntimeManager → RuntimeResult (Unit {0}) × RuntimeManager
start_instance owner id answers m =
    if not (str_eq id.owner_user_id owner)
    then (err not_owner, m)
    else if not (is_enabled id.kind m.host.store)
    then (err disabled_kind, m)
    else elim (get_live id m.live) [
      | none ↦ (err not_found, m)
      | some l ↦ elim (find_adapter id.kind m.adapters) [
        | none ↦ (err unknown_kind, m)
        | some adapter ↦ start_found answers l m
      ]
    ]

-- `stop_live` does nothing for a kind without an adapter.
unfoldable pub stop_found : Bool → StopAnswers → LiveInstance → RuntimeManager → RuntimeManager
stop_found force answers l m = elim (find_adapter l.id.kind m.adapters) [
  | none ↦ m
  | some adapter ↦ store_live (stop_live force answers l m.host) m
]

unfoldable pub stop_instance :
    String → InstanceId → StopAnswers → RuntimeManager → RuntimeResult (Unit {0}) × RuntimeManager
stop_instance owner id answers m =
    if not (str_eq id.owner_user_id owner) then (err not_owner, m) else elim (get_live id m.live) [
      | none ↦ (err not_found, m)
      | some l ↦ (ok tt, stop_found false answers l m)
    ]
