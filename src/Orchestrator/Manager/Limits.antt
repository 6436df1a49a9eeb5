-- ===== src/Orchestrator/Manager/Limits.antt =====
-- The limits that `create_instance` keeps.
use cloud_desk_os.Prelude.{
  ℕ, ◌+◌, ◌≤◌, ◌<◌, ◌≡◌, refl, true, String, str_eq, eq_iff, none, ◌∷◌, arith, ok,
}
use cloud_desk_os.Prelude.Table.{count_where, select_where, find_where}
use cloud_desk_os.Orchestrator.Model.{
  InstanceId, RuntimeKind, Persistence, kind_eq, kind_eq_iff, is_failed, stopped,
}
use cloud_desk_os.Orchestrator.Store.{
  InstanceRow, RuntimeStore, has_id, upsert_instance, list_for_owner, list_all,
}
use cloud_desk_os.Orchestrator.Manager.{
  RuntimeManager, Creation, counts, policy_for, may_create, insert_instance, create_instance,
}

-- The rows that count against the two limits.
abbrev pub owned_count : String → RuntimeKind → RuntimeStore → ℕ
owned_count owner kind store = count_where (counts kind) (list_for_owner owner store)

abbrev pub total_count : RuntimeKind → RuntimeStore → ℕ
total_count kind store = count_where (counts kind) (list_all store)

may_create-below :
    (owner : String) (kind : RuntimeKind) (m : RuntimeManager)
    → may_create owner kind m ≡ ok tt
    → (owned_count owner kind m.host.store < (policy_for kind m).max_instances_per_user)
      × (total_count kind m.host.store < (policy_for kind m).max_instances_global)
unfolding may_create
may_create-below owner kind m h = ground arith

abbrev new_row : InstanceId → Persistence → ℕ → InstanceRow
new_row id p t = record {
  id = id;
  generation = 0;
  state = stopped;
  persistence = p;
  port = none;
  pid = none;
  created_at = t;
  updated_at = t;
  last_activity_at = t;
  restart_count = 0;
  exit_code = none;
  exit_signal = none;
  failure_message = none;
}

upsert_instance-new :
    (id : InstanceId) (p : Persistence) (t : ℕ) (store : RuntimeStore)
    → find_where (has_id id) store.rows ≡ none
    → upsert_instance id 0 stopped p none none t store
      ≡ record store { rows = new_row id p t ∷ store.rows }
unfolding upsert_instance
upsert_instance-new id p t store new = rw new

-- A new row counts once.
new_row-counts :
    (owner : String) (id : InstanceId) (p : Persistence) (t : ℕ) (store : RuntimeStore)
    → id.owner_user_id ≡ owner
    → let store' : RuntimeStore = record store { rows = new_row id p t ∷ store.rows } in
      (owned_count owner id.kind store' ≡ owned_count owner id.kind store + 1)
      × (total_count id.kind store' ≡ total_count id.kind store + 1)
unfolding list_for_owner list_all select_where count_where is_failed
new_row-counts owner id p t store own =
    let same : kind_eq id.kind id.kind ≡ true = (kind_eq_iff id.kind id.kind).1 refl in
    let mine : str_eq id.owner_user_id owner ≡ true = (eq_iff id.owner_user_id owner).1 own in
    simp (mine, same) (omega arith, omega arith)

abbrev pub created_id : String → RuntimeKind → Creation → InstanceId
created_id owner kind creation = record {
  kind = kind;
  owner_user_id = owner;
  instance_id = creation.instance_id;
}

may_create-of_ok :
    (owner : String) (kind : RuntimeKind) (p : Persistence) (creation : Creation)
    (m : RuntimeManager)
    → (create_instance owner kind p creation m).0 ≡ ok (created_id owner kind creation)
    → (may_create owner kind m ≡ ok tt) × (creation.directory ≡ true)
unfolding create_instance
may_create-of_ok owner kind p creation m h = ground arith

-- An instance that is created keeps its owner within the limit per user, and all users within the
-- global one, if its random identifier is new.
pub create_instance_limits :
    (owner : String) (kind : RuntimeKind) (p : Persistence) (creation : Creation)
    (m : RuntimeManager)
    → find_where (has_id (created_id owner kind creation)) m.host.store.rows ≡ none
    → (create_instance owner kind p creation m).0 ≡ ok (created_id owner kind creation)
    → let store' = (create_instance owner kind p creation m).1.host.store in
      (owned_count owner kind store' ≤ (policy_for kind m).max_instances_per_user)
      × (total_count kind store' ≤ (policy_for kind m).max_instances_global)
unfolding create_instance insert_instance
create_instance_limits owner kind p creation m new h =
    let (allowed, made) = may_create-of_ok owner kind p creation m h in
    let below = may_create-below owner kind m allowed in
    let counted =
      new_row-counts owner (created_id owner kind creation) p creation.clock m.host.store refl in
    rw
      (
        allowed,
        create_instance,
        made,
        upsert_instance-new (created_id owner kind creation) p creation.clock m.host.store new,
      )
      (omega (arith, below.0, counted.0), omega (arith, below.1, counted.1))
