-- ===== src/Orchestrator/Sweep/Disable.antt =====
-- What switching a kind off leaves.
use cloud_desk_os.Prelude.{
  ◌≡◌, refl, ◌∙◌, Bool, true, false, some, List, [], ◌∷◌, Bool-cases, inl, inr, err, str_eq, eq_iff,
}
use cloud_desk_os.Prelude.Table.{select_where}
use cloud_desk_os.Orchestrator.Model.{InstanceId, RuntimeKind, id_eq, kind_eq, kind_eq_iff}
use cloud_desk_os.Orchestrator.Store.{
  is_enabled, enabled_in, put_enabled, set_enabled as store_enabled,
}
use cloud_desk_os.Orchestrator.Instance.{LiveInstance, is_down, Answers, disabled_kind}
use cloud_desk_os.Orchestrator.Stop.{StopAnswers}
use cloud_desk_os.Orchestrator.Manager.{
  RuntimeManager, Adapter, get_live, find_adapter, start_instance,
}
use cloud_desk_os.Orchestrator.Sweep.{of_kind, set_enabled}
use cloud_desk_os.Orchestrator.Sweep.Shutdown.{stop_each-Down}

kind_eq_self : (k : RuntimeKind) → kind_eq k k ≡ true
kind_eq_self k = (kind_eq_iff k k).1 refl

-- The switch that was stored last is the one that is read.
enabled_in-put_enabled :
    (kind : RuntimeKind) (b : Bool) (config : List (RuntimeKind × Bool))
    → enabled_in kind (put_enabled kind b config) ≡ b
unfolding enabled_in put_enabled
enabled_in-put_enabled kind b [] = rw (kind_eq_self kind)
enabled_in-put_enabled kind b ((k, c) ∷ config) = elim (Bool-cases (kind_eq k kind)) [
  | inl hit ↦ rw (hit, enabled_in, hit)
  | inr miss ↦ rw (miss, enabled_in, miss) (enabled_in-put_enabled kind b config)
]

get_live-of_kind :
    (id : InstanceId) (ls : List LiveInstance)
    → get_live id (select_where (of_kind id.kind) ls) ≡ get_live id ls
unfolding get_live select_where
get_live-of_kind id [] = refl
get_live-of_kind id (x ∷ xs) = elim (Bool-cases (kind_eq x.id.kind id.kind)) [
  | inl hit ↦ rw (hit, get_live, get_live-of_kind id xs)
  | inr miss ↦
      let other : id_eq x.id id ≡ false = unfold id_eq in rw miss in
      rw (miss, get_live, other) (get_live-of_kind id xs)
]

start_instance-off :
    (id : InstanceId) (start : Answers) (m : RuntimeManager)
    → is_enabled id.kind m.host.store ≡ false
    → start_instance id.owner_user_id id start m ≡ (err disabled_kind, m)
unfolding start_instance
start_instance-off id start m off =
    let own : str_eq id.owner_user_id id.owner_user_id ≡ true =
      (eq_iff id.owner_user_id id.owner_user_id).1 refl in
    rw (own, off)

set_enabled-off :
    (answers : InstanceId → StopAnswers) (kind : RuntimeKind) (m : RuntimeManager)
    → is_enabled kind (set_enabled answers kind false m).host.store ≡ false
unfolding set_enabled is_enabled store_enabled
set_enabled-off answers kind m = enabled_in-put_enabled kind false _

-- Once a kind is switched off, every live instance of the kind that has an adapter is `Stopped` or
-- `Failed`, and a start of it by its owner is refused.
pub set_enabled_stops :
    (answers : InstanceId → StopAnswers) (m : RuntimeManager) (id : InstanceId) (l : LiveInstance)
    (a : Adapter) (start : Answers)
    → get_live id m.live ≡ some l
    → find_adapter id.kind m.adapters ≡ some a
    → let m' = set_enabled answers id.kind false m in
      ((q : LiveInstance) × (get_live id m'.live ≡ some q) × (is_down q.runtime.state ≡ true))
      × (start_instance id.owner_user_id id start m' ≡ (err disabled_kind, m'))
unfolding set_enabled
set_enabled_stops answers m id l a start found there = (
  stop_each-Down answers (select_where (of_kind id.kind) m.live) id m l a
      (get_live-of_kind id m.live ∙ found) (l, found, tt) there,
  start_instance-off id start _ (set_enabled-off answers id.kind m),
)
