-- ===== src/Orchestrator/Manager/Lookup.antt =====
-- The map of live instances: what is found after an instance was put back.
use cloud_desk_os.Prelude.{
  ◌≡◌, refl, sym, ap, ◌∙◌, true, false, some, List, [], ◌∷◌, arith, Bool-cases, inl, inr,
}
use cloud_desk_os.Orchestrator.Model.{InstanceId, id_eq, id_eq_iff}
use cloud_desk_os.Orchestrator.Instance.{LiveInstance}
use cloud_desk_os.Orchestrator.Manager.{get_live, put_live}

pub get_live-id :
    (id : InstanceId) (ls : List LiveInstance) (l : LiveInstance)
    → get_live id ls ≡ some l
    → l.id ≡ id
unfolding get_live
get_live-id id [] l e = cc
get_live-id id (x ∷ xs) l e = elim (Bool-cases (id_eq x.id id)) [
  | inl hit ↦
      let here : x ≡ l = ground arith in
      sym (ap (λ (y : LiveInstance). y.id) here) ∙ (id_eq_iff x.id id).0 hit
  | inr miss ↦ get_live-id id xs l (ground arith)
]

pub id_eq_self : (id : InstanceId) → id_eq id id ≡ true
id_eq_self id = (id_eq_iff id id).1 refl

-- Another instance is found as before.
pub get_live-put_live_other :
    (id : InstanceId) (l : LiveInstance) (ls : List LiveInstance)
    → id_eq l.id id ≡ false
    → get_live id (put_live l ls) ≡ get_live id ls
unfolding get_live put_live
get_live-put_live_other id l [] other = refl
get_live-put_live_other id l (x ∷ xs) other = elim (Bool-cases (id_eq x.id l.id)) [
  | inl hit ↦
      let same : id_eq x.id id ≡ false = rw ((id_eq_iff x.id l.id).0 hit) other in
      rw (hit, get_live, other, same)
  | inr miss ↦ rw (miss, get_live, get_live-put_live_other id l xs other)
]

-- The instance itself is found as it was put back.
pub get_live-put_live_same :
    (l old : LiveInstance) (ls : List LiveInstance)
    → get_live l.id ls ≡ some old
    → get_live l.id (put_live l ls) ≡ some l
unfolding get_live put_live
get_live-put_live_same l old [] e = cc
get_live-put_live_same l old (x ∷ xs) e = elim (Bool-cases (id_eq x.id l.id)) [
  | inl hit ↦ rw (hit, get_live, id_eq_self l.id)
  | inr miss ↦ rw (miss, get_live, miss) (get_live-put_live_same l old xs (ground arith))
]
