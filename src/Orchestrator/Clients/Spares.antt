-- ===== src/Orchestrator/Clients/Spares.antt =====
-- An operation on one instance leaves every other as it was.
use cloud_desk_os.Prelude.{
  ℕ, ◌≡◌, ◌≢◌, refl, ap, ◌∙◌, Bool, true, false, String, str_eq, eq_iff, arith, Bool-cases,
  Option-cases, inl, inr, ok, err, ltb,
}
use cloud_desk_os.Orchestrator.Model.{InstanceId, id_eq, id_eq_iff, RuntimeKind, Persistence}
use cloud_desk_os.Orchestrator.Store.{is_enabled}
use cloud_desk_os.Orchestrator.Instance.{LiveInstance, Host, Answers, RuntimeResult}
use cloud_desk_os.Orchestrator.Start.{start_live}
use cloud_desk_os.Orchestrator.Stop.{StopAnswers, stop_live}
use cloud_desk_os.Orchestrator.Manager.{
  RuntimeManager, Creation, get_live, find_adapter, store_live, start_found, stop_found,
  start_instance, stop_instance, create_instance, insert_instance, may_create,
}
use cloud_desk_os.Orchestrator.Manager.Lookup.{get_live-id, get_live-put_live_other}
use cloud_desk_os.Orchestrator.Manager.Ids.{start_live-id, stop_live-id}
use cloud_desk_os.Orchestrator.Clients.{
  crash_loop_max_restarts, touched, touch_activity, count_restart, trip, restart_counted,
  restart_instance,
}

-- The instance `id` is found as before.
abbrev pub Spares : InstanceId → RuntimeManager → RuntimeManager → Type 0
Spares id m m' = get_live id m'.live ≡ get_live id m.live

module _ (id : InstanceId) where
  store_live-Spares :
      (l : LiveInstance) (host : Host) (m : RuntimeManager)
      → id_eq l.id id ≡ false
      → Spares id m (store_live (l, host) m)
  unfolding store_live
  store_live-Spares l host m other = get_live-put_live_other id l m.live other

  start_found-Spares :
      (answers : Answers) (l : LiveInstance) (m : RuntimeManager)
      → id_eq l.id id ≡ false
      → Spares id m (start_found answers l m).1
  unfolding start_found
  start_found-Spares answers l m other =
      let after = start_live answers l m.host in
      store_live-Spares after.1 after.2 m (rw (start_live-id answers l m.host) other)

  stop_found-Spares :
      (force : Bool) (answers : StopAnswers) (l : LiveInstance) (m : RuntimeManager)
      → id_eq l.id id ≡ false
      → Spares id m (stop_found force answers l m)
  unfolding stop_found
  stop_found-Spares force answers l m other =
      elim (Option-cases (find_adapter l.id.kind m.adapters)) [
        | inl e ↦ rw (e, stop_found)
        | inr (a, e) ↦
            let after = stop_live force answers l m.host in
            rw (e, stop_found)
              (store_live-Spares after.0 after.1 m (rw (stop_live-id force answers l m.host) other))
      ]

  module _ (user : String) (target : InstanceId) (other : id_eq target id ≡ false) where
    pub start_instance-Spares :
        (answers : Answers) (m : RuntimeManager)
        → Spares id m (start_instance user target answers m).1
    unfolding start_instance
    start_instance-Spares answers m = elim (Bool-cases (str_eq target.owner_user_id user)) [
      | inr e ↦ rw (e, start_instance)
      | inl e ↦ elim (Bool-cases (is_enabled target.kind m.host.store)) [
        | inr f ↦ rw (e, start_instance, f)
        | inl f ↦ elim (Option-cases (get_live target m.live)) [
          | inl g ↦ rw (e, start_instance, f, g)
          | inr (l, g) ↦ elim (Option-cases (find_adapter target.kind m.adapters)) [
            | inl h ↦ rw (e, start_instance, f, g, h)
            | inr (a, h) ↦
                rw (e, start_instance, f, g, h)
                  (start_found-Spares answers l m (rw (get_live-id target m.live l g) other))
          ]
        ]
      ]
    ]

    pub stop_instance-Spares :
        (answers : StopAnswers) (m : RuntimeManager)
        → Spares id m (stop_instance user target answers m).1
    unfolding stop_instance
    stop_instance-Spares answers m = elim (Bool-cases (str_eq target.owner_user_id user)) [
      | inr e ↦ rw (e, stop_instance)
      | inl e ↦ elim (Option-cases (get_live target m.live)) [
        | inl g ↦ rw (e, stop_instance, g)
        | inr (l, g) ↦
            rw (e, stop_instance, g)
              (stop_found-Spares false answers l m (rw (get_live-id target m.live l g) other))
      ]
    ]

    pub touch_activity-Spares :
        (t : ℕ) (m : RuntimeManager) → Spares id m (touch_activity user target t m).1
    unfolding touch_activity touched
    touch_activity-Spares t m = elim (Bool-cases (str_eq target.owner_user_id user)) [
      | inr e ↦ rw (e, touch_activity)
      | inl e ↦ elim (Option-cases (get_live target m.live)) [
        | inl g ↦ rw (e, touch_activity, g)
        | inr (l, g) ↦
            rw (e, touch_activity, g)
              (store_live-Spares _ _ m (rw (get_live-id target m.live l g) other))
      ]
    ]

    trip-Spares :
        (t : ℕ) (m : RuntimeManager) → Spares id m (trip target t (get_live target m.live) m)
    unfolding trip
    trip-Spares t m = elim (Option-cases (get_live target m.live)) [
      | inl g ↦ rw (g, trip)
      | inr (l, g) ↦
          rw (g, trip) (store_live-Spares _ _ m (rw (get_live-id target m.live l g) other))
    ]

    restart_counted-Spares :
        (answers : Answers) (t count : ℕ) (m : RuntimeManager)
        → Spares id m (restart_counted user target answers t (count, m)).1
    unfolding restart_counted
    restart_counted-Spares answers t count m =
        elim (Bool-cases (ltb crash_loop_max_restarts count)) [
          | inl e ↦ rw (e, restart_counted) (trip-Spares t m)
          | inr e ↦ rw (e, restart_counted) (start_instance-Spares answers m)
        ]

    pub restart_instance-Spares :
        (stop : StopAnswers) (answers : Answers) (m : RuntimeManager)
        → Spares id m (restart_instance user target stop answers m).1
    unfolding restart_instance count_restart
    restart_instance-Spares stop answers m = elim (Bool-cases (str_eq target.owner_user_id user)) [
      | inr e ↦ rw (e, restart_instance)
      | inl e ↦ elim (Option-cases (get_live target m.live)) [
        | inl g ↦ rw (e, restart_instance, g)
        | inr (l, g) ↦
            let counted = count_restart target stop.clock (stop_found false stop l m) in
            rw (e, restart_instance, g)
              (restart_counted-Spares answers stop.clock counted.0 counted.1
                ∙ stop_found-Spares false stop l m (rw (get_live-id target m.live l g) other))
      ]
    ]

  pub create_instance-Spares :
      (user : String) (kind : RuntimeKind) (persistence : Persistence) (creation : Creation)
      (m : RuntimeManager)
      → id.owner_user_id ≢ user
      → Spares id m (create_instance user kind persistence creation m).1
  unfolding create_instance insert_instance get_live
  create_instance-Spares user kind persistence creation m foreign =
      by_check (may_create user kind m) refl
    where
      new : InstanceId
      new = record { kind = kind; owner_user_id = user; instance_id = creation.instance_id }

      differs : id_eq new id ≡ false
      differs = ground (arith, foreign, id_eq_iff new id)

      by_check :
          (r : RuntimeResult (Unit {0}))
          → may_create user kind m ≡ r
          → Spares id m (create_instance user kind persistence creation m).1
      by_check (err e) made = rw (made, create_instance)
      by_check (ok done) made = elim (Bool-cases creation.directory) [
        | inr e ↦ rw (made, create_instance, e)
        | inl e ↦ rw (made, create_instance, e, differs)
      ]

  own_target :
      (user : String) (target : InstanceId)
      → id.owner_user_id ≢ user
      → str_eq target.owner_user_id user ≡ true
      → id_eq target id ≡ false
  own_target user target foreign e =
      ground (arith, foreign, id_eq_iff target id, eq_iff target.owner_user_id user)

  -- A request that names an instance is refused, or is about an instance of the user.
  pub on_target :
      (user : String) (target : InstanceId) (m m' : RuntimeManager)
      → id.owner_user_id ≢ user
      → (str_eq target.owner_user_id user ≡ false → m' ≡ m)
      → (id_eq target id ≡ false → Spares id m m')
      → Spares id m m'
  on_target user target m m' foreign refused own =
      elim (Bool-cases (str_eq target.owner_user_id user)) [
        | inr e ↦ ap (λ (x : RuntimeManager). get_live id x.live) (refused e)
        | inl e ↦ own (own_target user target foreign e)
      ]
