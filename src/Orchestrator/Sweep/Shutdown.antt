-- ===== src/Orchestrator/Sweep/Shutdown.antt =====
-- What `shutdown_all` leaves: no live instance is up.
use cloud_desk_os.Prelude.{
  ◌≡◌, refl, sym, ◌∙◌, Bool, true, false, some, List, [], ◌∷◌, arith, Bool-cases, Option-cases, inl,
  inr, subst,
}
use cloud_desk_os.Orchestrator.Model.{InstanceId, id_eq, id_eq_iff}
use cloud_desk_os.Orchestrator.Instance.{LiveInstance, Host, is_down}
use cloud_desk_os.Orchestrator.Start.{settle}
use cloud_desk_os.Orchestrator.Stop.Outcome.{stop_live-held}
use cloud_desk_os.Orchestrator.Races.{stop_live-idle}
use cloud_desk_os.Orchestrator.Stop.{
  over, StopAnswers, begin_stop, finish_stop, stop_begun, stop_live,
}
use cloud_desk_os.Orchestrator.Manager.{
  RuntimeManager, Adapter, get_live, put_live, find_adapter, store_live, stop_found,
}
use cloud_desk_os.Orchestrator.Manager.Lookup.{
  get_live-id, get_live-put_live_other, get_live-put_live_same,
}
use cloud_desk_os.Orchestrator.Manager.Ids.{stop_live-id}
use cloud_desk_os.Orchestrator.Sweep.{stop_one, stop_each, shutdown_all}

-- A stop always ends with the instance down, whether or not it had a handle.
pub stop_live-is_down :
    (force : Bool) (answers : StopAnswers) (live : LiveInstance) (host : Host)
    → is_down (stop_live force answers live host).0.runtime.state ≡ true
stop_live-is_down force answers live host = elim (Bool-cases (is_down live.runtime.state)) [
  | inl e ↦
      let first : begin_stop answers live host ≡ (over, live, host, []) =
        unfold begin_stop in rw e in
      unfold stop_live in rw first (unfold settle stop_begun in e)
  | inr e ↦ elim (Option-cases live.runtime.handle) [
    | inl f ↦ rw (stop_live-idle force answers live host e f) (unfold is_down in refl)
    | inr (h, f) ↦
        rw (stop_live-held force answers h live host e f)
          (unfold finish_stop settle is_down in refl)
  ]
]

-- The instance `id` is found in the map, with the property `Q`.
abbrev Has : (LiveInstance → Type 0) → InstanceId → RuntimeManager → Type 0
Has Q id m = (l : LiveInstance) × (get_live id m.live ≡ some l) × Q l

stop_one-adapters :
    (answers : InstanceId → StopAnswers) (id : InstanceId) (m : RuntimeManager)
    → (stop_one answers id m).adapters ≡ m.adapters
unfolding stop_one stop_found store_live
stop_one-adapters answers id m = elim (Option-cases (get_live id m.live)) [
  | inl e ↦ rw (e, stop_one)
  | inr (l, e) ↦ elim (Option-cases (find_adapter l.id.kind m.adapters)) [
    | inl f ↦ rw (e, stop_one, f, stop_found)
    | inr (a, f) ↦ rw (e, stop_one, f, stop_found)
  ]
]

-- A property that every stopped instance has.
module _ (Q : LiveInstance → Type 0)
    (stops : (force : Bool) (answers : StopAnswers) (l : LiveInstance) (host : Host)
      → Q (stop_live force answers l host).0) where
  -- The turn of the instance `id` itself.
  stopped-Has :
      (answers : StopAnswers) (id : InstanceId) (m : RuntimeManager) (l : LiveInstance)
      → get_live id m.live ≡ some l
      → Has Q id (store_live (stop_live false answers l m.host) m)
  unfolding store_live
  stopped-Has answers id m l found =
      let after = stop_live false answers l m.host in
      let named : after.0.id ≡ id =
        stop_live-id false answers l m.host ∙ get_live-id id m.live l found in
      let back : get_live id (put_live after.0 m.live) ≡ some after.0 =
        subst (λ i. get_live i (put_live after.0 m.live) ≡ some after.0) named
          (get_live-put_live_same after.0 l m.live (rw named found)) in
      (after.0, back, stops false answers l m.host)

  stop_one-Has :
      (answers : InstanceId → StopAnswers) (id : InstanceId) (m : RuntimeManager) (l : LiveInstance)
      (a : Adapter)
      → get_live id m.live ≡ some l
      → find_adapter id.kind m.adapters ≡ some a
      → Has Q id (stop_one answers id m)
  unfolding stop_one stop_found
  stop_one-Has answers id m l a found there =
      let here : find_adapter l.id.kind m.adapters ≡ some a =
        rw (get_live-id id m.live l found) there in
      rw (found, stop_one, here, stop_found) (stopped-Has (answers id) id m l found)

  -- The turn of any instance keeps the property of another.
  stop_one-keeps :
      (answers : InstanceId → StopAnswers) (id other : InstanceId) (m : RuntimeManager)
      → Has Q id m
      → Has Q id (stop_one answers other m)
  unfolding stop_one stop_found store_live
  stop_one-keeps answers id other m h = elim (Option-cases (get_live other m.live)) [
    | inl e ↦ rw (e, stop_one) h
    | inr (l, e) ↦ elim (Option-cases (find_adapter l.id.kind m.adapters)) [
      | inl f ↦ rw (e, stop_one, f, stop_found) h
      | inr (a, f) ↦ elim (Bool-cases (id_eq other id)) [
        | inl same ↦
            let found : get_live id m.live ≡ some l = rw (← (id_eq_iff other id).0 same) e in
            rw (e, stop_one, f, stop_found) (stopped-Has (answers other) id m l found)
        | inr differ ↦
            let named =
              stop_live-id false (answers other) l m.host ∙ get_live-id other m.live l e in
            rw (e, stop_one, f, stop_found)
              (h.0, get_live-put_live_other id _ m.live (rw named differ) ∙ h.1, h.2)
      ]
    ]
  ]

  stop_each-keeps :
      (answers : InstanceId → StopAnswers) (ls : List LiveInstance) (id : InstanceId)
      (m : RuntimeManager)
      → Has Q id m
      → Has Q id (stop_each answers ls m)
  unfolding stop_each
  stop_each-keeps answers [] id m h = h
  stop_each-keeps answers (x ∷ xs) id m h =
      stop_each-keeps answers xs id (stop_one answers x.id m) (stop_one-keeps answers id x.id m h)

abbrev Present : InstanceId → RuntimeManager → Type 0
Present = Has (λ l. Unit)

abbrev Down : InstanceId → RuntimeManager → Type 0
Down = Has (λ l. is_down l.runtime.state ≡ true)

pub stop_each-Down :
    (answers : InstanceId → StopAnswers) (ls : List LiveInstance) (id : InstanceId)
    (m : RuntimeManager) (x : LiveInstance) (a : Adapter)
    → get_live id ls ≡ some x
    → Present id m
    → find_adapter id.kind m.adapters ≡ some a
    → Down id (stop_each answers ls m)
unfolding stop_each get_live
stop_each-Down answers [] id m x a listed here there = cc
stop_each-Down answers (y ∷ ys) id m x a listed here there = elim (Bool-cases (id_eq y.id id)) [
  | inl hit ↦
      let named : y.id ≡ id = (id_eq_iff y.id id).0 hit in
      let down : Down id (stop_one answers y.id m) =
        subst (λ i. Down id (stop_one answers i m)) (sym named)
          (stop_one-Has (λ l. is_down l.runtime.state ≡ true) stop_live-is_down answers id m here.0
            a here.1 there) in
      stop_each-keeps (λ l. is_down l.runtime.state ≡ true) stop_live-is_down answers ys id _ down
  | inr miss ↦
      stop_each-Down answers ys id (stop_one answers y.id m) x a (ground arith)
        (stop_one-keeps (λ l. Unit) (λ force b l host. tt) answers id y.id m here)
        (rw (stop_one-adapters answers y.id m) there)
]

-- After a shutdown every live instance whose kind has an adapter is `Stopped` or `Failed`, however
-- many there are and whatever the stops met.
pub shutdown_all_down :
    (answers : InstanceId → StopAnswers) (m : RuntimeManager) (id : InstanceId) (l : LiveInstance)
    (a : Adapter)
    → get_live id m.live ≡ some l
    → find_adapter id.kind m.adapters ≡ some a
    → (q : LiveInstance) × (get_live id (shutdown_all answers m).live ≡ some q)
      × (is_down q.runtime.state ≡ true)
unfolding shutdown_all
shutdown_all_down answers m id l a found there =
    stop_each-Down answers m.live id m l a found (l, found, tt) there
