-- ===== src/Orchestrator/Start/Ready.antt =====
-- The readiness loop of `start_instance`.
use cloud_desk_os.Prelude.{
  ℕ, zero, suc, ◌+◌, ◌*◌, ◌/◌, ◌≤◌, ◌<◌, ◌≡◌, ◌≢◌, ◌↔◌, refl, sym, ap, subst, Bool, true, false,
  Option, none, some, leb, arith, Bool-cases, inl, inr, ◌⊎◌,
}
use cloud_desk_os.Orchestrator.Model.{ResourcePolicy}
use cloud_desk_os.Orchestrator.Instance.{HealthStatus, ready, not_ready_yet, unhealthy_now, Answers}
use cloud_desk_os.Orchestrator.Start.{wait_ready, poll_fuel, poll_interval, becomes_ready}

HealthStatus-cases : (s : HealthStatus) → (s ≡ ready) ⊎ ((s ≡ not_ready_yet) ⊎ (s ≡ unhealthy_now))
HealthStatus-cases ready = inl refl
HealthStatus-cases not_ready_yet = inr (inl refl)
HealthStatus-cases unhealthy_now = inr (inr refl)

-- The instance is ready at report `n`, and every report before was early and undecided.
pub record IsReadyAt (health : ℕ → HealthStatus) (clock : ℕ → ℕ) (deadline from n : ℕ)
    : Type 0 where
  pub reached : from ≤ n
  pub ready_then : health n ≡ ready
  pub waits : (i : ℕ) → from ≤ i → i < n → (health i ≡ not_ready_yet) × (clock i < deadline)

module _ (health : ℕ → HealthStatus) (clock : ℕ → ℕ) (deadline : ℕ) where
  wait_ready-ends :
      (fuel i : ℕ)
      → ((j : ℕ) → clock j + poll_interval ≤ clock (suc j))
      → deadline ≤ clock i + poll_interval * fuel
      → wait_ready (suc fuel) health clock deadline i ≢ none
  unfolding wait_ready
  wait_ready-ends zero i ticks enough = elim (HealthStatus-cases (health i)) [
    | inl e ↦ rw (e, wait_ready) (λ p. cc)
    | inr (inr e) ↦ rw (e, wait_ready) (λ p. cc)
    | inr (inl e) ↦
        let late : leb deadline (clock i) ≡ true = ground arith in
        rw (e, wait_ready, late) (λ p. cc)
  ]
  wait_ready-ends (suc fuel) i ticks enough = elim (HealthStatus-cases (health i)) [
    | inl e ↦ rw (e, wait_ready) (λ p. cc)
    | inr (inr e) ↦ rw (e, wait_ready) (λ p. cc)
    | inr (inl e) ↦ elim (Bool-cases (leb deadline (clock i))) [
      | inl late ↦ rw (e, wait_ready, late) (λ p. cc)
      | inr early ↦
          rw (e, wait_ready, early) (wait_ready-ends fuel (suc i) ticks (omega (arith, ticks i)))
    ]
  ]

  -- A report that is early and undecided comes before one that is ready.
  IsReadyAt-before :
      (i n : ℕ)
      → health i ≡ not_ready_yet
      → clock i < deadline
      → IsReadyAt health clock deadline (suc i) n
      → IsReadyAt health clock deadline i n
  IsReadyAt-before i n undecided early r = record {
    reached = omega (arith, r.reached);
    ready_then = r.ready_then;
    waits = λ j above below. elim (split j above) [
      | inl e ↦ rw (← e) (undecided, early)
      | inr later ↦ r.waits j later below
    ];
  }
    where
      split : (j : ℕ) → i ≤ j → (i ≡ j) ⊎ (suc i ≤ j)
      split j above = ground arith

  wait_ready-IsReadyAt :
      (fuel i : ℕ)
      → wait_ready fuel health clock deadline i ≡ some true
      → (n : ℕ) × IsReadyAt health clock deadline i n
  unfolding wait_ready
  wait_ready-IsReadyAt zero i h = cc
  wait_ready-IsReadyAt (suc fuel) i h = elim (HealthStatus-cases (health i)) [
    | inl e ↦ (
      i,
      record {
        reached = omega arith;
        ready_then = e;
        waits = λ j above below. absurd (omega arith);
      },
    )
    | inr (inr e) ↦ absurd (ground (arith, e, h))
    | inr (inl e) ↦ elim (Bool-cases (leb deadline (clock i))) [
      | inl late ↦ absurd (ground (arith, e, late, h))
      | inr early ↦
          let (n, r) = wait_ready-IsReadyAt fuel (suc i) (ground (arith, e, early, h)) in
          (n, IsReadyAt-before i n e (ground arith) r)
    ]
  ]

  IsReadyAt-wait_ready :
      (fuel i n : ℕ)
      → IsReadyAt health clock deadline i n
      → n < i + fuel
      → wait_ready fuel health clock deadline i ≡ some true
  unfolding wait_ready
  IsReadyAt-wait_ready zero i n r within = absurd (omega (arith, r.reached))
  IsReadyAt-wait_ready (suc fuel) i n r within = elim (here_or_later r.reached) [
    | inl e ↦
        let at : health i ≡ ready = subst (λ k. health k ≡ ready) (sym e) r.ready_then in
        rw (at, wait_ready)
    | inr later ↦
        let (undecided, before) = r.waits i (omega arith) later in
        let early : leb deadline (clock i) ≡ false = ground arith in
        rw (undecided, wait_ready, early)
          (IsReadyAt-wait_ready fuel (suc i) n
            (record {
              reached = later;
              ready_then = r.ready_then;
              waits = λ j above below. r.waits j (omega arith) below;
            })
            (omega arith))
  ]
    where
      here_or_later : i ≤ n → (i ≡ n) ⊎ (i < n)
      here_or_later h = ground arith

-- `none ↦ false`
answered :
    (o : Option Bool) → (elim o as (λ x. Bool) [ none ↦ false | some b ↦ b ]) ≡ true → o ≡ some true
answered none h = cc
answered (some b) h = ap some h

module _ (waits_from : ℕ) (clock : ℕ → ℕ) (begins : waits_from ≤ clock 0)
    (ticks : (j : ℕ) → clock j + poll_interval ≤ clock (suc j)) where
  clock-ge : (m : ℕ) → waits_from + poll_interval * m ≤ clock m
  clock-ge zero = omega (arith, begins)
  clock-ge (suc m) = omega (arith, clock-ge m, ticks m)

  IsReadyAt-lt_fuel :
      (health : ℕ → HealthStatus) (policy : ResourcePolicy) (n : ℕ)
      → IsReadyAt health clock (waits_from + policy.start_timeout + policy.health_timeout) 0 n
      → n < 0 + poll_fuel policy
  IsReadyAt-lt_fuel health policy zero r = omega arith
  IsReadyAt-lt_fuel health policy (suc m) r =
      let (undecided, early) = r.waits m (omega arith) (omega arith) in omega (arith, clock-ge m)

-- The polls that `poll_fuel` allows are enough, if the clock after the first report reads no less than
-- when the wait began, and the readings after two reports are at least 150 ms apart: the wait has
-- an answer, and it is that the instance became ready exactly if some report is ready, with every
-- report before it undecided and followed by a reading before the deadline.
pub becomes_ready_iff :
    (policy : ResourcePolicy) (answers : Answers)
    → answers.waits_from ≤ answers.clock 0
    → ((j : ℕ) → answers.clock j + poll_interval ≤ answers.clock (suc j))
    → let deadline = answers.waits_from + policy.start_timeout + policy.health_timeout in
      (wait_ready (poll_fuel policy) answers.health answers.clock deadline 0 ≢ none)
      × ((becomes_ready policy answers ≡ true)
          ↔ ((n : ℕ) × IsReadyAt answers.health answers.clock deadline 0 n))
unfolding becomes_ready
becomes_ready_iff policy answers begins ticks = (
  subst (λ fuel. wait_ready fuel answers.health answers.clock deadline 0 ≢ none) (omega arith)
      (wait_ready-ends answers.health answers.clock deadline
        ((policy.start_timeout + policy.health_timeout) / poll_interval + 1) 0 ticks
        (omega (arith, begins))),
  (
    λ h.
        wait_ready-IsReadyAt answers.health answers.clock deadline (poll_fuel policy) 0
          (answered _ h),
    λ r.
        let waited =
          IsReadyAt-wait_ready answers.health answers.clock deadline (poll_fuel policy) 0 r.0 r.1 (
            IsReadyAt-lt_fuel answers.waits_from answers.clock begins ticks answers.health policy
              r.0 r.1) in
        rw (waited, becomes_ready),
  ),
)
  where
    deadline : ℕ
    deadline = answers.waits_from + policy.start_timeout + policy.health_timeout
