-- ===== src/Transfers/Moves.antt =====
-- The moves that a row of `transfer_jobs` may make, and what an update keeps of it.
use cloud_desk_os.Prelude.{
  ℕ, ◌≡◌, refl, sym, ◌∙◌, Bool, true, false, ◌&&◌, [], ◌∷◌, ◌==◌, if◌then◌else◌, arith, inl, inr,
  ◌⊎◌, ◌≢◌,
}
use cloud_desk_os.Prelude.Table.{update_where}
use cloud_desk_os.Transfers.Names.{
  TransferState, queued, running, paused, completed, failed, cancelled, state_eq,
}
use cloud_desk_os.Transfers.Rows.{Row, Rows}

-- The moves between states that the program means to allow; the rest are not moves.
pub data Move : TransferState → TransferState → Type 0 where
  stay : (s : TransferState) → Move s s
  claim : Move queued running
  finish : Move running completed
  give_up : Move running failed
  requeue : Move running queued
  retry_by_owner : Move failed queued
  pause_queued : Move queued paused
  pause_running : Move running paused
  resume : Move paused queued
  cancel_queued : Move queued cancelled
  cancel_running : Move running cancelled
  cancel_paused : Move paused cancelled

abbrev pub IsFinal : TransferState → Type 0
IsFinal s = (s ≡ completed) ⊎ (s ≡ cancelled)

-- A later version of a row: its state moved, what identifies the job stayed, and a row in a final
-- state did not change at all.
pub record Follows (r q : Row) : Type 0 where
  pub id : q.id ≡ r.id
  pub owner : q.owner_user_id ≡ r.owner_user_id
  pub source : q.source_json ≡ r.source_json
  pub destination : q.destination_json ≡ r.destination_json
  pub strategy : q.strategy ≡ r.strategy
  pub total : q.bytes_total ≡ r.bytes_total
  pub created : q.created_at ≡ r.created_at
  pub moved : Move r.state q.state
  pub frozen : IsFinal r.state → q ≡ r

pub Follows-refl : (r : Row) → Follows r r
Follows-refl r = record {
  id = refl;
  owner = refl;
  source = refl;
  destination = refl;
  strategy = refl;
  total = refl;
  created = refl;
  moved = stay r.state;
  frozen = λ f. refl;
}

-- The rows after an update are later versions of the rows before it, in order.
abbrev pub Evolves : Rows → Rows → Type 0
Evolves [] [] = Unit
Evolves [] (q ∷ qs) = ⊥
Evolves (r ∷ rs) [] = ⊥
Evolves (r ∷ rs) (q ∷ qs) = Follows r q × Evolves rs qs

pub Evolves-refl : (rs : Rows) → Evolves rs rs
Evolves-refl [] = tt
Evolves-refl (r ∷ rs) = (Follows-refl r, Evolves-refl rs)

-- An update whose rows each follow the row before it.
pub Evolves-update_where :
    (p : Row → Bool) (f : Row → Row) (rs : Rows)
    → ((r : Row) → p r ≡ true → Follows r (f r))
    → Evolves rs (update_where p f rs)
unfolding update_where
Evolves-update_where p f [] keep = tt
Evolves-update_where p f (r ∷ rs) keep = (one (p r) refl, Evolves-update_where p f rs keep)
  where
    one : (b : Bool) → p r ≡ b → Follows r (if b then f r else r)
    one true e = keep r e
    one false e = Follows-refl r

-- A row that is changed by an update follows it if its state moves and is not final.
abbrev pub SameJob : Row → Row → Type 0
SameJob r q =
    (q.id ≡ r.id)
    × (q.owner_user_id ≡ r.owner_user_id)
    × (q.source_json ≡ r.source_json)
    × (q.destination_json ≡ r.destination_json)
    × (q.strategy ≡ r.strategy)
    × (q.bytes_total ≡ r.bytes_total)
    × (q.created_at ≡ r.created_at)

pub Follows-of_Move :
    (r q : Row) → SameJob r q → Move r.state q.state → ¬ IsFinal r.state → Follows r q
Follows-of_Move r q s m live = record {
  id = s.0;
  owner = s.1;
  source = s.2;
  destination = s.3;
  strategy = s.4;
  total = s.5;
  created = s.6;
  moved = m;
  frozen = λ f. absurd (live f);
}

abbrev pub same_job : (r : Row) → SameJob r r
same_job r = (refl, refl, refl, refl, refl, refl, refl)

-- How a state test is read.
pub state_eq-eq : (s t : TransferState) → state_eq s t ≡ true → s ≡ t
unfolding state_eq
state_eq-eq queued t h = ground arith
state_eq-eq running t h = ground arith
state_eq-eq paused t h = ground arith
state_eq-eq completed t h = ground arith
state_eq-eq failed t h = ground arith
state_eq-eq cancelled t h = ground arith

pub not-IsFinal : (s t : TransferState) → s ≡ t → (t ≢ completed) → (t ≢ cancelled) → ¬ IsFinal s
not-IsFinal s t e h k (inl f) = h (sym e ∙ f)
not-IsFinal s t e h k (inr f) = k (sym e ∙ f)

-- The common case: an update of the running rows into the state `t`.
pub running_moves :
    (r q : Row) (t : TransferState)
    → r.state ≡ running
    → q.state ≡ t
    → SameJob r q
    → Move running t
    → Follows r q
running_moves r q t e f s m =
    Follows-of_Move r q s (rw (e, f) m) (not-IsFinal r.state running e (λ x. cc) (λ x. cc))

pub running_of_in_state :
    (id : ℕ) (r : Row) → (r.id == id && state_eq r.state running) ≡ true → r.state ≡ running
running_of_in_state id r h = state_eq-eq r.state running (ground arith)
