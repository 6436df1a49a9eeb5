-- ===== src/Transfers/Recovery.antt =====
-- `recover_interrupted` after a restart of the service.
use cloud_desk_os.Prelude.{
  ℕ, zero, suc, ◌+◌, ◌≡◌, refl, ap, ◌∙◌, true, false, some, [], ◌∷◌, if◌then◌else◌, arith, All,
}
use cloud_desk_os.Prelude.Table.{update_where, count_where, find_where}
use cloud_desk_os.Transfers.Endpoint.{Bytes}
use cloud_desk_os.Transfers.Names.{queued, state_eq}
use cloud_desk_os.Transfers.Rows.{Row, Rows}
use cloud_desk_os.Transfers.Queue.{has_id, is_running, recover_interrupted, claim_id, is_due}
use cloud_desk_os.Transfers.Find.{find-update_where}

abbrev pub requeue_row : Bytes → ℕ → Row → Row
requeue_row message t r = record r {
  state = queued;
  next_attempt_at = t;
  updated_at = t;
  last_error = some message;
}

none_running :
    (f : Row → Row) (rows : Rows)
    → ((r : Row) → is_running (f r) ≡ false)
    → All (λ r. is_running r ≡ false) (update_where is_running f rows)
unfolding update_where
none_running f [] stops = tt
none_running f (r ∷ rs) stops = (ground (arith, stops r), none_running f rs stops)

-- After a restart no job is left running, and the answer counts those that were; a job that was
-- running is queued, due at once and with its attempts kept, any other stays as it was.
pub recover_interrupted_lem :
    (message : Bytes) (t : ℕ) (rows : Rows) (id : ℕ) (r : Row)
    → find_where (has_id id) rows ≡ some r
    → let (n, rows') = recover_interrupted message t rows in
      (n ≡ count_where is_running rows)
      × All (λ q. is_running q ≡ false) rows'
      × (find_where (has_id id) rows' ≡ some (if is_running r then requeue_row message t r else r))
unfolding recover_interrupted
recover_interrupted_lem message t rows id r found = (
  refl,
  none_running (requeue_row message t) rows (λ q. unfold state_eq in refl),
  rw (find-update_where id is_running (requeue_row message t) rows (λ q. refl), found),
)

-- A claim at time `t` that a crash cuts short, and the restart that follows.
abbrev pub crash_round : Bytes → ℕ → Rows → Rows
crash_round message t rows = (recover_interrupted message t (claim_id t rows).1).1

abbrev pub crash_rounds : Bytes → ℕ → ℕ → Rows → Rows
crash_rounds message t zero rows = rows
crash_rounds message t (suc n) rows = crash_rounds message t n (crash_round message t rows)

abbrev crashed : Bytes → ℕ → Row → Row
crashed message t r = record r {
  state = queued;
  attempts = r.attempts + 1;
  next_attempt_at = t;
  updated_at = t;
  last_error = some message;
}

crash_round_lem :
    (message : Bytes) (t : ℕ) (r : Row)
    → is_due t r ≡ true
    → crash_round message t (r ∷ []) ≡ crashed message t r ∷ []
unfolding claim_id recover_interrupted
crash_round_lem message t r due = ground arith

-- A crash is no failed attempt: a job that is alone in the queue is due again after any number of
-- claims that a restart interrupts, also when its attempts have long passed `max_transfer_attempts`.
pub crash_rounds_unbounded :
    (message : Bytes) (t n : ℕ) (r : Row)
    → is_due t r ≡ true
    → (q : Row) × (crash_rounds message t n (r ∷ []) ≡ q ∷ [])
      × (is_due t q ≡ true)
      × (q.attempts ≡ r.attempts + n)
crash_rounds_unbounded message t zero r due = (r, refl, due, omega arith)
crash_rounds_unbounded message t (suc n) r due =
    let (q, ends, still, count) =
      crash_rounds_unbounded message t n (crashed message t r) (unfold state_eq in ground arith) in
    (q, ap (crash_rounds message t n) (crash_round_lem message t r due) ∙ ends, still, omega arith)
