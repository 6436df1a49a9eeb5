-- ===== src/Orchestrator/Sweep/Reconcile.antt =====
-- What `reconcile_on_startup` leaves in `runtime_instances`.
use cloud_desk_os.Prelude.{
  ℕ, ◌+◌, ◌≡◌, refl, sym, Bool, true, false, not, ◌||◌, ◌&&◌, some, List, [], ◌∷◌, arith,
  Bool-cases, inl, inr, All, All-imp, any,
}
use cloud_desk_os.Prelude.Table.{update_where, count_where, All-update_where}
use cloud_desk_os.Orchestrator.Model.{
  InstanceId, Persistence, failed, id_eq, id_eq_iff, is_terminal_for_reconciliation, persistent,
  ephemeral,
}
use cloud_desk_os.Orchestrator.Store.{InstanceRow, has_id, set_state, update_row, list_all}
use cloud_desk_os.Orchestrator.Instance.{Host}
use cloud_desk_os.Orchestrator.Sweep.{reconcile_row, reconcile_rows, reconcile_on_startup}

abbrev pub is_settled : InstanceRow → Bool
is_settled r = is_terminal_for_reconciliation r.state

-- A row to come that the loop will settle, with the identifier `id`.
abbrev awaits : InstanceId → InstanceRow → Bool
awaits id q = not (is_settled q) && id_eq q.id id

-- Each row is settled, or will be.
abbrev Pending : List InstanceRow → InstanceRow → Type 0
Pending rows r = (is_settled r || any (awaits r.id) rows) ≡ true

abbrev settled_row : ℕ → InstanceRow → InstanceRow
settled_row t r = record r {
  state = failed;
  failure_message = some "reconciled after restart";
  updated_at = t;
}

reconcile_row-rows :
    (t : ℕ) (row : InstanceRow) (host : Host)
    → (reconcile_row t row host).store.rows
      ≡ update_where (has_id row.id) (settled_row t) host.store.rows
unfolding reconcile_row set_state update_row
reconcile_row-rows t row host = by_kind row.persistence
  where
    settled : Host
    settled = record host {
      store = record (host.store) {
        rows = update_where (has_id row.id) (settled_row t) host.store.rows;
      };
    }

    by_kind :
        (p : Persistence)
        → (elim p as (λ x. Host) [
          | persistent ↦ settled
          | ephemeral ↦ record settled { cleaned = row.id ∷ host.cleaned }
        ]).store.rows
          ≡ update_where (has_id row.id) (settled_row t) host.store.rows
    by_kind persistent = refl
    by_kind ephemeral = refl

differs : (a b : InstanceId) → id_eq b a ≡ false → id_eq a b ≡ false
differs a b h = elim (Bool-cases (id_eq a b)) [
  | inr e ↦ e
  | inl e ↦ (let back : id_eq b a ≡ true = (id_eq_iff b a).1 (sym ((id_eq_iff a b).0 e)) in cc)
]

reconcile_row-Pending :
    (t : ℕ) (row : InstanceRow) (rows : List InstanceRow) (host : Host)
    → All (Pending (row ∷ rows)) host.store.rows
    → All (Pending rows) (reconcile_row t row host).store.rows
unfolding any is_terminal_for_reconciliation
reconcile_row-Pending t row rows host h = rw (reconcile_row-rows t row host) (
    All-update_where (Pending (row ∷ rows)) (Pending rows) (has_id row.id) (settled_row t)
      host.store.rows (λ r hit. refl)
      (λ r miss pending. let apart = differs row.id r.id miss in ground arith) h)

reconcile_rows-settles :
    (t n : ℕ) (rows : List InstanceRow) (host : Host)
    → All (Pending rows) host.store.rows
    → All (λ r. is_settled r ≡ true) (reconcile_rows t rows (n, host)).1.store.rows
unfolding reconcile_rows any
reconcile_rows-settles t n [] host h =
    All-imp (Pending []) (λ r. is_settled r ≡ true) host.store.rows (λ r p. ground arith) h
reconcile_rows-settles t n (row ∷ rows) host h = elim (Bool-cases (is_settled row)) [
  | inl e ↦
      rw (e, reconcile_rows)
        (reconcile_rows-settles t n rows host
          (All-imp (Pending (row ∷ rows)) (Pending rows) host.store.rows (λ r p. ground arith) h))
  | inr e ↦
      rw (e, reconcile_rows)
        (reconcile_rows-settles t (n + 1) rows _ (reconcile_row-Pending t row rows host h))
]

reconcile_rows-count :
    (t n : ℕ) (rows : List InstanceRow) (host : Host)
    → (reconcile_rows t rows (n, host)).0 ≡ n + count_where (λ r. not (is_settled r)) rows
unfolding reconcile_rows count_where
reconcile_rows-count t n [] host = omega arith
reconcile_rows-count t n (row ∷ rows) host = elim (Bool-cases (is_settled row)) [
  | inl e ↦ rw (e, reconcile_rows) (reconcile_rows-count t n rows host)
  | inr e ↦
      rw (e, reconcile_rows)
        (omega (arith, reconcile_rows-count t (n + 1) rows (reconcile_row t row host)))
]

reconcile_rows-idle :
    (t : ℕ) (rows : List InstanceRow) (host : Host)
    → All (λ r. is_settled r ≡ true) rows
    → reconcile_rows t rows (0, host) ≡ (0, host)
unfolding reconcile_rows
reconcile_rows-idle t [] host h = refl
reconcile_rows-idle t (row ∷ rows) host h =
    rw (h.0, reconcile_rows) (reconcile_rows-idle t rows host h.1)

All-Pending : (rows : List InstanceRow) → All (Pending rows) rows
unfolding any
All-Pending [] = tt
All-Pending (x ∷ xs) = (
  (let self : id_eq x.id x.id ≡ true = (id_eq_iff x.id x.id).1 refl in ground arith),
  All-imp (Pending xs) (Pending (x ∷ xs)) xs (λ r p. ground arith) (All-Pending xs),
)

-- After the reconciliation at startup every stored row is `Stopped`, `Failed` or `Disabled`, and the
-- answer counts the rows that were not; so a second one finds nothing to do.
pub reconcile_on_startup_settles :
    (t t' : ℕ) (host : Host)
    → let (n, host') = reconcile_on_startup t host in
      (n ≡ count_where (λ r. not (is_settled r)) host.store.rows)
      × All (λ r. is_settled r ≡ true) host'.store.rows
      × (reconcile_on_startup t' host' ≡ (0, host'))
unfolding reconcile_on_startup list_all
reconcile_on_startup_settles t t' host =
    let settled = reconcile_rows-settles t 0 host.store.rows host (All-Pending host.store.rows) in
    (
      omega (arith, reconcile_rows-count t 0 host.store.rows host),
      settled,
      reconcile_rows-idle t' _ _ settled,
    )
