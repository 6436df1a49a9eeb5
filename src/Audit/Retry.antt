-- ===== src/Audit/Retry.antt =====
-- The loop of `append` around a database that may be locked.
use cloud_desk_os.Prelude.{
  subst, [], ◌∷◌, ◌++◌, length, Bool, true, false, ℕ, zero, suc, ◌+◌, ◌<◌, ◌≤◌, ◌≡◌, refl, ap, ◌∙◌,
  sym, arith, ◌⊎◌, ◌↔◌, inl, inr, ok, err,
}
use cloud_desk_os.Audit.Event.{NewAuditEvent, Format}
use cloud_desk_os.Audit.Chain.{
  Log, AuditReceipt, AuditResult, AuditError, database, serialization, append_in_transaction,
  append_loop, append, and_then, event_row, Answer, done, busy, broken, Try, TryResult, retryable,
  fatal, transaction, end_try,
}

-- A try that stores the event: everything is done.
pub record Stores (t : Try) : Type 0 where
  pub begun : t.begins ≡ done
  pub locked : t.locks_head ≡ done
  pub read : t.reads_head ≡ done
  pub serialized : t.serializes ≡ true
  pub inserted : t.inserts ≡ done
  pub moved : t.moves_head ≡ done
  pub committed : t.commits ≡ done

-- A statement is busy, and all before it are done.
abbrev pub HasBusyStatement : Try → Type 0
HasBusyStatement t =
    (t.locks_head ≡ busy)
    ⊎ ((t.locks_head ≡ done)
        × ((t.reads_head ≡ busy)
            ⊎ ((t.reads_head ≡ done)
                × (t.serializes ≡ true)
                × ((t.inserts ≡ busy) ⊎ ((t.inserts ≡ done) × (t.moves_head ≡ busy))))))

-- A try that is made again.
abbrev pub IsBusy : Try → Type 0
IsBusy t = (t.begins ≡ done) × HasBusyStatement t

module _ (format : Format) (tries : ℕ → Try) (event : NewAuditEvent) (log : Log) where
  abbrev Stored : AuditResult AuditReceipt × Log → Type 0
  Stored after =
      after
      ≡ (ok (append_in_transaction format event log).0, (append_in_transaction format event log).1)

  -- What the statements of a try come to.
  data Comes (t : Try) : TryResult → Type 0 where
    comes_to_stop : (e : AuditError) (work : Log) → Comes t (err (fatal e), work)
    comes_to_wait : (work : Log) → HasBusyStatement t → Comes t (err retryable, work)
    comes_to_store :
        t.locks_head ≡ done
        → t.reads_head ≡ done
        → t.serializes ≡ true
        → t.inserts ≡ done
        → t.moves_head ≡ done
        → Comes t (
          ok (append_in_transaction format event log).0,
          (append_in_transaction format event log).1,
        )

  transaction-Comes : (t : Try) → Comes t (transaction format t event log)
  unfolding transaction and_then append_in_transaction
  transaction-Comes t =
      by_answers t.locks_head t.reads_head t.serializes t.inserts t.moves_head refl refl refl refl
        refl
    where
      inserted : Log
      inserted = record log {
        rows = log.rows ++ event_row format (length log.rows + 1) log.last_hash event ∷ [];
      }

      same_as :
          (r : TryResult)
          → transaction format t event log ≡ r
          → Comes t r
          → Comes t (transaction format t event log)
      same_as r e c = subst (Comes t) (sym e) c

      by_answers :
          (a b : Answer) (s : Bool) (c d : Answer)
          → t.locks_head ≡ a
          → t.reads_head ≡ b
          → t.serializes ≡ s
          → t.inserts ≡ c
          → t.moves_head ≡ d
          → Comes t (transaction format t event log)
      by_answers busy b s c d ea eb es ec ed =
          same_as (err retryable, log) (rw (ea, transaction)) (comes_to_wait log (inl ea))
      by_answers broken b s c d ea eb es ec ed =
          same_as (err (fatal database), log) (rw (ea, transaction)) (comes_to_stop database log)
      by_answers done busy s c d ea eb es ec ed =
          same_as (err retryable, log) (rw (ea, eb, transaction))
            (comes_to_wait log (inr (ea, inl eb)))
      by_answers done broken s c d ea eb es ec ed =
          same_as (err (fatal database), log) (rw (ea, eb, transaction))
            (comes_to_stop database log)
      by_answers done done false c d ea eb es ec ed =
          same_as (err (fatal serialization), log) (rw (ea, eb, es, transaction))
            (comes_to_stop serialization log)
      by_answers done done true busy d ea eb es ec ed =
          same_as (err retryable, log) (rw (ea, eb, es, ec, transaction))
            (comes_to_wait log (inr (ea, inr (eb, es, inl ec))))
      by_answers done done true broken d ea eb es ec ed =
          same_as (err (fatal database), log) (rw (ea, eb, es, ec, transaction))
            (comes_to_stop database log)
      by_answers done done true done busy ea eb es ec ed =
          same_as (err retryable, inserted) (rw (ea, eb, es, ec, ed, transaction))
            (comes_to_wait inserted (inr (ea, inr (eb, es, inr (ec, ed)))))
      by_answers done done true done broken ea eb es ec ed =
          same_as (err (fatal database), inserted) (rw (ea, eb, es, ec, ed, transaction))
            (comes_to_stop database inserted)
      by_answers done done true done done ea eb es ec ed =
          same_as
            (
              ok (append_in_transaction format event log).0,
              (append_in_transaction format event log).1,
            )
            (rw (ea, eb, es, ec, ed, transaction)) (comes_to_store ea eb es ec ed)

  append_loop-waits :
      (left k : ℕ)
      → IsBusy (tries k)
      → append_loop format (suc left) tries k event log
        ≡ append_loop format left tries (suc k) event log
  unfolding append_loop transaction and_then end_try
  append_loop-waits left k (begun, inl a) = rw (begun, a, append_loop)
  append_loop-waits left k (begun, inr (a, inl b)) = rw (begun, a, b, append_loop)
  append_loop-waits left k (begun, inr (a, inr (b, s, inl c))) = rw (begun, a, b, s, c, append_loop)
  append_loop-waits left k (begun, inr (a, inr (b, s, inr (c, d)))) =
      rw (begun, a, b, s, c, d, append_loop)

  append_loop-Stores :
      (left k : ℕ) → Stores (tries k) → Stored (append_loop format (suc left) tries k event log)
  unfolding append_loop transaction and_then end_try append_in_transaction
  append_loop-Stores left k h =
      rw (h.begun, h.locked, h.read, h.serialized, h.inserted, h.moved, h.committed, append_loop)

  -- One try that commits, after fewer busy ones than are allowed.
  append_loop-commits :
      (left k n : ℕ)
      → ((i : ℕ) → k ≤ i → i < k + n → IsBusy (tries i))
      → Stores (tries (k + n))
      → n < left
      → Stored (append_loop format left tries k event log)
  append_loop-commits zero k n waits last h = absurd (omega arith)
  append_loop-commits (suc left) k zero waits last h =
      append_loop-Stores left k (subst (λ i. Stores (tries i)) (omega arith) last)
  append_loop-commits (suc left) k (suc n) waits last h =
      rw (append_loop-waits left k (waits k (omega arith) (omega arith))) (
        append_loop-commits left (suc k) n (λ i above below. waits i (omega arith) (omega arith))
          (subst (λ i. Stores (tries i)) (omega arith) last) (omega arith))

  -- The try that stores the event, if one does.
  record FirstStore (left k : ℕ) : Type 0 where
    tried : ℕ
    few : tried < left
    waits : (i : ℕ) → k ≤ i → i < k + tried → IsBusy (tries i)
    stores : Stores (tries (k + tried))

  FirstStore-later :
      (left k : ℕ) → IsBusy (tries k) → FirstStore left (suc k) → FirstStore (suc left) k
  FirstStore-later left k h f = record {
    tried = suc f.tried;
    few = omega (arith, f.few);
    waits = λ i above below. elim (split i above) [
      | inl e ↦ subst (λ i. IsBusy (tries i)) e h
      | inr later ↦ f.waits i later (omega arith)
    ];
    stores = subst (λ i. Stores (tries i)) (omega arith) f.stores;
  }
    where
      split : (i : ℕ) → k ≤ i → (k ≡ i) ⊎ (suc k ≤ i)
      split i above = ground arith

  -- A call that fails and leaves the log as it was.
  abbrev Fails : AuditResult AuditReceipt × Log → Type 0
  Fails after = (e : AuditError) × (after ≡ (err e, log))

  append_loop-cases :
      (left k : ℕ) → FirstStore left k ⊎ Fails (append_loop format left tries k event log)
  unfolding append_loop end_try
  append_loop-cases zero k = inr (database, refl)
  append_loop-cases (suc left) k =
      by_answers (tries k).begins (transaction format (tries k) event log) (tries k).commits refl
        refl refl (transaction-Comes (tries k)) (append_loop-cases left (suc k))
    where
      by_answers :
          (a : Answer) (b : TryResult) (c : Answer)
          → (tries k).begins ≡ a
          → transaction format (tries k) event log ≡ b
          → (tries k).commits ≡ c
          → Comes (tries k) b
          → FirstStore left (suc k) ⊎ Fails (append_loop format left tries (suc k) event log)
          → FirstStore (suc left) k ⊎ Fails (append_loop format (suc left) tries k event log)
      by_answers busy b c ea eb ec comes ih = inr (database, rw (append_loop, ea))
      by_answers broken b c ea eb ec comes ih = inr (database, rw (append_loop, ea))
      by_answers done b c ea eb ec (comes_to_stop e work) ih = inr (e, rw (append_loop, ea, eb))
      by_answers done b busy ea eb ec (comes_to_store l r s i m) ih =
          inr (database, rw (append_loop, ea, eb, ec))
      by_answers done b broken ea eb ec (comes_to_store l r s i m) ih =
          inr (database, rw (append_loop, ea, eb, ec))
      by_answers done b done ea eb ec (comes_to_store l r s i m) ih = inl (record {
        tried = 0;
        few = omega arith;
        waits = λ i above below. absurd (omega arith);
        stores =
            subst (λ i. Stores (tries i)) (omega arith)
              (record {
                begun = ea;
                locked = l;
                read = r;
                serialized = s;
                inserted = i;
                moved = m;
                committed = ec;
              });
      })
      by_answers done b c ea eb ec (comes_to_wait work w) (inl f) =
          inl (FirstStore-later left k (ea, w) f)
      by_answers done b c ea eb ec (comes_to_wait work w) (inr (e, same)) =
          inr (e, append_loop-waits left k (ea, w) ∙ same)

  -- A try that commits after at most 30 busy ones is reached.
  append_waits :
      (n : ℕ)
      → n ≤ 30
      → ((i : ℕ) → i < n → IsBusy (tries i))
      → Stores (tries n)
      → Stored (append format tries event log)
  unfolding append
  append_waits n few waits last =
      append_loop-commits 31 0 n (λ i above below. waits i (omega arith))
        (subst (λ i. Stores (tries i)) (omega arith) last) (omega arith)

  -- `append` either stores the event, once and with its receipt, or fails and leaves the log as it
  -- was, also where a try inserted the row before it broke off; and it stores the event exactly if
  -- some try, the 31st at the latest, finds everything done and the texts written, and in every try
  -- before it `begin` was done, a statement busy, and all before that done. Any other failure ends
  -- the call.
  pub append_once :
      let (receipt, log') = append_in_transaction format event log in
      ((append format tries event log ≡ (ok receipt, log'))
        ⊎ ((e : AuditError) × (append format tries event log ≡ (err e, log))))
      × ((append format tries event log ≡ (ok receipt, log'))
          ↔ ((n : ℕ) × (n ≤ 30) × ((i : ℕ) → i < n → IsBusy (tries i)) × Stores (tries n)))
  unfolding append
  append_once = (either, (some_try, λ w. append_waits w.0 w.1 w.2 w.3))
    where
      as_stored :
          FirstStore 31 0
          → (n : ℕ) × (n ≤ 30) × ((i : ℕ) → i < n → IsBusy (tries i)) × Stores (tries n)
      as_stored f = (
        f.tried,
        omega (arith, f.few),
        λ i below. f.waits i (omega arith) (omega arith),
        subst (λ i. Stores (tries i)) (omega arith) f.stores,
      )

      either : Stored (append format tries event log) ⊎ Fails (append format tries event log)
      either = elim (append_loop-cases 31 0) [
        | inl f ↦ let w = as_stored f in inl (append_waits w.0 w.1 w.2 w.3)
        | inr e ↦ inr e
      ]

      unequal :
          (e : AuditError)
          → ¬ (
              ◌≡◌ {A = AuditResult AuditReceipt}
                (ok (append_in_transaction format event log).0)
                (err e))
      unequal e p = cc

      some_try :
          Stored (append format tries event log)
          → (n : ℕ) × (n ≤ 30) × ((i : ℕ) → i < n → IsBusy (tries i)) × Stores (tries n)
      some_try h = elim (append_loop-cases 31 0) [
        | inl f ↦ as_stored f
        | inr (e, same) ↦
            absurd (unequal e (ap (λ (x : AuditResult AuditReceipt × Log). x.0) (sym h ∙ same)))
      ]
