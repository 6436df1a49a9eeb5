-- ===== src/Wopi/Exclusion.antt =====
-- What a lock protects.
use cloud_desk_os.Prelude.{
  ℕ, ◌<◌, ◌≡◌, ◌≢◌, refl, ◌∙◌, Bool, true, false, not, String, str_eq, eq_iff, Option, some, List,
  [], ◌∷◌, ltb, arith, All, Bool-cases, Option-cases, inl, inr, ◌⊎◌,
}
use cloud_desk_os.Prelude.Table.{find_where, update_where, select_where}
use cloud_desk_os.Wopi.Locks.{
  LockRow, Locks, is_file, get_lock, acquire_lock, refresh_lock, release_lock,
}
use cloud_desk_os.Wopi.Operation.{Request, answer, file_operation, max_wopi_lock_bytes}

module _ {ℓ} {R : Type ℓ} (p q : R → Bool) where
  find_where-update_where_apart :
      (f : R → R) (rs : List R)
      → ((r : R) → q r ≡ true → (p r ≡ false) × (p (f r) ≡ false))
      → find_where p (update_where q f rs) ≡ find_where p rs
  unfolding find_where update_where
  find_where-update_where_apart f [] apart = refl
  find_where-update_where_apart f (x ∷ xs) apart = elim (Bool-cases (q x)) [
    | inl e ↦ rw (e, (apart x e).0, (apart x e).1, find_where-update_where_apart f xs apart)
    | inr e ↦ rw (e, find_where-update_where_apart f xs apart)
  ]

  find_where-select_where :
      (rs : List R)
      → ((r : R) → p r ≡ true → q r ≡ true)
      → find_where p (select_where q rs) ≡ find_where p rs
  unfolding find_where select_where
  find_where-select_where [] keeps = refl
  find_where-select_where (x ∷ xs) keeps = elim (Bool-cases (q x)) [
    | inl e ↦ rw (e, find_where, find_where-select_where xs keeps)
    | inr e ↦
        let miss : p x ≡ false = ground (arith, keeps x) in
        rw (e, miss, find_where-select_where xs keeps)
  ]

-- The write of a request, if any.
answer-cases :
    (request : Request) (now : ℕ) (current : Option LockRow) (locks : Locks)
    → ((answer request now current locks).1 ≡ locks)
      ⊎ (((answer request now current locks).1
            ≡ acquire_lock request.file_id request.presented_lock request.user_id request.size
                request.mtime now locks)
          ⊎ (((answer request now current locks).1 ≡ refresh_lock request.file_id now locks)
              ⊎ ((answer request now current locks).1 ≡ release_lock request.file_id locks)))
unfolding answer
answer-cases request now current locks = ground arith

-- The row of a file, while requests are about another.
module _ (file other : String) (apart : str_eq other file ≡ false) where
  differs : (r : LockRow) → is_file other r ≡ true → is_file file r ≡ false
  differs r e = rw ((eq_iff r.file_id other).0 e) apart

  acquire_lock-apart :
      (value user : String) (size mtime now : ℕ) (locks : Locks)
      → find_where (is_file file) (acquire_lock other value user size mtime now locks)
        ≡ find_where (is_file file) locks
  unfolding acquire_lock
  acquire_lock-apart value user size mtime now locks =
      elim (Option-cases (find_where (is_file other) locks)) [
        | inl e ↦ rw (e, acquire_lock) (unfold find_where in rw apart)
        | inr (r, e) ↦
            rw (e, acquire_lock)
              (find_where-update_where_apart (is_file file) (is_file other) _ locks
                (λ r h. (differs r h, apart)))
      ]

  refresh_lock-apart :
      (now : ℕ) (locks : Locks)
      → find_where (is_file file) (refresh_lock other now locks) ≡ find_where (is_file file) locks
  unfolding refresh_lock
  refresh_lock-apart now locks =
      find_where-update_where_apart (is_file file) (is_file other) _ locks
        (λ r h. (differs r h, differs r h))

  release_lock-apart :
      (locks : Locks)
      → find_where (is_file file) (release_lock other locks) ≡ find_where (is_file file) locks
  unfolding release_lock
  release_lock-apart locks =
      find_where-select_where (is_file file) (λ r. not (is_file other r)) locks
        (λ r h. ground (arith, differs r))

  pub answer-apart :
      (request : Request) (now : ℕ) (current : Option LockRow) (locks : Locks)
      → request.file_id ≡ other
      → find_where (is_file file) (answer request now current locks).1
        ≡ find_where (is_file file) locks
  answer-apart request now current locks e = elim (answer-cases request now current locks) [
    | inl h ↦ rw h
    | inr (inl h) ↦
        rw (h, e)
          (acquire_lock-apart request.presented_lock request.user_id request.size request.mtime now
            locks)
    | inr (inr (inl h)) ↦ rw (h, e) (refresh_lock-apart now locks)
    | inr (inr (inr h)) ↦ rw (h, e) (release_lock-apart locks)
  ]

-- A request about the locked file itself, with another lock.
answer-refused :
    (request : Request) (now : ℕ) (l : LockRow) (locks : Locks)
    → str_eq l.lock_value request.presented_lock ≡ false
    → (answer request now (some l) locks).1 ≡ locks
unfolding answer
answer-refused request now l locks other = ground arith

-- One request leaves the row of a file that is locked with another value, and not expired.
file_operation-kept :
    (request : Request) (now : ℕ) (file : String) (l : LockRow) (locks : Locks)
    → find_where (is_file file) locks ≡ some l
    → now < l.expires_at
    → str_eq l.lock_value request.presented_lock ≡ false
    → find_where (is_file file) (file_operation request now locks).1 ≡ some l
unfolding file_operation
file_operation-kept request now file l locks found live other =
    elim (Bool-cases (ltb max_wopi_lock_bytes request.lock_bytes)) [
      | inl e ↦ rw e found
      | inr e ↦ elim (Bool-cases (str_eq request.file_id file)) [
        | inr f ↦ rw e (
            answer-apart file request.file_id f request now (get_lock request.file_id now locks)
              locks refl
            ∙ found)
        | inl f ↦
            let locked : get_lock request.file_id now locks ≡ some l =
              rw ((eq_iff request.file_id file).0 f)
                (unfold get_lock in ground (arith, found, live)) in
            rw (e, locked, answer-refused request now l locks other) found
      ]
    ]

-- Requests one after the other, with their times.
unfoldable pub run : List (Request × ℕ) → Locks → Locks
run [] locks = locks
run ((request, now) ∷ rs) locks = run rs (file_operation request now locks).1

-- While a file is locked, no sequence of requests that present other values takes, refreshes or
-- releases the lock: its row stays as it is until it expires.
pub run_kept :
    (rs : List (Request × ℕ)) (file : String) (l : LockRow) (locks : Locks)
    → find_where (is_file file) locks ≡ some l
    → All (λ r. (r.0.presented_lock ≢ l.lock_value) × (r.1 < l.expires_at)) rs
    → find_where (is_file file) (run rs locks) ≡ some l
unfolding run
run_kept [] file l locks found others = found
run_kept ((request, now) ∷ rs) file l locks found ((other, live), others) =
    run_kept rs file l (file_operation request now locks).1
      (file_operation-kept request now file l locks found live
        (ground (arith, other, eq_iff l.lock_value request.presented_lock)))
      others
