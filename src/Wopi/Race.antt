-- ===== src/Wopi/Race.antt =====
-- Where two requests for one lock get past each other.
use cloud_desk_os.Prelude.{
  ℕ, ◌<◌, ◌≡◌, refl, sym, ap, ◌∙◌, subst, Bool, true, String, str_eq, eq_iff, Option, none, some,
  List, [], ◌∷◌, arith, Bool-cases, inl, inr,
}
use cloud_desk_os.Prelude.Table.{find_where, update_where}
use cloud_desk_os.Wopi.Locks.{LockRow, Locks, is_file, get_lock, fresh_lock, acquire_lock}
use cloud_desk_os.Wopi.Operation.{lock, Request, done, answer}

granted :
    (request : Request) (now : ℕ) (locks : Locks)
    → request.override ≡ lock
    → request.read_write ≡ true
    → answer request now none locks ≡ (
      done,
      acquire_lock request.file_id request.presented_lock request.user_id request.size request.mtime
          now locks,
    )
unfolding answer
granted request now locks a b = ground arith

pub find_where-replaced {ℓ} :
    {R : Type ℓ} (p : R → Bool) (new old : R) (rs : List R)
    → p new ≡ true
    → find_where p rs ≡ some old
    → find_where p (update_where p (λ r. new) rs) ≡ some new
unfolding find_where update_where
find_where-replaced p new old [] fits found = cc
find_where-replaced p new old (x ∷ xs) fits found = elim (Bool-cases (p x)) [
  | inl e ↦ rw (e, fits)
  | inr e ↦ rw (e, find_where, e) (find_where-replaced p new old xs fits (ground arith))
]

get_lock-eq_some :
    (file : String) (now : ℕ) (l : LockRow) (locks : Locks)
    → find_where (is_file file) locks ≡ some l
    → now < l.expires_at
    → get_lock file now locks ≡ some l
unfolding get_lock
get_lock-eq_some file now l locks found live = ground arith

-- A lock that is acquired is the one that is read, right away.
acquired :
    (file value user : String) (size mtime now : ℕ) (locks : Locks)
    → get_lock file now (acquire_lock file value user size mtime now locks)
      ≡ some (fresh_lock file value user size mtime now)
acquired file value user size mtime now locks =
    get_lock-eq_some file now _ _ (found (find_where (is_file file) locks) refl) (omega arith)
  where
    self : str_eq file file ≡ true
    self = (eq_iff file file).1 refl

    found :
        (o : Option LockRow)
        → find_where (is_file file) locks ≡ o
        → find_where (is_file file) (acquire_lock file value user size mtime now locks)
          ≡ some (fresh_lock file value user size mtime now)
    found none e = unfold acquire_lock in rw (e, acquire_lock) (unfold find_where in rw self)
    found (some r) e =
        unfold acquire_lock in
        rw (e, acquire_lock)
          (find_where-replaced (is_file file) (fresh_lock file value user size mtime now) r locks
            self e)

-- Two requests that lock one file and both look before either writes are both granted, and the
-- second takes the lock from the first, whatever values they present.
pub lock_race :
    (first second : Request) (now : ℕ) (locks : Locks)
    → first.override ≡ lock
    → second.override ≡ lock
    → first.read_write ≡ true
    → second.read_write ≡ true
    → second.file_id ≡ first.file_id
    → get_lock first.file_id now locks ≡ none
    → let (granted₁, locks₁) = answer first now (get_lock first.file_id now locks) locks in
      let (granted₂, locks₂) = answer second now (get_lock second.file_id now locks) locks₁ in
      (granted₁ ≡ done)
      × (granted₂ ≡ done)
      × (get_lock first.file_id now locks₂
          ≡ some (
              fresh_lock first.file_id second.presented_lock second.user_id second.size second.mtime
                now))
lock_race first second now locks a b c d e free =
    let taken =
      acquire_lock first.file_id first.presented_lock first.user_id first.size first.mtime now
        locks in
    let one = ap (λ c. answer first now c locks) free ∙ granted first now locks a c in
    let free₂ : get_lock second.file_id now locks ≡ none =
      subst (λ f. get_lock f now locks ≡ none) (sym e) free in
    let two = ap (λ c. answer second now c taken) free₂ ∙ granted second now taken b d in
    let last =
      acquired second.file_id second.presented_lock second.user_id second.size second.mtime now
        taken in
    let read =
      subst
        (λ f.
          get_lock f now (
            acquire_lock second.file_id second.presented_lock second.user_id second.size
              second.mtime now taken)
          ≡ some (fresh_lock f second.presented_lock second.user_id second.size second.mtime now))
        e last in
    rw (one, two) (refl, refl, read)
