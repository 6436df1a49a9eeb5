-- ===== src/Wopi/Refines.antt =====
-- The locks of the WOPI host, services/clouddeskd/src/wopi.rs and `file_operation` of lib.rs, as
-- an abstract state: for each file at most one lock, a value with an expiry.
use cloud_desk_os.Prelude.{
  ℕ, ◌+◌, ◌≤◌, ◌≡◌, refl, sym, ap, subst, ◌∙◌, Bool, true, false, not, String, str_eq, eq_iff,
  Option, none, some, List, [], ◌∷◌, leb, ltb, if◌then◌else◌, arith, Bool-cases, Option-cases, inl,
  inr,
}
use cloud_desk_os.Prelude.Table.{find_where, update_where, select_where, find_where-update_where}
use cloud_desk_os.Wopi.Locks.{
  LockRow, Locks, is_file, get_lock, fresh_lock, acquire_lock, refresh_lock, release_lock,
  lock_ttl_seconds,
}
use cloud_desk_os.Wopi.Operation.{
  Override, lock, refresh, unlock, get, rename, missing, unknown, Request, Response, done,
  bad_request, forbidden, not_found, not_implemented, conflict, holds, value_of, answer,
  file_operation, max_wopi_lock_bytes,
}
use cloud_desk_os.Wopi.Exclusion.{answer-apart}
use cloud_desk_os.Wopi.Race.{find_where-replaced}

-- The value and the expiry of the lock of a file.
abbrev pub Cell : Type 0
Cell = Option (String × ℕ)

-- The lock as it is at a time, when it may have expired.
unfoldable pub live : ℕ → Cell → Cell
live t none = none
live t (some (value, expiry)) = if leb expiry t then none else some (value, expiry)

cell_of : Option LockRow → Cell
cell_of none = none
cell_of (some r) = some (r.lock_value, r.expires_at)

-- What the rows say of a file.
unfoldable pub view : String → Locks → Cell
unfolding cell_of find_where
view file locks = cell_of (find_where (is_file file) locks)

-- A request on the lock that is held, where the values fit: the lock afterwards.
held : Override → ℕ → String → Cell
held unlock now value = none
held _ now value = some (value, now + lock_ttl_seconds)

matched : Request → ℕ → String → ℕ → Response × Cell
unfolding held
matched request now value expiry =
    if str_eq value request.presented_lock
    then (done, held request.override now value)
    else (conflict (some value), some (value, expiry))

-- A request on the cell of its file.
unfoldable pub step_cell : Override → Request → ℕ → Cell → Response × Cell
unfolding matched
step_cell lock request now cell = if not request.read_write then (forbidden, cell) else elim cell [
  | none ↦ (done, some (request.presented_lock, now + lock_ttl_seconds))
  | some (value, expiry) ↦ matched request now value expiry
]
step_cell refresh request now none = (not_found, none)
step_cell refresh request now (some (value, expiry)) = matched request now value expiry
step_cell unlock request now none = (conflict none, none)
step_cell unlock request now (some (value, expiry)) = matched request now value expiry
step_cell get request now none = (holds "", none)
step_cell get request now (some (value, expiry)) = (holds value, some (value, expiry))
step_cell rename request now cell = (not_implemented, cell)
step_cell missing request now cell = (bad_request, cell)
step_cell unknown request now cell = (bad_request, cell)

unfoldable pub spec : Request → ℕ → Cell → Response × Cell
unfolding step_cell
spec request now cell =
    if ltb max_wopi_lock_bytes request.lock_bytes
    then (bad_request, cell)
    else step_cell request.override request now cell

view-get_lock :
    (file : String) (now : ℕ) (locks : Locks)
    → cell_of (get_lock file now locks) ≡ live now (view file locks)
unfolding cell_of get_lock live view
view-get_lock file now locks = by_row (find_where (is_file file) locks)
  where
    by_row :
        (o : Option LockRow)
        → cell_of (elim o [ none ↦ none | some r ↦ if leb r.expires_at now then none else some r ])
          ≡ live now (cell_of o)
    by_row none = refl
    by_row (some r) = ground arith

module _ {ℓ} {R : Type ℓ} (p : R → Bool) where
  find_where-fits : (rs : List R) (r : R) → find_where p rs ≡ some r → p r ≡ true
  unfolding find_where
  find_where-fits [] r found = cc
  find_where-fits (x ∷ xs) r found = ground (arith, find_where-fits xs r)

  find_where-dropped : (rs : List R) → find_where p (select_where (λ r. not (p r)) rs) ≡ none
  unfolding find_where select_where
  find_where-dropped [] = refl
  find_where-dropped (x ∷ xs) = ground (arith, find_where-dropped xs)

view-acquire_lock :
    (file value user : String) (size mtime now : ℕ) (locks : Locks)
    → view file (acquire_lock file value user size mtime now locks)
      ≡ some (value, now + lock_ttl_seconds)
unfolding view acquire_lock
view-acquire_lock file value user size mtime now locks =
    by_row (find_where (is_file file) locks) refl
  where
    same : str_eq file file ≡ true
    same = (eq_iff file file).1 refl

    row : LockRow
    row = fresh_lock file value user size mtime now

    by_row :
        (o : Option LockRow)
        → find_where (is_file file) locks ≡ o
        → cell_of (
            find_where (is_file file) (elim o [
              | none ↦ row ∷ locks
              | some _ ↦ update_where (is_file file) (λ r. row) locks
            ]))
          ≡ some (value, now + lock_ttl_seconds)
    by_row none e = unfold find_where in rw same refl
    by_row (some r) e = rw (find_where-replaced (is_file file) row r locks same e) refl

view-refresh_lock :
    (file : String) (now : ℕ) (locks : Locks) (l : LockRow)
    → find_where (is_file file) locks ≡ some l
    → view file (refresh_lock file now locks) ≡ some (l.lock_value, now + lock_ttl_seconds)
unfolding view refresh_lock
view-refresh_lock file now locks l found =
    rw
      (
        find_where-update_where (is_file file) (is_file file)
            (λ (r : LockRow). record r { expires_at = now + lock_ttl_seconds }) locks (λ r. refl) l
            found,
        find_where-fits (is_file file) locks l found,
      )
      refl

view-release_lock : (file : String) (locks : Locks) → view file (release_lock file locks) ≡ none
unfolding view release_lock
view-release_lock file locks = rw (find_where-dropped (is_file file) locks) refl

-- A live lock is a row.
live-row :
    (file : String) (now : ℕ) (locks : Locks) (l : LockRow)
    → get_lock file now locks ≡ some l
    → find_where (is_file file) locks ≡ some l
unfolding get_lock
live-row file now locks l h = elim (Option-cases (find_where (is_file file) locks)) [
  | inl absent ↦ cc
  | inr (r, found) ↦ ground arith
]

live-live : (now t : ℕ) (cell : Cell) → now ≤ t → live t (live now cell) ≡ live t cell
unfolding live
live-live now t none later = refl
live-live now t (some (value, expiry)) later = ground arith

unchanged :
    (file : String) (now t : ℕ) (locks : Locks)
    → now ≤ t
    → live t (view file locks) ≡ live t (cell_of (get_lock file now locks))
unchanged file now t locks later =
    sym (ap (live t) (view-get_lock file now locks) ∙ live-live now t (view file locks) later)

-- One look-up and write, as a step on the cell of the file.
abbrev StepsTo : Request → ℕ → ℕ → Locks → Option LockRow → Type 0
StepsTo request now t locks o =
    ((answer request now o locks).0 ≡ (step_cell request.override request now (cell_of o)).0)
    × (live t (view request.file_id (answer request now o locks).1)
        ≡ live t (step_cell request.override request now (cell_of o)).1)

answer-step :
    (request : Request) (now t : ℕ) (locks : Locks) (o : Option LockRow)
    → now ≤ t
    → get_lock request.file_id now locks ≡ o
    → StepsTo request now t locks o
unfolding answer step_cell cell_of value_of
answer-step request now t locks none later e =
    let same =
      subst (λ o. live t (view request.file_id locks) ≡ live t (cell_of o)) e
        (unchanged request.file_id now t locks later) in
    ground (
      arith,
      view-acquire_lock request.file_id request.presented_lock request.user_id request.size
          request.mtime now locks,
    )
answer-step request now t locks (some l) later e =
    let same =
      subst (λ o. live t (view request.file_id locks) ≡ live t (cell_of o)) e
        (unchanged request.file_id now t locks later) in
    ground (
      arith,
      view-refresh_lock request.file_id now locks l (live-row request.file_id now locks l e),
      view-release_lock request.file_id locks,
    )

-- The whole request: its response, and the cell of every file from then on.
file_operation-step :
    (request : Request) (now t : ℕ) (locks : Locks) (file : String)
    → now ≤ t
    → let (response, after) = file_operation request now locks in
      let (expected, cell) = spec request now (cell_of (get_lock request.file_id now locks)) in
      (response ≡ expected)
      × (live t (view file after)
          ≡ live t (if str_eq request.file_id file then cell else view file locks))
unfolding file_operation spec view cell_of
file_operation-step request now t locks file later =
    elim (Bool-cases (ltb max_wopi_lock_bytes request.lock_bytes)) [
      | inl long ↦ rw long (
        refl,
        on_file locks (cell_of (get_lock request.file_id now locks))
            (unchanged request.file_id now t locks later) (λ apart. refl),
      )
      | inr short ↦
          let step =
            answer-step request now t locks (get_lock request.file_id now locks) later refl in
          rw short (
            step.0,
            on_file _ _ step.1 (λ apart.
                ap (λ o. live t (cell_of o))
                  (answer-apart file request.file_id apart request now
                    (get_lock request.file_id now locks) locks refl)),
          )
    ]
  where
    on_file :
        (after : Locks) (cell : Cell)
        → live t (view request.file_id after) ≡ live t cell
        → (str_eq request.file_id file ≡ false
            → live t (view file after) ≡ live t (view file locks))
        → live t (view file after)
          ≡ live t (if str_eq request.file_id file then cell else view file locks)
    on_file after cell same apart = elim (Bool-cases (str_eq request.file_id file)) [
      | inl here ↦ rw here (
          subst (λ f. live t (view f after) ≡ live t cell) ((eq_iff request.file_id file).0 here)
            same)
      | inr there ↦ rw there (apart there)
    ]

-- Requests one after the other: the responses of the rows, and those of one cell for each file.
unfoldable pub responses : List (Request × ℕ) → Locks → List Response
responses [] locks = []
responses ((request, now) ∷ rs) locks =
    let (response, after) = file_operation request now locks in response ∷ responses rs after

abbrev pub Cells : Type 0
Cells = String → Cell

unfoldable pub set_cell : String → Cell → Cells → Cells
set_cell file cell cells other = if str_eq file other then cell else cells other

unfoldable pub expected_responses : List (Request × ℕ) → Cells → List Response
unfolding spec set_cell
expected_responses [] cells = []
expected_responses ((request, now) ∷ rs) cells =
    let (response, cell) = spec request now (live now (cells request.file_id)) in
    response ∷ expected_responses rs (set_cell request.file_id cell cells)

-- The clock does not run backwards.
abbrev pub InOrder : ℕ → List (Request × ℕ) → Type 0
InOrder now [] = Unit
InOrder now ((request, t) ∷ rs) = (now ≤ t) × InOrder t rs

same_list : {A : Type 0} {x y : A} {xs ys : List A} → x ≡ y → xs ≡ ys → x ∷ xs ≡ y ∷ ys
same_list e f = cc

simulates :
    (rs : List (Request × ℕ)) (now : ℕ) (locks : Locks) (cells : Cells)
    → InOrder now rs
    → ((file : String) (t : ℕ) → now ≤ t → live t (view file locks) ≡ live t (cells file))
    → responses rs locks ≡ expected_responses rs cells
unfolding responses expected_responses
simulates [] now locks cells order related = refl
simulates ((request, t0) ∷ rs) now locks cells order related =
    subst
      (λ c.
        response ∷ responses rs after
        ≡ (spec request t0 c).0
          ∷ expected_responses rs (set_cell request.file_id (spec request t0 c).1 cells))
      (view-get_lock request.file_id t0 locks ∙ related request.file_id t0 order.0)
      (same_list (file_operation-step request t0 t0 locks request.file_id (omega arith)).0
        (simulates rs t0 after (set_cell request.file_id cell cells) order.1 still_related))
  where
    response : Response
    response = (file_operation request t0 locks).0

    after : Locks
    after = (file_operation request t0 locks).1

    cell : Cell
    cell = (spec request t0 (cell_of (get_lock request.file_id t0 locks))).1

    still_related :
        (file : String) (t : ℕ)
        → t0 ≤ t
        → live t (view file after) ≡ live t (set_cell request.file_id cell cells file)
    still_related file t later =
        (file_operation-step request t0 t locks file later).1
        ∙ elim (Bool-cases (str_eq request.file_id file)) [
          | inl here ↦ unfold set_cell in rw here refl
          | inr there ↦ unfold set_cell in rw there (related file t (omega (arith, later, order.0)))
        ]

-- The locks of the host behave as one cell for each file, empty at first, that holds a value with an
-- expiry: whatever requests come, on whatever files, one after the other, each with its look-up
-- directly followed by its write, every response is that of the cells, if the clock does not run
-- backwards. Of requests that overlap this is not said.
pub responses-refine :
    (rs : List (Request × ℕ))
    → InOrder 0 rs
    → responses rs [] ≡ expected_responses rs (λ file. none)
unfolding view
responses-refine rs order = simulates rs 0 [] (λ file. none) order (λ file t later. refl)
