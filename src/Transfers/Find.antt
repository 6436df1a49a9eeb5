-- ===== src/Transfers/Find.antt =====
-- Rows are found by their identifier, which the primary key keeps distinct.
use mathlib.Core.Option
use cloud_desk_os.Prelude.{
  subst, ℕ, ◌≡◌, ◌≢◌, refl, ap, Bool, ◌&&◌, some, [], ◌∷◌, ◌==◌, if◌then◌else◌, arith, All,
  Bool-cases, inl, inr, ok, err,
}
use cloud_desk_os.Prelude.Table.{update_where, count_where, find_where}
use cloud_desk_os.Transfers.Names.{invalid_transition}
use cloud_desk_os.Transfers.Rows.{Row, Rows}
use cloud_desk_os.Transfers.Queue.{has_id, update_one}

abbrev pub Distinct : Rows → Type 0
Distinct [] = Unit
Distinct (x ∷ xs) = All (λ q. q.id ≢ x.id) xs × Distinct xs

pub find-id : (id : ℕ) (rows : Rows) (r : Row) → find_where (has_id id) rows ≡ some r → r.id ≡ id
unfolding find_where
find-id id [] r h = cc
find-id id (x ∷ xs) r h = ground (arith, find-id id xs r)

-- What holds of every row holds of the one that is found.
pub find-All {ℓ} :
    (P : Row → Type ℓ) (id : ℕ) (rows : Rows) (r : Row)
    → All P rows
    → find_where (has_id id) rows ≡ some r
    → P r
unfolding find_where
find-All P id [] r a h = absurd (ground arith)
find-All P id (x ∷ xs) r a h = elim (Bool-cases (x.id == id)) [
  | inl hit ↦ subst P (ground arith) a.0
  | inr miss ↦ find-All P id xs r a.1 (ground arith)
]

abbrev updated : (Row → Bool) → (Row → Row) → Row → Row
updated p f r = if p r then f r else r

-- The row of a job after an update that keeps identifiers.
pub find-update_where :
    (id : ℕ) (p : Row → Bool) (f : Row → Row) (rows : Rows)
    → ((r : Row) → (f r).id ≡ r.id)
    → find_where (has_id id) (update_where p f rows)
      ≡ Option.map (λ r. if p r then f r else r) (find_where (has_id id) rows)
unfolding find_where update_where
find-update_where id p f [] keep = refl
find-update_where id p f (x ∷ xs) keep = ground (arith, keep x, find-update_where id p f xs keep)

count_absent :
    (id : ℕ) (test : Row → Bool) (rows : Rows)
    → All (λ q. q.id ≢ id) rows
    → count_where (λ q. q.id == id && test q) rows ≡ 0
unfolding count_where
count_absent id test [] a = refl
count_absent id test (x ∷ xs) a = ground (arith, a.0, count_absent id test xs a.1)

-- An update of one job by a test affects one row or none.
pub count_one :
    (id : ℕ) (test : Row → Bool) (rows : Rows) (r : Row)
    → Distinct rows
    → find_where (has_id id) rows ≡ some r
    → count_where (λ q. q.id == id && test q) rows ≡ (if test r then 1 else 0)
unfolding count_where find_where
count_one id test [] r d h = cc
count_one id test (x ∷ xs) r d h = elim (Bool-cases (x.id == id)) [
  | inl hit ↦
      let e : x.id ≡ id = ground arith in
      let here : x ≡ r = ground arith in
      ground
        (arith, count_absent id test xs (subst (λ i. All (λ q. q.id ≢ i) xs) e d.0), ap test here)
  | inr miss ↦ ground (arith, count_one id test xs r d.1 (ground arith))
]

-- An update of one job by a test: it succeeds and rewrites the row exactly if the test passes, and
-- otherwise fails and leaves the row.
pub update_one_lem :
    (id : ℕ) (test : Row → Bool) (f : Row → Row) (rows : Rows) (r : Row)
    → Distinct rows
    → find_where (has_id id) rows ≡ some r
    → ((q : Row) → (f q).id ≡ q.id)
    → let (answer, rows') = update_one (λ q. q.id == id && test q) f rows in
      (answer ≡ (if test r then ok tt else err invalid_transition))
      × (find_where (has_id id) rows' ≡ some (if test r then f r else r))
unfolding update_one
update_one_lem id test f rows r d h keep = (
  ground (arith, count_one id test rows r d h),
  rw (find-update_where id (λ q. q.id == id && test q) f rows keep, h)
      (ground (arith, find-id id rows r h)),
)

-- Every update keeps the identifiers apart.
pub All-id-update_where :
    (id : ℕ) (p : Row → Bool) (f : Row → Row) (rows : Rows)
    → ((r : Row) → (f r).id ≡ r.id)
    → All (λ q. q.id ≢ id) rows
    → All (λ q. q.id ≢ id) (update_where p f rows)
unfolding update_where
All-id-update_where id p f [] keep a = tt
All-id-update_where id p f (x ∷ xs) keep a =
    ((λ e. a.0 (ground (arith, keep x))), All-id-update_where id p f xs keep a.1)

pub Distinct-update_where :
    (p : Row → Bool) (f : Row → Row) (rows : Rows)
    → ((r : Row) → (f r).id ≡ r.id)
    → Distinct rows
    → Distinct (update_where p f rows)
unfolding update_where
Distinct-update_where p f [] keep d = tt
Distinct-update_where p f (x ∷ xs) keep d = (
  subst (λ i. All (λ q. q.id ≢ i) (update_where p f xs)) (ground (arith, keep x))
      (All-id-update_where x.id p f xs keep d.0),
  Distinct-update_where p f xs keep d.1,
)
