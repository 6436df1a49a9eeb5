-- ===== src/Prelude/Table.antt =====
-- A SQL table as the list of its rows, and the statements that the program runs on it:
-- `UPDATE … WHERE`, its `rows_affected`, `SELECT … WHERE`, and the first row that a `WHERE` fits.
use Prim.Native.Nat.{ℕ, suc}
use mathlib.Core.Path.{◌≡◌, refl}
use mathlib.Core.Bool.{Bool, true, false}
use native.Mathlib.Omega.{arith}
use mathlib.Core.Option.{Option, none, some}
use mathlib.Core.List.{List, [], ◌∷◌}
use cloud_desk_os.Prelude.Tests.{if◌then◌else◌, if-holds}
use cloud_desk_os.Prelude.Lists.{All}

module _ {ℓ} {R : Type ℓ} where
  unfoldable pub update_where : (R → Bool) → (R → R) → List R → List R
  update_where p f [] = []
  update_where p f (r ∷ rs) = (if p r then f r else r) ∷ update_where p f rs

  -- `rows_affected` of an update, `COUNT(*)` of a selection.
  unfoldable pub count_where : (R → Bool) → List R → ℕ
  count_where p [] = 0
  count_where p (r ∷ rs) = if p r then suc (count_where p rs) else count_where p rs

  unfoldable pub select_where : (R → Bool) → List R → List R
  select_where p [] = []
  select_where p (r ∷ rs) = if p r then r ∷ select_where p rs else select_where p rs

  unfoldable pub find_where : (R → Bool) → List R → Option R
  find_where p [] = none
  find_where p (r ∷ rs) = if p r then some r else find_where p rs

  -- What holds of each row after an update, from what held of it before.
  pub All-update_where {κ μ} :
      (P : R → Type κ) (Q : R → Type μ) (p : R → Bool) (f : R → R) (rs : List R)
      → ((r : R) → p r ≡ true → Q (f r))
      → ((r : R) → p r ≡ false → P r → Q r)
      → All P rs
      → All Q (update_where p f rs)
  unfolding update_where
  All-update_where P Q p f [] hit miss h = tt
  All-update_where P Q p f (r ∷ rs) hit miss h =
      (one (p r) refl, All-update_where P Q p f rs hit miss h.1)
    where
      one : (b : Bool) → p r ≡ b → Q (if b then f r else r)
      one true e = hit r e
      one false e = miss r e h.0

  -- The first row that fits, after an update that leaves the test as it is.
  pub find_where-update_where :
      (p q : R → Bool) (f : R → R) (rs : List R)
      → ((r : R) → p (f r) ≡ p r)
      → (r : R) → find_where p rs ≡ some r
      → find_where p (update_where q f rs) ≡ some (if q r then f r else r)
  unfolding find_where update_where
  find_where-update_where p q f [] same r found = cc
  find_where-update_where p q f (x ∷ xs) same r found =
      ground (arith, same x, find_where-update_where p q f xs same r)

  -- `ORDER BY`: insertion by a test that says which row goes first.
  unfoldable pub insert_by : (R → R → Bool) → R → List R → List R
  insert_by before r [] = r ∷ []
  insert_by before r (s ∷ ss) =
      let rest = insert_by before r ss in if before r s then r ∷ s ∷ ss else s ∷ rest

  unfoldable pub order_by : (R → R → Bool) → List R → List R
  unfolding insert_by
  order_by before [] = []
  order_by before (r ∷ rs) = insert_by before r (order_by before rs)

  -- The first row of an `ORDER BY … LIMIT 1` over the rows that a test selects.
  unfoldable pub first_by : (R → R → Bool) → (R → Bool) → List R → Option R
  first_by before p [] = none
  first_by before p (r ∷ rs) =
      let rest = first_by before p rs in
      if p r
      then elim rest [ none ↦ some r | some s ↦ if before r s then some r else some s ]
      else rest

  -- What holds of all rows holds of them in order.
  All-insert_by {κ} :
      (P : R → Type κ) (before : R → R → Bool) (r : R) (ss : List R)
      → P r
      → All P ss
      → All P (insert_by before r ss)
  unfolding insert_by
  All-insert_by P before r [] h hs = (h, tt)
  All-insert_by P before r (s ∷ ss) h hs =
      if-holds (All P) (before r s) (r ∷ s ∷ ss) (s ∷ insert_by before r ss) (h, hs)
        (hs.0, All-insert_by P before r ss h hs.1)

  pub All-order_by {κ} :
      (P : R → Type κ) (before : R → R → Bool) (rs : List R) → All P rs → All P (order_by before rs)
  unfolding order_by
  All-order_by P before [] h = tt
  All-order_by P before (r ∷ rs) h =
      All-insert_by P before r (order_by before rs) h.0 (All-order_by P before rs h.1)
