-- ===== src/Transfers/Claims.antt =====
-- Which job `claim_next` hands out, and to how many workers.
use cloud_desk_os.Prelude.{
  ℕ, ◌≡◌, refl, ap, ◌∙◌, true, false, Option, none, some, [], ◌∷◌, arith, Option-cases, Bool-cases,
  inl, inr, ◌⊎◌, ◌≢◌, All, All-imp, subst, sym,
}
use cloud_desk_os.Prelude.Table.{find_where, first_by}
use cloud_desk_os.Transfers.Names.{queued, state_eq}
use cloud_desk_os.Transfers.Rows.{Row, Rows}
use cloud_desk_os.Transfers.Queue.{has_id, claim_id, in_state, is_due, before, claim_row}
use cloud_desk_os.Transfers.Find.{Distinct, find-All, find-update_where, Distinct-update_where}

-- No earlier row: a row that is due was created at the same time or later, in the order of ids.
abbrev pub NoEarlier : ℕ → Row → Row → Type 0
NoEarlier t r q = is_due t q ≡ true → before q r ≡ false

before_trans : (q r s : Row) → before r s ≡ true → before q s ≡ false → before q r ≡ false
before_trans q r s h k = ground arith

before_irrefl : (r : Row) → before r r ≡ false
before_irrefl r = ground arith

first_by-none :
    (t : ℕ) (rows : Rows)
    → first_by before (is_due t) rows ≡ none
    → All (λ q. is_due t q ≡ false) rows
unfolding first_by
first_by-none t [] h = tt
first_by-none t (x ∷ xs) h = elim (Bool-cases (is_due t x)) [
  | inr e ↦ (e, first_by-none t xs (rw e at h))
  | inl e ↦ absurd (ground (arith))
]

-- The step of the search, by the row that the rest of the table offers.
first_by-step :
    (t : ℕ) (x : Row) (xs : Rows) (r s : Row)
    → is_due t x ≡ true
    → first_by before (is_due t) xs ≡ some s
    → first_by before (is_due t) (x ∷ xs) ≡ some r
    → ((before x s ≡ true) × (x ≡ r)) ⊎ ((before x s ≡ false) × (s ≡ r))
unfolding first_by
first_by-step t x xs r s due rest h = ground arith

first_by-only :
    (t : ℕ) (x : Row) (xs : Rows) (r : Row)
    → is_due t x ≡ true
    → first_by before (is_due t) xs ≡ none
    → first_by before (is_due t) (x ∷ xs) ≡ some r
    → x ≡ r
unfolding first_by
first_by-only t x xs r due rest h = ground arith

first_by-skip :
    (t : ℕ) (x : Row) (xs : Rows)
    → is_due t x ≡ false
    → first_by before (is_due t) (x ∷ xs) ≡ first_by before (is_due t) xs
unfolding first_by
first_by-skip t x xs due = rw due

abbrev IsFirst : ℕ → Rows → Row → Type 0
IsFirst t rows r = (is_due t r ≡ true) × All (NoEarlier t r) rows

-- The first of the rows that are due.
pub first_by-due :
    (t : ℕ) (rows : Rows) (r : Row) → first_by before (is_due t) rows ≡ some r → IsFirst t rows r
first_by-due t [] r h = unfold first_by in cc h
first_by-due t (x ∷ xs) r h = elim (Bool-cases (is_due t x)) [
  | inr skip ↦
      let (due, least) = first_by-due t xs r (sym (first_by-skip t x xs skip) ∙ h) in
      (due, ((λ d. cc), least))
  | inl take_x ↦ elim (Option-cases (first_by before (is_due t) xs)) [
    | inl empty ↦
        let e = first_by-only t x xs r take_x empty h in
        subst (IsFirst t (x ∷ xs)) e (
          take_x,
          (
            (λ d. before_irrefl x),
            All-imp (λ q. is_due t q ≡ false) (NoEarlier t x) xs (λ q off on. cc)
                (first_by-none t xs empty),
          ),
        )
    | inr (s, rest) ↦
        let (due, least) = first_by-due t xs s rest in
        elim (first_by-step t x xs r s take_x rest h) [
          | inl (b, e) ↦ subst (IsFirst t (x ∷ xs)) e (
            take_x,
            (
              (λ d. before_irrefl x),
              All-imp (NoEarlier t s) (NoEarlier t x) xs (λ q n d. before_trans q x s b (n d))
                  least,
            ),
          )
          | inr (b, e) ↦ subst (IsFirst t (x ∷ xs)) e (due, ((λ d. b), least))
        ]
  ]
]

find_later :
    (x : Row) (xs : Rows) (s : Row)
    → All (λ q. q.id ≢ x.id) xs
    → find_where (has_id s.id) xs ≡ some s
    → find_where (has_id s.id) (x ∷ xs) ≡ some s
find_later x xs s d found =
    let apart : s.id ≢ x.id = find-All (λ q. q.id ≢ x.id) s.id xs s d found in
    unfold find_where in ground (arith, found, apart)

find_here : (x : Row) (xs : Rows) (r : Row) → x ≡ r → find_where (has_id r.id) (x ∷ xs) ≡ some r
find_here x xs r e =
    subst (λ y. find_where (has_id y.id) (x ∷ xs) ≡ some y) e (unfold find_where in ground arith)

find-first_by :
    (t : ℕ) (rows : Rows) (r : Row)
    → Distinct rows
    → first_by before (is_due t) rows ≡ some r
    → find_where (has_id r.id) rows ≡ some r
find-first_by t [] r d h = unfold first_by in cc h
find-first_by t (x ∷ xs) r d h = elim (Bool-cases (is_due t x)) [
  | inr skip ↦
      find_later x xs r d.0 (find-first_by t xs r d.1 (sym (first_by-skip t x xs skip) ∙ h))
  | inl take_x ↦ elim (Option-cases (first_by before (is_due t) xs)) [
    | inl empty ↦ find_here x xs r (first_by-only t x xs r take_x empty h)
    | inr (s, rest) ↦ elim (first_by-step t x xs r s take_x rest h) [
      | inl (b, e) ↦ find_here x xs r e
      | inr (b, e) ↦ find_later x xs r d.0 (find-first_by t xs r d.1 (rest ∙ ap some e))
    ]
  ]
]

-- If the identifiers of the table differ, `claim_next` takes the due job that comes first by
-- creation and then by identifier: it hands out nothing, and changes nothing, exactly if no job is due; otherwise the job is one
-- that is due with no earlier job due, and its row is running with one attempt more.
pub claim_id_first :
    (t : ℕ) (rows : Rows)
    → Distinct rows
    → ((claim_id t rows ≡ (none, rows)) × All (λ q. is_due t q ≡ false) rows)
      ⊎ ((r : Row) × ((claim_id t rows).0 ≡ some r.id)
          × (find_where (has_id r.id) rows ≡ some r)
          × (is_due t r ≡ true)
          × All (NoEarlier t r) rows
          × (find_where (has_id r.id) (claim_id t rows).1 ≡ some (claim_row t r)))
unfolding claim_id
claim_id_first t rows d = elim (Option-cases (first_by before (is_due t) rows)) [
  | inl e ↦ inl (rw (e, claim_id) refl, first_by-none t rows e)
  | inr (r, e) ↦
      let (due, least) = first_by-due t rows r e in
      let found = find-first_by t rows r d e in
      inr (
        r,
        rw (e, claim_id) refl,
        found,
        due,
        least,
        rw (e, claim_id)
            (rw
              (find-update_where r.id (in_state r.id queued) (claim_row t) rows (λ q. refl), found)
              (ground arith)),
      )
]

claim_id-Distinct : (t : ℕ) (rows : Rows) → Distinct rows → Distinct (claim_id t rows).1
unfolding claim_id
claim_id-Distinct t rows d = elim (Option-cases (first_by before (is_due t) rows)) [
  | inl e ↦ rw (e, claim_id) d
  | inr (r, e) ↦ rw (e, claim_id) (Distinct-update_where _ _ rows (λ q. refl) d)
]

not_due_again : (t t' : ℕ) (r q : Row) → some (claim_row t r) ≡ some q → is_due t' q ≡ true → ⊥
not_due_again t t' r q e due = unfold state_eq in ground arith

-- Two claims in a row never take one job, if the identifiers of the table differ: the second,
-- whenever it comes, takes another identifier.
pub claim_twice :
    (t t' : ℕ) (rows : Rows) (i j : ℕ)
    → Distinct rows
    → (claim_id t rows).0 ≡ some i
    → (claim_id t' (claim_id t rows).1).0 ≡ some j
    → i ≢ j
claim_twice t t' rows i j d first second same = elim (claim_id_first t rows d) [
  | inl (nothing, _) ↦ cc (ap (λ (x : Option ℕ × Rows). x.0) nothing)
  | inr (r, taken, _, _, _, now) ↦
      elim (claim_id_first t' (claim_id t rows).1 (claim_id-Distinct t rows d)) [
        | inl (nothing, _) ↦ cc (ap (λ (x : Option ℕ × Rows). x.0) nothing)
        | inr (q, taken', found, due, _, _) ↦
            let e : q.id ≡ r.id = ground arith in
            not_due_again t t' r q (sym now ∙ rw (← e) found) due
      ]
]
