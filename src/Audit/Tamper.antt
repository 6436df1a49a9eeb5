-- ===== src/Audit/Tamper.antt =====
-- Evidence of tampering: what two verified logs with one head hash have in common.
use native.Mathlib.Decide.{ℕ_discrete}
use mathlib.Core.List.{reverse, reverse_aux, reverse-reverse}
use cloud_desk_os.Prelude.{
  ◌≡◌, ◌≢◌, refl, sym, ap, ◌∙◌, String, str_eq, eq_iff, List, [], ◌∷◌, map, arith, ◌⊎◌, inl, inr,
  Bool-cases, ok,
}
use cloud_desk_os.Audit.Event.{CanonicalEvent, Format}
use cloud_desk_os.Audit.Chain.{Row, Log, verify_from, verify_chain}
use cloud_desk_os.Audit.Integrity.{content, last_from, verify_row-ok, verify_from-cons}

String_discrete : (s t : String) → Dec (s ≡ t)
String_discrete s t = elim (Bool-cases (str_eq s t)) [
  | inl e ↦ yes ((eq_iff s t).0 e)
  | inr e ↦ no (λ p. ground (arith, eq_iff s t))
]

CanonicalEvent-discrete : Discrete CanonicalEvent
CanonicalEvent-discrete = hlevel (String_discrete, ℕ_discrete)

map-reverse_aux {ℓ κ} :
    {A : Type ℓ} {B : Type κ} (f : A → B) (xs ys : List A)
    → map f (reverse_aux xs ys) ≡ reverse_aux (map f xs) (map f ys)
map-reverse_aux f [] ys = refl
map-reverse_aux f (x ∷ xs) ys = map-reverse_aux f xs (x ∷ ys)

-- Lists that agree backwards agree.
map-eq_of_reverse {ℓ κ} :
    {A : Type ℓ} {B : Type κ} (f : A → B) (xs ys : List A)
    → map f (reverse xs) ≡ map f (reverse ys)
    → map f xs ≡ map f ys
map-eq_of_reverse f xs ys e =
    sym (reverse-reverse (map f xs))
    ∙ ap reverse (sym (map-reverse_aux f xs []) ∙ e ∙ map-reverse_aux f ys [])
    ∙ reverse-reverse (map f ys)

-- The hash that the next row is chained to, for rows with the newest first.
abbrev newest : List Row → String
newest [] = ""
newest (row ∷ rows) = row.event_hash

-- A digest is never the empty text.
abbrev pub NeverEmpty : Format → Type 0
NeverEmpty format = (e : CanonicalEvent) → format.digest e ≢ ""

module _ (format : Format) where
  -- Rows, newest first, that each carry the digest of their content and the hash before.
  abbrev Chained : List Row → Type 0
  Chained [] = Unit
  Chained (row ∷ rows) =
      (format.digest (content row) ≡ row.event_hash)
      × (row.previous_hash ≡ newest rows)
      × Chained rows

  Chained-reverse :
      (rows before : List Row)
      → verify_from format (newest before) rows ≡ ok tt
      → Chained before
      → Chained (reverse_aux rows before)
        × (newest (reverse_aux rows before) ≡ last_from (newest before) rows)
  Chained-reverse [] before h c = (c, refl)
  Chained-reverse (row ∷ rows) before h c =
      let (passes, rest) = verify_from-cons format (newest before) row rows h in
      let (linked, hashed) = verify_row-ok format (newest before) row passes in
      Chained-reverse rows (row ∷ before) rest (hashed, linked, c)

  -- Two different contents with one digest.
  abbrev pub Collision : Type 0
  Collision = (a b : CanonicalEvent) × (a ≢ b) × (format.digest a ≡ format.digest b)

  Chained-unique :
      (rows others : List Row)
      → NeverEmpty format
      → Chained rows
      → Chained others
      → newest rows ≡ newest others
      → (map content rows ≡ map content others) ⊎ Collision
  Chained-unique [] [] full c d e = inl refl
  Chained-unique [] (q ∷ qs) full c d e = absurd (full (content q) (d.0 ∙ sym e))
  Chained-unique (r ∷ rs) [] full c d e = absurd (full (content r) (c.0 ∙ e))
  Chained-unique (r ∷ rs) (q ∷ qs) full c d e =
      elim (CanonicalEvent-discrete (content r) (content q)) [
        | no differ ↦ inr (content r, content q, differ, c.0 ∙ e ∙ sym d.0)
        | yes same ↦
            let linked : r.previous_hash ≡ q.previous_hash =
              ap (λ (x : CanonicalEvent). x.previous_hash) same in
            elim (Chained-unique rs qs full c.2 d.2 (sym c.1 ∙ linked ∙ d.1)) [
              | inl rest ↦ inl (cc (same, rest))
              | inr collision ↦ inr collision
            ]
      ]

  -- The head hash pins the log, if no digest is the empty text: two verified logs whose last rows have one hash hold the same
  -- events in the same order, or they exhibit two contents with one digest.
  pub verify_chain_unique :
      (log other : Log)
      → NeverEmpty format
      → verify_chain format log ≡ ok tt
      → verify_chain format other ≡ ok tt
      → last_from "" log.rows ≡ last_from "" other.rows
      → (map content log.rows ≡ map content other.rows) ⊎ Collision
  unfolding verify_chain
  verify_chain_unique log other full h k e =
      let (c, at) = Chained-reverse log.rows [] h tt in
      let (d, at') = Chained-reverse other.rows [] k tt in
      elim (Chained-unique (reverse log.rows) (reverse other.rows) full c d (at ∙ e ∙ sym at')) [
        | inr collision ↦ inr collision
        | inl same ↦ inl (map-eq_of_reverse content log.rows other.rows same)
      ]
