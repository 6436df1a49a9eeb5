-- ===== src/Transfers/Policy.antt =====
-- What `enqueue` lets into the queue, and where an SCP path may point.
use cloud_desk_os.Prelude.{
  subst, All, ℕ, ◌≤◌, ◌≡◌, ◌≢◌, refl, sym, ap, Bool, true, false, ◌||◌, [], ◌∷◌, ◌++◌, ltb, ◌==◌,
  length, is_empty, any, arith, inl, inr, ◌↔◌, Bool-cases, eq_iff,
}
use cloud_desk_os.Prelude.Texts.{split_slash}
use cloud_desk_os.Transfers.Endpoint.{
  Bytes, TransferEndpoint, direct, select_strategy, is_dot_dot, has_dot_dot,
  validate_scp_remote_path, max_filename_bytes,
}

-- A path with a segment `..`: it is `..`, or such a segment between slashes or at an end.
pub data Climbs : Bytes → Type 0 where
  whole : Climbs (b'.' ∷ b'.' ∷ [])
  leading : (post : Bytes) → Climbs (b'.' ∷ b'.' ∷ b'/' ∷ post)
  inside : (pre : Bytes) (rest : Bytes) → Climbs rest → Climbs (pre ++ b'/' ∷ rest)

any_after_slash :
    (pre rest : Bytes)
    → has_dot_dot rest ≡ true
    → any is_dot_dot (split_slash (pre ++ b'/' ∷ rest)).1 ≡ true
unfolding split_slash has_dot_dot any
any_after_slash [] rest h = h
any_after_slash (b ∷ pre) rest h = ground (arith, any_after_slash pre rest h)

has_dot_dot-Climbs : {p : Bytes} → Climbs p → has_dot_dot p ≡ true
unfolding has_dot_dot split_slash is_dot_dot
has_dot_dot-Climbs whole = refl
has_dot_dot-Climbs (leading post) = refl
has_dot_dot-Climbs (inside pre rest c) =
    ground (arith, any_after_slash pre rest (has_dot_dot-Climbs c))

-- A first segment `..` stands alone or before a slash.
first-Climbs : (p : Bytes) → is_dot_dot (split_slash p).0 ≡ true → Climbs p
unfolding split_slash is_dot_dot
first-Climbs [] h = absurd (ground arith)
first-Climbs (a ∷ []) h = absurd (ground arith)
first-Climbs (a ∷ b ∷ []) h =
    let e : a ∷ b ∷ [] ≡ b'.' ∷ b'.' ∷ [] = ground arith in subst Climbs (sym e) whole
first-Climbs (a ∷ b ∷ c ∷ p) h =
    let e : a ∷ b ∷ c ∷ p ≡ b'.' ∷ b'.' ∷ b'/' ∷ p = ground arith in
    subst Climbs (sym e) (leading p)

later-Climbs :
    (p : Bytes)
    → any is_dot_dot (split_slash p).1 ≡ true
    → (pre rest : Bytes) × (p ≡ pre ++ b'/' ∷ rest) × Climbs rest
unfolding split_slash any
later-Climbs [] h = absurd (ground arith)
later-Climbs (b ∷ p) h = elim (Bool-cases (b == b'/')) [
  | inl slash ↦ elim (Bool-cases (is_dot_dot (split_slash p).0)) [
    | inl here ↦ ([], p, ground arith, first-Climbs p here)
    | inr there ↦
        let (pre, rest, e, c) = later-Climbs p (ground arith) in (b ∷ pre, rest, ap (◌∷◌ b) e, c)
  ]
  | inr other ↦
      let (pre, rest, e, c) = later-Climbs p (ground arith) in (b ∷ pre, rest, ap (◌∷◌ b) e, c)
]

Climbs-has_dot_dot : (p : Bytes) → has_dot_dot p ≡ true → Climbs p
unfolding has_dot_dot
Climbs-has_dot_dot p h = elim (Bool-cases (is_dot_dot (split_slash p).0)) [
  | inl first ↦ first-Climbs p first
  | inr other ↦
      let (pre, rest, e, c) = later-Climbs p (ground arith) in
      subst Climbs (sym e) (inside pre rest c)
]

abbrev is_control : ℕ → Bool
is_control b = b == 0 || ltb b 0x20

no_control : (p : Bytes) → any is_control p ≡ false → All (λ b. 0x20 ≤ b) p
unfolding any
no_control [] h = tt
no_control (b ∷ p) h = (ground arith, no_control p (ground arith))

control_free : (p : Bytes) → All (λ b. 0x20 ≤ b) p → any is_control p ≡ false
unfolding any
control_free [] a = refl
control_free (b ∷ p) a = ground (arith, a.0, control_free p a.1)

accepted_parts :
    (p : Bytes)
    → validate_scp_remote_path p ≡ true
    → (is_empty p ≡ false)
      × (length p ≤ max_filename_bytes)
      × (any is_control p ≡ false)
      × (has_dot_dot p ≡ false)
unfolding validate_scp_remote_path
accepted_parts p h = ground arith

accepted_of_parts :
    (p : Bytes)
    → is_empty p ≡ false
    → length p ≤ max_filename_bytes
    → any is_control p ≡ false
    → has_dot_dot p ≡ false
    → validate_scp_remote_path p ≡ true
unfolding validate_scp_remote_path
accepted_of_parts p e l c d = ground arith

not_empty : (p : Bytes) → p ≢ [] → is_empty p ≡ false
not_empty [] h = absurd (h refl)
not_empty (b ∷ p) h = refl

-- An SCP path is accepted exactly if it has at least one byte and at most 1024, none of them below
-- the space, and no segment `..`, wherever in the path that would stand.
pub validate_scp_remote_path_iff :
    (p : Bytes)
    → (validate_scp_remote_path p ≡ true)
      ↔ ((p ≢ []) × (length p ≤ max_filename_bytes) × All (λ b. 0x20 ≤ b) p × (¬ Climbs p))
validate_scp_remote_path_iff p = (
  λ h.
      let (some_byte, short, clean, flat) = accepted_parts p h in
      (
        (λ e. cc (ap (λ (x : Bytes). is_empty x) e)),
        short,
        no_control p clean,
        (λ c. cc (has_dot_dot-Climbs c)),
      ),
  λ h.
      accepted_of_parts p (not_empty p h.0) h.1 (control_free p h.2)
        (elim (Bool-cases (has_dot_dot p)) [
          | inl up ↦ absurd (h.3 (Climbs-has_dot_dot p up))
          | inr flat ↦ flat
        ]),
)

-- Both ends name one provider, and the same server or connection of it.
abbrev pub SameProvider : TransferEndpoint → TransferEndpoint → Type 0
SameProvider (TransferEndpoint.local _) (TransferEndpoint.local _) = Unit
SameProvider (TransferEndpoint.sftp a _) (TransferEndpoint.sftp b _) = a ≡ b
SameProvider (TransferEndpoint.scp a _) (TransferEndpoint.scp b _) = a ≡ b
SameProvider (TransferEndpoint.web_dav a _) (TransferEndpoint.web_dav b _) = a ≡ b
SameProvider (TransferEndpoint.s3 a _ _) (TransferEndpoint.s3 b _ _) = a ≡ b
SameProvider _ _ = ⊥

-- Data goes directly from end to end exactly if both ends are of one provider with one server or
-- connection; any other pair is relayed by the server.
pub select_strategy_iff :
    (a b : TransferEndpoint) → (select_strategy a b ≡ direct) ↔ SameProvider a b
unfolding select_strategy
select_strategy_iff (TransferEndpoint.local p) (TransferEndpoint.local q) = (λ h. tt, λ h. refl)
select_strategy_iff (TransferEndpoint.sftp a p) (TransferEndpoint.sftp b q) =
    ground (arith, eq_iff a b)
select_strategy_iff (TransferEndpoint.scp a p) (TransferEndpoint.scp b q) =
    ground (arith, eq_iff a b)
select_strategy_iff (TransferEndpoint.web_dav a p) (TransferEndpoint.web_dav b q) =
    ground (arith, eq_iff a b)
select_strategy_iff (TransferEndpoint.s3 a p k) (TransferEndpoint.s3 b q l) =
    ground (arith, eq_iff a b)
select_strategy_iff _ _ = (λ h. cc, λ h. absurd h)
