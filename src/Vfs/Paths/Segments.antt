-- ===== src/Vfs/Paths/Segments.antt =====
-- Normalised paths by their segments, crates/vfs/src/lib.rs: what the parts of one are.
use cloud_desk_os.Prelude.{
  ℕ, Bool, true, false, not, ◌&&◌, ◌||◌, List, [], ◌∷◌, ok, err, ◌>>=◌, All, ◌==◌, if◌then◌else◌,
  is_empty, ◌≡◌, refl, subst, arith, Bool-cases, inl, inr, ◌⊎◌,
}
use cloud_desk_os.Prelude.Texts.{Text, text_eq, contains, split_slash}
use cloud_desk_os.Vfs.Paths.{
  traversal, VfsResult, dot, dot_dot, component_of, later_components, front_components, components,
  push_components, or_root, normalize_virtual_path,
}

-- All segments of a text, at least one.
abbrev pub segments : Text → List Text
segments p = (split_slash p).0 ∷ (split_slash p).1

-- The loop over the components as one over the segments.
unfoldable pub walk : List Text → VfsResult (List Text)
walk [] = ok []
walk (s ∷ ss) =
    let rest = walk ss in
    if is_empty s || text_eq s dot
    then rest
    else if text_eq s dot_dot
    then err traversal
    else (do parts ← rest; ok (s ∷ parts))

push_later : (ss : List Text) → push_components (later_components ss) ≡ walk ss
unfolding push_components later_components component_of walk
push_later [] = refl
push_later (s ∷ ss) = ground (arith, push_later ss)

push_front :
    (s : Text) (ss : List Text) → push_components (front_components false (s, ss)) ≡ walk (s ∷ ss)
unfolding front_components push_components component_of walk
push_front s ss = ground (arith, push_later ss)

pub push_components-walk : (p : Text) → push_components (components p) ≡ walk (segments p)
unfolding components push_components split_slash walk
push_components-walk [] = refl
push_components-walk (b ∷ bs) = elim (Bool-cases (b == b'/')) [
  | inl slash ↦ rw slash (push_later (segments bs))
  | inr other ↦ rw other (push_front (b ∷ (split_slash bs).0) (split_slash bs).1)
]

-- A part of a path that names an entry of a directory.
unfoldable pub is_name : Text → Bool
is_name s =
    not (is_empty s)
    && not (text_eq s dot)
    && not (text_eq s dot_dot)
    && not (contains s b'/')
    && not (contains s 0)

split_slash-contains :
    (p : Text) (c : ℕ)
    → contains p c ≡ false
    → All (λ (s : Text). contains s c ≡ false) (segments p)
unfolding split_slash contains
split_slash-contains [] c h = (refl, tt)
split_slash-contains (b ∷ bs) c h =
    let below = split_slash-contains bs c (ground arith) in
    elim (Bool-cases (b == b'/')) [
      | inl slash ↦ rw slash (refl, below)
      | inr other ↦ rw other (ground (arith, below.0), below.1)
    ]

split_slash-slash : (p : Text) → All (λ (s : Text). contains s b'/' ≡ false) (segments p)
unfolding split_slash contains
split_slash-slash [] = (refl, tt)
split_slash-slash (b ∷ bs) =
    let below = split_slash-slash bs in
    elim (Bool-cases (b == b'/')) [
      | inl slash ↦ rw slash (refl, below)
      | inr other ↦ rw other (ground (arith, below.0), below.1)
    ]

-- What a walk that succeeds gives.
abbrev pub Gives : (List Text → Type 0) → VfsResult (List Text) → Type 0
Gives P (ok parts) = P parts
Gives P (err e) = Unit

abbrev pub AllNames : List Text → Type 0
AllNames = All (λ (s : Text). is_name s ≡ true)

cons-Gives :
    (s : Text) (r : VfsResult (List Text))
    → is_name s ≡ true
    → Gives AllNames r
    → Gives AllNames (r >>= (λ parts. ok (s ∷ parts)))
cons-Gives s (ok parts) h hs = (h, hs)
cons-Gives s (err e) h hs = tt

walk-AllNames :
    (ss : List Text)
    → All (λ (s : Text). contains s b'/' ≡ false) ss
    → All (λ (s : Text). contains s 0 ≡ false) ss
    → Gives AllNames (walk ss)
unfolding walk is_name
walk-AllNames [] slashes zeros = tt
walk-AllNames (s ∷ ss) slashes zeros =
    let below = walk-AllNames ss slashes.1 zeros.1 in
    elim (Bool-cases (is_empty s || text_eq s dot)) [
      | inl skipped ↦ rw skipped below
      | inr kept ↦ elim (Bool-cases (text_eq s dot_dot)) [
        | inl up ↦ rw (kept, up) tt
        | inr named ↦
            rw (kept, named) (cons-Gives s (walk ss) (ground (arith, slashes.0, zeros.0)) below)
      ]
    ]

pub segments-AllNames : (p : Text) → contains p 0 ≡ false → Gives AllNames (walk (segments p))
segments-AllNames p clean =
    walk-AllNames (segments p) (split_slash-slash p) (split_slash-contains p 0 clean)

-- What `normalize_virtual_path` returns: the root alone, where the caller allows it, or one or more
-- names, none of them empty, `.` or `..`, and none with a slash or a zero byte.
abbrev pub Normal : Bool → List Text → Type 0
Normal allow_root parts =
    ((allow_root ≡ true) × (parts ≡ dot ∷ [])) ⊎ ((is_empty parts ≡ false) × AllNames parts)

or_root-Gives :
    (allow_root : Bool) (parts : List Text)
    → AllNames parts
    → Gives (Normal allow_root) (or_root allow_root parts)
unfolding or_root
or_root-Gives true [] h = inl (refl, refl)
or_root-Gives false [] h = tt
or_root-Gives allow_root (s ∷ ss) h = inr (refl, h)

pub normalize-walk :
    (p : Text) (allow_root : Bool)
    → contains p 0 ≡ false
    → normalize_virtual_path p allow_root ≡ (walk (segments p) >>= or_root allow_root)
unfolding normalize_virtual_path
normalize-walk p allow_root h = rw (h, push_components-walk p) refl

normalize_virtual_path-Gives :
    (path : Text) (allow_root : Bool)
    → Gives (Normal allow_root) (normalize_virtual_path path allow_root)
normalize_virtual_path-Gives path allow_root = elim (Bool-cases (contains path 0)) [
  | inl zero ↦ unfold normalize_virtual_path in rw zero tt
  | inr clean ↦
      rw (normalize-walk path allow_root clean)
        (by_walk (walk (segments path)) (segments-AllNames path clean))
]
  where
    by_walk :
        (r : VfsResult (List Text))
        → Gives AllNames r
        → Gives (Normal allow_root) (r >>= or_root allow_root)
    by_walk (ok parts) h = or_root-Gives allow_root parts h
    by_walk (err e) h = tt

-- A path that is accepted is the root, where the caller allows it, or a list of names, none empty,
-- `.` or `..`, and none with a slash or a zero byte.
pub normalize_virtual_path-Normal :
    (path : Text) (allow_root : Bool) (parts : List Text)
    → normalize_virtual_path path allow_root ≡ ok parts
    → Normal allow_root parts
normalize_virtual_path-Normal path allow_root parts h =
    subst (Gives (Normal allow_root)) h (normalize_virtual_path-Gives path allow_root)
