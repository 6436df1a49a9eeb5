-- ===== src/Vfs/Paths/Joins.antt =====
-- The virtual paths that are shown for entries, crates/vfs/src/lib.rs, lead back to them; and the
-- names of archive entries, crates/vfs/src/archive.rs.
use mathlib.Core.List.{append-nil}
use cloud_desk_os.Prelude.{
  ℕ, zero, suc, Bool, true, false, ◌||◌, List, [], ◌∷◌, ◌++◌, ok, err, ◌>>=◌, ◌==◌, if◌then◌else◌,
  is_empty, ◌≡◌, refl, sym, ap, subst, ◌∙◌, arith, Bool-cases, inl, inr,
}
use cloud_desk_os.Prelude.Texts.{
  Text, text_eq, text_eq_sound, contains, contains-append, split_slash,
}
use cloud_desk_os.Vfs.Paths.{
  traversal, VfsResult, dot, dot_dot, or_root, normalize_virtual_path, trim_start_slash,
  cons_unless_slash, trim_end_slash, canonical_virtual, join_virtual, is_root, child_path,
}
use cloud_desk_os.Vfs.Paths.Segments.{
  segments, walk, is_name, Gives, AllNames, normalize-walk, segments-AllNames,
}

abbrev both : List Text → VfsResult (List Text) → VfsResult (List Text)
both parts r = do more ← r; ok (parts ++ more)

-- A segment in front, whatever follows.
abbrev step : Text → VfsResult (List Text) → VfsResult (List Text)
step s rest =
    if is_empty s || text_eq s dot
    then rest
    else if text_eq s dot_dot
    then err traversal
    else (do parts ← rest; ok (s ∷ parts))

step-bind :
    (s : Text) (r q : VfsResult (List Text))
    → step s (r >>= (λ parts. both parts q)) ≡ (step s r >>= (λ parts. both parts q))
step-bind s (err e) q = ground arith
step-bind s (ok parts) (err e) = ground arith
step-bind s (ok parts) (ok more) = ground arith

both-nil : (r : VfsResult (List Text)) → r ≡ both [] r
both-nil (ok parts) = refl
both-nil (err e) = refl

walk-append : (ss ts : List Text) → walk (ss ++ ts) ≡ (walk ss >>= (λ parts. both parts (walk ts)))
unfolding walk
walk-append [] ts = both-nil (walk ts)
walk-append (s ∷ ss) ts = rw (walk-append ss ts) (step-bind s (walk ss) (walk ts))

segments-append : (p q : Text) → segments (p ++ b'/' ∷ q) ≡ segments p ++ segments q
unfolding split_slash
segments-append [] q = refl
segments-append (b ∷ bs) q = ground (arith, segments-append bs q)

segments-slash : (p : Text) → segments (b'/' ∷ p) ≡ [] ∷ segments p
unfolding split_slash
segments-slash p = refl

-- Slashes in front change nothing.
walk-trim_start : (p : Text) → walk (segments (trim_start_slash p)) ≡ walk (segments p)
unfolding trim_start_slash walk split_slash
walk-trim_start [] = refl
walk-trim_start (b ∷ bs) = ground (arith, walk-trim_start bs)

slashes : ℕ → Text
slashes zero = []
slashes (suc n) = b'/' ∷ slashes n

walk-slashes : (n : ℕ) → walk (segments (slashes n)) ≡ ok []
unfolding walk split_slash slashes
walk-slashes zero = refl
walk-slashes (suc n) = walk-slashes n

both-empty : (r : VfsResult (List Text)) → (r >>= (λ parts. both parts (ok []))) ≡ r
both-empty (ok parts) = rw append-nil refl
both-empty (err e) = refl

-- What is cut off at the end is slashes.
trim_end-slashes : (p : Text) → (n : ℕ) × (p ≡ trim_end_slash p ++ slashes n)
unfolding trim_end_slash slashes cons_unless_slash
trim_end-slashes [] = (0, refl)
trim_end-slashes (b ∷ bs) = by_tail (trim_end_slash bs) (trim_end-slashes bs)
  where
    by_tail :
        (t : Text)
        → (n : ℕ) × (bs ≡ t ++ slashes n)
        → (n : ℕ) × (b ∷ bs ≡ cons_unless_slash b t ++ slashes n)
    by_tail (c ∷ cs) (n, e) = (n, ap (◌∷◌ b) e)
    by_tail [] (n, e) = elim (Bool-cases (b == b'/')) [
      | inl slash ↦ (suc n, ground arith)
      | inr other ↦ (n, ground arith)
    ]

walk-slashes_end : (q : Text) (n : ℕ) → walk (segments (q ++ slashes n)) ≡ walk (segments q)
unfolding slashes
walk-slashes_end q zero = rw append-nil refl
walk-slashes_end q (suc n) =
    rw (segments-append q (slashes n), walk-append (segments q), walk-slashes n)
      (both-empty (walk (segments q)))

walk-trim_end : (p : Text) → walk (segments (trim_end_slash p)) ≡ walk (segments p)
walk-trim_end p =
    let (n, e) = trim_end-slashes p in
    sym (ap (λ (q : Text). walk (segments q)) e ∙ walk-slashes_end (trim_end_slash p) n)

walk-canonical : (p : Text) → walk (segments (canonical_virtual p)) ≡ walk (segments p)
unfolding canonical_virtual split_slash walk
walk-canonical p = walk-trim_end (trim_start_slash p) ∙ walk-trim_start p

split_slash-none : (s : Text) → contains s b'/' ≡ false → split_slash s ≡ (s, [])
unfolding split_slash contains
split_slash-none [] h = refl
split_slash-none (b ∷ bs) h = ground (arith, split_slash-none bs (ground arith))

walk-name : (name : Text) → is_name name ≡ true → walk (segments name) ≡ ok (name ∷ [])
walk-name name h = rw (split_slash-none name (unfold is_name in ground arith)) (by_test h)
  where
    by_test : is_name name ≡ true → walk (name ∷ []) ≡ ok (name ∷ [])
    by_test h = unfold walk is_name in ground arith

join-ok :
    (p name : Text) (parts : List Text)
    → is_name name ≡ true
    → walk (segments p) ≡ ok parts
    → walk (segments (p ++ b'/' ∷ name)) ≡ ok (parts ++ name ∷ [])
join-ok p name parts h e =
    rw (segments-append p name, walk-append (segments p), walk-name name h, e) refl

root-join :
    (name : Text) (parts : List Text)
    → is_name name ≡ true
    → walk (segments (b'/' ∷ [])) ≡ ok parts
    → walk (segments (b'/' ∷ name)) ≡ ok (parts ++ name ∷ [])
unfolding walk split_slash
root-join name [] h e = walk-name name h
root-join name (part ∷ parts) h e = cc

-- Below a directory the shown path of an entry has its parts and the name.
walk-join :
    (parent name : Text) (parts : List Text)
    → is_name name ≡ true
    → walk (segments parent) ≡ ok parts
    → walk (segments (join_virtual parent name)) ≡ ok (parts ++ name ∷ [])
walk-join parent name parts h e =
    elim (Bool-cases (text_eq (canonical_virtual parent) (b'/' ∷ []))) [
      | inl root ↦
          unfold join_virtual in
          rw root (
            root-join name parts h
              (ap (λ (q : Text). walk (segments q)) (sym (text_eq_sound _ _ root)) ∙ found))
      | inr below ↦
          unfold join_virtual in rw below (join-ok (canonical_virtual parent) name parts h found)
    ]
  where
    found : walk (segments (canonical_virtual parent)) ≡ ok parts
    found = walk-canonical parent ∙ e

contains-trim_start :
    (p : Text) (c : ℕ) → contains p c ≡ false → contains (trim_start_slash p) c ≡ false
unfolding contains trim_start_slash
contains-trim_start [] c h = refl
contains-trim_start (b ∷ bs) c h = ground (arith, contains-trim_start bs c)

contains-trim_end :
    (p : Text) (c : ℕ) → contains p c ≡ false → contains (trim_end_slash p) c ≡ false
contains-trim_end p c h =
    let (n, e) = trim_end-slashes p in
    ground
      (arith, ap (λ (q : Text). contains q c) e, contains-append (trim_end_slash p) (slashes n) c)

canonical-clean : (p : Text) → contains p 0 ≡ false → contains (canonical_virtual p) 0 ≡ false
unfolding contains canonical_virtual
canonical-clean p h = contains-trim_end (trim_start_slash p) 0 (contains-trim_start p 0 h)

join-clean :
    (parent name : Text)
    → is_name name ≡ true
    → contains parent 0 ≡ false
    → contains (join_virtual parent name) 0 ≡ false
unfolding join_virtual contains is_name
join-clean parent name h clean = ground (
  arith,
  canonical-clean parent clean,
  contains-append (canonical_virtual parent) (b'/' ∷ name) 0,
)

child-found :
    (parts dir_rel : List Text) (name : Text)
    → AllNames parts
    → or_root true parts ≡ ok dir_rel
    → child_path dir_rel name ≡ parts ++ name ∷ []
unfolding or_root child_path is_root is_name text_eq
child-found [] dir_rel name h e = ground arith
child-found (s ∷ []) dir_rel name h e = ground (arith, h.0)
child-found (s ∷ t ∷ ss) dir_rel name h e = ground arith

or_root-child :
    (parts : List Text) (name : Text) → or_root false (parts ++ name ∷ []) ≡ ok (parts ++ name ∷ [])
unfolding or_root
or_root-child [] name = refl
or_root-child (s ∷ ss) name = refl

pub normalize-clean :
    (path : Text) (allow_root : Bool) (parts : List Text)
    → normalize_virtual_path path allow_root ≡ ok parts
    → contains path 0 ≡ false
unfolding normalize_virtual_path
normalize-clean path allow_root parts h = elim (Bool-cases (contains path 0)) [
  | inl bad ↦ cc
  | inr clean ↦ clean
]

-- The path that a listing or a search shows for an entry leads to the entry: it normalises to the
-- relative path that the search itself goes on with, for every name that can stand in a directory
-- and every directory that is named by a valid path.
pub join_virtual-normalizes :
    (parent name : Text) (dir_rel : List Text)
    → is_name name ≡ true
    → normalize_virtual_path parent true ≡ ok dir_rel
    → normalize_virtual_path (join_virtual parent name) false ≡ ok (child_path dir_rel name)
join_virtual-normalizes parent name dir_rel h e =
    normalize-walk (join_virtual parent name) false (join-clean parent name h clean)
    ∙ by_walk (walk (segments parent)) refl (kept (walk (segments parent)) refl)
  where
    clean : contains parent 0 ≡ false
    clean = normalize-clean parent true dir_rel e

    found : (walk (segments parent) >>= or_root true) ≡ ok dir_rel
    found = sym (normalize-walk parent true clean) ∙ e

    kept :
        (r : VfsResult (List Text)) → walk (segments parent) ≡ r → (r >>= or_root true) ≡ ok dir_rel
    kept r f = sym (ap (λ (r : VfsResult (List Text)). r >>= or_root true) f) ∙ found

    by_walk :
        (r : VfsResult (List Text))
        → walk (segments parent) ≡ r
        → (r >>= or_root true) ≡ ok dir_rel
        → (walk (segments (join_virtual parent name)) >>= or_root false)
          ≡ ok (child_path dir_rel name)
    by_walk (err x) f k = cc
    by_walk (ok parts) f k = rw (walk-join parent name parts h f) (
        or_root-child parts name
        ∙ ap ok (
            sym (
              child-found parts dir_rel name
                (subst (Gives AllNames) f (segments-AllNames parent clean)) k)))

-- The path that `stat` shows for an entry is accepted like the one that was asked for, and means the
-- same.
pub canonical_virtual-normalizes :
    (path : Text) (allow_root : Bool) (parts : List Text)
    → normalize_virtual_path path allow_root ≡ ok parts
    → normalize_virtual_path (canonical_virtual path) allow_root ≡ ok parts
canonical_virtual-normalizes path allow_root parts h =
    let clean = normalize-clean path allow_root parts h in
    normalize-walk (canonical_virtual path) allow_root (canonical-clean path clean)
    ∙ ap (λ (r : VfsResult (List Text)). r >>= or_root allow_root) (walk-canonical path)
    ∙ sym (normalize-walk path allow_root clean)
    ∙ h
