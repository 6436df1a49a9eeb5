-- ===== src/Vfs/Paths/Entries.antt =====
-- The names of archive entries, crates/vfs/src/archive.rs, as paths of the file system.
use cloud_desk_os.Prelude.{
  Bool, true, false, not, ◌||◌, List, [], ◌∷◌, ok, err, ◌>>=◌, require-ok, ◌==◌, is_empty, ◌≡◌,
  refl, ◌∙◌, arith, Bool-cases, inl, inr,
}
use cloud_desk_os.Prelude.Texts.{Text, contains}
use cloud_desk_os.Vfs.Paths.{
  Component, root_dir, cur_dir, parent_dir, normal, front_components, components, push_components,
  push_safe, or_unsafe, or_root, safe_entry_path, has_drive_letter, VfsResult,
  normalize_virtual_path,
}
use cloud_desk_os.Vfs.Paths.Segments.{AllNames, Normal, normalize_virtual_path-Normal}

push_safe-pushes :
    (cs : List Component) (parts : List Text)
    → push_safe cs ≡ ok parts
    → push_components cs ≡ ok parts
unfolding push_safe push_components
push_safe-pushes [] parts h = h
push_safe-pushes (root_dir ∷ cs) parts h = cc
push_safe-pushes (cur_dir ∷ cs) parts h = push_safe-pushes cs parts h
push_safe-pushes (parent_dir ∷ cs) parts h = cc
push_safe-pushes (normal value ∷ cs) parts h = by_rest (push_safe cs) refl (push_safe-pushes cs)
  where
    by_rest :
        (r : VfsResult (List Text))
        → push_safe cs ≡ r
        → ((rest : List Text) → push_safe cs ≡ ok rest → push_components cs ≡ ok rest)
        → push_components (normal value ∷ cs) ≡ ok parts
    by_rest (err e) f ih = cc
    by_rest (ok rest) f ih = rw (ih rest f) cc

-- Whether a text starts at the root.
abbrev pub is_absolute : Text → Bool
is_absolute [] = false
is_absolute (b ∷ bs) = b == b'/'

not-false : (b : Bool) → not b ≡ true → b ≡ false
not-false true h = cc
not-false false h = refl

is_absolute-refused :
    (raw : Text) (parts : List Text)
    → (push_safe (components raw) >>= or_unsafe) ≡ ok parts
    → is_absolute raw ≡ false
unfolding components front_components push_safe
is_absolute-refused [] parts h = refl
is_absolute-refused (b ∷ bs) parts h = elim (Bool-cases (b == b'/')) [
  | inl slash ↦ ground arith
  | inr other ↦ other
]

normalize-push :
    (raw : Text) (allow_root : Bool)
    → contains raw 0 ≡ false
    → normalize_virtual_path raw allow_root
      ≡ (push_components (components raw) >>= or_root allow_root)
unfolding normalize_virtual_path
normalize-push raw allow_root clean = rw clean refl

pushed-normalizes :
    (raw : Text) (parts : List Text)
    → contains raw 0 ≡ false
    → (push_safe (components raw) >>= or_unsafe) ≡ ok parts
    → (normalize_virtual_path raw false ≡ ok parts) × (is_empty parts ≡ false)
pushed-normalizes raw parts clean h =
    by_push (push_safe (components raw)) h (push_safe-pushes (components raw))
  where
    by_push :
        (r : VfsResult (List Text))
        → (r >>= or_unsafe) ≡ ok parts
        → ((rest : List Text) → r ≡ ok rest → push_components (components raw) ≡ ok rest)
        → (normalize_virtual_path raw false ≡ ok parts) × (is_empty parts ≡ false)
    by_push (err e) f ih = cc
    by_push (ok []) f ih = unfold or_unsafe in cc
    by_push (ok (s ∷ ss)) f ih =
        unfold or_unsafe or_root in
        (normalize-push raw false clean ∙ rw (ih (s ∷ ss) refl) f, ground arith)

names-of :
    (raw : Text) (parts : List Text) → normalize_virtual_path raw false ≡ ok parts → AllNames parts
names-of raw parts h = by_normal (normalize_virtual_path-Normal raw false parts h)
  where
    by_normal : Normal false parts → AllNames parts
    by_normal (inl root) = cc
    by_normal (inr names) = names.1

-- The name of an archive entry is taken only if it is a relative path without a zero byte, a
-- backslash or a drive letter, and then it means what it means as a path of the file system: names
-- below the destination, none of them empty, `.` or `..`, and at least one.
pub safe_entry_path-normalizes :
    (raw : Text) (parts : List Text)
    → safe_entry_path raw ≡ ok parts
    → (is_absolute raw ≡ false)
      × (contains raw b'\\' ≡ false)
      × (has_drive_letter raw ≡ false)
      × (normalize_virtual_path raw false ≡ ok parts)
      × (is_empty parts ≡ false)
      × AllNames parts
unfolding safe_entry_path
safe_entry_path-normalizes raw parts h =
    let (named, after) = require-ok (not (is_empty raw || contains raw 0)) _ _ parts h in
    let (forward, rest) = require-ok (not (contains raw b'\\')) _ _ parts after in
    let (undriven, pushed) = require-ok (not (has_drive_letter raw)) _ _ parts rest in
    let clean : contains raw 0 ≡ false = ground arith in
    let (normalized, found) = pushed-normalizes raw parts clean pushed in
    (
      is_absolute-refused raw parts pushed,
      not-false _ forward,
      not-false _ undriven,
      normalized,
      found,
      names-of raw parts normalized,
    )
