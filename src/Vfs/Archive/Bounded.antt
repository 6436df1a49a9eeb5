-- ===== src/Vfs/Archive/Bounded.antt =====
-- That an extraction keeps to the limit of decompressed bytes, crates/vfs/src/archive.rs.
use cloud_desk_os.Prelude.{
  ℕ, ◌+◌, ◌≤◌, Bool, true, false, Option, none, some, List, [], ◌∷◌, ◌++◌, ok, err, ltb, length,
  ◌≡◌, refl, sym, subst, arith, if-holds,
}
use cloud_desk_os.Prelude.Texts.{Text}
use cloud_desk_os.Vfs.Paths.{
  VfsError, VfsResult, read_only, normalize_virtual_path, safe_entry_path,
}
use cloud_desk_os.Vfs.Program.{
  PathBuf, ArchiveFormat, zip, tar_gz, EntryType, symlink_entry, hard_link_entry, dir_entry,
  file_entry, other_entry, ArchiveEntry, Archive, create_dir_all, create, open_archive, Prog, ◌>>=◌,
  act, pure, fail, catch, or_io, run, System,
}
use cloud_desk_os.Vfs.Provider.{LocalProvider, checked, parent}
use cloud_desk_os.Vfs.Archive.{
  ArchiveOutcome, copy_with_quota, make_target, zip_target, tar_target, Extracted, Rest, copied,
  fill, one_more, extract_zip_from, extract_tar_from, extract_zip, extract_tar_gz, extract,
  remove_files, remove_dirs, cleanup_partial_extraction, conclude, extract_archive, no_outcome,
  max_extract_bytes, max_extract_entries,
}
use cloud_desk_os.Vfs.Archive.Quota.{
  spent, Spends, run-Spends, caught-Spends, after-Spends, free-Spends, Total, copy-Spends,
}

-- A program that writes nothing into a file.
abbrev Same : {A : Type 0} → ℕ → VfsResult A → ℕ → Type 0
Same n r m = m ≡ n

make_target-Same :
    (n : ℕ) (dir : Bool) (target : PathBuf)
    → n ≤ max_extract_bytes
    → Spends n (Same n) (make_target dir target)
unfolding make_target
make_target-Same n true target below =
    free-Spends n (Same n) (create_dir_all target) _ refl below refl (λ u. refl)
make_target-Same n false target below =
    free-Spends n (Same n) (create_dir_all (parent target)) _ refl below refl
      (λ u. free-Spends n (Same n) (create target) _ refl below refl (λ u. refl))

under-Same :
    {A : Type 0} (n : ℕ) (raw : Text) (next : PathBuf → Prog A)
    → ((path : PathBuf) → Spends n (Same n) (next path))
    → Spends n (Same n) (checked (safe_entry_path raw) >>= next)
under-Same n raw next f = by_path (safe_entry_path raw)
  where
    by_path : (r : VfsResult PathBuf) → Spends n (Same n) (checked r >>= next)
    by_path (err e) = unfold ◌>>=◌ in refl
    by_path (ok path) = unfold ◌>>=◌ in f path

zip_target-Same :
    (n : ℕ) (destination : PathBuf) (e : ArchiveEntry) (kind : EntryType)
    → n ≤ max_extract_bytes
    → Spends n (Same n) (zip_target destination e kind)
unfolding zip_target
zip_target-Same n destination e symlink_entry below = refl
zip_target-Same n destination e dir_entry below =
    under-Same n e.name _ (λ path. make_target-Same n true (destination ++ path) below)
zip_target-Same n destination e hard_link_entry below =
    under-Same n e.name _ (λ path. make_target-Same n false (destination ++ path) below)
zip_target-Same n destination e file_entry below =
    under-Same n e.name _ (λ path. make_target-Same n false (destination ++ path) below)
zip_target-Same n destination e other_entry below =
    under-Same n e.name _ (λ path. make_target-Same n false (destination ++ path) below)

tar_target-Same :
    (n : ℕ) (destination : PathBuf) (e : ArchiveEntry) (kind : EntryType)
    → n ≤ max_extract_bytes
    → Spends n (Same n) (tar_target destination e kind)
unfolding tar_target
tar_target-Same n destination e symlink_entry below = refl
tar_target-Same n destination e hard_link_entry below = refl
tar_target-Same n destination e dir_entry below =
    under-Same n e.name _ (λ path. make_target-Same n true (destination ++ path) below)
tar_target-Same n destination e file_entry below =
    under-Same n e.name _ (λ path. make_target-Same n false (destination ++ path) below)
tar_target-Same n destination e other_entry below = under-Same n e.name _ (λ path. refl)

-- The answer counts the bytes that were written.
abbrev pub Counted : VfsResult ArchiveOutcome → ℕ → Type 0
Counted (ok outcome) m = m ≡ outcome.bytes
Counted (err e) m = Unit

abbrev Counts : VfsResult Extracted → ℕ → Type 0
Counts (ok extracted) m = Counted extracted.1 m
Counts (err e) m = Unit

fill-Counts :
    (rest : Rest) (reads : List (Option Text)) (outcome : ArchiveOutcome) (created : List PathBuf)
    (r : VfsResult (PathBuf × Bool))
    → outcome.bytes ≤ max_extract_bytes
    → ((outcome : ArchiveOutcome) (created : List PathBuf)
        → outcome.bytes ≤ max_extract_bytes
        → Spends outcome.bytes Counts (rest outcome created))
    → Spends outcome.bytes Counts (fill rest reads outcome created r)
unfolding fill
fill-Counts rest reads outcome created (err e) below f = tt
fill-Counts rest reads outcome created (ok (target, false)) below f =
    f outcome (target ∷ created) below
fill-Counts rest reads outcome created (ok (target, true)) below f =
    caught-Spends outcome.bytes Total Counts (copy_with_quota target reads outcome.bytes) _ below
      (copy-Spends target reads outcome.bytes below) by_copy
  where
    by_copy :
        (r : VfsResult ℕ) (m : ℕ)
        → m ≤ max_extract_bytes
        → Total r m
        → Spends m Counts (copied rest outcome (target ∷ created) r)
    by_copy (err e) m within h = unfold copied in tt
    by_copy (ok total) m within h =
        unfold copied in
        subst (λ k. Spends k Counts (rest (record outcome { bytes = total }) (target ∷ created)))
          (sym h)
          (f (record outcome { bytes = total }) (target ∷ created)
            (subst (λ k. k ≤ max_extract_bytes) h within))

from_target :
    (rest : Rest) (e : ArchiveEntry) (outcome : ArchiveOutcome) (created : List PathBuf)
    (target : Prog (PathBuf × Bool))
    → outcome.bytes ≤ max_extract_bytes
    → Spends outcome.bytes (Same outcome.bytes) target
    → ((outcome : ArchiveOutcome) (created : List PathBuf)
        → outcome.bytes ≤ max_extract_bytes
        → Spends outcome.bytes Counts (rest outcome created))
    → Spends outcome.bytes Counts
        (catch target >>= (λ r. fill rest e.reads (one_more outcome) created r))
from_target rest e outcome created target below h f =
    caught-Spends outcome.bytes (Same outcome.bytes) Counts target _ below h (λ r m within same.
      subst (λ k. Spends k Counts (fill rest e.reads (one_more outcome) created r)) (sym same)
        (fill-Counts rest e.reads (one_more outcome) created r below f))

extract_zip_from-Counts :
    (destination : PathBuf) (es : Archive) (outcome : ArchiveOutcome) (created : List PathBuf)
    → outcome.bytes ≤ max_extract_bytes
    → Spends outcome.bytes Counts (extract_zip_from destination es outcome created)
unfolding extract_zip_from
extract_zip_from-Counts destination [] outcome created below = refl
extract_zip_from-Counts destination (none ∷ es) outcome created below = tt
extract_zip_from-Counts destination (some e ∷ es) outcome created below =
    from_target _ e outcome created _ below
      (zip_target-Same outcome.bytes destination e e.entry_type below)
      (extract_zip_from-Counts destination es)

extract_tar_from-Counts :
    (destination : PathBuf) (es : Archive) (outcome : ArchiveOutcome) (created : List PathBuf)
    → outcome.bytes ≤ max_extract_bytes
    → Spends outcome.bytes Counts (extract_tar_from destination es outcome created)
unfolding extract_tar_from
extract_tar_from-Counts destination [] outcome created below = refl
extract_tar_from-Counts destination (none ∷ es) outcome created below = tt
extract_tar_from-Counts destination (some e ∷ es) outcome created below =
    if-holds (Spends outcome.bytes Counts) (ltb max_extract_entries (outcome.entries + 1))
      (pure (created, err _)) _ tt
      (from_target _ e outcome created _ below
        (tar_target-Same outcome.bytes destination e e.entry_type below)
        (extract_tar_from-Counts destination es))

open-Same : (path : PathBuf) → Spends 0 (Same 0) (act (open_archive path))
open-Same path = (omega arith, go)
  where
    go : (o : Option (Option Archive)) → Spends 0 (Same 0) (or_io o)
    go none = refl
    go (some opened) = refl

extract-Counts :
    (format : ArchiveFormat) (archive destination : PathBuf)
    → Spends 0 Counts (extract format archive destination)
unfolding extract
extract-Counts zip archive destination =
    caught-Spends 0 (Same 0) Counts (act (open_archive archive)) _ (omega arith) (open-Same archive)
      (λ r m within same.
        subst (λ k. Spends k Counts (extract_zip destination r)) (sym same) (by_open r))
  where
    by_open : (r : VfsResult (Option Archive)) → Spends 0 Counts (extract_zip destination r)
    by_open (err e) = unfold extract_zip in tt
    by_open (ok none) = unfold extract_zip in tt
    by_open (ok (some es)) =
        unfold extract_zip in
        if-holds (Spends 0 Counts) (ltb max_extract_entries (length es)) _ _ tt
          (extract_zip_from-Counts destination es no_outcome [] (omega arith))
extract-Counts tar_gz archive destination =
    caught-Spends 0 (Same 0) Counts (act (open_archive archive)) _ (omega arith) (open-Same archive)
      (λ r m within same.
        subst (λ k. Spends k Counts (extract_tar_gz destination r)) (sym same) (by_open r))
  where
    by_open : (r : VfsResult (Option Archive)) → Spends 0 Counts (extract_tar_gz destination r)
    by_open (err e) = unfold extract_tar_gz in tt
    by_open (ok none) = unfold extract_tar_gz in tt
    by_open (ok (some es)) =
        unfold extract_tar_gz in extract_tar_from-Counts destination es no_outcome [] (omega arith)

abbrev Free : {A : Type 0} → VfsResult A → ℕ → Type 0
Free r m = Unit

remove_files-Free :
    (n : ℕ) (created : List PathBuf) → n ≤ max_extract_bytes → Spends n Free (remove_files created)
unfolding remove_files ◌>>=◌
remove_files-Free n [] below = tt
remove_files-Free n (path ∷ created) below =
    (omega arith, λ o. remove_files-Free (n + 0) created (omega arith))

remove_dirs-Free :
    (n : ℕ) (created : List PathBuf) → n ≤ max_extract_bytes → Spends n Free (remove_dirs created)
unfolding remove_dirs ◌>>=◌
remove_dirs-Free n [] below = tt
remove_dirs-Free n (path ∷ created) below =
    (omega arith, λ o. remove_dirs-Free (n + 0) created (omega arith))

conclude-Counted :
    (n : ℕ) (extracted : Extracted)
    → n ≤ max_extract_bytes
    → Counted extracted.1 n
    → Spends n Counted (conclude extracted)
unfolding conclude cleanup_partial_extraction
conclude-Counted n (created, ok outcome) below h = h
conclude-Counted n (created, err e) below h =
    after-Spends n Free Counted (cleanup_partial_extraction created) _ below
      (after-Spends n Free Free (remove_files created) _ below (remove_files-Free n created below)
        (λ u m within free. remove_dirs-Free m created within) (λ e m. tt))
      (λ u m within free. tt) (λ e m. tt)

from-zero :
    {A B : Type 0} (r : VfsResult A) (R : VfsResult B → ℕ → Type 0) (next : A → Prog B)
    → ((e : VfsError) → R (err e) 0)
    → ((a : A) → Spends 0 R (next a))
    → Spends 0 R (checked r >>= next)
unfolding ◌>>=◌
from-zero (ok a) R next g f = f a
from-zero (err e) R next g f = g e

extract_archive-Counted :
    (self : LocalProvider) (archive destination : Text) (format : ArchiveFormat)
    → Spends 0 Counted (extract_archive self archive destination format)
unfolding extract_archive
extract_archive-Counted self archive destination format =
    if-holds (Spends 0 Counted) self.writable _ (fail read_only)
      (from-zero (normalize_virtual_path archive false) Counted _ (λ e. tt)
        (λ p.
          from-zero (normalize_virtual_path destination true) Counted _ (λ e. tt)
            (λ q. free-Spends 0 Counted (create_dir_all q) _ refl (omega arith) tt (λ u.
              after-Spends 0 Counts Counted (extract format p q) _ (omega arith)
                (extract-Counts format p q)
                (λ extracted m within h. conclude-Counted m extracted within h) (λ e m. tt)))))
      tt

-- Whatever an archive claims of its sizes and whatever the disk answers, an extraction writes at most
-- 4 GiB of file content, and one that succeeds reports the number of bytes that it wrote.
pub extract_archive_quota :
    {S : Type 0} (system : System S) (s : S) (self : LocalProvider) (archive destination : Text)
    (format : ArchiveFormat)
    → (spent system (extract_archive self archive destination format) s ≤ max_extract_bytes)
      × Counted
          (run system (extract_archive self archive destination format) s).0
          (spent system (extract_archive self archive destination format) s)
extract_archive_quota system s self archive destination format =
    subst
      (λ m.
        (m ≤ max_extract_bytes)
        × Counted (run system (extract_archive self archive destination format) s).0 m)
      (omega arith)
      (run-Spends system 0 Counted (extract_archive self archive destination format) s (omega arith)
        (extract_archive-Counted self archive destination format))
