-- ===== src/Vfs/Archive.antt =====
-- `extract_archive` of crates/vfs/src/archive.rs.
pub mod Quota
pub mod Bounded
use cloud_desk_os.Prelude.{
  ℕ, ◌+◌, ◌*◌, Bool, true, false, not, Option, none, some, List, [], ◌∷◌, ◌++◌, Result, ok, err,
  ltb, if◌then◌else◌, length, is_empty,
}
use cloud_desk_os.Prelude.Texts.{Text}
use cloud_desk_os.Vfs.Paths.{
  VfsError, read_only, io, archive_entry_link_denied, archive_quota_exceeded, invalid_archive,
  VfsResult, normalize_virtual_path, safe_entry_path,
}
use cloud_desk_os.Vfs.Program.{
  PathBuf, ArchiveFormat, zip, tar_gz, EntryType, symlink_entry, hard_link_entry, dir_entry,
  file_entry, other_entry, ArchiveEntry, Archive, Call, create_dir_all, create, open_archive,
  remove_file, remove_dir, write_all, Value, Prog, done, call, ◌>>=◌, ◌>>◌, act, attempt, pure,
  fail, catch,
}
use cloud_desk_os.Vfs.Provider.{LocalProvider, checked, parent}

pub record ArchiveOutcome : Type 0 where
  pub entries : ℕ
  pub bytes : ℕ

abbrev pub max_extract_entries : ℕ
max_extract_entries = 100000

abbrev pub max_extract_bytes : ℕ
max_extract_bytes = 4294967296

-- The reads of the decoder, up to the first empty one; the answer is the running total.
unfoldable pub copy_with_quota : PathBuf → List (Option Text) → ℕ → Prog ℕ
copy_with_quota target [] running_total = pure running_total
copy_with_quota target (none ∷ reads) running_total = fail io
copy_with_quota target (some [] ∷ reads) running_total = pure running_total
copy_with_quota target (some (b ∷ bs) ∷ reads) running_total =
    let total = running_total + length (b ∷ bs) in
    let rest = (do act (write_all target (b ∷ bs)); copy_with_quota target reads total) in
    if ltb max_extract_bytes total then fail archive_quota_exceeded else rest

-- The directory or the empty file for an entry, and whether it is a file.
unfoldable pub make_target : Bool → PathBuf → Prog (PathBuf × Bool)
make_target true target = do act (create_dir_all target); pure (target, false)
make_target false target = do
  act (create_dir_all (parent target))
  act (create target)
  pure (target, true)

unfoldable pub zip_target : PathBuf → ArchiveEntry → EntryType → Prog (PathBuf × Bool)
unfolding make_target
zip_target destination e symlink_entry = fail archive_entry_link_denied
zip_target destination e dir_entry = do
  path ← checked (safe_entry_path e.name)
  make_target true (destination ++ path)
zip_target destination e hard_link_entry = do
  path ← checked (safe_entry_path e.name)
  make_target false (destination ++ path)
zip_target destination e file_entry = do
  path ← checked (safe_entry_path e.name)
  make_target false (destination ++ path)
zip_target destination e other_entry = do
  path ← checked (safe_entry_path e.name)
  make_target false (destination ++ path)

unfoldable pub tar_target : PathBuf → ArchiveEntry → EntryType → Prog (PathBuf × Bool)
unfolding make_target
tar_target destination e symlink_entry = fail archive_entry_link_denied
tar_target destination e hard_link_entry = fail archive_entry_link_denied
tar_target destination e dir_entry = do
  path ← checked (safe_entry_path e.name)
  make_target true (destination ++ path)
tar_target destination e file_entry = do
  path ← checked (safe_entry_path e.name)
  make_target false (destination ++ path)
tar_target destination e other_entry = do
  path ← checked (safe_entry_path e.name)
  fail archive_entry_link_denied

-- The paths that an extraction created, the last one first, and its answer.
abbrev pub Extracted : Type 0
Extracted = List PathBuf × VfsResult ArchiveOutcome

abbrev pub Rest : Type 0
Rest = ArchiveOutcome → List PathBuf → Prog Extracted

-- Once the content of an entry is copied.
unfoldable pub copied : Rest → ArchiveOutcome → List PathBuf → VfsResult ℕ → Prog Extracted
copied rest outcome created (err e) = pure (created, err e)
copied rest outcome created (ok total) = rest (record outcome { bytes = total }) created

-- Once the target of an entry is there.
unfoldable pub fill :
    Rest
    → List (Option Text)
    → ArchiveOutcome
    → List PathBuf
    → VfsResult (PathBuf × Bool)
    → Prog Extracted
unfolding copied copy_with_quota
fill rest reads outcome created (err e) = pure (created, err e)
fill rest reads outcome created (ok (target, false)) = rest outcome (target ∷ created)
fill rest reads outcome created (ok (target, true)) = do
  total ← catch (copy_with_quota target reads outcome.bytes)
  copied rest outcome (target ∷ created) total

abbrev pub one_more : ArchiveOutcome → ArchiveOutcome
one_more outcome = record outcome { entries = outcome.entries + 1 }

unfoldable pub extract_zip_from : PathBuf → Archive → ArchiveOutcome → List PathBuf → Prog Extracted
unfolding fill zip_target
extract_zip_from destination [] outcome created = pure (created, ok outcome)
extract_zip_from destination (none ∷ es) outcome created = pure (created, err invalid_archive)
extract_zip_from destination (some e ∷ es) outcome created = do
  target ← catch (zip_target destination e e.entry_type)
  fill (extract_zip_from destination es) e.reads (one_more outcome) created target

unfoldable pub extract_tar_from : PathBuf → Archive → ArchiveOutcome → List PathBuf → Prog Extracted
unfolding fill tar_target
extract_tar_from destination [] outcome created = pure (created, ok outcome)
extract_tar_from destination (none ∷ es) outcome created = pure (created, err invalid_archive)
extract_tar_from destination (some e ∷ es) outcome created =
    let taken = (do
      target ← catch (tar_target destination e e.entry_type)
      fill (extract_tar_from destination es) e.reads (one_more outcome) created target) in
    if ltb max_extract_entries (outcome.entries + 1)
    then pure (created, err archive_quota_exceeded)
    else taken

abbrev pub no_outcome : ArchiveOutcome
no_outcome = record { entries = 0; bytes = 0 }

unfoldable pub extract_zip : PathBuf → VfsResult (Option Archive) → Prog Extracted
unfolding extract_zip_from
extract_zip destination (err e) = pure ([], err e)
extract_zip destination (ok none) = pure ([], err invalid_archive)
extract_zip destination (ok (some archive)) =
    if ltb max_extract_entries (length archive)
    then pure ([], err archive_quota_exceeded)
    else extract_zip_from destination archive no_outcome []

unfoldable pub extract_tar_gz : PathBuf → VfsResult (Option Archive) → Prog Extracted
unfolding extract_tar_from
extract_tar_gz destination (err e) = pure ([], err e)
extract_tar_gz destination (ok none) = pure ([], err invalid_archive)
extract_tar_gz destination (ok (some archive)) = extract_tar_from destination archive no_outcome []

unfoldable pub extract : ArchiveFormat → PathBuf → PathBuf → Prog Extracted
unfolding extract_zip extract_tar_gz
extract zip archive_relative destination = do
  opened ← catch (act (open_archive archive_relative))
  extract_zip destination opened
extract tar_gz archive_relative destination = do
  opened ← catch (act (open_archive archive_relative))
  extract_tar_gz destination opened

-- Both loops of the clean-up; failures of the removals are ignored.
unfoldable pub remove_files : List PathBuf → Prog (Unit {0})
remove_files [] = pure tt
remove_files (path ∷ created) = do attempt (remove_file path); remove_files created

unfoldable pub remove_dirs : List PathBuf → Prog (Unit {0})
remove_dirs [] = pure tt
remove_dirs (path ∷ created) = do attempt (remove_dir path); remove_dirs created

unfoldable pub cleanup_partial_extraction : List PathBuf → Prog (Unit {0})
unfolding remove_files remove_dirs
cleanup_partial_extraction created = do remove_files created; remove_dirs created

unfoldable pub conclude : Extracted → Prog ArchiveOutcome
unfolding cleanup_partial_extraction
conclude (created, ok outcome) = pure outcome
conclude (created, err e) = do cleanup_partial_extraction created; fail e

unfoldable pub extract_archive : LocalProvider → Text → Text → ArchiveFormat → Prog ArchiveOutcome
unfolding extract conclude
extract_archive provider archive_path destination format =
    if provider.writable
    then (do
      archive_relative ← checked (normalize_virtual_path archive_path false)
      destination_relative ← checked (normalize_virtual_path destination true)
      act (create_dir_all destination_relative)
      extracted ← extract format archive_relative destination_relative
      conclude extracted)
    else fail read_only
