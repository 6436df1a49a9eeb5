-- ===== src/Vfs/Create.antt =====
-- `create_archive` of crates/vfs/src/archive.rs. The walk has fuel for the depth of the tree.
pub mod Ends
pub mod Finishes
use cloud_desk_os.Prelude.{
  ℕ, zero, suc, ◌+◌, false, not, List, [], ◌∷◌, ◌++◌, ◌==◌, if◌then◌else◌, is_empty, require,
}
use cloud_desk_os.Prelude.Texts.{Text}
use cloud_desk_os.Prelude.Table.{order_by}
use cloud_desk_os.Vfs.Paths.{read_only, empty_archive_selection, unfinished, normalize_virtual_path}
use cloud_desk_os.Vfs.Program.{
  PathBuf, Metadata, DirItem, broken, unnamed, named, ArchiveFormat, zip, tar_gz, symlink_metadata,
  read_dir, create, add_directory, start_file, copy_into, open_metadata, append_file, finish, Prog,
  ◌>>=◌, ◌>>◌, act, pure, fail,
}
use cloud_desk_os.Vfs.Provider.{LocalProvider, checked, parent, create_parent, render, text_le}
use cloud_desk_os.Vfs.Archive.{ArchiveOutcome, no_outcome}

-- `replace('\\', "/")`.
unfoldable pub slashed : Text → Text
slashed [] = []
slashed (c ∷ s) = (if c == b'\\' then b'/' else c) ∷ slashed s

-- One entry more, of a size.
abbrev counted : ℕ → ArchiveOutcome → ArchiveOutcome
counted size outcome = record { entries = outcome.entries + 1; bytes = outcome.bytes + size }

-- The visitors of the two formats, on a directory and on a file.
unfoldable pub visit_directory : Text → ArchiveOutcome → Prog ArchiveOutcome
visit_directory entry_name outcome = do
  act (add_directory (entry_name ++ b'/' ∷ []))
  pure (counted 0 outcome)

unfoldable pub visit_file : ArchiveFormat → Text → PathBuf → ArchiveOutcome → Prog ArchiveOutcome
visit_file zip entry_name rel outcome = do
  act (start_file entry_name)
  size ← act (copy_into rel)
  pure (counted size outcome)
visit_file tar_gz entry_name rel outcome = do
  metadata ← act (open_metadata rel)
  act (append_file entry_name rel)
  pure (counted metadata.len outcome)

unfoldable pub names_of : List DirItem → List Text
names_of [] = []
names_of (broken ∷ items) = names_of items
names_of (unnamed ∷ items) = names_of items
names_of (named name ∷ items) = name ∷ names_of items

abbrev pub Walk : Type 0
Walk = PathBuf → ArchiveOutcome → Prog ArchiveOutcome

unfoldable pub walk_children : Walk → PathBuf → List Text → ArchiveOutcome → Prog ArchiveOutcome
walk_children walk source [] outcome = pure outcome
walk_children walk source (name ∷ names) outcome = do
  outcome ← walk (source ++ name ∷ []) outcome
  walk_children walk source names outcome

unfoldable pub walk_node :
    ArchiveFormat → Walk → PathBuf → ArchiveOutcome → Metadata → Prog ArchiveOutcome
unfolding slashed visit_directory visit_file names_of walk_children
walk_node format walk source outcome metadata =
    let entry_name = slashed (render source) in
    if metadata.is_symlink
    then pure outcome
    else if metadata.is_dir
    then (do
      outcome ← visit_directory entry_name outcome
      items ← act (read_dir source)
      walk_children walk source (order_by text_le (names_of items)) outcome)
    else visit_file format entry_name source outcome

unfoldable pub walk_source : ℕ → ArchiveFormat → Walk
unfolding walk_node
walk_source zero format source outcome = fail unfinished
walk_source (suc fuel) format source outcome = do
  metadata ← act (symlink_metadata source)
  walk_node format (walk_source fuel format) source outcome metadata

unfoldable pub walk_sources : Walk → List PathBuf → ArchiveOutcome → Prog ArchiveOutcome
walk_sources walk [] outcome = pure outcome
walk_sources walk (source ∷ sources) outcome = do
  outcome ← walk source outcome
  walk_sources walk sources outcome

unfoldable pub resolve_sources : List Text → Prog (List PathBuf)
resolve_sources [] = pure []
resolve_sources (source ∷ sources) = do
  resolved ← checked (normalize_virtual_path source false)
  rest ← resolve_sources sources
  pure (resolved ∷ rest)

unfoldable pub create_archive :
    ℕ → LocalProvider → List Text → Text → ArchiveFormat → Prog ArchiveOutcome
unfolding create_parent parent walk_source walk_sources resolve_sources
create_archive fuel provider sources destination format = do
  checked (require provider.writable read_only)
  checked (require (not (is_empty sources)) empty_archive_selection)
  destination_relative ← checked (normalize_virtual_path destination false)
  create_parent (parent destination_relative)
  resolved_sources ← resolve_sources sources
  act (create destination_relative)
  outcome ← walk_sources (walk_source fuel format) resolved_sources no_outcome
  act finish
  pure outcome
