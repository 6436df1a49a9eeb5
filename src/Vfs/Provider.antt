-- ===== src/Vfs/Provider.antt =====
-- `LocalProvider` of crates/vfs/src/lib.rs, without `search`.
use cloud_desk_os.Prelude.{
  ℕ, Bool, true, false, not, ◌&&◌, ◌||◌, Option, none, some, List, [], ◌∷◌, ◌++◌, ltb, ◌==◌,
  if◌then◌else◌, length, ◌%◌,
}
use cloud_desk_os.Prelude.Texts.{Text, codes, text_eq}
use cloud_desk_os.Prelude.Table.{order_by}
use cloud_desk_os.Vfs.Paths.{
  invalid_path, non_utf8_name, read_only, symlink_read_denied, too_large, io, VfsResult,
  normalize_virtual_path, canonical_virtual, join_virtual, dot,
}
use cloud_desk_os.Vfs.Program.{
  PathBuf, Metadata, DirItem, broken, unnamed, named, symlink_metadata, read_dir, create_dir,
  create_dir_all, read, entry_metadata, rename, copy, write, set_permissions, Prog, done, ◌>>=◌,
  ◌>>◌, act, pure, fail,
}

pub data EntryKind : Type 0 where
  file directory symlink other : EntryKind

pub record VfsEntry : Type 0 where
  pub name : Text
  pub path : Text
  pub kind : EntryKind
  pub size : ℕ
  pub modified_at : Option ℕ
  pub mode : ℕ
  pub uid : ℕ
  pub gid : ℕ

pub data ProviderFeature : Type 0 where
  read_feature write_feature trash_feature ownership permissions acl resumable_upload :
      ProviderFeature

-- The root is the directory of the calls.
pub record LocalProvider : Type 0 where
  pub writable : Bool

unfoldable pub kind_of : Metadata → EntryKind
kind_of metadata =
    if metadata.is_symlink
    then symlink
    else if metadata.is_dir
    then directory
    else if metadata.is_file
    then file
    else other

unfoldable pub entry_from_metadata : Text → Text → Metadata → VfsEntry
unfolding kind_of
entry_from_metadata name path metadata = record {
  name = name;
  path = path;
  kind = kind_of metadata;
  size = metadata.len;
  modified_at = metadata.modified;
  mode = metadata.mode;
  uid = metadata.uid;
  gid = metadata.gid;
}

unfoldable pub require_write : LocalProvider → Prog (Unit {0})
require_write self = if self.writable then pure tt else fail read_only

-- A check that fails before any call.
abbrev pub checked : {A : Type 0} → VfsResult A → Prog A
checked r = done r

unfoldable pub capabilities : LocalProvider → List ProviderFeature
capabilities self =
    if self.writable
    then read_feature ∷ write_feature ∷ trash_feature ∷ ownership ∷ permissions ∷ acl
      ∷ resumable_upload ∷ []
    else read_feature ∷ []

-- `file_name`: the last part; the root `.` has none.
unfoldable pub file_name : PathBuf → Option Text
unfolding text_eq
file_name [] = none
file_name (part ∷ []) = if text_eq part dot then none else some part
file_name (part ∷ next ∷ rest) = file_name (next ∷ rest)

or_slash : Option Text → Text
or_slash none = codes "/"
or_slash (some name) = name

unfoldable pub entry : PathBuf → Text → Prog VfsEntry
unfolding or_slash
entry relative display_path = do
  metadata ← act (symlink_metadata relative)
  pure (entry_from_metadata (or_slash (file_name relative)) display_path metadata)

unfoldable pub list_entries : Text → PathBuf → List DirItem → Prog (List VfsEntry)
list_entries path relative [] = pure []
list_entries path relative (broken ∷ items) = fail io
list_entries path relative (unnamed ∷ items) = fail non_utf8_name
list_entries path relative (named name ∷ items) = do
  metadata ← act (entry_metadata relative name)
  rest ← list_entries path relative items
  pure (entry_from_metadata name (join_virtual path name) metadata ∷ rest)

abbrev is_directory : EntryKind → Bool
is_directory directory = true
is_directory _ = false

-- The order of the bytes of two names.
unfoldable pub text_le : Text → Text → Bool
text_le [] t = true
text_le (a ∷ s) [] = false
text_le (a ∷ s) (b ∷ t) = let rest = text_le s t in ltb a b || a == b && rest

-- Directories first, then by name; `to_lowercase` is the one of the standard library.
unfoldable pub listed_before : (Text → Text) → VfsEntry → VfsEntry → Bool
unfolding text_le
listed_before to_lowercase left right =
    is_directory left.kind && not (is_directory right.kind)
    || (is_directory left.kind || not (is_directory right.kind))
      && text_le (to_lowercase left.name) (to_lowercase right.name)

unfoldable pub list : (Text → Text) → Text → Prog (List VfsEntry)
unfolding list_entries listed_before
list to_lowercase path = do
  relative ← checked (normalize_virtual_path path true)
  items ← act (read_dir relative)
  entries ← list_entries path relative items
  pure (order_by (listed_before to_lowercase) entries)

unfoldable pub stat : Text → Prog VfsEntry
unfolding entry
stat path = do
  relative ← checked (normalize_virtual_path path false)
  entry relative (canonical_virtual path)

unfoldable pub create_directory : LocalProvider → Text → Prog (Unit {0})
unfolding require_write
create_directory self path = do
  require_write self
  relative ← checked (normalize_virtual_path path false)
  act (create_dir relative)

unfoldable pub rename_entry : LocalProvider → Text → Text → Prog (Unit {0})
unfolding require_write
rename_entry self from to = do
  require_write self
  from ← checked (normalize_virtual_path from false)
  to ← checked (normalize_virtual_path to false)
  act (rename from to)

unfoldable pub copy_file : LocalProvider → Text → Text → Prog ℕ
unfolding require_write
copy_file self from to = do
  require_write self
  from ← checked (normalize_virtual_path from false)
  to ← checked (normalize_virtual_path to false)
  act (copy from to)

abbrev pub trash_directory : PathBuf
trash_directory = codes ".Trash" ∷ codes "clouddesk" ∷ []

unfoldable pub render : PathBuf → Text
render [] = []
render (part ∷ []) = part
render (part ∷ next ∷ rest) = part ++ b'/' ∷ render (next ∷ rest)

unfoldable pub trash_name : Text → Option Text → Prog Text
trash_name stamp none = fail invalid_path
trash_name stamp (some name) = pure (stamp ++ b'-' ∷ name)

-- The moves of `trash`, once the name is known.
unfoldable pub trash_moves : PathBuf → Text → Prog Text
unfolding render
trash_moves relative name = do
  act (create_dir_all trash_directory)
  act (rename relative (trash_directory ++ name ∷ []))
  pure (b'/' ∷ render (trash_directory ++ name ∷ []))

-- `stamp` is the time in decimal.
unfoldable pub trash : LocalProvider → Text → Text → Prog Text
unfolding require_write trash_name file_name trash_moves
trash self stamp path = do
  require_write self
  relative ← checked (normalize_virtual_path path false)
  name ← trash_name stamp (file_name relative)
  trash_moves relative name

unfoldable pub read_checked : PathBuf → ℕ → Metadata → Prog Text
read_checked relative maximum_bytes metadata =
    if metadata.is_symlink
    then fail symlink_read_denied
    else if ltb maximum_bytes metadata.len
    then fail too_large
    else act (read relative)

unfoldable pub read_limited : Text → ℕ → Prog Text
unfolding read_checked
read_limited path maximum_bytes = do
  relative ← checked (normalize_virtual_path path false)
  metadata ← act (symlink_metadata relative)
  read_checked relative maximum_bytes metadata

-- The directory that holds an entry, where that is not the root.
unfoldable pub parent : PathBuf → PathBuf
parent [] = []
parent (part ∷ []) = []
parent (part ∷ next ∷ rest) = part ∷ parent (next ∷ rest)

-- `create_dir_all` of the parent, unless that is empty or the root `.`.
unfoldable pub create_parent : PathBuf → Prog (Unit {0})
unfolding text_eq
create_parent [] = pure tt
create_parent (part ∷ []) = if text_eq part dot then pure tt else act (create_dir_all (part ∷ []))
create_parent (part ∷ next ∷ rest) = act (create_dir_all (part ∷ next ∷ rest))

unfoldable pub write_file : LocalProvider → Text → Text → Prog ℕ
unfolding require_write parent create_parent
write_file self path content = do
  require_write self
  relative ← checked (normalize_virtual_path path false)
  create_parent (parent relative)
  act (write relative content)
  pure (length content)

-- `mode & 0o7777`.
unfoldable pub chmod : LocalProvider → Text → ℕ → Prog (Unit {0})
unfolding require_write
chmod self path mode = do
  require_write self
  relative ← checked (normalize_virtual_path path false)
  act (set_permissions relative (mode % 4096))
