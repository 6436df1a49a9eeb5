-- ===== src/Vfs/Local.antt =====
-- `LocalFileOperation` and `execute_local` of crates/vfs/src/lib.rs.
use cloud_desk_os.Prelude.{ℕ, ◌*◌, Bool, true, false, List, min}
use cloud_desk_os.Prelude.Texts.{Text}
use cloud_desk_os.Vfs.Paths.{canonical_virtual}
use cloud_desk_os.Vfs.Program.{ArchiveFormat, Prog, ◌>>=◌, ◌>>◌, pure}
use cloud_desk_os.Vfs.Provider.{
  VfsEntry, ProviderFeature, LocalProvider, capabilities, rename_entry, read_limited,
}
use cloud_desk_os.Vfs.Archive.{ArchiveOutcome}
use cloud_desk_os.Vfs.Acl.{AclEntry}
use cloud_desk_os.Vfs.Provider
use cloud_desk_os.Vfs.Archive
use cloud_desk_os.Vfs.Acl
use cloud_desk_os.Vfs.Search
use cloud_desk_os.Vfs.Create

pub data LocalFileOperation : Type 0 where
  list stat create_directory trash read_acl : Text → LocalFileOperation
  rename copy_file : Text → Text → LocalFileOperation
  read_preview chmod : Text → ℕ → LocalFileOperation
  write_file : Text → Text → LocalFileOperation
  search : Text → Text → ℕ → LocalFileOperation
  create_archive : List Text → Text → ArchiveFormat → LocalFileOperation
  extract_archive : Text → Text → ArchiveFormat → LocalFileOperation
  set_acl : Text → List AclEntry → LocalFileOperation

unfoldable pub requires_write : LocalFileOperation → Bool
requires_write (LocalFileOperation.list path) = false
requires_write (LocalFileOperation.stat path) = false
requires_write (LocalFileOperation.read_preview path maximum) = false
requires_write (LocalFileOperation.search path query maximum) = false
requires_write (LocalFileOperation.read_acl path) = false
requires_write (LocalFileOperation.create_directory path) = true
requires_write (LocalFileOperation.rename from to) = true
requires_write (LocalFileOperation.copy_file from to) = true
requires_write (LocalFileOperation.trash path) = true
requires_write (LocalFileOperation.write_file path content) = true
requires_write (LocalFileOperation.chmod path mode) = true
requires_write (LocalFileOperation.create_archive sources destination format) = true
requires_write (LocalFileOperation.extract_archive archive destination format) = true
requires_write (LocalFileOperation.set_acl path entries) = true

pub data LocalFileResult : Type 0 where
  entries : List VfsEntry → List ProviderFeature → LocalFileResult
  entry : VfsEntry → LocalFileResult
  complete : LocalFileResult
  copied written : ℕ → LocalFileResult
  trashed preview : Text → LocalFileResult
  search_results : List VfsEntry → LocalFileResult
  archive_created : Text → ArchiveOutcome → LocalFileResult
  archive_extracted : ArchiveOutcome → LocalFileResult
  acl : List AclEntry → Bool → LocalFileResult

-- What the calls take from their surroundings: the time in decimal, the lower case of a text, and
-- the fuel of a search and of a walk.
pub record Host : Type 0 where
  pub stamp : Text
  pub to_lowercase : Text → Text
  pub fuel : ℕ

-- After the provider is opened.
unfoldable pub execute_local : Host → LocalProvider → LocalFileOperation → Prog LocalFileResult
execute_local host provider (LocalFileOperation.list path) = do
  found ← Provider.list host.to_lowercase path
  pure (entries found (capabilities provider))
execute_local host provider (LocalFileOperation.stat path) = do
  found ← Provider.stat path
  pure (entry found)
execute_local host provider (LocalFileOperation.create_directory path) = do
  Provider.create_directory provider path
  pure complete
execute_local host provider (LocalFileOperation.rename from to) = do
  rename_entry provider from to
  pure complete
execute_local host provider (LocalFileOperation.copy_file from to) = do
  bytes ← Provider.copy_file provider from to
  pure (copied bytes)
execute_local host provider (LocalFileOperation.trash path) = do
  moved ← Provider.trash provider host.stamp path
  pure (trashed moved)
execute_local host provider (LocalFileOperation.read_preview path maximum_bytes) = do
  bytes ← read_limited path (min maximum_bytes (12 * 1024))
  pure (preview bytes)
execute_local host provider (LocalFileOperation.write_file path content) = do
  bytes ← Provider.write_file provider path content
  pure (written bytes)
execute_local host provider (LocalFileOperation.chmod path mode) = do
  Provider.chmod provider path mode
  pure complete
execute_local host provider (LocalFileOperation.search path query maximum_results) = do
  found ← Search.search host.fuel host.to_lowercase path query maximum_results
  pure (search_results found)
execute_local host provider (LocalFileOperation.create_archive sources destination format) = do
  outcome ← Create.create_archive host.fuel provider sources destination format
  pure (archive_created (canonical_virtual destination) outcome)
execute_local host provider (LocalFileOperation.extract_archive archive destination format) = do
  outcome ← Archive.extract_archive provider archive destination format
  pure (archive_extracted outcome)
execute_local host provider (LocalFileOperation.read_acl path) = do
  found ← Acl.read_acl path
  pure (acl found.0 found.1)
execute_local host provider (LocalFileOperation.set_acl path asked) = do
  Acl.set_acl host.to_lowercase provider path asked
  pure complete
