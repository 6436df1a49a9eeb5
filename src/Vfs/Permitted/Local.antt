-- ===== src/Vfs/Permitted/Local.antt =====
-- The calls of `execute_local`, crates/vfs/src/lib.rs, and what follows for the disk.
use cloud_desk_os.Prelude.{
  Bool, true, false, not, List, ok, err, all, ◌≡◌, refl, is_empty, require, min, ◌*◌, All, arith,
}
use cloud_desk_os.Prelude.Texts.{Text}
use cloud_desk_os.Vfs.Paths.{read_only, invalid_acl_entry, normalize_virtual_path}
use cloud_desk_os.Vfs.Program.{
  Call, real_path, getfacl, setfacl, Prog, done, ◌>>=◌, run, System, IsSystem, Every, Every-bind,
  Every-then, Every-checked, run-unchanged, run-agree,
}
use cloud_desk_os.Vfs.Provider.{
  LocalProvider, require_write, create_directory, rename_entry, copy_file, trash, write_file, chmod,
}
use cloud_desk_os.Vfs.Archive.{extract_archive}
use cloud_desk_os.Vfs.Create.{create_archive}
use cloud_desk_os.Vfs.Acl.{AclEntry, read_acl, set_acl, format_specs, join_specs}
use cloud_desk_os.Vfs.Local.{LocalFileOperation, requires_write, Host, execute_local}
use cloud_desk_os.Vfs.Permitted.Calls.{IsInside, paths_of, is_read, Permitted, normalize-IsInside}
use cloud_desk_os.Vfs.Permitted.Provider.{
  is_digit, list-Permitted, stat-Permitted, create_directory-Permitted, rename_entry-Permitted,
  copy_file-Permitted, trash-Permitted, read_limited-Permitted, write_file-Permitted,
  chmod-Permitted,
}
use cloud_desk_os.Vfs.Permitted.Archive.{extract_archive-Permitted}
use cloud_desk_os.Vfs.Permitted.Search.{search-Permitted}
use cloud_desk_os.Vfs.Permitted.Create.{create_archive-Permitted, require-leave}

read_acl-Permitted : (w : Bool) (path : Text) → Every (Permitted w) (read_acl path)
unfolding read_acl
read_acl-Permitted w path =
    Every-checked (Permitted w) (normalize_virtual_path path false) _ (λ relative e.
      Every-then (Permitted w) (real_path relative) _
        ((normalize-IsInside path false relative e, tt), refl)
        (λ target good. Every-then (Permitted w) (getfacl target) _ (tt, refl) (λ answer good. tt)))

set_acl-Permitted :
    (to_lowercase : Text → Text) (self : LocalProvider) (path : Text) (entries : List AclEntry)
    → Every (Permitted self.writable) (set_acl to_lowercase self path entries)
unfolding set_acl
set_acl-Permitted to_lowercase self path entries =
    Every-checked P (require self.writable read_only) _ (λ u allowed.
      Every-checked P (require (not (is_empty entries)) invalid_acl_entry) _ (λ u chosen.
        Every-checked P (normalize_virtual_path path false) _ (λ relative e.
          Every-then P (real_path relative) _ ((normalize-IsInside path false relative e, tt), refl)
            (λ target good. Every-checked P (format_specs entries) _ (λ specs f.
              Every-then P (setfacl (join_specs specs) target) _
                (tt, require-leave self.writable read_only u allowed) (λ answer good. tt))))))
  where
    P : Call → Type 0
    P = Permitted self.writable

-- An operation, and its answer.
answered :
    {A B : Type 0} (P : Call → Type 0) (p : Prog A) (f : A → B)
    → Every P p
    → Every P (p >>= (λ a. done (ok (f a))))
answered P p f h = Every-bind P p (λ a. done (ok (f a))) h (λ a. tt)

-- Every call of every operation stays inside the root, and writes only if the provider may.
execute_local-Permitted :
    (host : Host) (provider : LocalProvider) (operation : LocalFileOperation)
    → all is_digit host.stamp ≡ true
    → Every (Permitted provider.writable) (execute_local host provider operation)
unfolding execute_local
execute_local-Permitted host provider (LocalFileOperation.list path) digits =
    answered _ _ _ (list-Permitted provider.writable host.to_lowercase path)
execute_local-Permitted host provider (LocalFileOperation.stat path) digits =
    answered _ _ _ (stat-Permitted provider.writable path)
execute_local-Permitted host provider (LocalFileOperation.create_directory path) digits =
    answered _ _ _ (create_directory-Permitted provider path)
execute_local-Permitted host provider (LocalFileOperation.rename from to) digits =
    answered _ _ _ (rename_entry-Permitted provider from to)
execute_local-Permitted host provider (LocalFileOperation.copy_file from to) digits =
    answered _ _ _ (copy_file-Permitted provider from to)
execute_local-Permitted host provider (LocalFileOperation.trash path) digits =
    answered _ _ _ (trash-Permitted provider host.stamp path digits)
execute_local-Permitted host provider (LocalFileOperation.read_preview path maximum) digits =
    answered _ _ _ (read_limited-Permitted provider.writable path (min maximum (12 * 1024)))
execute_local-Permitted host provider (LocalFileOperation.write_file path content) digits =
    answered _ _ _ (write_file-Permitted provider path content)
execute_local-Permitted host provider (LocalFileOperation.chmod path mode) digits =
    answered _ _ _ (chmod-Permitted provider path mode)
execute_local-Permitted host provider (LocalFileOperation.search path query maximum) digits =
    answered _ _ _
      (search-Permitted provider.writable host.fuel host.to_lowercase path query maximum)
execute_local-Permitted host provider (LocalFileOperation.create_archive sources destination format)
      digits =
    answered _ _ _ (create_archive-Permitted host.fuel provider sources destination format)
execute_local-Permitted host provider
      (LocalFileOperation.extract_archive archive destination format) digits =
    answered _ _ _ (extract_archive-Permitted provider archive destination format)
execute_local-Permitted host provider (LocalFileOperation.read_acl path) digits =
    answered _ _ _ (read_acl-Permitted provider.writable path)
execute_local-Permitted host provider (LocalFileOperation.set_acl path asked) digits =
    answered _ _ _ (set_acl-Permitted host.to_lowercase provider path asked)

-- No operation leaves the root: whether calls on other paths (those with an empty part, `..`, or a
-- slash or zero byte in a part) answer differently is never noticed, neither in the answer nor on the
-- disk, if the names in a directory are names and the time is written in digits.
pub execute_local_confined :
    {S : Type 0} (host : Host) (provider : LocalProvider) (operation : LocalFileOperation)
    (one other : System S) (s : S)
    → all is_digit host.stamp ≡ true
    → IsSystem one
    → ((c : Call) (s : S) → All IsInside (paths_of c) → one c s ≡ other c s)
    → run one (execute_local host provider operation) s
      ≡ run other (execute_local host provider operation) s
execute_local_confined host provider operation one other s digits good same =
    run-agree one other (Permitted provider.writable) good (λ c s h. same c s h.0)
      (execute_local host provider operation) s
      (execute_local-Permitted host provider operation digits)

abbrev pub read_only_root : LocalProvider
read_only_root = record { writable = false }

refused :
    (host : Host) (operation : LocalFileOperation)
    → requires_write operation ≡ true
    → execute_local host read_only_root operation ≡ done (err read_only)
unfolding requires_write execute_local require_write create_directory rename_entry copy_file trash
    write_file chmod create_archive extract_archive set_acl ◌>>=◌
refused host (LocalFileOperation.create_directory path) h = refl
refused host (LocalFileOperation.rename from to) h = refl
refused host (LocalFileOperation.copy_file from to) h = refl
refused host (LocalFileOperation.trash path) h = refl
refused host (LocalFileOperation.write_file path content) h = refl
refused host (LocalFileOperation.chmod path mode) h = refl
refused host (LocalFileOperation.create_archive sources destination format) h = refl
refused host (LocalFileOperation.extract_archive archive destination format) h = refl
refused host (LocalFileOperation.set_acl path asked) h = refl
refused host (LocalFileOperation.list path) h = cc
refused host (LocalFileOperation.stat path) h = cc
refused host (LocalFileOperation.read_preview path maximum) h = cc
refused host (LocalFileOperation.search path query maximum) h = cc
refused host (LocalFileOperation.read_acl path) h = cc

-- An operation that requires writing is refused by a provider that is not writable, before any call.
pub execute_local_refused :
    {S : Type 0} (host : Host) (operation : LocalFileOperation) (system : System S) (s : S)
    → requires_write operation ≡ true
    → run system (execute_local host read_only_root operation) s ≡ (err read_only, s)
unfolding run
execute_local_refused host operation system s h = rw (refused host operation h) refl

-- A provider that is not writable leaves the disk as it is, whatever is asked of it and whatever the
-- calls answer, if the calls that only read change nothing, the names in a directory are names and the
-- time is written in digits.
pub execute_local_read_only :
    {S : Type 0} (host : Host) (operation : LocalFileOperation) (system : System S) (s : S)
    → all is_digit host.stamp ≡ true
    → IsSystem system
    → ((c : Call) (s : S) → is_read c ≡ true → (system c s).1 ≡ s)
    → (run system (execute_local host read_only_root operation) s).1 ≡ s
execute_local_read_only host operation system s digits good same =
    run-unchanged system (Permitted false) good (λ c s h. same c s (ground (arith, h.1)))
      (execute_local host read_only_root operation) s
      (execute_local-Permitted host read_only_root operation digits)
