-- ===== src/Vfs/Permitted/Targets.antt =====
-- Where the entries of an archive land, crates/vfs/src/archive.rs.
use cloud_desk_os.Prelude.{Bool, true, false, ◌++◌, ok, err, ◌≡◌, refl}
use cloud_desk_os.Prelude.Texts.{Text}
use cloud_desk_os.Vfs.Paths.{VfsResult, safe_entry_path}
use cloud_desk_os.Vfs.Paths.Entries.{safe_entry_path-normalizes}
use cloud_desk_os.Vfs.Program.{
  PathBuf, EntryType, symlink_entry, hard_link_entry, dir_entry, file_entry, other_entry,
  ArchiveEntry, create_dir_all, create, Prog, ◌>>=◌,
}
use cloud_desk_os.Vfs.Provider.{checked, parent}
use cloud_desk_os.Vfs.Archive.{make_target, zip_target, tar_target}
use cloud_desk_os.Vfs.Permitted.Calls.{IsInside, Permitted, AllNames-IsInside, append-IsInside}
use cloud_desk_os.Vfs.Permitted.Provider.{parent-IsInside}
use cloud_desk_os.Vfs.Permitted.Gives.{Gives, Gives-then}

-- What the target of an entry is: a path inside.
abbrev pub Lands : VfsResult (PathBuf × Bool) → Type 0
Lands (ok target) = IsInside target.0
Lands (err e) = Unit

make_target-Lands :
    (w dir : Bool) (target : PathBuf)
    → w ≡ true
    → IsInside target
    → Gives (Permitted w) Lands (make_target dir target)
unfolding make_target
make_target-Lands w true target leave h =
    Gives-then (Permitted w) Lands (create_dir_all target) _ ((h, tt), leave) tt (λ u. h)
make_target-Lands w false target leave h =
    Gives-then (Permitted w) Lands (create_dir_all (parent target)) _
      ((parent-IsInside target h, tt), leave) tt
      (λ u. Gives-then (Permitted w) Lands (create target) _ ((h, tt), leave) tt (λ u. h))

-- A checked name, below the destination.
under-Lands :
    (w : Bool) (raw : Text) (destination : PathBuf) (next : PathBuf → Prog (PathBuf × Bool))
    → IsInside destination
    → ((path : PathBuf) → IsInside (destination ++ path) → Gives (Permitted w) Lands (next path))
    → Gives (Permitted w) Lands (checked (safe_entry_path raw) >>= next)
under-Lands w raw destination next h f = by_path (safe_entry_path raw) refl
  where
    by_path :
        (r : VfsResult PathBuf)
        → safe_entry_path raw ≡ r
        → Gives (Permitted w) Lands (checked r >>= next)
    by_path (err e) g = unfold ◌>>=◌ in tt
    by_path (ok path) g =
        unfold ◌>>=◌ in
        f path (
          append-IsInside destination path h
            (AllNames-IsInside path (safe_entry_path-normalizes raw path g).5))

pub zip_target-Lands :
    (w : Bool) (destination : PathBuf) (e : ArchiveEntry) (kind : EntryType)
    → w ≡ true
    → IsInside destination
    → Gives (Permitted w) Lands (zip_target destination e kind)
unfolding zip_target
zip_target-Lands w destination e symlink_entry leave h = tt
zip_target-Lands w destination e dir_entry leave h =
    under-Lands w e.name destination _ h
      (λ path. make_target-Lands w true (destination ++ path) leave)
zip_target-Lands w destination e hard_link_entry leave h =
    under-Lands w e.name destination _ h
      (λ path. make_target-Lands w false (destination ++ path) leave)
zip_target-Lands w destination e file_entry leave h =
    under-Lands w e.name destination _ h
      (λ path. make_target-Lands w false (destination ++ path) leave)
zip_target-Lands w destination e other_entry leave h =
    under-Lands w e.name destination _ h
      (λ path. make_target-Lands w false (destination ++ path) leave)

pub tar_target-Lands :
    (w : Bool) (destination : PathBuf) (e : ArchiveEntry) (kind : EntryType)
    → w ≡ true
    → IsInside destination
    → Gives (Permitted w) Lands (tar_target destination e kind)
unfolding tar_target
tar_target-Lands w destination e symlink_entry leave h = tt
tar_target-Lands w destination e hard_link_entry leave h = tt
tar_target-Lands w destination e dir_entry leave h =
    under-Lands w e.name destination _ h
      (λ path. make_target-Lands w true (destination ++ path) leave)
tar_target-Lands w destination e file_entry leave h =
    under-Lands w e.name destination _ h
      (λ path. make_target-Lands w false (destination ++ path) leave)
tar_target-Lands w destination e other_entry leave h =
    under-Lands w e.name destination _ h (λ path inside. tt)
