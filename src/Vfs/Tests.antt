-- ===== src/Vfs/Tests.antt =====
-- Runs of the virtual file system, crates/vfs/src.
use cloud_desk_os.Prelude.{
  all, ℕ, suc, ◌≤◌, ◌<◌, Bool, true, false, Option, none, some, List, [], ◌∷◌, ok, All, map, max,
  min, is_empty, if◌then◌else◌, Bool-cases, inl, inr, ◌≡◌, refl, subst, ◌||◌, arith,
}
use cloud_desk_os.Prelude.Texts.{Text, codes, text_eq, text_eq_sound, contains}
use cloud_desk_os.Prelude.Table.{order_by}
use cloud_desk_os.Vfs.Paths.{
  dot, dot_dot, normalize_virtual_path, join_virtual, is_root, child_path, safe_entry_path,
  has_drive_letter,
}
use cloud_desk_os.Vfs.Paths.Segments.{is_name, AllNames}
use cloud_desk_os.Vfs.Paths.Joins.{join_virtual-normalizes}
use cloud_desk_os.Vfs.Paths.Entries.{is_absolute, safe_entry_path-normalizes}
use cloud_desk_os.Vfs.Program.{
  ◌>>=◌, catch, PathBuf, Metadata, DirItem, named, zip, dir_entry, file_entry, ArchiveEntry, Call,
  symlink_metadata, read_dir, create_dir, create_dir_all, create, read, write_all, open_archive,
  entry_metadata, add_directory, finish, Value, run, System, IsSystem, WellFormed,
}
use cloud_desk_os.Vfs.Provider.{LocalProvider}
use cloud_desk_os.Vfs.Paths.Fine.{Fine}
use cloud_desk_os.Vfs.Create.{create_archive}
use cloud_desk_os.Vfs.Create.Finishes.{Deeper, create_archive-Fine}
use cloud_desk_os.Vfs.Archive.{extract_archive, max_extract_bytes}
use cloud_desk_os.Vfs.Archive.Quota.{spent}
use cloud_desk_os.Vfs.Archive.Bounded.{Counted, extract_archive_quota}
use cloud_desk_os.Vfs.Acl.{
  owning_user, user, mask, AclEntry, parse_getfacl_output, format_specs, join_specs,
}
use cloud_desk_os.Vfs.Acl.Spec.{meant, read_specs, format_specs-reads}
use cloud_desk_os.Vfs.Search.{search}
use cloud_desk_os.Vfs.Search.Finishes.{still, Finishes, below, search-Finishes}
use cloud_desk_os.Vfs.Local.{LocalFileOperation, Host, execute_local}
use cloud_desk_os.Vfs.Permitted.Calls.{IsInside, paths_of, is_read}
use cloud_desk_os.Vfs.Permitted.Local.{
  execute_local_confined, read_only_root, execute_local_read_only,
}

abbrev host : Host
host = record { stamp = codes "1700000000"; to_lowercase = λ s. s; fuel = 2 }

abbrev root : LocalProvider
root = record { writable = true }

abbrev a_dir : Metadata
a_dir = record {
  is_symlink = false;
  is_dir = true;
  is_file = false;
  len = 0;
  modified = none;
  mode = 493;
  uid = 0;
  gid = 0;
}

abbrev entries : List (Option ArchiveEntry)
entries =
    some record { name = codes "docs/"; entry_type = dir_entry; reads = [] }
    ∷ some record {
      name = codes "docs/a";
      entry_type = file_entry;
      reads = some (codes "hello") ∷ some [] ∷ [];
    }
    ∷ []

-- A disk with one empty directory below its root, and one archive.
abbrev look : (c : Call) → Option (Value c)
look (symlink_metadata path) = some a_dir
look (entry_metadata path name) = some a_dir
look (read_dir path) = some (if is_root path then named (codes "a") ∷ [] else [])
look (open_archive path) = some (some entries)
look (create_dir path) = some tt
look (create_dir_all path) = some tt
look (create path) = some tt
look (write_all path chunk) = some tt
look (read path) = some (codes "text")
look (add_directory name) = some tt
look finish = some tt
look _ = none

still-IsSystem : IsSystem (still look)
unfolding is_name text_eq contains
still-IsSystem (symlink_metadata path) s = tt
still-IsSystem (read_dir path) s = by_root (is_root path)
  where
    by_root :
        (b : Bool) → WellFormed (read_dir path) (some (if b then named (codes "a") ∷ [] else []))
    by_root true = (refl, tt)
    by_root false = tt
still-IsSystem _ s = tt

is_up : PathBuf → Bool
unfolding text_eq
is_up [] = false
is_up (part ∷ rest) = text_eq part dot_dot

-- A disk that also answers differently above the root.
other : System (Unit {0})
unfolding is_up
other (symlink_metadata path) s = (if is_up path then none else some a_dir, s)
other c s = (look c, s)

inside-not_up : (path : PathBuf) → IsInside path → is_up path ≡ false
unfolding is_up is_name text_eq
inside-not_up [] h = refl
inside-not_up (part ∷ rest) h = elim (Bool-cases (text_eq part dot_dot)) [
  | inr other ↦ other
  | inl up ↦
      let inside =
        subst (λ p. (is_name p || text_eq p dot) ≡ true) (text_eq_sound part dot_dot up) h.0 in
      cc
]

same_inside : (c : Call) (s : Unit {0}) → All IsInside (paths_of c) → still look c s ≡ other c s
unfolding other
same_inside (symlink_metadata path) s h = rw (inside-not_up path h.0) refl
same_inside _ s h = refl

execute_local_confined_example :
    run (still look) (execute_local host root (LocalFileOperation.stat (codes "/a"))) tt
    ≡ run other (execute_local host root (LocalFileOperation.stat (codes "/a"))) tt
unfolding all
execute_local_confined_example =
    execute_local_confined host root (LocalFileOperation.stat (codes "/a")) (still look) other tt
      refl still-IsSystem same_inside

-- A disk that counts the calls that write.
counting : System ℕ
counting c n = (look c, if is_read c then n else suc n)

counting-reads : (c : Call) (n : ℕ) → is_read c ≡ true → (counting c n).1 ≡ n
unfolding counting
counting-reads c n h = rw h refl

counting-IsSystem : IsSystem counting
unfolding counting
counting-IsSystem c n = still-IsSystem c tt

execute_local_read_only_example :
    (run counting (execute_local host read_only_root (LocalFileOperation.list (codes "/"))) 0).1 ≡ 0
unfolding all
execute_local_read_only_example =
    execute_local_read_only host (LocalFileOperation.list (codes "/")) counting 0 refl
      counting-IsSystem counting-reads

join_virtual-normalizes_example :
    normalize_virtual_path (join_virtual (codes "/docs/") (codes "a b")) false
    ≡ ok (child_path (codes "docs" ∷ []) (codes "a b"))
unfolding is_name text_eq contains normalize_virtual_path
join_virtual-normalizes_example =
    join_virtual-normalizes (codes "/docs/") (codes "a b") (codes "docs" ∷ []) refl refl

safe_entry_path-normalizes_example :
    (is_absolute (codes "docs/./a") ≡ false)
    × (contains (codes "docs/./a") b'\\' ≡ false)
    × (has_drive_letter (codes "docs/./a") ≡ false)
    × (normalize_virtual_path (codes "docs/./a") false ≡ ok (codes "docs" ∷ codes "a" ∷ []))
    × (is_empty (codes "docs" ∷ codes "a" ∷ []) ≡ false)
    × AllNames (codes "docs" ∷ codes "a" ∷ [])
unfolding safe_entry_path
safe_entry_path-normalizes_example =
    safe_entry_path-normalizes (codes "docs/./a") (codes "docs" ∷ codes "a" ∷ []) refl

extract_archive_quota_example :
    (spent (still look) (extract_archive root (codes "/x.zip") (codes "/out") zip) tt
      ≤ max_extract_bytes)
    × Counted
        (run (still look) (extract_archive root (codes "/x.zip") (codes "/out") zip) tt).0
        (spent (still look) (extract_archive root (codes "/x.zip") (codes "/out") zip) tt)
extract_archive_quota_example =
    extract_archive_quota (still look) tt root (codes "/x.zip") (codes "/out") zip

hello_bytes : spent (still look) (extract_archive root (codes "/x.zip") (codes "/out") zip) tt ≡ 5
unfolding spent extract_archive ◌>>=◌ normalize_virtual_path catch safe_entry_path
hello_bytes = refl

abbrev asked : List AclEntry
asked =
    record { kind = owning_user; name = none; read = true; write = true; execute = false }
    ∷ record { kind = user; name = some (codes "ann"); read = true; write = false; execute = false }
    ∷ []

abbrev specs : List Text
specs = codes "u::rw-" ∷ codes "u:ann:r--" ∷ []

format_specs-reads_example : read_specs (join_specs specs) ≡ map (λ e. some (meant e)) asked
unfolding format_specs
format_specs-reads_example = format_specs-reads asked specs refl refl

-- `getfacl` adds what the mask leaves of the rights behind a tab: such a line is dropped.
effective_line :
    parse_getfacl_output (codes "user:ann:rw-\t#effective:r--\nmask::r--\n")
    ≡ record { kind = mask; name = none; read = true; write = false; execute = false } ∷ []
unfolding parse_getfacl_output
effective_line = refl

abbrev size : PathBuf → ℕ
size dir = if is_root dir then 2 else 1

some_injective : {A : Type 0} {x y : A} → some x ≡ some y → x ≡ y
some_injective h = cc

sizes_add_up :
    (dir : PathBuf) (items : List DirItem)
    → look (read_dir dir) ≡ some items
    → suc (below look size dir items) ≤ size dir
unfolding below is_root text_eq child_path
sizes_add_up dir items h = elim (Bool-cases (is_root dir)) [
  | inl at_root ↦ rw at_root (
      subst (λ found. suc (below look size dir found) ≤ 2) (some_injective (rw at_root at h))
        (rw at_root (omega arith)))
  | inr lower ↦ rw lower (
      subst (λ found. suc (below look size dir found) ≤ 1) (some_injective (rw lower at h))
        (omega arith))
]

search-Finishes_example :
    Finishes
      (max 1 (min 500 200))
      (run (still look) (search 2 (λ s. s) (codes "/") (codes "a") 500) tt).0
search-Finishes_example =
    search-Finishes look size 2 (λ s. s) (codes "/") (codes "a") 500 (λ dir. ground arith)
      sizes_add_up (λ root h. ground arith)

abbrev depth : PathBuf → ℕ
depth dir = if is_root dir then 1 else 0

one_directory :
    run (still look) (create_archive 1 root (codes "/a" ∷ []) (codes "/x.zip") zip) tt
    ≡ (ok record { entries = 1; bytes = 0 }, tt)
unfolding create_archive run ◌>>=◌ normalize_virtual_path order_by is_root
one_directory = refl

root_deep : (part : Text) → text_eq part dot ≡ true → 0 < (if text_eq part dot then 1 else 0)
root_deep part h = rw h (omega arith)

items-Deeper :
    (dir : PathBuf) → All (Deeper depth dir) (if is_root dir then named (codes "a") ∷ [] else [])
unfolding is_root
items-Deeper [] = tt
items-Deeper (part ∷ []) = elim (Bool-cases (text_eq part dot)) [
  | inl at_root ↦ rw at_root (root_deep part at_root, tt)
  | inr lower ↦ rw lower tt
]
items-Deeper (part ∷ next ∷ rest) = tt

a_resolves :
    (source : PathBuf) → normalize_virtual_path (codes "/a") false ≡ ok source → depth source < 1
unfolding normalize_virtual_path is_root
a_resolves source e = subst (λ (source : PathBuf). depth source < 1) same (omega arith)
  where
    same : codes "a" ∷ [] ≡ source
    same = cc

create_archive-Fine_example :
    Fine (run (still look) (create_archive 1 root (codes "/a" ∷ []) (codes "/x.zip") zip) tt).0
create_archive-Fine_example =
    create_archive-Fine (still look) tt depth 1 root (codes "/a" ∷ []) (codes "/x.zip") zip
      (λ dir metadata items at real found.
        subst (All (Deeper depth dir)) (some_injective found.1) (items-Deeper dir))
      (a_resolves, tt)
