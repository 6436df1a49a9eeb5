-- ===== src/Vfs/Permitted/Calls.antt =====
-- The paths of a call, and whether it writes, for crates/vfs/src.
use cloud_desk_os.Prelude.{
  Bool, true, false, ◌||◌, List, [], ◌∷◌, ◌++◌, ok, All, ◌≡◌, inl, inr, arith, subst, sym, if-holds,
}
use cloud_desk_os.Prelude.Texts.{Text, text_eq, All-append}
use cloud_desk_os.Vfs.Paths.{dot, normalize_virtual_path, is_root, child_path}
use cloud_desk_os.Vfs.Paths.Segments.{is_name, AllNames, Normal, normalize_virtual_path-Normal}
use cloud_desk_os.Vfs.Program.{
  PathBuf, Call, symlink_metadata, read_dir, create_dir, create_dir_all, read, create, open_archive,
  remove_file, remove_dir, real_path, entry_metadata, rename, copy, write, write_all,
  set_permissions, getfacl, copy_into, open_metadata, append_file,
}

-- A part of a path that stays inside: a name, or `.`.
abbrev pub IsInside : PathBuf → Type 0
IsInside = All (λ (part : Text). (is_name part || text_eq part dot) ≡ true)

abbrev pub paths_of : Call → List PathBuf
paths_of (symlink_metadata path) = path ∷ []
paths_of (read_dir path) = path ∷ []
paths_of (create_dir path) = path ∷ []
paths_of (create_dir_all path) = path ∷ []
paths_of (read path) = path ∷ []
paths_of (create path) = path ∷ []
paths_of (open_archive path) = path ∷ []
paths_of (remove_file path) = path ∷ []
paths_of (remove_dir path) = path ∷ []
paths_of (real_path path) = path ∷ []
paths_of (entry_metadata path name) = (path ++ name ∷ []) ∷ []
paths_of (rename from to) = from ∷ to ∷ []
paths_of (copy from to) = from ∷ to ∷ []
paths_of (write path content) = path ∷ []
paths_of (write_all path content) = path ∷ []
paths_of (set_permissions path mode) = path ∷ []
paths_of (copy_into path) = path ∷ []
paths_of (open_metadata path) = path ∷ []
paths_of (append_file name path) = path ∷ []
paths_of _ = []

abbrev pub is_read : Call → Bool
is_read (symlink_metadata path) = true
is_read (read_dir path) = true
is_read (read path) = true
is_read (real_path path) = true
is_read (entry_metadata path name) = true
is_read (getfacl target) = true
is_read _ = false

-- Every path of the call stays inside the root, and a call that writes has the provider's leave.
abbrev pub Permitted : Bool → Call → Type 0
Permitted writable c = All IsInside (paths_of c) × ((is_read c || writable) ≡ true)

pub AllNames-IsInside : (parts : PathBuf) → AllNames parts → IsInside parts
AllNames-IsInside [] h = tt
AllNames-IsInside (part ∷ parts) h = (ground (arith, h.0), AllNames-IsInside parts h.1)

pub name-IsInside : (name : Text) → is_name name ≡ true → IsInside (name ∷ [])
name-IsInside name h = (ground arith, tt)

dot-IsInside : IsInside (dot ∷ [])
unfolding text_eq
dot-IsInside = (ground arith, tt)

pub Normal-IsInside :
    (allow_root : Bool) (parts : PathBuf) → Normal allow_root parts → IsInside parts
Normal-IsInside allow_root parts (inl root) = subst IsInside (sym root.1) dot-IsInside
Normal-IsInside allow_root parts (inr names) = AllNames-IsInside parts names.1

pub normalize-IsInside :
    (path : Text) (allow_root : Bool) (parts : PathBuf)
    → normalize_virtual_path path allow_root ≡ ok parts
    → IsInside parts
normalize-IsInside path allow_root parts h =
    Normal-IsInside allow_root parts (normalize_virtual_path-Normal path allow_root parts h)

pub append-IsInside : (p q : PathBuf) → IsInside p → IsInside q → IsInside (p ++ q)
append-IsInside p q hp hq = All-append _ p q hp hq

pub child-IsInside :
    (p : PathBuf) (name : Text) → IsInside p → is_name name ≡ true → IsInside (child_path p name)
unfolding child_path
child-IsInside p name hp h =
    if-holds IsInside (is_root p) _ _ (name-IsInside name h)
      (append-IsInside p (name ∷ []) hp (name-IsInside name h))
