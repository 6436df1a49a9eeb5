-- ===== src/Vfs/Permitted/Provider.antt =====
-- The calls of the operations of `LocalProvider`, crates/vfs/src/lib.rs.
use cloud_desk_os.Prelude.{
  ℕ, Bool, true, false, Option, none, some, List, [], ◌∷◌, ◌++◌, ok, ltb, leb, ◌%◌, All, all, ◌≡◌,
  refl, inl, inr, if◌then◌else◌, if-holds, arith, ◌&&◌,
}
use cloud_desk_os.Prelude.Texts.{Text, text_eq, contains, contains-append}
use cloud_desk_os.Vfs.Paths.{read_only, dot, normalize_virtual_path}
use cloud_desk_os.Vfs.Paths.Segments.{is_name, AllNames, Normal, normalize_virtual_path-Normal}
use cloud_desk_os.Vfs.Program.{
  PathBuf, DirItem, broken, unnamed, named, NamedItem, Call, symlink_metadata, read_dir, create_dir,
  create_dir_all, read, entry_metadata, rename, copy, write, set_permissions, Prog, ◌>>=◌, pure,
  fail, Every, Every-bind, Every-act, Every-then, Every-checked,
}
use cloud_desk_os.Vfs.Provider.{
  LocalProvider, require_write, checked, file_name, entry, list_entries, list, stat,
  create_directory, rename_entry, copy_file, trash_directory, trash_name, trash_moves, trash,
  read_checked, read_limited, parent, create_parent, write_file, chmod,
}
use cloud_desk_os.Vfs.Permitted.Calls.{
  IsInside, Permitted, AllNames-IsInside, name-IsInside, normalize-IsInside, append-IsInside,
}

-- A check of the leave to write, and what follows with it.
pub then-write :
    {B : Type 0} (P : Call → Type 0) (self : LocalProvider) (next : Prog B)
    → (self.writable ≡ true → Every P next)
    → Every P (require_write self >>= (λ u. next))
unfolding require_write ◌>>=◌
then-write P self next f = by_leave self.writable f
  where
    by_leave :
        (b : Bool)
        → (b ≡ true → Every P next)
        → Every P ((if b then pure tt else fail read_only) >>= (λ u. next))
    by_leave true f = f refl
    by_leave false f = tt

list_entries-Permitted :
    (w : Bool) (path : Text) (relative : PathBuf) (items : List DirItem)
    → IsInside relative
    → All NamedItem items
    → Every (Permitted w) (list_entries path relative items)
unfolding list_entries
list_entries-Permitted w path relative [] h hs = tt
list_entries-Permitted w path relative (broken ∷ items) h hs = tt
list_entries-Permitted w path relative (unnamed ∷ items) h hs = tt
list_entries-Permitted w path relative (named name ∷ items) h hs =
    Every-then (Permitted w) (entry_metadata relative name) _
      ((append-IsInside relative (name ∷ []) h (name-IsInside name hs.0), tt), refl)
      (λ metadata good.
        Every-bind (Permitted w) (list_entries path relative items) _
          (list_entries-Permitted w path relative items h hs.1) (λ rest. tt))

pub list-Permitted :
    (w : Bool) (to_lowercase : Text → Text) (path : Text)
    → Every (Permitted w) (list to_lowercase path)
unfolding list
list-Permitted w to_lowercase path =
    Every-checked (Permitted w) (normalize_virtual_path path true) _ (λ relative e.
      let inside = normalize-IsInside path true relative e in
      Every-then (Permitted w) (read_dir relative) _ ((inside, tt), refl)
        (λ items good.
          Every-bind (Permitted w) (list_entries path relative items) _
            (list_entries-Permitted w path relative items inside good) (λ entries. tt)))

pub stat-Permitted : (w : Bool) (path : Text) → Every (Permitted w) (stat path)
unfolding stat entry
stat-Permitted w path =
    Every-checked (Permitted w) (normalize_virtual_path path false) _ (λ relative e.
      Every-then (Permitted w) (symlink_metadata relative) _
        ((normalize-IsInside path false relative e, tt), refl) (λ metadata good. tt))

pub create_directory-Permitted :
    (self : LocalProvider) (path : Text)
    → Every (Permitted self.writable) (create_directory self path)
unfolding create_directory
create_directory-Permitted self path = then-write (Permitted self.writable) self _ (λ leave.
    Every-checked (Permitted self.writable) (normalize_virtual_path path false) _ (λ relative e.
      Every-act (Permitted self.writable) (create_dir relative)
        ((normalize-IsInside path false relative e, tt), leave)))

-- Two checked paths, then one call on both.
two_paths :
    {A : Type 0} (P : Call → Type 0) (self : LocalProvider) (from to : Text)
    (next : PathBuf → PathBuf → Prog A)
    → ((p q : PathBuf) → self.writable ≡ true → IsInside p → IsInside q → Every P (next p q))
    → Every P (
        require_write self >>= (λ u.
          checked (normalize_virtual_path from false)
          >>= (λ p. checked (normalize_virtual_path to false) >>= (λ q. next p q))))
two_paths P self from to next f = then-write P self _ (λ leave.
    Every-checked P (normalize_virtual_path from false) _ (λ p e.
      Every-checked P (normalize_virtual_path to false) _
        (λ q g. f p q leave (normalize-IsInside from false p e) (normalize-IsInside to false q g))))

pub rename_entry-Permitted :
    (self : LocalProvider) (from to : Text)
    → Every (Permitted self.writable) (rename_entry self from to)
unfolding rename_entry
rename_entry-Permitted self from to =
    two_paths (Permitted self.writable) self from to _
      (λ p q leave hp hq. Every-act (Permitted self.writable) (rename p q) ((hp, (hq, tt)), leave))

pub copy_file-Permitted :
    (self : LocalProvider) (from to : Text)
    → Every (Permitted self.writable) (copy_file self from to)
unfolding copy_file
copy_file-Permitted self from to =
    two_paths (Permitted self.writable) self from to _
      (λ p q leave hp hq. Every-act (Permitted self.writable) (copy p q) ((hp, (hq, tt)), leave))

-- A text of decimal digits.
abbrev pub is_digit : ℕ → Bool
is_digit c = leb 48 c && leb c 57

digits-contains :
    (stamp : Text) (c : ℕ)
    → all is_digit stamp ≡ true
    → is_digit c ≡ false
    → contains stamp c ≡ false
unfolding all contains
digits-contains [] c h k = refl
digits-contains (b ∷ bs) c h k = ground (arith, digits-contains bs c (ground arith))

-- The name in the trash: not `.` or `..`, since it has a minus sign and a text behind it.
trash-is_name :
    (stamp name : Text)
    → all is_digit stamp ≡ true
    → is_name name ≡ true
    → is_name (stamp ++ b'-' ∷ name) ≡ true
unfolding is_name contains text_eq all
trash-is_name [] (n ∷ ns) h k = ground arith
trash-is_name [] [] h k = cc
trash-is_name (a ∷ []) name h k = ground arith
trash-is_name (a ∷ b ∷ []) name h k = ground arith
trash-is_name (a ∷ b ∷ c ∷ bs) name h k = ground (
  arith,
  contains-append (a ∷ b ∷ c ∷ bs) (b'-' ∷ name) b'/',
  contains-append (a ∷ b ∷ c ∷ bs) (b'-' ∷ name) 0,
  digits-contains (a ∷ b ∷ c ∷ bs) b'/' h refl,
  digits-contains (a ∷ b ∷ c ∷ bs) 0 h refl,
)

file_name-is_name :
    (parts : PathBuf) (name : Text)
    → AllNames parts
    → file_name parts ≡ some name
    → is_name name ≡ true
unfolding file_name
file_name-is_name [] name h e = cc
file_name-is_name (part ∷ []) name h e = ground (arith, h.0)
file_name-is_name (part ∷ next ∷ rest) name h e = file_name-is_name (next ∷ rest) name h.1 e

names_of :
    (path : Text) (parts : PathBuf) → normalize_virtual_path path false ≡ ok parts → AllNames parts
names_of path parts e = by_normal (normalize_virtual_path-Normal path false parts e)
  where
    by_normal : Normal false parts → AllNames parts
    by_normal (inl root) = cc
    by_normal (inr found) = found.1

trash_directory-IsInside : IsInside trash_directory
unfolding is_name contains text_eq
trash_directory-IsInside = (refl, (refl, tt))

trash_moves-Permitted :
    (w : Bool) (name : Text) (relative : PathBuf)
    → w ≡ true
    → IsInside relative
    → is_name name ≡ true
    → Every (Permitted w) (trash_moves relative name)
unfolding trash_moves
trash_moves-Permitted w name relative leave inside h =
    Every-then (Permitted w) (create_dir_all trash_directory) _
      ((trash_directory-IsInside, tt), leave)
      (λ u good.
        Every-then (Permitted w) (rename relative (trash_directory ++ name ∷ [])) _
          (
            (
              inside,
              (
                append-IsInside trash_directory (name ∷ []) trash_directory-IsInside
                    (name-IsInside name h),
                tt,
              ),
            ),
            leave,
          )
          (λ u good. tt))

trash_named-Permitted :
    (w : Bool) (stamp : Text) (relative : PathBuf) (o : Option Text)
    → w ≡ true
    → all is_digit stamp ≡ true
    → AllNames relative
    → file_name relative ≡ o
    → Every (Permitted w) (trash_name stamp o >>= trash_moves relative)
unfolding trash_name ◌>>=◌
trash_named-Permitted w stamp relative none leave digits h e = tt
trash_named-Permitted w stamp relative (some name) leave digits h e =
    trash_moves-Permitted w _ relative leave (AllNames-IsInside relative h)
      (trash-is_name stamp name digits (file_name-is_name relative name h e))

pub trash-Permitted :
    (self : LocalProvider) (stamp path : Text)
    → all is_digit stamp ≡ true
    → Every (Permitted self.writable) (trash self stamp path)
unfolding trash
trash-Permitted self stamp path digits = then-write (Permitted self.writable) self _ (λ leave.
    Every-checked (Permitted self.writable) (normalize_virtual_path path false) _ (λ relative e.
      trash_named-Permitted self.writable stamp relative (file_name relative) leave digits
        (names_of path relative e) refl))

pub read_limited-Permitted :
    (w : Bool) (path : Text) (maximum_bytes : ℕ)
    → Every (Permitted w) (read_limited path maximum_bytes)
unfolding read_limited read_checked
read_limited-Permitted w path maximum_bytes =
    Every-checked (Permitted w) (normalize_virtual_path path false) _ (λ relative e.
      let inside = normalize-IsInside path false relative e in
      Every-then (Permitted w) (symlink_metadata relative) _ ((inside, tt), refl)
        (λ metadata good. if-holds (Every (Permitted w)) metadata.is_symlink _ _ tt (
          if-holds (Every (Permitted w)) (ltb maximum_bytes metadata.len) _ _ tt
            (Every-act (Permitted w) (read relative) ((inside, tt), refl)))))

pub parent-IsInside : (parts : PathBuf) → IsInside parts → IsInside (parent parts)
unfolding parent
parent-IsInside [] h = tt
parent-IsInside (part ∷ []) h = tt
parent-IsInside (part ∷ next ∷ rest) h = (h.0, parent-IsInside (next ∷ rest) h.1)

pub create_parent-Permitted :
    (w : Bool) (parts : PathBuf)
    → w ≡ true
    → IsInside parts
    → Every (Permitted w) (create_parent (parent parts))
unfolding create_parent
create_parent-Permitted w parts leave inside =
    by_parent (parent parts) (parent-IsInside parts inside)
  where
    by_parent : (p : PathBuf) → IsInside p → Every (Permitted w) (create_parent p)
    by_parent [] h = tt
    by_parent (part ∷ []) h =
        if-holds (Every (Permitted w)) (text_eq part dot) _ _ tt
          (Every-act (Permitted w) (create_dir_all (part ∷ [])) ((h, tt), leave))
    by_parent (part ∷ next ∷ rest) h =
        Every-act (Permitted w) (create_dir_all (part ∷ next ∷ rest)) ((h, tt), leave)

pub write_file-Permitted :
    (self : LocalProvider) (path content : Text)
    → Every (Permitted self.writable) (write_file self path content)
unfolding write_file
write_file-Permitted self path content = then-write (Permitted self.writable) self _ (λ leave.
    Every-checked (Permitted self.writable) (normalize_virtual_path path false) _ (λ relative e.
      let inside = normalize-IsInside path false relative e in
      Every-bind (Permitted self.writable) (create_parent (parent relative)) _
        (create_parent-Permitted self.writable relative leave inside)
        (λ u.
          Every-then (Permitted self.writable) (write relative content) _ ((inside, tt), leave)
            (λ u good. tt))))

pub chmod-Permitted :
    (self : LocalProvider) (path : Text) (mode : ℕ)
    → Every (Permitted self.writable) (chmod self path mode)
unfolding chmod
chmod-Permitted self path mode = then-write (Permitted self.writable) self _ (λ leave.
    Every-checked (Permitted self.writable) (normalize_virtual_path path false) _ (λ relative e.
      Every-act (Permitted self.writable) (set_permissions relative (mode % 4096))
        ((normalize-IsInside path false relative e, tt), leave)))
