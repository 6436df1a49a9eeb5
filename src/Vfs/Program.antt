-- ===== src/Vfs/Program.antt =====
-- What crates/vfs/src asks of the directory that it is confined to (`cap_std::fs::Dir`), of the
-- archive decoders and of `getfacl` and `setfacl`, and programs of such calls.
use cloud_desk_os.Prelude.{
  ℕ, Bool, Option, none, some, List, ok, err, true, All, ◌≡◌, refl, ap, ◌∙◌,
}
use cloud_desk_os.Prelude.Texts.{Text}
use cloud_desk_os.Vfs.Paths.{VfsError, io, VfsResult}
use cloud_desk_os.Vfs.Paths.Segments.{is_name}

-- A relative path as the list of its parts.
abbrev pub PathBuf : Type 0
PathBuf = List Text

pub record Metadata : Type 0 where
  pub is_symlink : Bool
  pub is_dir : Bool
  pub is_file : Bool
  pub len : ℕ
  pub modified : Option ℕ
  pub mode : ℕ
  pub uid : ℕ
  pub gid : ℕ

-- An entry of a directory: one that cannot be read, one whose name is not UTF-8, a name.
pub data DirItem : Type 0 where
  broken unnamed : DirItem
  named : Text → DirItem

pub data ArchiveFormat : Type 0 where
  zip tar_gz : ArchiveFormat

pub data EntryType : Type 0 where
  symlink_entry hard_link_entry dir_entry file_entry other_entry : EntryType

-- An entry of an archive, with the reads of its content; a read that fails is the last.
pub record ArchiveEntry : Type 0 where
  pub name : Text
  pub entry_type : EntryType
  pub reads : List (Option Text)

-- The entries in order; one that the decoder cannot give is missing. A call that opens an archive
-- has none, if it is malformed.
abbrev pub Archive : Type 0
Archive = List (Option ArchiveEntry)

-- What became of `getfacl` or `setfacl`: the tool is missing, it did not run, its output.
pub data ToolRun : Type 0 where
  tool_missing not_run : ToolRun
  failed exited : Text → ToolRun

pub data Call : Type 0 where
  symlink_metadata read_dir create_dir create_dir_all read create open_archive : PathBuf → Call
  remove_file remove_dir real_path : PathBuf → Call
  entry_metadata : PathBuf → Text → Call
  rename copy : PathBuf → PathBuf → Call
  write : PathBuf → Text → Call
  write_all : PathBuf → Text → Call
  set_permissions : PathBuf → ℕ → Call
  getfacl : Text → Call
  setfacl : Text → Text → Call
  -- The archive writers: a directory, the start of a file, the content of a file and its bytes, a
  -- file with the size that it has, the end.
  add_directory start_file : Text → Call
  copy_into open_metadata : PathBuf → Call
  append_file : Text → PathBuf → Call
  finish : Call

abbrev pub Value : Call → Type 0
Value (symlink_metadata path) = Metadata
Value (entry_metadata path name) = Metadata
Value (read_dir path) = List DirItem
Value (read path) = Text
Value (copy from to) = ℕ
Value (open_archive path) = Option Archive
Value (real_path path) = Text
Value (getfacl target) = ToolRun
Value (setfacl spec target) = ToolRun
Value (copy_into path) = ℕ
Value (open_metadata path) = Metadata
Value _ = Unit

-- A program: its result, or a call and how it goes on with the value, or with the failure.
pub data Prog (A : Type 0) : Type 0 where
  done : VfsResult A → Prog A
  call : (c : Call) → (Option (Value c) → Prog A) → Prog A

infixl 5 ◌>>=◌ ◌>>◌
unfoldable pub ◌>>=◌ : {A B : Type 0} → Prog A → (A → Prog B) → Prog B
done (ok a) >>= next = next a
done (err e) >>= next = done (err e)
call c k >>= next = call c (λ o. k o >>= next)

abbrev pub ◌>>◌ : {A B : Type 0} → Prog A → Prog B → Prog B
p >> q = p >>= (λ a. q)

-- `map_err(VfsError::Io)?`.
abbrev pub or_io : {A : Type 0} → Option A → Prog A
or_io none = done (err io)
or_io (some a) = done (ok a)

abbrev pub act : (c : Call) → Prog (Value c)
act c = call c or_io

-- A call whose failure the code looks at itself.
abbrev pub attempt : (c : Call) → Prog (Option (Value c))
attempt c = call c (λ o. done (ok o))

abbrev pub pure : {A : Type 0} → A → Prog A
pure a = done (ok a)

abbrev pub fail : {A : Type 0} → VfsError → Prog A
fail e = done (err e)

-- A failure as a value, where the code looks at it.
unfoldable pub catch : {A : Type 0} → Prog A → Prog (VfsResult A)
catch (done r) = done (ok r)
catch (call c k) = call c (λ o. catch (k o))

-- Against a system with a state.
unfoldable pub run :
    {S A : Type 0} → ((c : Call) → S → Option (Value c) × S) → Prog A → S → VfsResult A × S
run system (done r) s = (r, s)
run system (call c k) s = let (o, t) = system c s in run system (k o) t

-- What the answers of a file system are: the names in a directory are names.
abbrev pub NamedItem : DirItem → Type 0
NamedItem (named name) = is_name name ≡ true
NamedItem _ = Unit

abbrev pub WellFormed : (c : Call) → Option (Value c) → Type 0
WellFormed (read_dir path) (some items) = All NamedItem items
WellFormed _ _ = Unit

-- Every call that a program can come to, whatever the well-formed answers.
abbrev pub Every : {A : Type 0} → (Call → Type 0) → Prog A → Type 0
Every P (done r) = Unit
Every P (call c k) = P c × ((o : Option (Value c)) → WellFormed c o → Every P (k o))

pub Every-bind :
    {A B : Type 0} (P : Call → Type 0) (p : Prog A) (next : A → Prog B)
    → Every P p
    → ((a : A) → Every P (next a))
    → Every P (p >>= next)
unfolding ◌>>=◌
Every-bind P (done (ok a)) next h f = f a
Every-bind P (done (err e)) next h f = tt
Every-bind P (call c k) next h f = (h.0, λ o w. Every-bind P (k o) next (h.1 o w) f)

pub Every-catch : {A : Type 0} (P : Call → Type 0) (p : Prog A) → Every P p → Every P (catch p)
unfolding catch
Every-catch P (done r) h = tt
Every-catch P (call c k) h = (h.0, λ o w. Every-catch P (k o) (h.1 o w))

pub Every-act : (P : Call → Type 0) (c : Call) → P c → Every P (act c)
Every-act P c h = (h, go)
  where
    go : (o : Option (Value c)) → WellFormed c o → Every P (or_io o)
    go none w = tt
    go (some v) w = tt

-- A call, and a program that goes on with its value.
pub Every-then :
    {B : Type 0} (P : Call → Type 0) (c : Call) (next : Value c → Prog B)
    → P c
    → ((v : Value c) → WellFormed c (some v) → Every P (next v))
    → Every P (act c >>= next)
unfolding ◌>>=◌
Every-then {B} P c next h f = (h, go)
  where
    go : (o : Option (Value c)) → WellFormed c o → Every P (or_io o >>= next)
    go none w = tt
    go (some v) w = f v w

-- A check, and a program that goes on with what it gives.
pub Every-checked :
    {A B : Type 0} (P : Call → Type 0) (r : VfsResult A) (next : A → Prog B)
    → ((a : A) → r ≡ ok a → Every P (next a))
    → Every P (done r >>= next)
unfolding ◌>>=◌
Every-checked P (ok a) next f = f a refl
Every-checked P (err e) next f = tt

abbrev pub System : Type 0 → Type 0
System S = (c : Call) → S → Option (Value c) × S

abbrev pub IsSystem : {S : Type 0} → System S → Type 0
IsSystem {S} system = (c : Call) (s : S) → WellFormed c (system c s).0

-- A program of calls that leave the state as it is leaves the state as it is.
pub run-unchanged :
    {S A : Type 0} (system : System S) (P : Call → Type 0)
    → IsSystem system
    → ((c : Call) (s : S) → P c → (system c s).1 ≡ s)
    → (p : Prog A) (s : S) → Every P p
    → (run system p s).1 ≡ s
unfolding run
run-unchanged system P good same (done r) s h = refl
run-unchanged system P good same (call c k) s h =
    run-unchanged system P good same (k (system c s).0) (system c s).1
      (h.1 (system c s).0 (good c s))
    ∙ same c s h.0

-- Two systems that answer alike where a predicate holds are not told apart by a program that calls
-- only there.
pub run-agree :
    {S A : Type 0} (one other : System S) (P : Call → Type 0)
    → IsSystem one
    → ((c : Call) (s : S) → P c → one c s ≡ other c s)
    → (p : Prog A) (s : S) → Every P p
    → run one p s ≡ run other p s
unfolding run
run-agree one other P good same (done r) s h = refl
run-agree {S = S} one other P good same (call c k) s h =
    run-agree one other P good same (k (one c s).0) (one c s).1 (h.1 (one c s).0 (good c s))
    ∙ ap (λ (x : Option (Value c) × S). run other (k x.0) x.1) (same c s h.0)
