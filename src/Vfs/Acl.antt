-- ===== src/Vfs/Acl.antt =====
-- POSIX ACLs, crates/vfs/src/acl.rs: the output of `getfacl` as entries, entries as the argument of
-- `setfacl`.
pub mod Spec
use cloud_desk_os.Prelude.{
  ℕ, Bool, true, false, not, ◌&&◌, ◌||◌, Option, none, some, List, [], ◌∷◌, ◌++◌, Result, ok, err,
  ltb, leb, ◌==◌, if◌then◌else◌, length, is_empty, all, require, String,
}
use cloud_desk_os.Prelude.Texts.{Text, codes, text_eq, lines, trim_start, trim_end, trim, split_at}
use cloud_desk_os.Vfs.Paths.{
  VfsError, read_only, io, unsupported, invalid_acl_entry, VfsResult, normalize_virtual_path,
}
use cloud_desk_os.Vfs.Program.{
  ToolRun, tool_missing, not_run, failed, exited, Call, real_path, getfacl, setfacl, Prog, done,
  call, ◌>>=◌, ◌>>◌, act, pure, fail,
}
use cloud_desk_os.Vfs.Provider.{LocalProvider, checked}

pub data AclQualifierKind : Type 0 where
  owning_user user owning_group group mask other : AclQualifierKind

pub record AclEntry : Type 0 where
  pub kind : AclQualifierKind
  pub name : Option Text
  pub read : Bool
  pub write : Bool
  pub execute : Bool

abbrev pub Permissions : Type 0
Permissions = Bool × Bool × Bool

unfoldable pub parse_permissions : Text → Option Permissions
parse_permissions (r ∷ w ∷ x ∷ []) = some (r == b'r', w == b'w', x == b'x')
parse_permissions _ = none

-- The text before a colon and behind it: one step of `splitn(3, ':')`.
unfoldable pub field : Text → Option (Text × Text)
field [] = none
field (c ∷ s) =
    let rest = field s in
    if c == b':'
    then some ([], s)
    else elim rest [ none ↦ none | some (before, after) ↦ some (c ∷ before, after) ]

named_kind : AclQualifierKind → AclQualifierKind → Text → AclQualifierKind × Option Text
named_kind owning with_name [] = (owning, none)
named_kind owning with_name (c ∷ s) = (with_name, some (c ∷ s))

-- The kind and the qualifier that a tag and the field behind it give.
unfoldable pub kind_of_tag : Text → Text → Option (AclQualifierKind × Option Text)
unfolding named_kind text_eq
kind_of_tag tag qualifier =
    if text_eq tag (codes "user")
    then some (named_kind owning_user user qualifier)
    else if text_eq tag (codes "group")
    then some (named_kind owning_group group qualifier)
    else if text_eq tag (codes "mask")
    then some (mask, none)
    else if text_eq tag (codes "other")
    then some (other, none)
    else none

entry_of : Option (AclQualifierKind × Option Text) → Option Permissions → Option AclEntry
entry_of (some (kind, name)) (some (r, w, x)) =
    some record { kind = kind; name = name; read = r; write = w; execute = x }
entry_of _ none = none
entry_of none (some p) = none

qualified : Text → Option (Text × Text) → Option AclEntry
unfolding entry_of kind_of_tag parse_permissions
qualified tag none = none
qualified tag (some (qualifier, perms)) =
    entry_of (kind_of_tag tag qualifier) (parse_permissions perms)

tagged : Option (Text × Text) → Option AclEntry
unfolding qualified field
tagged none = none
tagged (some (tag, rest)) = qualified tag (field rest)

is_comment : Text → Bool
is_comment [] = true
is_comment (c ∷ s) = c == b'#'

-- A line of the output, unless it is skipped.
unfoldable pub parse_line : Text → Option AclEntry
unfolding tagged is_comment trim_start trim_end
parse_line raw = let line = trim raw in if is_comment line then none else tagged (field line)

unfoldable pub parse_lines : List Text → List AclEntry
unfolding parse_line
parse_lines [] = []
parse_lines (line ∷ rest) =
    let entries = parse_lines rest in
    elim (parse_line line) [ none ↦ entries | some entry ↦ entry ∷ entries ]

unfoldable pub parse_getfacl_output : Text → List AclEntry
unfolding parse_lines lines
parse_getfacl_output text = parse_lines (lines text)

abbrev is_ascii_alphanumeric : ℕ → Bool
is_ascii_alphanumeric c = leb 48 c && leb c 57 || leb 65 c && leb c 90 || leb 97 c && leb c 122

abbrev pub is_qualifier_byte : ℕ → Bool
is_qualifier_byte c = is_ascii_alphanumeric c || c == b'_' || c == b'-' || c == b'.'

unfoldable pub valid_qualifier_name : Text → Bool
unfolding all
valid_qualifier_name name =
    not (is_empty name) && leb (length name) 64 && all is_qualifier_byte name

unfoldable pub perms : AclEntry → Text
perms entry =
    (if entry.read then b'r' else b'-')
    ∷ (if entry.write then b'w' else b'-')
    ∷ (if entry.execute then b'x' else b'-')
    ∷ []

unfoldable pub named_spec : ℕ → Option Text → Text → VfsResult Text
unfolding valid_qualifier_name
named_spec tag none perms = err invalid_acl_entry
named_spec tag (some name) perms =
    if valid_qualifier_name name
    then ok (tag ∷ b':' ∷ (name ++ b':' ∷ perms))
    else err invalid_acl_entry

unfoldable pub spec_of : AclQualifierKind → Option Text → Text → VfsResult Text
unfolding named_spec
spec_of owning_user name perms = ok (codes "u::" ++ perms)
spec_of owning_group name perms = ok (codes "g::" ++ perms)
spec_of mask name perms = ok (codes "m::" ++ perms)
spec_of other name perms = ok (codes "o::" ++ perms)
spec_of user name perms = named_spec b'u' name perms
spec_of group name perms = named_spec b'g' name perms

unfoldable pub format_entry_spec : AclEntry → VfsResult Text
unfolding spec_of perms
format_entry_spec entry = spec_of entry.kind entry.name (perms entry)

-- The loop over the entries stops at the first error.
unfoldable pub cons_spec : VfsResult Text → VfsResult (List Text) → VfsResult (List Text)
cons_spec (err e) rest = err e
cons_spec (ok spec) (err e) = err e
cons_spec (ok spec) (ok specs) = ok (spec ∷ specs)

unfoldable pub format_specs : List AclEntry → VfsResult (List Text)
unfolding format_entry_spec cons_spec
format_specs [] = ok []
format_specs (entry ∷ entries) = cons_spec (format_entry_spec entry) (format_specs entries)

-- `specs.join(",")`.
unfoldable pub join_specs : List Text → Text
join_specs [] = []
join_specs (spec ∷ []) = spec
join_specs (spec ∷ next ∷ rest) = spec ++ b',' ∷ join_specs (next ∷ rest)

unfoldable pub read_answer : ToolRun → VfsResult (List AclEntry × Bool)
unfolding parse_getfacl_output
read_answer tool_missing = ok ([], false)
read_answer not_run = err io
read_answer (failed stderr) = ok ([], false)
read_answer (exited stdout) = ok (parse_getfacl_output stdout, true)

unfoldable pub read_acl : Text → Prog (List AclEntry × Bool)
unfolding read_answer
read_acl path = do
  relative ← checked (normalize_virtual_path path false)
  target ← act (real_path relative)
  answer ← act (getfacl target)
  checked (read_answer answer)

-- Whether the lower-cased message of `setfacl` says that ACLs are not supported.
says_unsupported : (Text → Text) → Text → Bool
unfolding split_at
says_unsupported to_lowercase stderr =
    elim (split_at (codes "not supported") (to_lowercase stderr)) [ none ↦ false | some r ↦ true ]

unfoldable pub set_answer : (Text → Text) → ToolRun → VfsResult (Unit {0})
unfolding says_unsupported
set_answer to_lowercase tool_missing = err unsupported
set_answer to_lowercase not_run = err io
set_answer to_lowercase (failed stderr) =
    if says_unsupported to_lowercase stderr then err unsupported else err io
set_answer to_lowercase (exited stdout) = ok tt

unfoldable pub set_acl : (Text → Text) → LocalProvider → Text → List AclEntry → Prog (Unit {0})
unfolding format_specs join_specs set_answer
set_acl to_lowercase provider path entries = do
  checked (require provider.writable read_only)
  checked (require (not (is_empty entries)) invalid_acl_entry)
  relative ← checked (normalize_virtual_path path false)
  target ← act (real_path relative)
  specs ← checked (format_specs entries)
  answer ← act (setfacl (join_specs specs) target)
  checked (set_answer to_lowercase answer)
