-- ===== src/Vfs/Paths.antt =====
-- Virtual paths of crates/vfs/src/lib.rs and the names of archive entries of
-- crates/vfs/src/archive.rs. A text is the list of its bytes, a relative path the list of its parts.
pub mod Segments
pub mod Joins
pub mod Entries
pub mod Fine
use cloud_desk_os.Prelude.{
  ℕ, Bool, true, false, not, ◌&&◌, ◌||◌, List, [], ◌∷◌, ◌++◌, Result, ok, err, ◌>>=◌, ◌>>◌, require,
  leb, ◌==◌, if◌then◌else◌, is_empty, String,
}
use cloud_desk_os.Prelude.Texts.{Text, codes, text_eq, contains, split_slash}

-- The errors that the modelled calls return; their messages are left out. `unfinished` is none of the
-- code: a search or a walk of the model ends with it if its fuel runs out.
pub data VfsError : Type 0 where
  traversal invalid_path non_utf8_name read_only symlink_read_denied too_large io : VfsError
  unsafe_archive_entry archive_entry_link_denied archive_quota_exceeded : VfsError
  invalid_archive empty_archive_selection unsupported invalid_acl_entry unfinished : VfsError

abbrev pub VfsResult {ℓ} : Type ℓ → Type ℓ
VfsResult A = Result A VfsError

-- `std::path::Component`; a path of this platform has no prefix.
pub data Component : Type 0 where
  root_dir cur_dir parent_dir : Component
  normal : Text → Component

abbrev pub dot : Text
dot = b'.' ∷ []

abbrev pub dot_dot : Text
dot_dot = b'.' ∷ b'.' ∷ []

-- A segment between slashes: an empty one and `.` are skipped.
unfoldable pub component_of : Text → List Component
unfolding text_eq
component_of s =
    if is_empty s || text_eq s dot
    then []
    else if text_eq s dot_dot
    then parent_dir ∷ []
    else normal s ∷ []

unfoldable pub later_components : List Text → List Component
unfolding component_of
later_components [] = []
later_components (s ∷ ss) = component_of s ++ later_components ss

-- At the front a slash is the root, and `.` is a component.
unfoldable pub front_components : Bool → Text × List Text → List Component
unfolding later_components component_of text_eq
front_components true (segment, rest) = root_dir ∷ later_components rest
front_components false (segment, rest) =
    if text_eq segment dot
    then cur_dir ∷ later_components rest
    else component_of segment ++ later_components rest

unfoldable pub components : Text → List Component
unfolding split_slash front_components
components [] = []
components (b ∷ bs) = front_components (b == b'/') (split_slash (b ∷ bs))

-- The loop of `normalize_virtual_path`.
unfoldable pub push_components : List Component → VfsResult (List Text)
push_components [] = ok []
push_components (normal value ∷ cs) = do rest ← push_components cs; ok (value ∷ rest)
push_components (cur_dir ∷ cs) = push_components cs
push_components (root_dir ∷ cs) = push_components cs
push_components (parent_dir ∷ cs) = err traversal

unfoldable pub or_root : Bool → List Text → VfsResult (List Text)
or_root allow_root [] = if allow_root then ok (dot ∷ []) else err invalid_path
or_root allow_root (part ∷ parts) = ok (part ∷ parts)

unfoldable pub normalize_virtual_path : Text → Bool → VfsResult (List Text)
unfolding contains components push_components or_root
normalize_virtual_path path allow_root = do
  require (not (contains path 0)) invalid_path
  parts ← push_components (components path)
  or_root allow_root parts

-- `trim_matches('/')`.
unfoldable pub trim_start_slash : Text → Text
trim_start_slash [] = []
trim_start_slash (b ∷ bs) = let rest = trim_start_slash bs in if b == b'/' then rest else b ∷ bs

cons_unless_slash : ℕ → Text → Text
cons_unless_slash b [] = if b == b'/' then [] else b ∷ []
cons_unless_slash b (c ∷ cs) = b ∷ c ∷ cs

unfoldable pub trim_end_slash : Text → Text
unfolding cons_unless_slash
trim_end_slash [] = []
trim_end_slash (b ∷ bs) = cons_unless_slash b (trim_end_slash bs)

unfoldable pub canonical_virtual : Text → Text
unfolding trim_start_slash trim_end_slash
canonical_virtual path = b'/' ∷ trim_end_slash (trim_start_slash path)

unfoldable pub join_virtual : Text → Text → Text
unfolding canonical_virtual text_eq
join_virtual parent name =
    let parent = canonical_virtual parent in
    if text_eq parent (b'/' ∷ []) then b'/' ∷ name else parent ++ b'/' ∷ name

-- Where `search` goes on below a directory: `dir_rel == Path::new(".")` is the root.
unfoldable pub is_root : List Text → Bool
unfolding text_eq
is_root (part ∷ []) = text_eq part dot
is_root _ = false

unfoldable pub child_path : List Text → Text → List Text
unfolding is_root
child_path dir_rel name = if is_root dir_rel then name ∷ [] else dir_rel ++ name ∷ []

abbrev is_ascii_alphabetic : ℕ → Bool
is_ascii_alphabetic c = leb 65 c && leb c 90 || leb 97 c && leb c 122

unfoldable pub has_drive_letter : Text → Bool
has_drive_letter (a ∷ b ∷ s) = b == b':' && is_ascii_alphabetic a
has_drive_letter _ = false

-- The loop of `safe_entry_path`.
unfoldable pub push_safe : List Component → VfsResult (List Text)
push_safe [] = ok []
push_safe (normal value ∷ cs) = do rest ← push_safe cs; ok (value ∷ rest)
push_safe (cur_dir ∷ cs) = push_safe cs
push_safe (root_dir ∷ cs) = err unsafe_archive_entry
push_safe (parent_dir ∷ cs) = err unsafe_archive_entry

unfoldable pub or_unsafe : List Text → VfsResult (List Text)
or_unsafe [] = err unsafe_archive_entry
or_unsafe (part ∷ parts) = ok (part ∷ parts)

unfoldable pub safe_entry_path : Text → VfsResult (List Text)
unfolding contains has_drive_letter components push_safe or_unsafe
safe_entry_path raw = do
  require (not (is_empty raw || contains raw 0)) unsafe_archive_entry
  require (not (contains raw b'\\')) unsafe_archive_entry
  require (not (has_drive_letter raw)) unsafe_archive_entry
  parts ← push_safe (components raw)
  or_unsafe parts
