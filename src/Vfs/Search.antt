-- ===== src/Vfs/Search.antt =====
-- `LocalProvider::search` of crates/vfs/src/lib.rs. The loop has fuel for the directories to visit.
pub mod Finishes
use cloud_desk_os.Prelude.{
  ℕ, zero, suc, Bool, true, false, not, ◌&&◌, Option, none, some, List, [], ◌∷◌, ◌++◌, ltb, leb,
  min, max, if◌then◌else◌, length,
}
use cloud_desk_os.Prelude.Texts.{Text, strip_prefix}
use cloud_desk_os.Vfs.Paths.{
  unfinished, normalize_virtual_path, canonical_virtual, join_virtual, child_path,
}
use cloud_desk_os.Vfs.Program.{
  PathBuf, Metadata, DirItem, broken, unnamed, named, Call, read_dir, entry_metadata, Value, Prog,
  done, call, ◌>>=◌, attempt, pure, fail,
}
use cloud_desk_os.Vfs.Provider.{VfsEntry, entry_from_metadata, checked}

-- `str::contains`.
unfoldable pub has_text : Text → Text → Bool
unfolding strip_prefix
has_text t [] = elim (strip_prefix [] t) [ none ↦ false | some rest ↦ true ]
has_text t (a ∷ s) =
    let later = has_text t s in elim (strip_prefix (a ∷ s) t) [ none ↦ later | some rest ↦ true ]

-- The directories still to visit, the last one first, by relative and shown path.
abbrev pub Stack : Type 0
Stack = List (PathBuf × Text)

abbrev pub Next : Type 0
Next = Stack → List VfsEntry → Prog (List VfsEntry)

-- What a search looks for: the lower case of a text, the query in lower case, and how many results.
pub record Query : Type 0 where
  pub to_lowercase : Text → Text
  pub query_lower : Text
  pub max_results : ℕ

abbrev pub is_real_dir : Metadata → Bool
is_real_dir meta = meta.is_dir && not meta.is_symlink

-- A directory below is visited later, if fewer than 100 wait.
unfoldable pub push_dir : Metadata → PathBuf × Text → Stack → Stack
push_dir meta child stack =
    if is_real_dir meta && ltb (length stack) 100 then child ∷ stack else stack

-- An entry with its metadata, then the other entries.
unfoldable pub examine :
    Query → PathBuf → Text → Text → Metadata → Stack → List VfsEntry → Next → Prog (List VfsEntry)
unfolding has_text push_dir
examine q dir_rel dir_virt name meta stack results rest =
    let child_virt = join_virtual dir_virt name in
    let child_rel = child_path dir_rel name in
    let pushed = push_dir meta (child_rel, child_virt) stack in
    let found = results ++ entry_from_metadata name child_virt meta ∷ [] in
    if has_text q.query_lower (q.to_lowercase name)
    then (if leb q.max_results (length found) then pure found else rest pushed found)
    else rest pushed results

unfoldable pub after_metadata :
    Query
    → PathBuf
    → Text
    → Text
    → Stack
    → List VfsEntry
    → Next
    → Option Metadata
    → Prog (List VfsEntry)
unfolding examine
after_metadata q dir_rel dir_virt name stack results rest none = rest stack results
after_metadata q dir_rel dir_virt name stack results rest (some meta) =
    examine q dir_rel dir_virt name meta stack results rest

unfoldable pub search_items :
    Query → PathBuf → Text → List DirItem → Stack → List VfsEntry → Next → Prog (List VfsEntry)
unfolding after_metadata
search_items q dir_rel dir_virt [] stack results next = next stack results
search_items q dir_rel dir_virt (broken ∷ items) stack results next =
    search_items q dir_rel dir_virt items stack results next
search_items q dir_rel dir_virt (unnamed ∷ items) stack results next =
    search_items q dir_rel dir_virt items stack results next
search_items q dir_rel dir_virt (named name ∷ items) stack results next = do
  meta ← attempt (entry_metadata dir_rel name)
  after_metadata q dir_rel dir_virt name stack results
      (λ stack results. search_items q dir_rel dir_virt items stack results next) meta

unfoldable pub visit :
    Query
    → PathBuf
    → Text
    → Option (List DirItem)
    → Stack
    → List VfsEntry
    → Next
    → Prog (List VfsEntry)
unfolding search_items
visit q dir_rel dir_virt none stack results next = next stack results
visit q dir_rel dir_virt (some items) stack results next =
    search_items q dir_rel dir_virt items stack results next

unfoldable pub search_loop : ℕ → Query → Stack → List VfsEntry → Prog (List VfsEntry)
unfolding visit
search_loop fuel q [] results = pure results
search_loop zero q (dir ∷ stack) results = fail unfinished
search_loop (suc fuel) q ((dir_rel, dir_virt) ∷ stack) results = do
  items ← attempt (read_dir dir_rel)
  visit q dir_rel dir_virt items stack results (search_loop fuel q)

unfoldable pub search : ℕ → (Text → Text) → Text → Text → ℕ → Prog (List VfsEntry)
unfolding search_loop
search fuel to_lowercase path query maximum_results = do
  root_rel ← checked (normalize_virtual_path path true)
  search_loop fuel
      record {
        to_lowercase = to_lowercase;
        query_lower = to_lowercase query;
        max_results = max 1 (min maximum_results 200);
      }
      ((root_rel, canonical_virtual path) ∷ []) []
