-- ===== src/Vfs/Permitted/Search.antt =====
-- The calls of a search, crates/vfs/src/lib.rs.
use cloud_desk_os.Prelude.{
  ℕ, zero, suc, Bool, true, Option, none, some, List, [], ◌∷◌, All, ◌≡◌, refl, if-holds,
}
use cloud_desk_os.Prelude.Texts.{Text}
use cloud_desk_os.Vfs.Paths.{normalize_virtual_path, canonical_virtual, child_path, join_virtual}
use cloud_desk_os.Vfs.Paths.Segments.{is_name}
use cloud_desk_os.Vfs.Program.{
  PathBuf, Metadata, DirItem, broken, unnamed, named, NamedItem, read_dir, entry_metadata, ◌>>=◌,
  pure, WellFormed, Every, Every-checked,
}
use cloud_desk_os.Vfs.Provider.{VfsEntry}
use cloud_desk_os.Vfs.Search.{
  Stack, Next, Query, push_dir, examine, after_metadata, search_items, visit, search_loop, search,
  has_text,
}
use cloud_desk_os.Vfs.Permitted.Calls.{
  IsInside, Permitted, normalize-IsInside, append-IsInside, name-IsInside, child-IsInside,
}

abbrev AllWaiting : Stack → Type 0
AllWaiting = All (λ (dir : PathBuf × Text). IsInside dir.0)

-- How a search goes on is permitted, from every stack of paths inside.
abbrev GoesOn : Bool → Next → Type 0
GoesOn w next =
    (stack : Stack) (results : List VfsEntry)
    → AllWaiting stack
    → Every (Permitted w) (next stack results)

push_dir-waiting :
    (meta : Metadata) (child : PathBuf × Text) (stack : Stack)
    → IsInside child.0
    → AllWaiting stack
    → AllWaiting (push_dir meta child stack)
unfolding push_dir
push_dir-waiting meta child stack h hs = if-holds AllWaiting _ (child ∷ stack) stack (h, hs) hs

examine-Permitted :
    (w : Bool) (q : Query) (dir_rel : PathBuf) (dir_virt name : Text) (meta : Metadata)
    (stack : Stack) (results : List VfsEntry) (rest : Next)
    → IsInside dir_rel
    → is_name name ≡ true
    → AllWaiting stack
    → GoesOn w rest
    → Every (Permitted w) (examine q dir_rel dir_virt name meta stack results rest)
unfolding examine
examine-Permitted w q dir_rel dir_virt name meta stack results rest inside h hs f =
    let pushed =
      push_dir-waiting meta (child_path dir_rel name, join_virtual dir_virt name) stack
        (child-IsInside dir_rel name inside h) hs in
    if-holds (Every (Permitted w)) (has_text q.query_lower (q.to_lowercase name)) _ _
      (if-holds (Every (Permitted w)) _ (pure _) (rest _ _) tt (f _ _ pushed)) (f _ results pushed)

search_items-Permitted :
    (w : Bool) (q : Query) (dir_rel : PathBuf) (dir_virt : Text) (items : List DirItem)
    (stack : Stack) (results : List VfsEntry) (next : Next)
    → IsInside dir_rel
    → All NamedItem items
    → AllWaiting stack
    → GoesOn w next
    → Every (Permitted w) (search_items q dir_rel dir_virt items stack results next)
unfolding search_items ◌>>=◌
search_items-Permitted w q dir_rel dir_virt [] stack results next inside hs waiting f =
    f stack results waiting
search_items-Permitted w q dir_rel dir_virt (broken ∷ items) stack results next inside hs waiting
      f =
    search_items-Permitted w q dir_rel dir_virt items stack results next inside hs.1 waiting f
search_items-Permitted w q dir_rel dir_virt (unnamed ∷ items) stack results next inside hs waiting
      f =
    search_items-Permitted w q dir_rel dir_virt items stack results next inside hs.1 waiting f
search_items-Permitted w q dir_rel dir_virt (named name ∷ items) stack results next inside hs
      waiting f =
    (
      ((append-IsInside dir_rel (name ∷ []) inside (name-IsInside name hs.0), tt), refl),
      by_metadata (λ stack results waiting.
          search_items-Permitted w q dir_rel dir_virt items stack results next inside hs.1 waiting
            f),
    )
  where
    by_metadata :
        GoesOn w (λ stack results. search_items q dir_rel dir_virt items stack results next)
        → (o : Option Metadata) → WellFormed (entry_metadata dir_rel name) o
        → Every (Permitted w) (
            after_metadata q dir_rel dir_virt name stack results
              (λ stack results. search_items q dir_rel dir_virt items stack results next)
              o)
    by_metadata g none good = unfold after_metadata in g stack results waiting
    by_metadata g (some meta) good =
        unfold after_metadata in
        examine-Permitted w q dir_rel dir_virt name meta stack results _ inside hs.0 waiting g

search_loop-Permitted :
    (w : Bool) (fuel : ℕ) (q : Query) (stack : Stack) (results : List VfsEntry)
    → AllWaiting stack
    → Every (Permitted w) (search_loop fuel q stack results)
unfolding search_loop ◌>>=◌
search_loop-Permitted w zero q [] results h = tt
search_loop-Permitted w (suc fuel) q [] results h = tt
search_loop-Permitted w zero q (dir ∷ stack) results h = tt
search_loop-Permitted w (suc fuel) q ((dir_rel, dir_virt) ∷ stack) results h =
    (((h.0, tt), refl), by_items (search_loop-Permitted w fuel q))
  where
    by_items :
        GoesOn w (search_loop fuel q)
        → (o : Option (List DirItem)) → WellFormed (read_dir dir_rel) o
        → Every (Permitted w) (visit q dir_rel dir_virt o stack results (search_loop fuel q))
    by_items g none good = unfold visit in g stack results h.1
    by_items g (some items) good =
        unfold visit in
        search_items-Permitted w q dir_rel dir_virt items stack results _ h.0 good h.1 g

pub search-Permitted :
    (w : Bool) (fuel : ℕ) (to_lowercase : Text → Text) (path query : Text) (maximum_results : ℕ)
    → Every (Permitted w) (search fuel to_lowercase path query maximum_results)
unfolding search
search-Permitted w fuel to_lowercase path query maximum_results =
    Every-checked (Permitted w) (normalize_virtual_path path true) _ (λ root_rel e.
      search_loop-Permitted w fuel _ ((root_rel, canonical_virtual path) ∷ []) []
        (normalize-IsInside path true root_rel e, tt))
