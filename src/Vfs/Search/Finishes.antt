-- ===== src/Vfs/Search/Finishes.antt =====
-- That a search ends, and how much it finds, crates/vfs/src/lib.rs.
use cloud_desk_os.Prelude.{
  ℕ, zero, suc, ◌+◌, ◌≤◌, ◌<◌, true, Option, none, some, List, [], ◌∷◌, ◌++◌, ok, err, leb, max,
  min, length, ◌≡◌, ◌≢◌, refl, ap, arith, if◌then◌else◌, Bool-cases, inl, inr,
}
use cloud_desk_os.Prelude.Texts.{Text}
use cloud_desk_os.Vfs.Paths.{
  unfinished, VfsResult, normalize_virtual_path, canonical_virtual, child_path, join_virtual,
}
use cloud_desk_os.Vfs.Paths.Fine.{Fine, normalize-Fine}
use cloud_desk_os.Vfs.Program.{
  PathBuf, Metadata, DirItem, broken, unnamed, named, Call, read_dir, entry_metadata, Value, Prog,
  ◌>>=◌, run, System,
}
use cloud_desk_os.Vfs.Provider.{VfsEntry, entry_from_metadata, checked}
use cloud_desk_os.Vfs.Search.{
  Stack, Next, Query, push_dir, examine, after_metadata, search_items, visit, search_loop, search,
  is_real_dir, has_text,
}

-- A disk that does not change while the search runs.
abbrev pub still : ((c : Call) → Option (Value c)) → System (Unit {0})
still look c s = (look c, s)

-- Within a number of results, or ended by an error that the code has.
abbrev pub Finishes : ℕ → VfsResult (List VfsEntry) → Type 0
Finishes most (ok entries) = length entries ≤ most
Finishes most (err e) = e ≢ unfinished

module _ (look : (c : Call) → Option (Value c)) (size : PathBuf → ℕ) where
  -- The sizes of the real directories among the entries of a directory.
  size_if_dir : PathBuf → Option Metadata → ℕ
  size_if_dir child none = 0
  size_if_dir child (some meta) = if is_real_dir meta then size child else 0

  unfoldable pub below : PathBuf → List DirItem → ℕ
  unfolding size_if_dir
  below dir [] = 0
  below dir (broken ∷ items) = below dir items
  below dir (unnamed ∷ items) = below dir items
  below dir (named name ∷ items) =
      size_if_dir (child_path dir name) (look (entry_metadata dir name)) + below dir items

  total : Stack → ℕ
  total [] = 0
  total (dir ∷ stack) = size dir.0 + total stack

length-snoc : {A : Type 0} (xs : List A) (x : A) → length (xs ++ x ∷ []) ≡ suc (length xs)
length-snoc [] x = refl
length-snoc (y ∷ xs) x = ap suc (length-snoc xs x)

module _ (look : (c : Call) → Option (Value c)) (size : PathBuf → ℕ) (q : Query) where
  abbrev EndsWell : Prog (List VfsEntry) → Type 0
  EndsWell p = Finishes q.max_results (run (still look) p tt).0

  -- How a search goes on ends well, with so much still to visit.
  abbrev Continues : ℕ → Next → Type 0
  Continues fuel next =
      (stack : Stack) (results : List VfsEntry)
      → total look size stack ≤ fuel
      → length results < q.max_results
      → EndsWell (next stack results)

  push_dir-total :
      (meta : Metadata) (child : PathBuf × Text) (stack : Stack)
      → total look size (push_dir meta child stack)
        ≤ size_if_dir look size child.0 (some meta) + total look size stack
  unfolding push_dir total size_if_dir
  push_dir-total meta child stack = ground arith

  examine-EndsWell :
      (fuel : ℕ) (dir_rel : PathBuf) (dir_virt name : Text) (meta : Metadata) (stack : Stack)
      (results : List VfsEntry) (rest : Next)
      → size_if_dir look size (child_path dir_rel name) (some meta) + total look size stack ≤ fuel
      → length results < q.max_results
      → Continues fuel rest
      → EndsWell (examine q dir_rel dir_virt name meta stack results rest)
  unfolding examine run
  examine-EndsWell fuel dir_rel dir_virt name meta stack results rest fits few f =
      elim (Bool-cases (has_text q.query_lower (q.to_lowercase name))) [
        | inr other ↦ rw other (f pushed results waits few)
        | inl matches ↦ elim (Bool-cases (leb q.max_results (length found))) [
          | inl full ↦ rw (matches, full) one_more
          | inr room ↦ rw (matches, room) (f pushed found waits (ground arith))
        ]
      ]
    where
      pushed : Stack
      pushed = push_dir meta (child_path dir_rel name, join_virtual dir_virt name) stack

      found : List VfsEntry
      found = results ++ entry_from_metadata name (join_virtual dir_virt name) meta ∷ []

      waits : total look size pushed ≤ fuel
      waits = omega (
        arith,
        push_dir-total meta (child_path dir_rel name, join_virtual dir_virt name) stack,
        fits,
      )

      one_more : length found ≤ q.max_results
      one_more = omega (
        arith,
        few,
        length-snoc results (entry_from_metadata name (join_virtual dir_virt name) meta),
      )

  search_items-EndsWell :
      (fuel : ℕ) (dir_rel : PathBuf) (dir_virt : Text) (items : List DirItem) (stack : Stack)
      (results : List VfsEntry) (next : Next)
      → below look size dir_rel items + total look size stack ≤ fuel
      → length results < q.max_results
      → Continues fuel next
      → EndsWell (search_items q dir_rel dir_virt items stack results next)
  unfolding search_items below ◌>>=◌ run
  search_items-EndsWell fuel dir_rel dir_virt [] stack results next fits few f =
      f stack results (omega arith) few
  search_items-EndsWell fuel dir_rel dir_virt (broken ∷ items) stack results next fits few f =
      search_items-EndsWell fuel dir_rel dir_virt items stack results next fits few f
  search_items-EndsWell fuel dir_rel dir_virt (unnamed ∷ items) stack results next fits few f =
      search_items-EndsWell fuel dir_rel dir_virt items stack results next fits few f
  search_items-EndsWell fuel dir_rel dir_virt (named name ∷ items) stack results next fits few f =
      by_metadata (look (entry_metadata dir_rel name)) fits (λ stack results fits few.
        search_items-EndsWell fuel dir_rel dir_virt items stack results next fits few f)
    where
      by_metadata :
          (o : Option Metadata)
          → size_if_dir look size (child_path dir_rel name) o
              + below look size dir_rel items
              + total look size stack
            ≤ fuel
          → ((stack : Stack) (results : List VfsEntry)
              → below look size dir_rel items + total look size stack ≤ fuel
              → length results < q.max_results
              → EndsWell (search_items q dir_rel dir_virt items stack results next))
          → EndsWell (
              after_metadata q dir_rel dir_virt name stack results
                (λ stack results. search_items q dir_rel dir_virt items stack results next)
                o)
      by_metadata none fits ih = unfold after_metadata in ih stack results (omega (arith, fits)) few
      by_metadata (some meta) fits ih =
          unfold after_metadata in
          examine-EndsWell
            (size_if_dir look size (child_path dir_rel name) (some meta) + total look size stack)
            dir_rel dir_virt name meta stack results
            (λ stack results. search_items q dir_rel dir_virt items stack results next)
            (omega arith) few
            (λ stack' results' within few'. ih stack' results' (omega (arith, fits, within)) few')

  search_loop-EndsWell :
      (fuel : ℕ) (stack : Stack) (results : List VfsEntry)
      → ((dir : PathBuf) → 1 ≤ size dir)
      → ((dir : PathBuf) (items : List DirItem)
          → look (read_dir dir) ≡ some items
          → suc (below look size dir items) ≤ size dir)
      → total look size stack ≤ fuel
      → length results < q.max_results
      → EndsWell (search_loop fuel q stack results)
  unfolding search_loop total ◌>>=◌ run
  search_loop-EndsWell zero [] results some_size tree fits few = ground arith
  search_loop-EndsWell (suc fuel) [] results some_size tree fits few = ground arith
  search_loop-EndsWell zero (dir ∷ stack) results some_size tree fits few =
      absurd (omega (arith, some_size dir.0, fits))
  search_loop-EndsWell (suc fuel) ((dir_rel, dir_virt) ∷ stack) results some_size tree fits few =
      by_items (look (read_dir dir_rel)) refl
        (λ stack results fits few. search_loop-EndsWell fuel stack results some_size tree fits few)
    where
      by_items :
          (o : Option (List DirItem))
          → look (read_dir dir_rel) ≡ o
          → Continues fuel (search_loop fuel q)
          → EndsWell (visit q dir_rel dir_virt o stack results (search_loop fuel q))
      by_items none e f =
          unfold visit in f stack results (omega (arith, some_size dir_rel, fits)) few
      by_items (some items) e f =
          unfold visit in
          search_items-EndsWell fuel dir_rel dir_virt items stack results (search_loop fuel q)
            (omega (arith, tree dir_rel items e, fits)) few f

-- A search of a disk that does not change ends, if the sizes of the directories add up along the tree
-- and the fuel is the size of the directory where it starts. It gives at most as many results as were
-- asked for, one at least and 200 at most, or an error of the path.
pub search-Finishes :
    (look : (c : Call) → Option (Value c)) (size : PathBuf → ℕ) (fuel : ℕ)
    (to_lowercase : Text → Text) (path query : Text) (maximum_results : ℕ)
    → ((dir : PathBuf) → 1 ≤ size dir)
    → ((dir : PathBuf) (items : List DirItem)
        → look (read_dir dir) ≡ some items
        → suc (below look size dir items) ≤ size dir)
    → ((root : PathBuf) → normalize_virtual_path path true ≡ ok root → size root ≤ fuel)
    → Finishes
        (max 1 (min maximum_results 200))
        (run (still look) (search fuel to_lowercase path query maximum_results) tt).0
unfolding search run
search-Finishes look size fuel to_lowercase path query maximum_results some_size tree enough =
    by_path (normalize_virtual_path path true) refl (normalize-Fine path true)
  where
    q : Query
    q = record {
      to_lowercase = to_lowercase;
      query_lower = to_lowercase query;
      max_results = max 1 (min maximum_results 200);
    }

    by_path :
        (r : VfsResult PathBuf)
        → normalize_virtual_path path true ≡ r
        → Fine r
        → Finishes
            (max 1 (min maximum_results 200))
            (run
              (still look)
              (checked r
                >>= (λ root_rel. search_loop fuel q ((root_rel, canonical_virtual path) ∷ []) []))
              tt).0
    by_path (err e) f fine = unfold ◌>>=◌ in fine
    by_path (ok root) f fine =
        unfold ◌>>=◌ total in
        search_loop-EndsWell look size q fuel ((root, canonical_virtual path) ∷ []) [] some_size
          tree (omega (arith, enough root f)) (omega arith)
