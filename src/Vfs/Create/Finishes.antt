-- ===== src/Vfs/Create/Finishes.antt =====
-- That the creation of an archive ends, crates/vfs/src/archive.rs.
use cloud_desk_os.Prelude.{
  ℕ, zero, suc, ◌≤◌, ◌<◌, true, false, not, List, [], ◌∷◌, ◌++◌, ok, err, All, ◌≡◌, arith, is_empty,
  require, if-holds, Bool-cases, inl, inr,
}
use cloud_desk_os.Prelude.Texts.{Text, text_eq}
use cloud_desk_os.Prelude.Table.{All-order_by}
use cloud_desk_os.Vfs.Paths.{
  VfsResult, dot, read_only, empty_archive_selection, normalize_virtual_path,
}
use cloud_desk_os.Vfs.Paths.Fine.{Fine, normalize-Fine}
use cloud_desk_os.Vfs.Program.{
  PathBuf, Metadata, DirItem, broken, unnamed, named, ArchiveFormat, zip, tar_gz, symlink_metadata,
  read_dir, create, create_dir_all, add_directory, start_file, copy_into, open_metadata,
  append_file, finish, act, pure, run, System,
}
use cloud_desk_os.Vfs.Provider.{LocalProvider, parent, create_parent, render, text_le}
use cloud_desk_os.Vfs.Archive.{ArchiveOutcome, no_outcome}
use cloud_desk_os.Vfs.Search.{is_real_dir}
use cloud_desk_os.Vfs.Create.{
  visit_directory, visit_file, names_of, Walk, walk_children, walk_node, walk_source, walk_sources,
  resolve_sources, create_archive, slashed,
}
use cloud_desk_os.Vfs.Create.Ends.{
  require-Fine, Gives, Ends, Always, Ends-bind, Answered, Ends-act, Ends-then, Ends-checked,
}

-- The entries of a directory that is no symbolic link have less below them than it has.
abbrev pub Deeper : (PathBuf → ℕ) → PathBuf → DirItem → Type 0
Deeper depth dir (named name) = depth (dir ++ name ∷ []) < depth dir
Deeper depth dir _ = Unit

module _ {S : Type 0} (system : System S) where
  visit_file-Ends :
      (format : ArchiveFormat) (entry_name : Text) (rel : PathBuf) (outcome : ArchiveOutcome)
      → Ends system Always (visit_file format entry_name rel outcome)
  unfolding visit_file run
  visit_file-Ends zip entry_name rel outcome =
      Ends-then system Always (start_file entry_name) _
        (λ u h. Ends-then system Always (copy_into rel) _ (λ size h s. tt))
  visit_file-Ends tar_gz entry_name rel outcome =
      Ends-then system Always (open_metadata rel) _
        (λ metadata h. Ends-then system Always (append_file entry_name rel) _ (λ u h s. tt))

  visit_directory-Ends :
      (entry_name : Text) (outcome : ArchiveOutcome)
      → Ends system Always (visit_directory entry_name outcome)
  unfolding visit_directory run
  visit_directory-Ends entry_name outcome =
      Ends-then system Always (add_directory _) _ (λ u h s. tt)

module _ {S : Type 0} (system : System S) (depth : PathBuf → ℕ) where
  -- A walk that ends from every source with less than so much below it.
  abbrev EndsBelow : ℕ → Walk → Type 0
  EndsBelow limit walk =
      (source : PathBuf) (outcome : ArchiveOutcome)
      → depth source < limit
      → Ends system Always (walk source outcome)

  names_of-Deeper :
      (dir : PathBuf) (items : List DirItem)
      → All (Deeper depth dir) items
      → All (λ name. depth (dir ++ name ∷ []) < depth dir) (names_of items)
  unfolding names_of
  names_of-Deeper dir [] h = tt
  names_of-Deeper dir (broken ∷ items) h = names_of-Deeper dir items h.1
  names_of-Deeper dir (unnamed ∷ items) h = names_of-Deeper dir items h.1
  names_of-Deeper dir (named name ∷ items) h = (h.0, names_of-Deeper dir items h.1)

  walk_children-Ends :
      (limit : ℕ) (walk : Walk) (dir : PathBuf) (names : List Text) (outcome : ArchiveOutcome)
      → depth dir ≤ limit
      → EndsBelow limit walk
      → All (λ name. depth (dir ++ name ∷ []) < depth dir) names
      → Ends system Always (walk_children walk dir names outcome)
  unfolding walk_children run
  walk_children-Ends limit walk dir [] outcome fits ends h s = tt
  walk_children-Ends limit walk dir (name ∷ names) outcome fits ends h s =
      Ends-bind system Always Always (walk (dir ++ name ∷ []) outcome) _
        (ends (dir ++ name ∷ []) outcome (omega (arith, h.0, fits)))
        (λ outcome u. walk_children-Ends limit walk dir names outcome fits ends h.1) s

  -- What is asked of the disk, at any times.
  abbrev pub Tree : Type 0
  Tree =
      (dir : PathBuf) (metadata : Metadata) (items : List DirItem)
      → Answered system (symlink_metadata dir) metadata
      → is_real_dir metadata ≡ true
      → Answered system (read_dir dir) items
      → All (Deeper depth dir) items

  walk_node-Ends :
      (limit : ℕ) (format : ArchiveFormat) (walk : Walk) (source : PathBuf)
      (outcome : ArchiveOutcome) (metadata : Metadata)
      → depth source ≤ limit
      → EndsBelow limit walk
      → (is_real_dir metadata ≡ true
          → (items : List DirItem) → Answered system (read_dir source) items
          → All (Deeper depth source) items)
      → Ends system Always (walk_node format walk source outcome metadata)
  unfolding walk_node run
  walk_node-Ends limit format walk source outcome metadata fits ends below =
      elim (Bool-cases metadata.is_symlink) [
        | inl link ↦ rw link (λ s. tt)
        | inr real ↦ elim (Bool-cases metadata.is_dir) [
          | inr file ↦
              rw (real, file)
                (visit_file-Ends system format (slashed (render source)) source outcome)
          | inl dir ↦
              rw (real, dir)
                (Ends-bind system Always Always (visit_directory (slashed (render source)) outcome)
                  _ (visit_directory-Ends system (slashed (render source)) outcome)
                  (λ outcome u. Ends-then system Always (read_dir source) _ (λ items answered.
                    walk_children-Ends limit walk source _ outcome fits ends (
                      All-order_by _ text_le (names_of items)
                        (names_of-Deeper source items (below (ground arith) items answered))))))
        ]
      ]

  walk_source-Ends :
      (fuel : ℕ) (format : ArchiveFormat) → Tree → EndsBelow fuel (walk_source fuel format)
  unfolding walk_source
  walk_source-Ends zero format tree source outcome fits = absurd (omega (arith, fits))
  walk_source-Ends (suc fuel) format tree source outcome fits =
      Ends-then system Always (symlink_metadata source) _ (λ metadata answered.
        walk_node-Ends fuel format (walk_source fuel format) source outcome metadata
          (omega (arith, fits)) (walk_source-Ends fuel format tree)
          (λ real items. tree source metadata items answered real))

  -- Sources with less than so much below them.
  abbrev Within : ℕ → List PathBuf → Type 0
  Within limit = All (λ source. depth source < limit)

  abbrev pub ResolvesWithin : ℕ → List Text → Type 0
  ResolvesWithin limit = All (λ path.
      (source : PathBuf) → normalize_virtual_path path false ≡ ok source → depth source < limit)

  walk_sources-Ends :
      (limit : ℕ) (walk : Walk) (sources : List PathBuf) (outcome : ArchiveOutcome)
      → EndsBelow limit walk
      → Within limit sources
      → Ends system Always (walk_sources walk sources outcome)
  unfolding walk_sources run
  walk_sources-Ends limit walk [] outcome ends h s = tt
  walk_sources-Ends limit walk (source ∷ sources) outcome ends h s =
      Ends-bind system Always Always (walk source outcome) _ (ends source outcome h.0)
        (λ outcome u. walk_sources-Ends limit walk sources outcome ends h.1) s

  resolve_sources-Ends :
      (limit : ℕ) (paths : List Text)
      → ResolvesWithin limit paths
      → Ends system (Within limit) (resolve_sources paths)
  unfolding resolve_sources run
  resolve_sources-Ends limit [] h s = tt
  resolve_sources-Ends limit (path ∷ paths) h s =
      Ends-checked system (Within limit) (normalize_virtual_path path false) _
        (normalize-Fine path false)
        (λ source e.
          Ends-bind system (Within limit) (Within limit) (resolve_sources paths) _
            (resolve_sources-Ends limit paths h.1) (λ sources within s. (h.0 source e, within)))
        s

  call-Ends : (path : PathBuf) → Ends system Always (act (create_dir_all path))
  call-Ends path s = by_result _ (Ends-act system (create_dir_all path) s)
    where
      by_result :
          (r : VfsResult (Unit {0}))
          → Gives (Answered system (create_dir_all path)) r
          → Gives Always r
      by_result (ok u) h = tt
      by_result (err e) h = h

  create_parent-Ends : (path : PathBuf) → Ends system Always (create_parent path)
  unfolding create_parent run
  create_parent-Ends [] s = tt
  create_parent-Ends (part ∷ []) s =
      if-holds (λ p. Gives Always (run system p s).0) (text_eq part dot) (pure tt)
        (act (create_dir_all (part ∷ []))) tt (call-Ends (part ∷ []) s)
  create_parent-Ends (part ∷ next ∷ rest) s = call-Ends (part ∷ next ∷ rest) s

  abbrev Done : ArchiveOutcome → Type 0
  Done outcome = Unit

  create_archive-Ends :
      (fuel : ℕ) (provider : LocalProvider) (sources : List Text) (destination : Text)
      (format : ArchiveFormat)
      → Tree
      → ResolvesWithin fuel sources
      → Ends system Always (create_archive fuel provider sources destination format)
  unfolding create_archive run
  create_archive-Ends fuel provider sources destination format tree fits =
      Ends-checked system Done (require provider.writable read_only) _
        (require-Fine provider.writable read_only (λ e. cc))
        (λ u e.
          Ends-checked system Done (require (not (is_empty sources)) empty_archive_selection) _
            (require-Fine (not (is_empty sources)) empty_archive_selection (λ e. cc))
            (λ u e.
              Ends-checked system Done (normalize_virtual_path destination false) _
                (normalize-Fine destination false)
                (λ target e.
                  Ends-bind system Always Done (create_parent (parent target)) _
                    (create_parent-Ends (parent target))
                    (λ u h.
                      Ends-bind system (Within fuel) Done (resolve_sources sources) _
                        (resolve_sources-Ends fuel sources fits)
                        (λ resolved within. Ends-then system Done (create target) _ (λ u h.
                          Ends-bind system Done Done
                            (walk_sources (walk_source fuel format) resolved no_outcome) _
                            (walk_sources-Ends fuel (walk_source fuel format) resolved no_outcome
                              (walk_source-Ends fuel format tree) within)
                            (λ outcome u. Ends-then system Done finish _ (λ u h s. tt))))))))

-- The creation of an archive ends, with the archive or with an error that the code has, if the fuel
-- exceeds the depth of every source: a number that, for a directory that is no symbolic link, exceeds
-- that of each of its entries, whatever the disk answers at whatever time.
pub create_archive-Fine :
    {S : Type 0} (system : System S) (s : S) (depth : PathBuf → ℕ) (fuel : ℕ)
    (provider : LocalProvider) (sources : List Text) (destination : Text) (format : ArchiveFormat)
    → Tree system depth
    → ResolvesWithin system depth fuel sources
    → Fine (run system (create_archive fuel provider sources destination format) s).0
create_archive-Fine system s depth fuel provider sources destination format tree fits =
    by_result (run system (create_archive fuel provider sources destination format) s).0
      (create_archive-Ends system depth fuel provider sources destination format tree fits s)
  where
    by_result : (r : VfsResult ArchiveOutcome) → Gives Always r → Fine r
    by_result (ok outcome) h = tt
    by_result (err e) h = h
