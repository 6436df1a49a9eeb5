-- ===== src/Vfs/Permitted/Create.antt =====
-- The calls of the creation of an archive, crates/vfs/src/archive.rs.
use cloud_desk_os.Prelude.{
  ℕ, zero, suc, Bool, true, false, not, List, [], ◌∷◌, ◌++◌, ok, err, All, ◌≡◌, refl, if-holds,
  is_empty, require,
}
use cloud_desk_os.Prelude.Texts.{Text}
use cloud_desk_os.Prelude.Table.{All-order_by}
use cloud_desk_os.Vfs.Paths.{
  VfsError, VfsResult, read_only, empty_archive_selection, normalize_virtual_path,
}
use cloud_desk_os.Vfs.Paths.Segments.{is_name}
use cloud_desk_os.Vfs.Program.{
  PathBuf, Metadata, DirItem, broken, unnamed, named, NamedItem, ArchiveFormat, zip, tar_gz, Call,
  symlink_metadata, read_dir, create, add_directory, start_file, copy_into, open_metadata,
  append_file, finish, Prog, done, call, ◌>>=◌, pure, Every, Every-bind, Every-then, Every-checked,
}
use cloud_desk_os.Vfs.Provider.{LocalProvider, checked, parent, create_parent, render, text_le}
use cloud_desk_os.Vfs.Archive.{ArchiveOutcome, no_outcome}
use cloud_desk_os.Vfs.Create.{
  visit_directory, visit_file, names_of, Walk, walk_children, walk_node, walk_source, walk_sources,
  resolve_sources, create_archive, slashed,
}
use cloud_desk_os.Vfs.Permitted.Calls.{
  IsInside, Permitted, normalize-IsInside, append-IsInside, name-IsInside,
}
use cloud_desk_os.Vfs.Permitted.Provider.{create_parent-Permitted}
use cloud_desk_os.Vfs.Permitted.Gives.{Gives, Every-after}

visit_file-Permitted :
    (w : Bool) (format : ArchiveFormat) (entry_name : Text) (rel : PathBuf)
    (outcome : ArchiveOutcome)
    → w ≡ true
    → IsInside rel
    → Every (Permitted w) (visit_file format entry_name rel outcome)
unfolding visit_file
visit_file-Permitted w zip entry_name rel outcome leave h =
    Every-then (Permitted w) (start_file entry_name) _ (tt, leave)
      (λ u good. Every-then (Permitted w) (copy_into rel) _ ((h, tt), leave) (λ size good. tt))
visit_file-Permitted w tar_gz entry_name rel outcome leave h =
    Every-then (Permitted w) (open_metadata rel) _ ((h, tt), leave)
      (λ metadata good.
        Every-then (Permitted w) (append_file entry_name rel) _ ((h, tt), leave) (λ u good. tt))

abbrev AllNamed : List Text → Type 0
AllNamed = All (λ (name : Text). is_name name ≡ true)

names_of-AllNamed : (items : List DirItem) → All NamedItem items → AllNamed (names_of items)
unfolding names_of
names_of-AllNamed [] h = tt
names_of-AllNamed (broken ∷ items) h = names_of-AllNamed items h.1
names_of-AllNamed (unnamed ∷ items) h = names_of-AllNamed items h.1
names_of-AllNamed (named name ∷ items) h = (h.0, names_of-AllNamed items h.1)

abbrev Walks : Bool → Walk → Type 0
Walks w walk =
    (source : PathBuf) (outcome : ArchiveOutcome)
    → IsInside source
    → Every (Permitted w) (walk source outcome)

walk_children-Permitted :
    (w : Bool) (walk : Walk) (source : PathBuf) (names : List Text) (outcome : ArchiveOutcome)
    → Walks w walk
    → IsInside source
    → AllNamed names
    → Every (Permitted w) (walk_children walk source names outcome)
unfolding walk_children
walk_children-Permitted w walk source [] outcome f h hs = tt
walk_children-Permitted w walk source (name ∷ names) outcome f h hs =
    Every-bind (Permitted w) (walk (source ++ name ∷ []) outcome) _
      (f (source ++ name ∷ []) outcome
        (append-IsInside source (name ∷ []) h (name-IsInside name hs.0)))
      (λ outcome. walk_children-Permitted w walk source names outcome f h hs.1)

walk_node-Permitted :
    (w : Bool) (format : ArchiveFormat) (walk : Walk) (source : PathBuf) (outcome : ArchiveOutcome)
    (metadata : Metadata)
    → w ≡ true
    → Walks w walk
    → IsInside source
    → Every (Permitted w) (walk_node format walk source outcome metadata)
unfolding walk_node visit_directory
walk_node-Permitted w format walk source outcome metadata leave f h =
    if-holds (Every (Permitted w)) metadata.is_symlink _ _ tt (
      if-holds (Every (Permitted w)) metadata.is_dir _ _
        (Every-bind (Permitted w) (visit_directory (slashed (render source)) outcome) _
          (Every-then (Permitted w) (add_directory _) _ (tt, leave) (λ u good. tt))
          (λ outcome.
            Every-then (Permitted w) (read_dir source) _ ((h, tt), refl)
              (λ items good. walk_children-Permitted w walk source _ outcome f h (
                All-order_by (λ (name : Text). is_name name ≡ true) text_le (names_of items)
                  (names_of-AllNamed items good)))))
        (visit_file-Permitted w format _ source outcome leave h))

walk_source-Permitted :
    (w : Bool) (fuel : ℕ) (format : ArchiveFormat) → w ≡ true → Walks w (walk_source fuel format)
unfolding walk_source
walk_source-Permitted w zero format leave source outcome h = tt
walk_source-Permitted w (suc fuel) format leave source outcome h =
    Every-then (Permitted w) (symlink_metadata source) _ ((h, tt), refl)
      (λ metadata good.
        walk_node-Permitted w format (walk_source fuel format) source outcome metadata leave
          (walk_source-Permitted w fuel format leave) h)

abbrev Sources : VfsResult (List PathBuf) → Type 0
Sources (ok sources) = All IsInside sources
Sources (err e) = Unit

resolve_sources-Gives :
    (P : Call → Type 0) (sources : List Text) → Gives P Sources (resolve_sources sources)
unfolding resolve_sources ◌>>=◌
resolve_sources-Gives P [] = tt
resolve_sources-Gives P (source ∷ sources) =
    by_path (normalize_virtual_path source false) refl (resolve_sources-Gives P sources)
  where
    by_rest :
        (path : PathBuf) (p : Prog (List PathBuf))
        → IsInside path
        → Gives P Sources p
        → Gives P Sources (p >>= (λ rest. pure (path ∷ rest)))
    by_rest path (done (ok paths)) h hs = (h, hs)
    by_rest path (done (err e)) h hs = tt
    by_rest path (call c k) h hs = (hs.0, λ o good. by_rest path (k o) h (hs.1 o good))

    by_path :
        (r : VfsResult PathBuf)
        → normalize_virtual_path source false ≡ r
        → Gives P Sources (resolve_sources sources)
        → Gives P Sources (
            checked r
            >>= (λ resolved. resolve_sources sources >>= (λ rest. pure (resolved ∷ rest))))
    by_path (err e) g hs = tt
    by_path (ok path) g hs =
        by_rest path (resolve_sources sources) (normalize-IsInside source false path g) hs

walk_sources-Permitted :
    (w : Bool) (walk : Walk) (sources : List PathBuf) (outcome : ArchiveOutcome)
    → Walks w walk
    → All IsInside sources
    → Every (Permitted w) (walk_sources walk sources outcome)
unfolding walk_sources
walk_sources-Permitted w walk [] outcome f h = tt
walk_sources-Permitted w walk (source ∷ sources) outcome f h =
    Every-bind (Permitted w) (walk source outcome) _ (f source outcome h.0)
      (λ outcome. walk_sources-Permitted w walk sources outcome f h.1)

pub require-leave : (b : Bool) (e : VfsError) (u : Unit {0}) → require b e ≡ ok u → b ≡ true
require-leave true e u h = refl
require-leave false e u h = cc

pub create_archive-Permitted :
    (fuel : ℕ) (self : LocalProvider) (sources : List Text) (destination : Text)
    (format : ArchiveFormat)
    → Every (Permitted self.writable) (create_archive fuel self sources destination format)
unfolding create_archive
create_archive-Permitted fuel self sources destination format =
    Every-checked P (require self.writable read_only) _ (λ u allowed.
      let leave = require-leave self.writable read_only u allowed in
      Every-checked P (require (not (is_empty sources)) empty_archive_selection) _ (λ u chosen.
        Every-checked P (normalize_virtual_path destination false) _ (λ target e.
          let inside = normalize-IsInside destination false target e in
          Every-bind P (create_parent (parent target)) _
            (create_parent-Permitted self.writable target leave inside)
            (λ u.
              Every-after P Sources (resolve_sources sources) _ (resolve_sources-Gives P sources)
                (λ resolved hs.
                  Every-then P (create target) _ ((inside, tt), leave)
                    (λ u good.
                      Every-bind P (walk_sources (walk_source fuel format) resolved no_outcome) _
                        (walk_sources-Permitted self.writable _ resolved no_outcome
                          (walk_source-Permitted self.writable fuel format leave) hs)
                        (λ outcome. Every-then P finish _ (tt, leave) (λ u good. tt))))))))
  where
    P : Call → Type 0
    P = Permitted self.writable
