-- ===== src/Vfs/Permitted/Archive.antt =====
-- The calls of the archives and of the ACLs, crates/vfs/src/archive.rs and crates/vfs/src/acl.rs.
use cloud_desk_os.Prelude.{
  ℕ, ◌+◌, Bool, true, false, Option, none, some, List, [], ◌∷◌, ok, err, ltb, length, All, ◌≡◌,
  refl, if◌then◌else◌, if-holds,
}
use cloud_desk_os.Prelude.Texts.{Text}
use cloud_desk_os.Vfs.Paths.{VfsResult, read_only, normalize_virtual_path}
use cloud_desk_os.Vfs.Program.{
  PathBuf, ArchiveFormat, zip, tar_gz, Archive, create_dir_all, open_archive, write_all, ◌>>=◌,
  ◌>>◌, act, pure, fail, Every, Every-bind, Every-act, Every-then, Every-checked,
}
use cloud_desk_os.Vfs.Provider.{LocalProvider, checked}
use cloud_desk_os.Vfs.Archive.{
  ArchiveOutcome, copy_with_quota, zip_target, tar_target, Extracted, Rest, copied, fill, one_more,
  extract_zip_from, extract_tar_from, extract_zip, extract_tar_gz, extract, remove_files,
  remove_dirs, cleanup_partial_extraction, conclude, extract_archive, no_outcome, max_extract_bytes,
  max_extract_entries,
}
use cloud_desk_os.Vfs.Permitted.Calls.{IsInside, Permitted, normalize-IsInside}
use cloud_desk_os.Vfs.Permitted.Gives.{Always, Gives, Gives-caught, Every-after, Every-Gives}
use cloud_desk_os.Vfs.Permitted.Targets.{Lands, zip_target-Lands, tar_target-Lands}

copy_with_quota-Permitted :
    (w : Bool) (target : PathBuf) (reads : List (Option Text)) (total : ℕ)
    → w ≡ true
    → IsInside target
    → Every (Permitted w) (copy_with_quota target reads total)
unfolding copy_with_quota
copy_with_quota-Permitted w target [] total leave h = tt
copy_with_quota-Permitted w target (none ∷ reads) total leave h = tt
copy_with_quota-Permitted w target (some [] ∷ reads) total leave h = tt
copy_with_quota-Permitted w target (some (b ∷ bs) ∷ reads) total leave h =
    if-holds (Every (Permitted w)) (ltb max_extract_bytes (total + length (b ∷ bs))) _ _ tt (
      Every-then (Permitted w) (write_all target (b ∷ bs)) _ ((h, tt), leave)
        (λ u good. copy_with_quota-Permitted w target reads (total + length (b ∷ bs)) leave h))

-- The paths that were created so far stay inside.
abbrev AllInside : List PathBuf → Type 0
AllInside = All IsInside

abbrev Created : VfsResult Extracted → Type 0
Created (ok extracted) = AllInside extracted.0
Created (err e) = Unit

fill-Created :
    (w : Bool) (rest : Rest) (reads : List (Option Text)) (outcome : ArchiveOutcome)
    (created : List PathBuf) (r : VfsResult (PathBuf × Bool))
    → w ≡ true
    → AllInside created
    → ((outcome : ArchiveOutcome) (created : List PathBuf)
        → AllInside created
        → Gives (Permitted w) Created (rest outcome created))
    → Lands r
    → Gives (Permitted w) Created (fill rest reads outcome created r)
unfolding fill
fill-Created w rest reads outcome created (err e) leave h f lands = h
fill-Created w rest reads outcome created (ok (target, false)) leave h f lands =
    f outcome (target ∷ created) (lands, h)
fill-Created w rest reads outcome created (ok (target, true)) leave h f lands =
    Gives-caught (Permitted w) Always Created (copy_with_quota target reads outcome.bytes) _
      (Every-Gives (Permitted w) Always _
        (copy_with_quota-Permitted w target reads outcome.bytes leave lands) (λ r. tt))
      by_copy
  where
    by_copy :
        (r : VfsResult ℕ)
        → Always r
        → Gives (Permitted w) Created (copied rest outcome (target ∷ created) r)
    by_copy (err e) always = unfold copied in (lands, h)
    by_copy (ok total) always =
        unfold copied in f (record outcome { bytes = total }) (target ∷ created) (lands, h)

extract_zip_from-Created :
    (w : Bool) (destination : PathBuf) (es : Archive) (outcome : ArchiveOutcome)
    (created : List PathBuf)
    → w ≡ true
    → IsInside destination
    → AllInside created
    → Gives (Permitted w) Created (extract_zip_from destination es outcome created)
unfolding extract_zip_from
extract_zip_from-Created w destination [] outcome created leave inside h = h
extract_zip_from-Created w destination (none ∷ es) outcome created leave inside h = h
extract_zip_from-Created w destination (some e ∷ es) outcome created leave inside h =
    Gives-caught (Permitted w) Lands Created (zip_target destination e e.entry_type) _
      (zip_target-Lands w destination e e.entry_type leave inside)
      (λ r lands.
        fill-Created w _ e.reads (one_more outcome) created r leave h
          (λ outcome created h.
            extract_zip_from-Created w destination es outcome created leave inside h)
          lands)

extract_tar_from-Created :
    (w : Bool) (destination : PathBuf) (es : Archive) (outcome : ArchiveOutcome)
    (created : List PathBuf)
    → w ≡ true
    → IsInside destination
    → AllInside created
    → Gives (Permitted w) Created (extract_tar_from destination es outcome created)
unfolding extract_tar_from
extract_tar_from-Created w destination [] outcome created leave inside h = h
extract_tar_from-Created w destination (none ∷ es) outcome created leave inside h = h
extract_tar_from-Created w destination (some e ∷ es) outcome created leave inside h =
    if-holds (Gives (Permitted w) Created) (ltb max_extract_entries (outcome.entries + 1))
      (pure (created, err _)) _ h
      (Gives-caught (Permitted w) Lands Created (tar_target destination e e.entry_type) _
        (tar_target-Lands w destination e e.entry_type leave inside)
        (λ r lands.
          fill-Created w _ e.reads (one_more outcome) created r leave h
            (λ outcome created h.
              extract_tar_from-Created w destination es outcome created leave inside h)
            lands))

opened-Always :
    (w : Bool) (archive : PathBuf)
    → w ≡ true
    → IsInside archive
    → Gives (Permitted w) Always (act (open_archive archive))
opened-Always w archive leave inside =
    Every-Gives (Permitted w) Always (act (open_archive archive))
      (Every-act (Permitted w) (open_archive archive) ((inside, tt), leave)) (λ r. tt)

extract-Created :
    (w : Bool) (format : ArchiveFormat) (archive destination : PathBuf)
    → w ≡ true
    → IsInside archive
    → IsInside destination
    → Gives (Permitted w) Created (extract format archive destination)
unfolding extract
extract-Created w zip archive destination leave inside h =
    Gives-caught (Permitted w) Always Created (act (open_archive archive)) _
      (opened-Always w archive leave inside) by_open
  where
    by_open :
        (r : VfsResult (Option Archive))
        → Always r
        → Gives (Permitted w) Created (extract_zip destination r)
    by_open (err e) always = unfold extract_zip in tt
    by_open (ok none) always = unfold extract_zip in tt
    by_open (ok (some es)) always =
        unfold extract_zip in
        if-holds (Gives (Permitted w) Created) (ltb max_extract_entries (length es)) _ _ tt
          (extract_zip_from-Created w destination es no_outcome [] leave h tt)
extract-Created w tar_gz archive destination leave inside h =
    Gives-caught (Permitted w) Always Created (act (open_archive archive)) _
      (opened-Always w archive leave inside) by_open
  where
    by_open :
        (r : VfsResult (Option Archive))
        → Always r
        → Gives (Permitted w) Created (extract_tar_gz destination r)
    by_open (err e) always = unfold extract_tar_gz in tt
    by_open (ok none) always = unfold extract_tar_gz in tt
    by_open (ok (some es)) always =
        unfold extract_tar_gz in extract_tar_from-Created w destination es no_outcome [] leave h tt

remove_files-Permitted :
    (w : Bool) (created : List PathBuf)
    → w ≡ true
    → AllInside created
    → Every (Permitted w) (remove_files created)
unfolding remove_files ◌>>=◌
remove_files-Permitted w [] leave h = tt
remove_files-Permitted w (path ∷ created) leave h =
    (((h.0, tt), leave), λ o good. remove_files-Permitted w created leave h.1)

remove_dirs-Permitted :
    (w : Bool) (created : List PathBuf)
    → w ≡ true
    → AllInside created
    → Every (Permitted w) (remove_dirs created)
unfolding remove_dirs ◌>>=◌
remove_dirs-Permitted w [] leave h = tt
remove_dirs-Permitted w (path ∷ created) leave h =
    (((h.0, tt), leave), λ o good. remove_dirs-Permitted w created leave h.1)

conclude-Permitted :
    (w : Bool) (extracted : Extracted)
    → w ≡ true
    → AllInside extracted.0
    → Every (Permitted w) (conclude extracted)
unfolding conclude cleanup_partial_extraction
conclude-Permitted w (created, ok outcome) leave h = tt
conclude-Permitted w (created, err e) leave h =
    Every-bind (Permitted w) (cleanup_partial_extraction created) _
      (Every-bind (Permitted w) (remove_files created) _ (remove_files-Permitted w created leave h)
        (λ u. remove_dirs-Permitted w created leave h))
      (λ u. tt)

pub extract_archive-Permitted :
    (self : LocalProvider) (archive destination : Text) (format : ArchiveFormat)
    → Every (Permitted self.writable) (extract_archive self archive destination format)
unfolding extract_archive
extract_archive-Permitted self archive destination format = by_leave self.writable
  where
    by_leave :
        (w : Bool)
        → Every (Permitted w) (
            if w
            then (do
              archive_relative ← checked (normalize_virtual_path archive false)
              destination_relative ← checked (normalize_virtual_path destination true)
              act (create_dir_all destination_relative)
              extracted ← extract format archive_relative destination_relative
              conclude extracted)
            else fail read_only)
    by_leave false = tt
    by_leave true = Every-checked (Permitted true) (normalize_virtual_path archive false) _ (λ p e.
        Every-checked (Permitted true) (normalize_virtual_path destination true) _ (λ q g.
          let inside = normalize-IsInside destination true q g in
          Every-then (Permitted true) (create_dir_all q) _ ((inside, tt), refl)
            (λ u good.
              Every-after (Permitted true) Created (extract format p q) _
                (extract-Created true format p q refl (normalize-IsInside archive false p e) inside)
                (λ extracted h. conclude-Permitted true extracted refl h))))
