-- ===== src/Vfs/Paths/Fine.antt =====
-- The errors of `normalize_virtual_path`, crates/vfs/src/lib.rs.
use cloud_desk_os.Prelude.{
  Bool, false, List, [], ◌∷◌, ok, err, ◌≡◌, ◌≢◌, refl, Bool-cases, inl, inr,
}
use cloud_desk_os.Prelude.Texts.{Text, contains}
use cloud_desk_os.Vfs.Paths.{
  unfinished, VfsResult, normalize_virtual_path, Component, root_dir, cur_dir, parent_dir, normal,
  components, push_components, or_root,
}

-- An answer that is no error of the model's own, and the paths have none.
abbrev pub Fine : {A : Type 0} → VfsResult A → Type 0
Fine (ok a) = Unit
Fine (err e) = e ≢ unfinished

push-Fine : (cs : List Component) → Fine (push_components cs)
unfolding push_components
push-Fine [] = tt
push-Fine (root_dir ∷ cs) = push-Fine cs
push-Fine (cur_dir ∷ cs) = push-Fine cs
push-Fine (parent_dir ∷ cs) = λ e. cc
push-Fine (normal value ∷ cs) = by_rest (push_components cs) refl (push-Fine cs)
  where
    by_rest :
        (r : VfsResult (List Text))
        → push_components cs ≡ r
        → Fine r
        → Fine (push_components (normal value ∷ cs))
    by_rest (ok rest) e h = rw e tt
    by_rest (err x) e h = rw e h

pub normalize-Fine :
    (path : Text) (allow_root : Bool) → Fine (normalize_virtual_path path allow_root)
unfolding normalize_virtual_path or_root
normalize-Fine path allow_root = elim (Bool-cases (contains path 0)) [
  | inl bad ↦ rw bad (λ e. cc)
  | inr clean ↦ by_push (push_components (components path)) refl clean (push-Fine (components path))
]
  where
    by_push :
        (r : VfsResult (List Text))
        → push_components (components path) ≡ r
        → contains path 0 ≡ false
        → Fine r
        → Fine (normalize_virtual_path path allow_root)
    by_push (err x) e clean h = rw (clean, e) h
    by_push (ok []) e clean h = elim (Bool-cases allow_root) [
      | inl root ↦ rw (clean, e, root) tt
      | inr name ↦ rw (clean, e, name) (λ e. cc)
    ]
    by_push (ok (part ∷ parts)) e clean h = rw (clean, e) tt
