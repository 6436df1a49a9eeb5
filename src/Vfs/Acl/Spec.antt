-- ===== src/Vfs/Acl/Spec.antt =====
-- What `setfacl` reads from the argument that crates/vfs/src/acl.rs builds.
use cloud_desk_os.Prelude.{
  ℕ, true, false, Option, none, some, List, [], ◌∷◌, ◌++◌, ok, err, ◌==◌, if◌then◌else◌, is_empty,
  all, map, ◌≡◌, refl, sym, ap, subst, ◌∙◌, arith, Bool-cases, inl, inr,
}
use cloud_desk_os.Prelude.Texts.{Text, contains, contains-append}
use cloud_desk_os.Vfs.Paths.{VfsResult}
use cloud_desk_os.Vfs.Acl.{
  AclQualifierKind, owning_user, user, owning_group, group, mask, other, AclEntry, Permissions,
  parse_permissions, field, is_qualifier_byte, valid_qualifier_name, perms, named_spec, spec_of,
  format_entry_spec, cons_spec, format_specs, join_specs,
}

-- The texts between the commas, at least one.
unfoldable pub split_commas : Text → Text × List Text
split_commas [] = ([], [])
split_commas (c ∷ s) =
    let (first, rest) = split_commas s in
    if c == b',' then ([], first ∷ rest) else (c ∷ first, rest)

-- One entry of the argument: a tag, a qualifier, which is empty for the owner, and the rights.
unfoldable pub tagged_kind : ℕ → Text → Option (AclQualifierKind × Option Text)
tagged_kind tag [] =
    if tag == b'u'
    then some (owning_user, none)
    else if tag == b'g'
    then some (owning_group, none)
    else if tag == b'm'
    then some (mask, none)
    else if tag == b'o'
    then some (other, none)
    else none
tagged_kind tag (q ∷ qs) =
    if tag == b'u'
    then some (user, some (q ∷ qs))
    else if tag == b'g'
    then some (group, some (q ∷ qs))
    else none

with_rights : Option (AclQualifierKind × Option Text) → Option Permissions → Option AclEntry
with_rights (some (kind, name)) (some (r, w, x)) =
    some record { kind = kind; name = name; read = r; write = w; execute = x }
with_rights none p = none
with_rights (some k) none = none

behind_tag : ℕ → Option (Text × Text) → Option AclEntry
unfolding with_rights tagged_kind parse_permissions
behind_tag tag none = none
behind_tag tag (some (qualifier, rights)) =
    with_rights (tagged_kind tag qualifier) (parse_permissions rights)

unfoldable pub read_spec : Text → Option AclEntry
unfolding behind_tag field
read_spec (tag ∷ c ∷ s) = if c == b':' then behind_tag tag (field s) else none
read_spec _ = none

-- The entry without a name that its kind has no use for.
unfoldable pub meant : AclEntry → AclEntry
meant entry = record entry {
  name = elim entry.kind [ user ↦ entry.name | group ↦ entry.name | _ ↦ none ];
}

field-name :
    (name rest : Text)
    → contains name b':' ≡ false
    → field (name ++ b':' ∷ rest) ≡ some (name, rest)
unfolding field contains
field-name [] rest h = refl
field-name (c ∷ s) rest h = ground (arith, field-name s rest (ground arith))

qualifier-clean :
    (name : Text) (c : ℕ)
    → is_qualifier_byte c ≡ false
    → all is_qualifier_byte name ≡ true
    → contains name c ≡ false
unfolding all contains
qualifier-clean [] c k h = refl
qualifier-clean (b ∷ bs) c k h = ground (arith, qualifier-clean bs c k (ground arith))

perms-read :
    (entry : AclEntry)
    → parse_permissions (perms entry) ≡ some (entry.read, entry.write, entry.execute)
unfolding parse_permissions perms
perms-read entry = ground arith

perms-clean : (entry : AclEntry) → contains (perms entry) b',' ≡ false
unfolding contains perms
perms-clean entry = ground arith

abbrev entry_of : AclQualifierKind → Option Text → Permissions → AclEntry
entry_of kind name (r, w, x) = record { kind = kind; name = name; read = r; write = w; execute = x }

abbrev Reads : AclEntry → VfsResult Text → Type 0
Reads entry (ok spec) = (read_spec spec ≡ some (meant entry)) × (contains spec b',' ≡ false)
Reads entry (err e) = Unit

valid-clean :
    (name : Text) (c : ℕ)
    → is_qualifier_byte c ≡ false
    → valid_qualifier_name name ≡ true
    → contains name c ≡ false
unfolding valid_qualifier_name
valid-clean name c k good = qualifier-clean name c k (ground arith)

read-named :
    (tag : ℕ) (name : Text) (kind : AclQualifierKind) (entry : AclEntry)
    → tagged_kind tag name ≡ some (kind, some name)
    → contains name b':' ≡ false
    → read_spec (tag ∷ b':' ∷ (name ++ b':' ∷ perms entry))
      ≡ some (entry_of kind (some name) (entry.read, entry.write, entry.execute))
unfolding read_spec
read-named tag name kind entry f clean =
    rw (field-name name (perms entry) clean, f, perms-read entry) refl

clean-named :
    (tag : ℕ) (name : Text) (entry : AclEntry)
    → (tag == b',') ≡ false
    → contains name b',' ≡ false
    → contains (tag ∷ b':' ∷ (name ++ b':' ∷ perms entry)) b',' ≡ false
unfolding contains
clean-named tag name entry k clean =
    ground (arith, contains-append name (b':' ∷ perms entry) b',', perms-clean entry)

named-Reads :
    (tag : ℕ) (kind : AclQualifierKind) (o : Option Text) (p : Permissions)
    → (tag == b',') ≡ false
    → ((name : Text)
        → is_empty name ≡ false
        → (tagged_kind tag name ≡ some (kind, some name))
          × (meant (entry_of kind (some name) p) ≡ entry_of kind (some name) p))
    → Reads (entry_of kind o p) (named_spec tag o (perms (entry_of kind o p)))
named-Reads tag kind none p k f = unfold named_spec in tt
named-Reads tag kind (some name) p k f = elim (Bool-cases (valid_qualifier_name name)) [
  | inr bad ↦ unfold named_spec in rw bad tt
  | inl good ↦
      unfold named_spec in
      rw good (
        read-named tag name kind (entry_of kind (some name) p) (f name (filled good)).0
              (valid-clean name b':' refl good)
            ∙ ap some (sym (f name (filled good)).1),
        clean-named tag name (entry_of kind (some name) p) k (valid-clean name b',' refl good),
      )
]
  where
    filled : valid_qualifier_name name ≡ true → is_empty name ≡ false
    filled good = unfold valid_qualifier_name in ground arith

named-tag :
    (p : Permissions) (name : Text)
    → is_empty name ≡ false
    → ((tagged_kind b'u' name ≡ some (user, some name))
        × (meant (entry_of user (some name) p) ≡ entry_of user (some name) p))
      × ((tagged_kind b'g' name ≡ some (group, some name))
          × (meant (entry_of group (some name) p) ≡ entry_of group (some name) p))
unfolding tagged_kind meant
named-tag p [] h = cc
named-tag p (q ∷ qs) h = ((refl, refl), (refl, refl))

owner-Reads :
    (tag : ℕ) (kind : AclQualifierKind) (name : Option Text) (p : Permissions)
    → (tag == b',') ≡ false
    → tagged_kind tag [] ≡ some (kind, none)
    → meant (entry_of kind name p) ≡ entry_of kind none p
    → Reads (entry_of kind name p) (ok (tag ∷ b':' ∷ b':' ∷ perms (entry_of kind name p)))
unfolding read_spec contains
owner-Reads tag kind name p k f g = (
  rw (f, perms-read (entry_of kind name p)) (ap some (sym g)),
  ground (arith, perms-clean (entry_of kind name p)),
)

Reads-spec :
    (kind : AclQualifierKind) (name : Option Text) (p : Permissions)
    → Reads (entry_of kind name p) (spec_of kind name (perms (entry_of kind name p)))
unfolding spec_of tagged_kind meant
Reads-spec owning_user name p = owner-Reads b'u' owning_user name p refl refl refl
Reads-spec owning_group name p = owner-Reads b'g' owning_group name p refl refl refl
Reads-spec mask name p = owner-Reads b'm' mask name p refl refl refl
Reads-spec other name p = owner-Reads b'o' other name p refl refl refl
Reads-spec user name p = named-Reads b'u' user name p refl (λ n h. (named-tag p n h).0)
Reads-spec group name p = named-Reads b'g' group name p refl (λ n h. (named-tag p n h).1)

-- The entries of an argument.
abbrev pub read_specs : Text → List (Option AclEntry)
read_specs text = map read_spec ((split_commas text).0 ∷ (split_commas text).1)

split-cons :
    (s rest : Text)
    → contains s b',' ≡ false
    → split_commas (s ++ b',' ∷ rest) ≡ (s, (split_commas rest).0 ∷ (split_commas rest).1)
unfolding split_commas contains
split-cons [] rest h = refl
split-cons (c ∷ s) rest h = ground (arith, split-cons s rest (ground arith))

split-last : (s : Text) → contains s b',' ≡ false → split_commas s ≡ (s, [])
unfolding split_commas contains
split-last [] h = refl
split-last (c ∷ s) h = ground (arith, split-last s (ground arith))

-- The specifications of the entries, read back one by one.
abbrev AllRead : List AclEntry → VfsResult (List Text) → Type 0
AllRead entries (ok specs) =
    (is_empty specs ≡ is_empty entries)
    × (is_empty specs ≡ false → read_specs (join_specs specs) ≡ map (λ e. some (meant e)) entries)
AllRead entries (err e) = Unit

cons-AllRead :
    (entry : AclEntry) (entries : List AclEntry) (r : VfsResult Text) (rs : VfsResult (List Text))
    → Reads entry r
    → AllRead entries rs
    → AllRead (entry ∷ entries) (cons_spec r rs)
unfolding cons_spec join_specs
cons-AllRead entry entries (err e) rs h hs = tt
cons-AllRead entry entries (ok spec) (err e) h hs = tt
cons-AllRead entry (e ∷ es) (ok spec) (ok []) h hs = cc
cons-AllRead entry [] (ok spec) (ok []) h hs = (refl, λ filled. rw (split-last spec h.1, h.0) refl)
cons-AllRead entry entries (ok spec) (ok (next ∷ specs)) h hs = (
  refl,
  λ filled.
      rw (split-cons spec (join_specs (next ∷ specs)) h.1, h.0)
        (ap (◌∷◌ (some (meant entry))) (hs.1 refl)),
)

format_specs-AllRead : (entries : List AclEntry) → AllRead entries (format_specs entries)
unfolding format_specs format_entry_spec
format_specs-AllRead [] = (refl, λ filled. cc)
format_specs-AllRead (entry ∷ entries) =
    cons-AllRead entry entries _ (format_specs entries)
      (Reads-spec entry.kind entry.name (entry.read, entry.write, entry.execute))
      (format_specs-AllRead entries)

-- The argument for `setfacl` means exactly the entries that were asked for: cut at the commas and
-- colons, it gives them back in order, with their rights and their names, of which only a user and a
-- group entry have one. No name can add, drop or change an entry.
pub format_specs-reads :
    (entries : List AclEntry) (specs : List Text)
    → is_empty entries ≡ false
    → format_specs entries ≡ ok specs
    → read_specs (join_specs specs) ≡ map (λ e. some (meant e)) entries
format_specs-reads entries specs filled h =
    let all_read = subst (AllRead entries) h (format_specs-AllRead entries) in
    all_read.1 (all_read.0 ∙ filled)
