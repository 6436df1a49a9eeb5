-- ===== src/Auth/Capability/Decides.antt =====
-- Which row decides on a capability.
use cloud_desk_os.Prelude.{
  ◌≡◌, refl, ap, ◌∙◌, Bool, true, false, not, ◌&&◌, ◌||◌, String, str_eq, eq_iff, List, [], ◌∷◌,
  if◌then◌else◌, arith, Bool-cases, inl, inr,
}
use cloud_desk_os.Prelude.Table.{select_where}
use cloud_desk_os.Auth.Model.{Grant, Database}
use cloud_desk_os.Auth.Capability.{contains, insert, remove, apply_grants, capabilities_for_user}

contains-remove :
    (name other : String) (ns : List String)
    → contains name (remove other ns) ≡ (not (str_eq other name) && contains name ns)
unfolding contains remove
contains-remove name other [] = ground arith
contains-remove name other (n ∷ ns) =
    ground (arith, contains-remove name other ns, eq_iff n other, eq_iff other name, eq_iff n name)

contains-insert :
    (name other : String) (ns : List String)
    → contains name (insert other ns) ≡ (str_eq other name || contains name ns)
unfolding contains
contains-insert name other ns = elim (Bool-cases (contains other ns)) [
  | inr e ↦ rw e
  | inl e ↦ rw e (elim (Bool-cases (str_eq other name)) [
    | inr f ↦ rw f
    | inl f ↦ rw (f, ← (eq_iff other name).0 f, e)
  ])
]

-- The last row of a user and a permission, of rows in the order of the query, decides whether it
-- is granted; without one the start does.
abbrev pub decided : String → String → List Grant → Bool → Bool
decided user_id name [] start = start
decided user_id name (g ∷ gs) start = decided user_id name gs (
    if str_eq g.user_id user_id && str_eq g.permission_name name
    then not (str_eq g.effect "deny")
    else start)

denies : (b c : Bool) → (not b && c) ≡ (if b then false else c)
denies b c = ground arith

allows : (b c : Bool) → (b || c) ≡ (if b then true else c)
allows b c = ground arith

apply_grants-decided :
    (user_id name : String) (gs : List Grant) (ns : List String)
    → contains name (apply_grants (select_where (λ g. str_eq g.user_id user_id) gs) ns)
      ≡ decided user_id name gs (contains name ns)
unfolding apply_grants select_where
apply_grants-decided user_id name [] ns = refl
apply_grants-decided user_id name (g ∷ gs) ns = elim (Bool-cases (str_eq g.user_id user_id)) [
  | inr e ↦ rw e (apply_grants-decided user_id name gs ns)
  | inl e ↦ elim (Bool-cases (str_eq g.effect "deny")) [
    | inl f ↦
        rw (e, apply_grants, f)
          (apply_grants-decided user_id name gs (remove g.permission_name ns)
            ∙ ap (decided user_id name gs) (
                contains-remove name g.permission_name ns
                ∙ denies (str_eq g.permission_name name) _))
    | inr f ↦
        rw (e, apply_grants, f)
          (apply_grants-decided user_id name gs (insert g.permission_name ns)
            ∙ ap (decided user_id name gs) (
                contains-insert name g.permission_name ns
                ∙ allows (str_eq g.permission_name name) _))
  ]
]

-- A user has a capability exactly if the last row for it, in the order of the query, does not deny:
-- a denial wins over the grants of roles as far as it comes after them.
pub capabilities_for_user-decided :
    (user_id name : String) (db : Database)
    → contains name (capabilities_for_user user_id db) ≡ decided user_id name db.grants false
unfolding capabilities_for_user contains
capabilities_for_user-decided user_id name db = apply_grants-decided user_id name db.grants []
