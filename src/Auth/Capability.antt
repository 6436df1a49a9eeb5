-- ===== src/Auth/Capability.antt =====
-- Roles and capabilities of a user, and the check that an actor must pass.
pub mod Decides
use cloud_desk_os.Prelude.{
  ℕ, Bool, true, false, not, ◌&&◌, ◌||◌, String, str_eq, Option, none, some, List, [], ◌∷◌, ltb,
  if◌then◌else◌, Result, ok, err, map, any,
}
use cloud_desk_os.Prelude.Table.{select_where}
use cloud_desk_os.Auth.Model.{
  Grant, UserRole, Database, SessionPrincipal, AuthResult, permission_denied, step_up_required,
}

-- `HashSet::contains`, `insert` and `remove`, on the list of the members.
unfoldable pub contains : String → List String → Bool
contains name [] = false
contains name (n ∷ ns) = str_eq n name || contains name ns

abbrev pub insert : String → List String → List String
insert name ns = if contains name ns then ns else name ∷ ns

unfoldable pub remove : String → List String → List String
remove name [] = []
remove name (n ∷ ns) = let rest = remove name ns in if str_eq n name then rest else n ∷ rest

-- The loop over the rows.
unfoldable pub apply_grants : List Grant → List String → List String
apply_grants [] capabilities = capabilities
apply_grants (g ∷ gs) capabilities = apply_grants gs (
    if str_eq g.effect "deny"
    then remove g.permission_name capabilities
    else insert g.permission_name capabilities)

unfoldable pub capabilities_for_user : String → Database → List String
capabilities_for_user user_id db =
    apply_grants (select_where (λ g. str_eq g.user_id user_id) db.grants) []

unfoldable pub roles_for_user : String → Database → List String
roles_for_user user_id db =
    map (λ r. r.role) (select_where (λ r. str_eq r.user_id user_id) db.user_roles)

unfoldable pub can : String → SessionPrincipal → Bool
can capability principal = contains capability principal.capabilities

unfoldable pub has_fresh_step_up : ℕ → SessionPrincipal → Bool
has_fresh_step_up t principal = elim principal.step_up_expires_at [
  | none ↦ false
  | some expires_at ↦ ltb t expires_at
]

unfoldable pub require_actor : ℕ → SessionPrincipal → String → Bool → AuthResult (Unit {0})
require_actor t actor capability require_step_up =
    if not (can capability actor)
    then err permission_denied
    else if require_step_up && not (has_fresh_step_up t actor)
    then err step_up_required
    else ok tt
