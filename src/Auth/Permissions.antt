-- ===== src/Auth/Permissions.antt =====
-- The authorizer of pkg/auth/auth.go: `CheckPermission`, `GetPermissions`, `GrantPermission` and
-- `RevokePermission`.
pub mod Laws
use astra_store_xion.Base.{
  String, Bool, true, false, ◌&&◌, ◌||◌, Option, none, some, List, [], ◌∷◌, ◌++◌, str_eq,
  string_key, if◌then◌else◌,
}
use astra_store_xion.Base.Dict.{Dict, lookup, insert}
use astra_store_xion.Auth.Model.{
  Role, admin_role, operator_role, user_role, guest_role, Permission, read_permission,
  write_permission, admin_permission, User,
}

-- By user and by resource.
abbrev pub Permissions : Type 0
Permissions = Dict String (Dict String (List Permission))

abbrev pub or_empty {ℓ} : {A : Type ℓ} → Option (List A) → List A
or_empty none = []
or_empty (some xs) = xs

-- The loop that looks for the permission or for that of an administrator.
unfoldable pub allows : Permission → List Permission → Bool
allows p [] = false
allows p (q ∷ qs) = let rest = allows p qs in str_eq q p || str_eq q admin_permission || rest

unfoldable pub has_permission : Permission → List Permission → Bool
has_permission p [] = false
has_permission p (q ∷ qs) = let rest = has_permission p qs in str_eq q p || rest

-- What the user was granted on the resource.
unfoldable pub granted : Permissions → String → String → List Permission
granted perms id resource = or_empty (lookup resource (or_empty (lookup id perms)))

unfoldable pub default_permission : Role → Permission → String → Bool
default_permission role p resource =
    if str_eq role operator_role
    then str_eq p read_permission || str_eq p write_permission
    else if str_eq role user_role
    then str_eq p read_permission
    else if str_eq role guest_role
    then str_eq p read_permission && (str_eq resource "public" || str_eq resource "docs")
    else false

unfoldable pub check_permission : Permissions → User → Permission → String → Bool
check_permission perms user p resource =
    if str_eq user.role admin_role
    then true
    else if allows p (granted perms user.id resource)
    then true
    else default_permission user.role p resource

unfoldable pub get_permissions : Permissions → User → Dict String (List Permission)
get_permissions perms user = or_empty (lookup user.id perms)

unfoldable pub set_granted : String → String → List Permission → Permissions → Permissions
set_granted id resource ps perms = insert id (insert resource ps (or_empty (lookup id perms))) perms

-- The user's map and the resource's list are made where they are missing.
unfoldable pub grant_permission : Permissions → User → Permission → String → Permissions
grant_permission perms user p resource =
    let ps = granted perms user.id resource in
    set_granted user.id resource (if has_permission p ps then ps else ps ++ p ∷ []) perms

unfoldable pub remove_first : Permission → List Permission → List Permission
remove_first p [] = []
remove_first p (q ∷ qs) = let rest = remove_first p qs in if str_eq q p then qs else q ∷ rest

abbrev pub revoke_from :
    Option (List Permission) → String → String → Permission → Permissions → Permissions
revoke_from none id resource p perms = perms
revoke_from (some ps) id resource p perms = set_granted id resource (remove_first p ps) perms

abbrev pub revoke_among :
    Option (Dict String (List Permission))
    → String
    → String
    → Permission
    → Permissions
    → Permissions
revoke_among none id resource p perms = perms
revoke_among (some m) id resource p perms = revoke_from (lookup resource m) id resource p perms

unfoldable pub revoke_permission : Permissions → User → Permission → String → Permissions
revoke_permission perms user p resource =
    revoke_among (lookup user.id perms) user.id resource p perms
