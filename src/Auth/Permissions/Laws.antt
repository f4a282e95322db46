-- ===== src/Auth/Permissions/Laws.antt =====
-- What a grant and a revocation change.
use astra_store_xion.Base.{
  ◌≡◌, String, true, false, ◌&&◌, ◌||◌, some, List, [], ◌∷◌, ◌++◌, arith, str_eq, eq_iff,
  string_key, if◌then◌else◌,
}
use astra_store_xion.Base.Dict.{lookup, insert, lookup-insert, lookup-insert_self}
use astra_store_xion.Auth.Model.{Permission, admin_permission, User}
use astra_store_xion.Auth.Permissions.{
  Permissions, or_empty, allows, has_permission, granted, check_permission, set_granted,
  grant_permission, remove_first, revoke_permission,
}

granted-set_granted :
    (id resource i r : String) (ps : List Permission) (perms : Permissions)
    → granted (set_granted id resource ps perms) i r
      ≡ (if str_eq id i && str_eq resource r then ps else granted perms i r)
unfolding granted set_granted
granted-set_granted id resource i r ps perms = ground (
  arith,
  eq_iff id i,
  eq_iff resource r,
  lookup-insert id i (insert resource ps (or_empty (lookup id perms))) perms,
  lookup-insert resource r ps (or_empty (lookup id perms)),
)

allows-append :
    (p : Permission) (qs : List Permission) (q : Permission)
    → allows p (qs ++ q ∷ []) ≡ (allows p qs || (str_eq q p || str_eq q admin_permission))
unfolding allows
allows-append p [] q = ground arith
allows-append p (x ∷ xs) q = ground (arith, allows-append p xs q)

has_permission-allows :
    (q p : Permission) (ps : List Permission)
    → has_permission q ps ≡ true
    → (str_eq q p || str_eq q admin_permission) ≡ true
    → allows p ps ≡ true
unfolding has_permission allows
has_permission-allows q p [] h e = cc
has_permission-allows q p (x ∷ xs) h e = ground (arith, eq_iff x q, has_permission-allows q p xs)

-- A grant gives the user the permission on the resource, with all that an administrator's permission
-- implies, and changes no other answer of `CheckPermission`: not for other users, other resources or
-- other permissions.
pub grant_permission-check_permission :
    (perms : Permissions) (user other : User) (q p : Permission) (resource r : String)
    → check_permission (grant_permission perms user q resource) other p r ≡ (
        check_permission perms other p r
        || (str_eq user.id other.id
            && (str_eq resource r && (str_eq q p || str_eq q admin_permission))))
unfolding check_permission grant_permission
grant_permission-check_permission perms user other q p resource r =
    let ps = granted perms user.id resource in
    ground (
      arith,
      granted-set_granted user.id resource other.id r
          (if has_permission q ps then ps else ps ++ q ∷ []) perms,
      allows-append p ps q,
      has_permission-allows q p ps,
      eq_iff user.id other.id,
      eq_iff resource r,
    )

remove_first-append :
    (p : Permission) (ps : List Permission)
    → has_permission p ps ≡ false
    → remove_first p (ps ++ p ∷ []) ≡ ps
unfolding remove_first has_permission
remove_first-append p [] h = ground (arith, eq_iff p p)
remove_first-append p (x ∷ xs) h = ground (arith, remove_first-append p xs)

lookup-set_granted :
    (id resource : String) (ps : List Permission) (perms : Permissions)
    → lookup id (set_granted id resource ps perms)
      ≡ some (insert resource ps (or_empty (lookup id perms)))
unfolding set_granted
lookup-set_granted id resource ps perms =
    lookup-insert_self id (insert resource ps (or_empty (lookup id perms))) perms

revoke_permission-set_granted :
    (perms : Permissions) (user : User) (q : Permission) (resource : String) (ps : List Permission)
    → revoke_permission (set_granted user.id resource ps perms) user q resource
      ≡ set_granted user.id resource (remove_first q ps) (set_granted user.id resource ps perms)
unfolding revoke_permission
revoke_permission-set_granted perms user q resource ps = simp (
  lookup-set_granted user.id resource ps perms,
  lookup-insert_self resource ps (or_empty (lookup user.id perms)),
)

-- Revoking what was just granted brings every answer of `CheckPermission` back to what it was, for
-- all users, resources and permissions, as long as the user did not hold the permission already.
pub revoke_permission-grant_permission :
    (perms : Permissions) (user other : User) (q p : Permission) (resource r : String)
    → has_permission q (granted perms user.id resource) ≡ false
    → check_permission
        (revoke_permission (grant_permission perms user q resource) user q resource)
        other
        p
        r
      ≡ check_permission perms other p r
unfolding check_permission grant_permission
revoke_permission-grant_permission perms user other q p resource r fresh =
    let ps = granted perms user.id resource in
    let more = set_granted user.id resource (ps ++ q ∷ []) perms in
    rw
      (
        fresh,
        revoke_permission-set_granted perms user q resource (ps ++ q ∷ []),
        remove_first-append q ps fresh,
      )
      (ground (
        arith,
        granted-set_granted user.id resource other.id r ps more,
        granted-set_granted user.id resource other.id r (ps ++ q ∷ []) perms,
        eq_iff user.id other.id,
        eq_iff resource r,
      ))
