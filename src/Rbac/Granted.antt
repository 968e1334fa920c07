-- ===== src/Rbac/Granted.antt =====
-- Who is permitted what.
use cnaas_nms.Prelude.{
  ◌≡◌, refl, String, Bool, true, Option, none, some, List, [], ◌∷◌, ◌++◌, ◌||◌, ◌&&◌, if◌then◌else◌,
  mem, any, lookup, str_eq, is_some, arith,
}
use cnaas_nms.Prelude.Exec.{ok}
use cnaas_nms.Rbac.{
  PermissionModel, PermissionsModel, Claim, check_if_default_permissions_role_exist,
  get_permissions_user, default_role, role_permissions, user_roles, holds, group_roles,
  check_if_api_call_is_permitted, fits, in_opt,
}

abbrev pub is_listed : PermissionModel → Bool
is_listed permission = is_some permission.methods && is_some permission.endpoints

abbrev pub all_listed : List PermissionModel → Bool
all_listed [] = true
all_listed (p ∷ ps) = is_listed p && all_listed ps

abbrev or_nil : Option (List String) → List String
or_nil none = []
or_nil (some ss) = ss

-- The permission covers the method and the uri.
abbrev pub grants :
    (fnmatch : String → String → Bool) (method short_uri : String) → PermissionModel → Bool
grants fnmatch method short_uri permission =
    (in_opt "*" permission.methods || in_opt method permission.methods)
    && fits fnmatch short_uri (or_nil permission.endpoints)

-- Where no permission has a null list, the check never raises, and it permits a call exactly where
-- one permission covers both its method and its uri.
pub check_if_api_call_is_permitted-any :
    (fnmatch : String → String → Bool) (method short_uri : String)
    (permissions : List PermissionModel)
    → all_listed permissions ≡ true
    → check_if_api_call_is_permitted fnmatch method short_uri permissions
      ≡ ok (any (grants fnmatch method short_uri) permissions)
unfolding check_if_api_call_is_permitted
check_if_api_call_is_permitted-any fnmatch method short_uri [] h = refl
check_if_api_call_is_permitted-any fnmatch method short_uri (p ∷ permissions) h =
    ground (arith, check_if_api_call_is_permitted-any fnmatch method short_uri permissions)

module _ {A : Type 0} (p : A → Bool) where
  any-append : (xs ys : List A) → any p (xs ++ ys) ≡ (any p xs || any p ys)
  any-append [] ys = refl
  any-append (x ∷ xs) ys = ground (arith, any-append xs ys)

mem-append : (s : String) (xs ys : List String) → mem s (xs ++ ys) ≡ (mem s xs || mem s ys)
mem-append s [] ys = refl
mem-append s (x ∷ xs) ys = ground (arith, mem-append s xs ys)

-- The mappings give the user the role: some group that the user is in lists it.
abbrev pub in_groups : Option Claim → String → List (String × List String) → Bool
in_groups claim role = any (λ g. holds g.0 claim && mem role g.1)

abbrev pub has_role :
    List (String × Claim) → String → List (String × List (String × List String)) → Bool
has_role user_info role = any (λ m. in_groups (lookup m.0 user_info) role m.1)

mem-group_roles :
    (claim : Option Claim) (role : String) (groups : List (String × List String))
    → mem role (group_roles claim groups) ≡ in_groups claim role groups
mem-group_roles claim role [] = refl
mem-group_roles claim role ((value, names) ∷ groups) =
    ground
      (arith, mem-group_roles claim role groups, mem-append role names (group_roles claim groups))

mem-user_roles :
    (user_info : List (String × Claim)) (role : String)
    (mappings : List (String × List (String × List String)))
    → mem role (user_roles mappings user_info) ≡ has_role user_info role mappings
mem-user_roles user_info role [] = refl
mem-user_roles user_info role ((map_type, groups) ∷ mappings) = ground (
  arith,
  mem-user_roles user_info role mappings,
  mem-group_roles (lookup map_type user_info) role groups,
  mem-append role (group_roles (lookup map_type user_info) groups) (user_roles mappings user_info),
)

any-role_permissions :
    (p : PermissionModel → Bool) (rules : List (String × List (String × List String)))
    (user_info : List (String × Claim)) (roles : List (String × List PermissionModel))
    → any p (role_permissions (user_roles rules user_info) roles)
      ≡ any (λ r. has_role user_info r.0 rules && any p r.1) roles
any-role_permissions p rules user_info [] = refl
any-role_permissions p rules user_info ((role, permissions) ∷ roles) = ground (
  arith,
  any-role_permissions p rules user_info roles,
  mem-user_roles user_info role rules,
  any-append p permissions (role_permissions (user_roles rules user_info) roles),
)

-- The permissions of the role that everybody has.
abbrev pub default_permissions : PermissionsModel → List PermissionModel
default_permissions rules = elim rules.default_permissions [
  | none ↦ []
  | some role ↦
      if str_eq role "" then [] else (elim (lookup role rules.roles) [ none ↦ [] | some ps ↦ ps ])
]

default_role_ok :
    (rules : PermissionsModel)
    → check_if_default_permissions_role_exist rules ≡ ok tt
    → default_role rules ≡ ok (default_permissions rules)
unfolding check_if_default_permissions_role_exist default_role
default_role_ok rules h = ground arith

-- For rules that pass the validator of the default role, collecting a user's permissions never
-- raises, and a permission of some kind is among them exactly where the default role has one or some
-- role that the mappings give the user has one.
pub get_permissions_user-any :
    (p : PermissionModel → Bool) (rules : PermissionsModel) (user_info : List (String × Claim))
    → check_if_default_permissions_role_exist rules ≡ ok tt
    → (permissions : List PermissionModel) × (get_permissions_user (some rules) user_info
        ≡ ok permissions)
      × (any p permissions ≡ (
          any p (default_permissions rules)
          || any (λ r. has_role user_info r.0 rules.group_mappings && any p r.1) rules.roles))
unfolding get_permissions_user
get_permissions_user-any p rules user_info valid =
    let mine = role_permissions (user_roles rules.group_mappings user_info) rules.roles in
    (
      default_permissions rules ++ mine,
      rw (default_role_ok rules valid) refl,
      rw
          (
            any-append p (default_permissions rules) mine,
            any-role_permissions p rules.group_mappings user_info rules.roles,
          )
          refl,
    )
