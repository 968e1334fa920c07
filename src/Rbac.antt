-- ===== src/Rbac.antt =====
-- Permissions: src/cnaas_nms/tools/rbac/rbac.py and the validators of
-- src/cnaas_nms/models/permissions.py. Glob patterns are matched by Python's `fnmatch`, an argument
-- of the check.
pub mod Granted
use cnaas_nms.Prelude.{
  ℕ, String, Bool, true, false, Option, none, some, List, [], ◌∷◌, ◌++◌, ◌||◌, ◌&&◌, if◌then◌else◌,
  mem, any, lookup, str_eq, is_some,
}
use cnaas_nms.Prelude.Exec.{Error, Result, ok, err, value_error, type_error, attribute_error}

-- A list that a rule file may set to null.
pub record PermissionModel : Type 0 where
  pub methods : Option (List String)
  pub endpoints : Option (List String)

pub record PermissionsModel : Type 0 where
  pub default_permissions : Option String  -- `config.default_permissions`
  pub group_mappings : List (String × List (String × List String))
  pub roles : List (String × List PermissionModel)

-- A claim of the user: one text or a list of texts.
pub data Claim : Type 0 where
  text : String → Claim
  texts : List String → Claim

abbrev nonempty : String → Bool
nonempty s = if str_eq s "" then false else true

abbrev is_role : PermissionsModel → String → Bool
is_role rules role = is_some (lookup role rules.roles)

abbrev all_in : (String → Bool) → List String → Bool
all_in p [] = true
all_in p (s ∷ ss) = p s && all_in p ss

abbrev all_groups : (String → Bool) → List (String × List String) → Bool
all_groups p [] = true
all_groups p ((group, names) ∷ groups) = all_in p names && all_groups p groups

abbrev all_mappings : (String → Bool) → List (String × List (String × List String)) → Bool
all_mappings p [] = true
all_mappings p ((map_type, groups) ∷ mappings) = all_groups p groups && all_mappings p mappings

-- `check_if_default_permissions_role_exist`
unfoldable pub check_if_default_permissions_role_exist : PermissionsModel → Result (Unit {0})
check_if_default_permissions_role_exist rules = elim rules.default_permissions [
  | none ↦ ok tt
  | some role ↦
      if nonempty role then (if is_role rules role then ok tt else err value_error) else ok tt
]

-- `check_if_roles_in_mappings_exist`
unfoldable pub check_if_roles_in_mappings_exist : PermissionsModel → Result (Unit {0})
check_if_roles_in_mappings_exist rules =
    if all_mappings (is_role rules) rules.group_mappings then ok tt else err value_error

-- `value in user_info[map_type]` for a list, `value == user_info[map_type]` for a text
abbrev pub holds : String → Option Claim → Bool
holds value none = false
holds value (some (text s)) = str_eq value s
holds value (some (texts ss)) = mem value ss

abbrev pub group_roles : Option Claim → List (String × List String) → List String
group_roles claim [] = []
group_roles claim ((value, names) ∷ groups) =
    let rest = group_roles claim groups in if holds value claim then names ++ rest else rest

-- The roles that the group mappings give.
abbrev pub user_roles :
    List (String × List (String × List String)) → List (String × Claim) → List String
user_roles [] user_info = []
user_roles ((map_type, groups) ∷ mappings) user_info =
    group_roles (lookup map_type user_info) groups ++ user_roles mappings user_info

-- The permissions of the roles that the user has, in the order of the rules: the source takes the
-- order of a set.
abbrev pub role_permissions :
    List String → List (String × List PermissionModel) → List PermissionModel
role_permissions names [] = []
role_permissions names ((role, permissions) ∷ roles) =
    let rest = role_permissions names roles in if mem role names then permissions ++ rest else rest

-- `permissions_rules.roles.get(default).permissions`
unfoldable pub default_role : PermissionsModel → Result (List PermissionModel)
default_role rules = elim rules.default_permissions [
  | none ↦ ok []
  | some role ↦
      if nonempty role
      then (elim (lookup role rules.roles) [ none ↦ err attribute_error | some ps ↦ ok ps ])
      else ok []
]

abbrev extend : Result (List PermissionModel) → List PermissionModel → Result (List PermissionModel)
extend (err e) more = err e
extend (ok permissions) more = ok (permissions ++ more)

-- `get_permissions_user(permissions_rules, user_info)`
unfoldable pub get_permissions_user :
    Option PermissionsModel → List (String × Claim) → Result (List PermissionModel)
get_permissions_user none user_info = ok []
get_permissions_user (some rules) user_info =
    extend (default_role rules)
      (role_permissions (user_roles rules.group_mappings user_info) rules.roles)

abbrev pub in_opt : String → Option (List String) → Bool
in_opt s none = false
in_opt s (some ss) = mem s ss

-- One endpoint pattern or literal of the permission fits the uri.
abbrev pub fits : (fnmatch : String → String → Bool) → String → List String → Bool
fits fnmatch uri endpoints =
    mem "*" endpoints || mem uri endpoints || any (λ pattern. fnmatch uri pattern) endpoints

-- `check_if_api_call_is_permitted(request, permissions_of_user)`, with the method and the short uri
-- of the request. A null list is not a container: `in` raises.
unfoldable pub check_if_api_call_is_permitted :
    (fnmatch : String → String → Bool) (method short_uri : String)
    → List PermissionModel
    → Result Bool
check_if_api_call_is_permitted fnmatch method short_uri [] = ok false
check_if_api_call_is_permitted fnmatch method short_uri (permission ∷ permissions) =
    let rest = check_if_api_call_is_permitted fnmatch method short_uri permissions in
    elim permission.methods [
      | none ↦ err type_error
      | some methods ↦
          if mem "*" methods || mem method methods
          then elim permission.endpoints [
            | none ↦ err type_error
            | some endpoints ↦ if fits fnmatch short_uri endpoints then ok true else rest
          ]
          else rest
    ]
