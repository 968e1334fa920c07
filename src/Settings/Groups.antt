-- ===== src/Settings/Groups.antt =====
-- The groups of devices of src/cnaas_nms/db/settings.py: `get_groups`, `get_groups_priorities`,
-- `get_groups_priorities_sorted`, `find_primary_group`, `parse_device_primary_groups` and
-- `check_group_priority_collisions`. The match of a regular expression is a parameter.
pub mod Primary
use cnaas_nms.Prelude.{
  ℕ, zero, suc, String, Bool, true, false, Option, none, some, List, [], ◌∷◌, ◌==◌, if◌then◌else◌,
  insert, mem, any, ltb,
}
use cnaas_nms.Prelude.Exec.{Result, ok, err, value_error}
use cnaas_nms.Schema.{Db, Device}

-- `group["group"]`
pub record Group : Type 0 where
  pub name : Option String
  pub regex : Option String
  pub group_priority : Option ℕ

abbrev fits_regex : (String → String → Bool) → Option String → Option String → Bool
fits_regex re_match none regex = true
fits_regex re_match (some hostname) none = false
fits_regex re_match (some hostname) (some regex) = re_match regex hostname

-- `get_groups(hostname)`
unfoldable pub get_groups :
    (re_match : String → String → Bool) → (hostname : Option String) → List Group → List String
get_groups re_match hostname [] = []
get_groups re_match hostname (g ∷ groups) =
    let rest = get_groups re_match hostname groups in
    elim g.name [
      | none ↦ rest
      | some name ↦ if fits_regex re_match hostname g.regex then name ∷ rest else rest
    ]

-- The priority of a group that counts: there, and not 0.
abbrev priority_of : Option ℕ → Option ℕ
priority_of none = none
priority_of (some zero) = none
priority_of (some (suc n)) = some (suc n)

abbrev put_priority : Bool → Option String → Option ℕ → List (String × ℕ) → List (String × ℕ)
put_priority true (some name) (some priority) d = insert name priority d
put_priority fits name priority d = d

-- `get_groups_priorities(hostname, settings)`, from the dict so far.
unfoldable pub get_groups_priorities :
    (re_match : String → String → Bool)
    → (hostname : Option String) → List Group
    → List (String × ℕ)
    → List (String × ℕ)
get_groups_priorities re_match hostname [] d = d
get_groups_priorities re_match hostname (g ∷ groups) d =
    get_groups_priorities re_match hostname groups
      (put_priority (fits_regex re_match hostname g.regex) g.name (priority_of g.group_priority) d)

-- A stable sort on the priority, highest first.
unfoldable pub insert_sorted : String × ℕ → List (String × ℕ) → List (String × ℕ)
insert_sorted e [] = e ∷ []
insert_sorted e (x ∷ xs) =
    let rest = insert_sorted e xs in if ltb e.1 x.1 then x ∷ rest else e ∷ x ∷ xs

unfoldable pub sort_priorities : List (String × ℕ) → List (String × ℕ)
sort_priorities [] = []
sort_priorities (e ∷ es) = insert_sorted e (sort_priorities es)

-- `get_groups_priorities_sorted(hostname, settings)`
unfoldable pub get_groups_priorities_sorted :
    (re_match : String → String → Bool)
    → (hostname : Option String) → List Group
    → List (String × ℕ)
get_groups_priorities_sorted re_match hostname groups =
    sort_priorities (get_groups_priorities re_match hostname groups [])

-- `find_primary_group(secondary_groups, groups_priorities_sorted)`
unfoldable pub find_primary_group : (secondary_groups : List String) → List (String × ℕ) → String
find_primary_group secondary_groups [] = "DEFAULT"
find_primary_group secondary_groups ((name, priority) ∷ es) =
    let rest = find_primary_group secondary_groups es in
    if mem name secondary_groups then name else rest

abbrev pub primary_group : (re_match : String → String → Bool) → List Group → String → String
primary_group re_match groups hostname =
    find_primary_group (get_groups re_match (some hostname) groups)
      (get_groups_priorities_sorted re_match none groups)

-- `parse_device_primary_groups()`
unfoldable pub parse_device_primary_groups :
    (re_match : String → String → Bool)
    → List Group
    → List Device
    → List (String × String)
    → List (String × String)
parse_device_primary_groups re_match groups [] d = d
parse_device_primary_groups re_match groups (dev ∷ devices) d =
    parse_device_primary_groups re_match groups devices
      (insert dev.hostname (primary_group re_match groups dev.hostname) d)

abbrev named_priority : Option String → Option ℕ → Option ℕ
named_priority none priority = none
named_priority (some name) priority = priority_of priority

-- `check_group_priority_collisions(settings)`, with the priorities so far.
unfoldable pub check_group_priority_collisions : List ℕ → List Group → Result (Unit {0})
check_group_priority_collisions priorities [] = ok tt
check_group_priority_collisions priorities (g ∷ groups) =
    let skip = check_group_priority_collisions priorities groups in
    elim (named_priority g.name g.group_priority) [
      | none ↦ skip
      | some p ↦
          let rest = check_group_priority_collisions (p ∷ priorities) groups in
          if any (λ q. q == p) priorities then err value_error else rest
    ]
