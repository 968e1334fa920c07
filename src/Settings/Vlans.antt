-- ===== src/Settings/Vlans.antt =====
-- `check_vlan_collisions`, `get_internal_vlan_range` and the management VLANs of
-- `check_settings_collisions` of src/cnaas_nms/db/settings.py. A dict with numbers as keys is a list
-- with the latest entry first: the code asks it for keys and values only.
pub mod Turns
pub mod Unique
use cnaas_nms.Prelude.{
  ℕ, String, Bool, true, false, Option, none, some, List, [], ◌∷◌, ◌&&◌, ◌||◌, ◌==◌, if◌then◌else◌,
  leb, mem, any, str_eq, select, is_false, map,
}
use cnaas_nms.Prelude.Exec.{Result, ok, err, vlan_conflict_error}
use cnaas_nms.Schema.{Db, Device, DeviceType, DeviceState, Mgmtdomain, type_eq, state_eq}

-- An entry of `vxlans`: a key that is absent, or whose value is of another type, is `none`.
pub record Vxlan : Type 0 where
  pub vni : Option ℕ
  pub vlan_id : Option ℕ
  pub vlan_name : Option String

pub record DeviceSettings : Type 0 where
  pub vxlans : Option (List (String × Vxlan))
  pub internal_vlans : Option (ℕ × ℕ)  -- `vlan_id_low` and `vlan_id_high`, where both are integers

-- `d.get(k)`, and `d[k] = v`
abbrev pub value_at : ℕ → List (ℕ × String) → Option String
value_at k [] = none
value_at k ((j, v) ∷ d) = let rest = value_at k d in if j == k then some v else rest

abbrev pub put_at : ℕ → String → List (ℕ × String) → List (ℕ × String)
put_at k v d = (k, v) ∷ d

-- `id in get_internal_vlan_range(settings)`
unfoldable pub in_internal_range : Option (ℕ × ℕ) → ℕ → Bool
in_internal_range none id = false
in_internal_range (some (low, high)) id = leb low id && leb id high

-- The dicts of the loop. The sets of a device are read in the device's own turn only.
pub record Used : Type 0 where
  pub global_vlans : List (ℕ × String)
  pub global_vnis : List (ℕ × String)
  pub vlan_ids : List ℕ
  pub vlan_names : List String

-- The key is there, with another value.
abbrev pub differs : Option String → String → Bool
differs none name = false
differs (some other) name = is_false (str_eq other name)

abbrev pub has_id : ℕ → List ℕ → Bool
has_id id = any (λ i. i == id)

-- The checks of a VLAN name: duplicates are refused on access switches only.
abbrev pub check_name : (access : Bool) → Option String → Used → Result Used
check_name access none used = ok used
check_name access (some vlan_name) used =
    if mem vlan_name used.vlan_names && access
    then err vlan_conflict_error
    else ok (record used { vlan_names = vlan_name ∷ used.vlan_names })

-- The checks of a VLAN id.
abbrev pub conflicts : (unique_vlans : Bool) → Option (ℕ × ℕ) → String → ℕ → Used → Bool
conflicts unique_vlans internal name id used =
    (unique_vlans && differs (value_at id used.global_vlans) name)
    || has_id id used.vlan_ids
    || in_internal_range internal id

abbrev pub check_id :
    (unique_vlans access : Bool)
    → Option (ℕ × ℕ)
    → String
    → Option ℕ
    → Option String
    → Used
    → Result Used
check_id unique_vlans access internal name none vlan_name used = ok used
check_id unique_vlans access internal name (some id) vlan_name used =
    if conflicts unique_vlans internal name id used
    then err vlan_conflict_error
    else check_name access vlan_name (record used {
      global_vlans = put_at id name used.global_vlans;
      vlan_ids = id ∷ used.vlan_ids;
    })

abbrev pub check_vni :
    (unique_vlans access : Bool) → Option (ℕ × ℕ) → String → Vxlan → Option ℕ → Used → Result Used
check_vni unique_vlans access internal name vxlan none used = ok used
check_vni unique_vlans access internal name vxlan (some vni) used =
    if differs (value_at vni used.global_vnis) name
    then err vlan_conflict_error
    else check_id unique_vlans access internal name vxlan.vlan_id vxlan.vlan_name
        (record used { global_vnis = put_at vni name used.global_vnis })

-- One turn of the inner loop.
unfoldable pub check_vxlan :
    (unique_vlans access : Bool) → Option (ℕ × ℕ) → String → Vxlan → Used → Result Used
check_vxlan unique_vlans access internal name vxlan used =
    check_vni unique_vlans access internal name vxlan vxlan.vni used

abbrev pub and_then : Result Used → (Used → Result Used) → Result Used
and_then (err e) f = err e
and_then (ok used) f = f used

unfoldable pub check_vxlans :
    (unique_vlans access : Bool) → Option (ℕ × ℕ) → List (String × Vxlan) → Used → Result Used
check_vxlans unique_vlans access internal [] used = ok used
check_vxlans unique_vlans access internal ((name, vxlan) ∷ vxlans) used =
    and_then (check_vxlan unique_vlans access internal name vxlan used)
      (check_vxlans unique_vlans access internal vxlans)

-- The entries of a device: none, where it has no key `vxlans`.
abbrev pub entries : DeviceSettings → List (String × Vxlan)
entries settings = elim settings.vxlans [ none ↦ [] | some vxlans ↦ vxlans ]

abbrev pub fresh : Used → Used
fresh used = record used { vlan_ids = []; vlan_names = [] }

-- The loop over the devices; `access_hostnames` are the names of the access devices.
unfoldable pub check_devices :
    (unique_vlans : Bool)
    → (access_hostnames : List String) → List (String × DeviceSettings)
    → Used
    → Result Used
check_devices unique_vlans access_hostnames [] used = ok used
check_devices unique_vlans access_hostnames ((hostname, settings) ∷ devices) used =
    and_then
      (check_vxlans unique_vlans (mem hostname access_hostnames) settings.internal_vlans
        (entries settings) (fresh used))
      (check_devices unique_vlans access_hostnames devices)

-- `dict.fromkeys(mgmt_vlans, "management")`
abbrev pub from_keys : List ℕ → List (ℕ × String)
from_keys = map (λ id. (id, "management"))

abbrev pub start : List ℕ → Used
start mgmt_vlans = record {
  global_vlans = from_keys mgmt_vlans;
  global_vnis = [];
  vlan_ids = [];
  vlan_names = [];
}

abbrev pub access_names : List Device → List String
access_names devices =
    map (λ d. d.hostname) (select (λ d. type_eq d.device_type DeviceType.access) devices)

abbrev pub done : Result Used → Result (Unit {0})
done (err e) = err e
done (ok used) = ok tt

-- `check_vlan_collisions(devices_dict, mgmt_vlans, unique_vlans)`
unfoldable pub check_vlan_collisions :
    (unique_vlans : Bool)
    → (mgmt_vlans : List ℕ) → List (String × DeviceSettings)
    → Db
    → Result (Unit {0})
check_vlan_collisions unique_vlans mgmt_vlans devices_dict db =
    done (check_devices unique_vlans (access_names db.devices) devices_dict (start mgmt_vlans))

-- The management VLANs: a VLAN of 0 does not count.
unfoldable pub mgmt_vlans_from : (unique_vlans : Bool) → List ℕ → List Mgmtdomain → Result (List ℕ)
mgmt_vlans_from unique_vlans vlans [] = ok vlans
mgmt_vlans_from unique_vlans vlans (dom ∷ doms) =
    let skip = mgmt_vlans_from unique_vlans vlans doms in
    let more = mgmt_vlans_from unique_vlans (dom.vlan ∷ vlans) doms in
    if dom.vlan == 0
    then skip
    else if unique_vlans && has_id dom.vlan vlans
    then err vlan_conflict_error
    else more
