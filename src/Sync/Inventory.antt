-- ===== src/Sync/Inventory.antt =====
-- The inventory of devicehandler/nornir_plugins/cnaas_inventory.py (names, marks and groups of the
-- hosts), `inventory_selector` of devicehandler/nornir_helper.py and `select_devices` of
-- devicehandler/sync_devices.py. Group membership comes from the settings repository.
pub mod Chosen
use cnaas_nms.Prelude.{
  is_false, ℕ, String, Bool, true, false, Option, none, some, List, [], ◌∷◌, ◌||◌, if◌then◌else◌,
  select, mem, str_eq, map, length, append,
}
use cnaas_nms.Schema.{Device, DeviceType, DeviceState, state_eq}

pub record Host : Type 0 where
  pub name : String
  pub synchronized : Bool
  pub managed : Bool
  pub groups : List String

abbrev type_group : DeviceType → String
type_group DeviceType.unknown = "T_UNKNOWN"
type_group DeviceType.access = "T_ACCESS"
type_group DeviceType.dist = "T_DIST"
type_group DeviceType.core = "T_CORE"

abbrev state_group : DeviceState → String
state_group DeviceState.unknown = "S_UNKNOWN"
state_group DeviceState.pre_configured = "S_PRE_CONFIGURED"
state_group DeviceState.dhcp_boot = "S_DHCP_BOOT"
state_group DeviceState.discovered = "S_DISCOVERED"
state_group DeviceState.init = "S_INIT"
state_group DeviceState.managed = "S_MANAGED"
state_group DeviceState.managed_noif = "S_MANAGED_NOIF"
state_group DeviceState.unmanaged = "S_UNMANAGED"

-- The hosts of `CnaasInventory.load`.
unfoldable pub load : (String → List String) → List Device → List Host
load get_groups [] = []
load get_groups (dev ∷ devices) =
    record {
      name = dev.hostname;
      synchronized = dev.synchronized;
      managed = state_eq dev.state DeviceState.managed;
      groups = type_group dev.device_type ∷ state_group dev.state ∷ get_groups dev.hostname;
    }
    ∷ load get_groups devices

-- The `hostname` argument: absent or empty, one name, or a list of names.
pub data HostArg : Type 0 where
  nobody : HostArg
  one : String → HostArg
  several : List String → HostArg

-- `if hostname:`
abbrev pub given : HostArg → Bool
given nobody = false
given (one s) = if str_eq s "" then false else true
given (several []) = false
given (several (s ∷ ss)) = true

abbrev named : HostArg → Host → Bool
named nobody h = false
named (one s) h = str_eq h.name s
named (several ss) h = mem h.name ss

abbrev pub text_given : Option String → Bool
text_given none = false
text_given (some s) = if str_eq s "" then false else true

abbrev pub or_empty : Option String → String
or_empty none = ""
or_empty (some s) = s

-- The filter before the mark `managed` is looked at.
abbrev pub chosen : HostArg → (device_type group : Option String) → Host → Bool
chosen hostname device_type group h =
    if given hostname
    then named hostname h
    else if text_given device_type
    then mem (append "T_" (or_empty device_type)) h.groups
    else if text_given group
    then mem (or_empty group) h.groups
    else true

pub record Selection : Type 0 where
  pub hosts : List Host
  pub count : ℕ
  pub skipped : List String

abbrev pub names : List Host → List String
names = map (λ h. h.name)

-- `inventory_selector(nr, resync, hostname, device_type, group)`
unfoldable pub inventory_selector :
    List Host → Bool → HostArg → (device_type group : Option String) → Selection
inventory_selector nr resync hostname device_type group =
    let filtered = select (λ h. h.managed) (select (chosen hostname device_type group) nr) in
    if resync || given hostname
    then record { hosts = filtered; count = length filtered; skipped = [] }
    else let post = select (λ h. is_false h.synchronized) filtered in
      record {
        hosts = post;
        count = length post;
        skipped = select (λ x. is_false (mem x (names post))) (names filtered);
      }

-- `select_devices(nr, hostnames, device_type, group, resync)`
unfoldable pub select_devices :
    List Host → List String → (device_type group : Option String) → Bool → Selection
unfolding inventory_selector
select_devices nr hostnames device_type group resync =
    if given (several hostnames)
    then inventory_selector nr true (several hostnames) none none
    else if text_given device_type
    then inventory_selector nr resync nobody device_type none
    else if text_given group
    then inventory_selector nr resync nobody none group
    else inventory_selector nr resync nobody none none
