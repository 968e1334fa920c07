-- ===== src/Links/Iftype.antt =====
-- `verify_peer_iftype` of src/cnaas_nms/devicehandler/get.py and `expand_interface_settings` of
-- src/cnaas_nms/db/device_vars.py.
pub mod Accepted
use cnaas_nms.Prelude.{
  is_false, String, Bool, true, false, Option, none, some, List, [], ◌∷◌, ◌++◌, ◌&&◌, ◌||◌,
  if◌then◌else◌, any, first, str_eq, map,
}
use cnaas_nms.Prelude.Exec.{Result, ok, err, key_error, interface_error}
use cnaas_nms.Schema.{
  Db, Device, DeviceType, Interface, InterfaceConfigType, InterfaceData, type_eq, config_type_eq,
}
use cnaas_nms.Links.{LinkEnv, InterfaceSettings, is_fabric, is_interface, then_do}

abbrev renamed : InterfaceSettings → String → InterfaceSettings
renamed i name = record i { name = name }

-- `expand_interface_settings(interfaces)`
unfoldable pub expand_interface_settings :
    (String → List String) → List InterfaceSettings → List InterfaceSettings
expand_interface_settings expansion [] = []
expand_interface_settings expansion (i ∷ interfaces) =
    map (renamed i) (expansion i.name) ++ expand_interface_settings expansion interfaces

abbrev pub names_port : String → InterfaceSettings → Bool
names_port port i = str_eq i.name port

abbrev pub wrong_class : String → String → InterfaceSettings → Bool
wrong_class ifclass port i = names_port port i && is_false (str_eq i.ifclass ifclass)

-- The port of a DIST or CORE device must be in its settings.
abbrev pub check_configured : Bool → String → Option (List InterfaceSettings) → Result (Unit {0})
check_configured false port interfaces = ok tt
check_configured true port none = err key_error
check_configured true port (some interfaces) =
    if any (names_port port) interfaces then ok tt else err interface_error

-- All entries of the port must be of the class; `applies` is the condition around the loop.
abbrev pub check_class :
    Bool → String → String → Option (List InterfaceSettings) → Result (Unit {0})
check_class false ifclass port interfaces = ok tt
check_class true ifclass port none = err key_error
check_class true ifclass port (some interfaces) =
    if any (wrong_class ifclass port) interfaces then err interface_error else ok tt

-- The loop over the settings of the DIST device that an access device is connected to.
unfoldable pub downlink_loop : String → List InterfaceSettings → Result Bool
downlink_loop port [] = ok true
downlink_loop port (i ∷ interfaces) =
    let rest = downlink_loop port interfaces in
    if names_port port i
    then (if str_eq i.ifclass "downlink"
        then (if i.redundant_link then rest else ok false)
        else err interface_error)
    else rest

abbrev pub check_downlink : String → Option (List InterfaceSettings) → Result Bool
check_downlink port none = err key_error
check_downlink port (some interfaces) = downlink_loop port interfaces

abbrev pub is_downlink : InterfaceConfigType → Bool
is_downlink t =
    config_type_eq t InterfaceConfigType.mlag_peer
    || config_type_eq t InterfaceConfigType.access_downlink

-- `remote_intf.data and "redundant_link" in remote_intf.data and not remote_intf.data[...]`
abbrev pub not_redundant : Option InterfaceData → Bool
not_redundant none = false
not_redundant (some info) = elim info.redundant_link [ none ↦ false | some b ↦ is_false b ]

-- The interface row of the access device that an access device is connected to.
abbrev pub check_row : Option Interface → Result Bool
check_row none = err interface_error
check_row (some i) =
    if is_downlink i.configtype then ok (is_false (not_redundant i.info)) else err interface_error

-- The branches over the types of the two devices.
abbrev pub check_access :
    (local remote : DeviceType) (remote_if : String)
    → Option (List InterfaceSettings)
    → Option Interface
    → Result Bool
check_access DeviceType.access DeviceType.dist remote_if settings row =
    check_downlink remote_if settings
check_access DeviceType.access DeviceType.access remote_if settings row = check_row row
check_access _ _ remote_if settings row = ok true

abbrev pub expanded : LinkEnv → Option (List InterfaceSettings) → Option (List InterfaceSettings)
expanded env none = none
expanded env (some interfaces) =
    some (expand_interface_settings env.interface_range_expansion interfaces)

-- The checks over expanded settings, in the order of the source.
unfoldable pub verify_expanded :
    (local remote : DeviceType) (local_if remote_if : String)
    (local_interfaces remote_interfaces : Option (List InterfaceSettings))
    → Option Interface
    → Result Bool
verify_expanded local remote local_if remote_if local_interfaces remote_interfaces row =
    then_do (check_configured (is_fabric remote) remote_if remote_interfaces) (λ _.
      then_do (check_configured (is_fabric local) local_if local_interfaces) (λ _.
        then_do
          (check_class (is_fabric local && is_fabric remote) "fabric" local_if local_interfaces)
          (λ _.
            then_do
              (check_class (is_fabric local && is_fabric remote) "fabric" remote_if
                remote_interfaces)
              (λ _. check_access local remote remote_if remote_interfaces row))))

-- `verify_peer_iftype(session, local_dev, local_device_settings, local_if, remote_dev,
-- remote_device_settings, remote_if)`; of `local_dev` only the type is read.
unfoldable pub verify_peer_iftype :
    LinkEnv
    → Db
    → (local : DeviceType) → Option (List InterfaceSettings)
    → (local_if : String) → (remote : Device) → Option (List InterfaceSettings)
    → (remote_if : String) → Result Bool
verify_peer_iftype env db local local_settings local_if remote remote_settings remote_if =
    verify_expanded local remote.device_type local_if remote_if (expanded env local_settings)
      (expanded env remote_settings) (first (is_interface remote.id remote_if) db.interfaces)
