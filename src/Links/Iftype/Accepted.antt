-- ===== src/Links/Iftype/Accepted.antt =====
-- The links that `verify_peer_iftype` lets through.
use cnaas_nms.Prelude.{
  ◌≡◌, ◌∙◌, sym, ◌⊎◌, ◌↔◌, inl, inr, All, is_false, str_eq, eq_iff, refl, String, Bool, true, false,
  Option, none, some, List, [], ◌∷◌, ◌&&◌, any, first, arith,
}
use cnaas_nms.Prelude.Exec.{ok}
use cnaas_nms.Schema.{Db, Device, DeviceType, Interface, InterfaceConfigType, InterfaceData}
use cnaas_nms.Links.{LinkEnv, InterfaceSettings, is_fabric, is_interface, then_do-returned}
use cnaas_nms.Links.Iftype.{
  verify_peer_iftype, verify_expanded, expanded, check_configured, check_class, check_access,
  downlink_loop, wrong_class, is_downlink, not_redundant,
}

-- The settings name the port.
abbrev pub Configured : String → Option (List InterfaceSettings) → Type 0
Configured port settings =
    (interfaces : List InterfaceSettings) × (settings ≡ some interfaces)
    × (any (λ i. str_eq i.name port) interfaces ≡ true)

-- Every entry of the port is of the class.
abbrev pub HasClass : String → String → Option (List InterfaceSettings) → Type 0
HasClass ifclass port settings =
    (interfaces : List InterfaceSettings) × (settings ≡ some interfaces)
    × All (λ i. str_eq i.name port ≡ true → i.ifclass ≡ ifclass) interfaces

-- The first entry of the port that is not redundant is of class `downlink`, and so are those before it.
abbrev pub FirstSingle : String → List InterfaceSettings → Type 0
FirstSingle port [] = ⊥
FirstSingle port (i ∷ interfaces) =
    (i.name ≡ port) × (i.ifclass ≡ "downlink") × (i.redundant_link ≡ false)
    ⊎ (str_eq i.name port ≡ true → (i.ifclass ≡ "downlink") × (i.redundant_link ≡ true))
      × FirstSingle port interfaces

abbrev pub IsSingleDownlink : String → Option (List InterfaceSettings) → Type 0
IsSingleDownlink port settings =
    (interfaces : List InterfaceSettings) × (settings ≡ some interfaces)
    × FirstSingle port interfaces

-- The row says that the link needs no redundancy.
abbrev pub Single : Interface → Type 0
Single i = (info : InterfaceData) × (i.info ≡ some info) × (info.redundant_link ≡ some false)

abbrev pub IsDownlinkRow : Bool → Option Interface → Type 0
IsDownlinkRow redundant row =
    (i : Interface) × (row ≡ some i)
    × ((i.configtype ≡ InterfaceConfigType.mlag_peer)
        ⊎ (i.configtype ≡ InterfaceConfigType.access_downlink))
    × ((redundant ≡ false) ↔ Single i)

-- What holds of a link that was let through with the answer `redundant`.
abbrev pub Accepted :
    (local remote : DeviceType) (local_if remote_if : String)
    (local_interfaces remote_interfaces : Option (List InterfaceSettings))
    → Option Interface
    → Bool
    → Type 0
Accepted local remote local_if remote_if local_interfaces remote_interfaces row redundant =
    (is_fabric remote ≡ true → Configured remote_if remote_interfaces)
    × (is_fabric local ≡ true → Configured local_if local_interfaces)
    × ((is_fabric local && is_fabric remote) ≡ true
        → HasClass "fabric" local_if local_interfaces
          × HasClass "fabric" remote_if remote_interfaces)
    × (local ≡ DeviceType.access
        → remote ≡ DeviceType.dist
        → redundant ≡ true
        → HasClass "downlink" remote_if remote_interfaces)
    × (local ≡ DeviceType.access
        → remote ≡ DeviceType.dist
        → redundant ≡ false
        → IsSingleDownlink remote_if remote_interfaces)
    × (local ≡ DeviceType.access → remote ≡ DeviceType.access → IsDownlinkRow redundant row)

check_configured_lem :
    (b : Bool) (port : String) (settings : Option (List InterfaceSettings)) (u : Unit {0})
    → check_configured b port settings ≡ ok u
    → b ≡ true
    → Configured port settings
check_configured_lem false port settings u h e = cc
check_configured_lem true port none u h e = cc
check_configured_lem true port (some interfaces) u h e = (interfaces, refl, ground arith)

no_wrong_class :
    (ifclass port : String) (interfaces : List InterfaceSettings)
    → any (wrong_class ifclass port) interfaces ≡ false
    → All (λ i. str_eq i.name port ≡ true → i.ifclass ≡ ifclass) interfaces
no_wrong_class ifclass port [] h = tt
no_wrong_class ifclass port (i ∷ interfaces) h = (
  λ e. ground (arith, h, e, eq_iff i.ifclass ifclass),
  no_wrong_class ifclass port interfaces (ground (arith, h)),
)

check_class_lem :
    (b : Bool) (ifclass port : String) (settings : Option (List InterfaceSettings)) (u : Unit {0})
    → check_class b ifclass port settings ≡ ok u
    → b ≡ true
    → HasClass ifclass port settings
check_class_lem false ifclass port settings u h e = cc
check_class_lem true ifclass port none u h e = cc
check_class_lem true ifclass port (some interfaces) u h e =
    (interfaces, refl, no_wrong_class ifclass port interfaces (ground arith))

downlink_loop_lem :
    (port : String) (interfaces : List InterfaceSettings)
    → downlink_loop port interfaces ≡ ok true
    → All (λ i. str_eq i.name port ≡ true → i.ifclass ≡ "downlink") interfaces
unfolding downlink_loop
downlink_loop_lem port [] h = tt
downlink_loop_lem port (i ∷ interfaces) h = (
  λ e. ground (arith, h, e, eq_iff i.ifclass "downlink"),
  downlink_loop_lem port interfaces (ground (arith, h)),
)

downlink_loop_single :
    (port : String) (interfaces : List InterfaceSettings)
    → downlink_loop port interfaces ≡ ok false
    → FirstSingle port interfaces
unfolding downlink_loop
downlink_loop_single port [] h = cc
downlink_loop_single port (i ∷ interfaces) h = ground (
  arith,
  h,
  eq_iff i.name port,
  eq_iff i.ifclass "downlink",
  downlink_loop_single port interfaces,
)

module _ (port : String) (row : Option Interface) (b : Bool) where
  access_dist :
      (local remote : DeviceType) (settings : Option (List InterfaceSettings))
      → check_access local remote port settings row ≡ ok b
      → local ≡ DeviceType.access
      → remote ≡ DeviceType.dist
      → b ≡ true
      → HasClass "downlink" port settings
  access_dist DeviceType.access DeviceType.dist none h e f g = cc
  access_dist DeviceType.access DeviceType.dist (some interfaces) h e f g =
      (interfaces, refl, downlink_loop_lem port interfaces (ground (arith, h, g)))
  access_dist _ _ settings h e f g = cc

  access_dist_single :
      (local remote : DeviceType) (settings : Option (List InterfaceSettings))
      → check_access local remote port settings row ≡ ok b
      → local ≡ DeviceType.access
      → remote ≡ DeviceType.dist
      → b ≡ false
      → IsSingleDownlink port settings
  access_dist_single DeviceType.access DeviceType.dist none h e f g = cc
  access_dist_single DeviceType.access DeviceType.dist (some interfaces) h e f g =
      (interfaces, refl, downlink_loop_single port interfaces (ground (arith, h, g)))
  access_dist_single _ _ settings h e f g = cc

is_downlink_lem :
    (t : InterfaceConfigType)
    → is_downlink t ≡ true
    → (t ≡ InterfaceConfigType.mlag_peer) ⊎ (t ≡ InterfaceConfigType.access_downlink)
is_downlink_lem InterfaceConfigType.unknown h = cc
is_downlink_lem InterfaceConfigType.unmanaged h = cc
is_downlink_lem InterfaceConfigType.configfile h = cc
is_downlink_lem InterfaceConfigType.custom h = cc
is_downlink_lem InterfaceConfigType.template h = cc
is_downlink_lem InterfaceConfigType.mlag_peer h = inl refl
is_downlink_lem InterfaceConfigType.access_auto h = cc
is_downlink_lem InterfaceConfigType.access_untagged h = cc
is_downlink_lem InterfaceConfigType.access_tagged h = cc
is_downlink_lem InterfaceConfigType.access_uplink h = cc
is_downlink_lem InterfaceConfigType.access_downlink h = inr refl

not_redundant-Single :
    (i : Interface) (o : Option InterfaceData)
    → i.info ≡ o
    → is_false (not_redundant o) ≡ false
    → Single i
not_redundant-Single i none e h = cc
not_redundant-Single i (some info) e h = (info, e, ground (arith, h))

Single-not_redundant : (i : Interface) → Single i → is_false (not_redundant i.info) ≡ false
Single-not_redundant i (info, e, h) = rw (e, h) refl

access_access :
    (local remote : DeviceType) (port : String) (settings : Option (List InterfaceSettings))
    (row : Option Interface) (b : Bool)
    → check_access local remote port settings row ≡ ok b
    → local ≡ DeviceType.access
    → remote ≡ DeviceType.access
    → IsDownlinkRow b row
access_access DeviceType.access DeviceType.access port settings none b h e f = cc
access_access DeviceType.access DeviceType.access port settings (some i) b h e f =
    let same : is_false (not_redundant i.info) ≡ b = ground (arith, h) in
    (
      i,
      refl,
      is_downlink_lem i.configtype (ground (arith, h)),
      (
        λ e. not_redundant-Single i i.info refl (same ∙ e),
        λ e. sym same ∙ Single-not_redundant i e,
      ),
    )
access_access _ _ port settings row b h e f = cc

verify_expanded-Accepted :
    (local remote : DeviceType) (local_if remote_if : String)
    (ls rs : Option (List InterfaceSettings)) (row : Option Interface) (b : Bool)
    → verify_expanded local remote local_if remote_if ls rs row ≡ ok b
    → Accepted local remote local_if remote_if ls rs row b
unfolding verify_expanded
verify_expanded-Accepted local remote local_if remote_if ls rs row b h =
    let (u, hr, k) = then_do-returned _ _ b h in
    let (v, hl, l) = then_do-returned _ _ b k in
    let (w, fl, m) = then_do-returned _ _ b l in
    let (x, fr, n) = then_do-returned _ _ b m in
    (
      check_configured_lem (is_fabric remote) remote_if rs u hr,
      check_configured_lem (is_fabric local) local_if ls v hl,
      λ e. (
        check_class_lem (is_fabric local && is_fabric remote) "fabric" local_if ls w fl e,
        check_class_lem (is_fabric local && is_fabric remote) "fabric" remote_if rs x fr e,
      ),
      access_dist remote_if row b local remote rs n,
      access_dist_single remote_if row b local remote rs n,
      access_access local remote remote_if rs row b n,
    )

-- A link that is let through has both of its ports in the settings where the device is a DIST or CORE
-- one, and of class `fabric` where both are. From an access device to a DIST device, it leads to a port
-- all of whose entries are of class `downlink` where it needs redundancy; where it needs none, the first
-- entry of the port that says so is of class `downlink`, and so are the entries before it. From an access
-- device to another, it leads to an interface row that is an MLAG peer or a downlink, and needs no
-- redundancy exactly where that row says so.
pub verify_peer_iftype-Accepted :
    (env : LinkEnv) (db : Db) (local : DeviceType)
    (local_settings : Option (List InterfaceSettings)) (local_if : String) (remote : Device)
    (remote_settings : Option (List InterfaceSettings)) (remote_if : String) (redundant : Bool)
    → verify_peer_iftype env db local local_settings local_if remote remote_settings remote_if
      ≡ ok redundant
    → Accepted local remote.device_type local_if remote_if
        (expanded env local_settings)
        (expanded env remote_settings)
        (first (is_interface remote.id remote_if) db.interfaces)
        redundant
unfolding verify_peer_iftype
verify_peer_iftype-Accepted env db local ls local_if remote rs remote_if redundant h =
    verify_expanded-Accepted local remote.device_type local_if remote_if _ _ _ redundant h
