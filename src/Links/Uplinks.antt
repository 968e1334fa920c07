-- ===== src/Links/Uplinks.antt =====
-- `get_uplinks`, `get_mlag_ifs` and `get_local_ifnames` of src/cnaas_nms/devicehandler/get.py, and the
-- methods of src/cnaas_nms/db/device.py that they and the initialisation call. A Python set of devices
-- is a list without repeated ids, in the order in which they are added.
pub mod Reset
use cnaas_nms.Prelude.{
  is_false, ℕ, String, Bool, true, false, Option, none, some, List, [], ◌∷◌, ◌++◌, ◌||◌, ◌&&◌, ◌==◌,
  if◌then◌else◌, select, first, any, update, insert, str_eq, length, leb, map,
}
use cnaas_nms.Prelude.Exec.{Result, ok, err, key_error, no_result_found, attribute_error}
use cnaas_nms.Schema.{
  Db, Device, DeviceType, Linknet, Interface, InterfaceData, InterfaceConfigType, config_type_eq,
  type_eq,
}
use cnaas_nms.Sync.Tasks.{find_device}
use cnaas_nms.Topology.{LinkDict, get_linknets, get_neighbor_ifnames}
use cnaas_nms.Links.{find_id, then_do}

abbrev hostname_of : Option Device → Result String
hostname_of none = err attribute_error
hostname_of (some d) = ok d.hostname

abbrev as_dict : Db → Linknet → Result LinkDict
as_dict db ln = then_do (hostname_of (find_id ln.device_a_id db.devices)) (λ a.
    then_do (hostname_of (find_id ln.device_b_id db.devices)) (λ b. ok (record {
      device_a_hostname = a;
      device_a_id = ln.device_a_id;
      device_a_port = ln.device_a_port;
      device_b_hostname = b;
      device_b_id = ln.device_b_id;
      device_b_port = ln.device_b_port;
      redundant_link = none;
    })))

as_dicts : Db → List Linknet → Result (List LinkDict)
as_dicts db [] = ok []
as_dicts db (ln ∷ lns) =
    then_do (as_dict db ln) (λ d. then_do (as_dicts db lns) (λ ds. ok (d ∷ ds)))

-- `get_linknets_as_dict(session)`
unfoldable pub get_linknets_as_dict : Device → Db → Result (List LinkDict)
unfolding as_dicts
get_linknets_as_dict dev db = as_dicts db (get_linknets dev db)

-- The ids of the two ends, from rows or from dicts.
abbrev row_ends : Linknet → ℕ × ℕ
row_ends ln = (ln.device_a_id, ln.device_b_id)

abbrev dict_ends : LinkDict → ℕ × ℕ
dict_ends l = (l.device_a_id, l.device_b_id)

abbrev add_device : Device → List Device → List Device
add_device d ds = if any (λ e. e.id == d.id) ds then ds else ds ++ d ∷ []

abbrev other_end : ℕ → ℕ × ℕ → ℕ
other_end id (a, b) = if a == id then b else a

abbrev found : Option Device → Result Device
found none = err no_result_found
found (some d) = ok d

-- The loop of `get_neighbors`, with the devices so far.
neighbors_from : ℕ → List Device → List Device → List (ℕ × ℕ) → Result (List Device)
neighbors_from id devices ret [] = ok ret
neighbors_from id devices ret (e ∷ ends) =
    then_do (found (find_id (other_end id e) devices))
      (λ d. neighbors_from id devices (add_device d ret) ends)

-- `get_neighbors(session, linknets)`
unfoldable pub get_neighbors : Device → List LinkDict → Db → Result (List Device)
unfolding neighbors_from
get_neighbors dev [] db = neighbors_from dev.id db.devices [] (map row_ends (get_linknets dev db))
get_neighbors dev (l ∷ ls) db = neighbors_from dev.id db.devices [] (map dict_ends (l ∷ ls))

abbrev pub peer_linknet : ℕ → ℕ → LinkDict → Bool
peer_linknet id peer l =
    (l.device_a_id == id && l.device_b_id == peer) || (l.device_b_id == id && l.device_a_id == peer)

abbrev dict_ifnames : ℕ → LinkDict → String × String
dict_ifnames id l =
    if l.device_a_id == id
    then (l.device_a_port, l.device_b_port)
    else (l.device_b_port, l.device_a_port)

-- `get_neighbor_ifnames(session, peer_device, linknets_arg)`
unfoldable pub neighbor_ifnames : Device → Device → List LinkDict → Db → List (String × String)
neighbor_ifnames dev peer [] db = get_neighbor_ifnames dev peer db
neighbor_ifnames dev peer (l ∷ ls) db =
    map (dict_ifnames dev.id) (select (peer_linknet dev.id peer.id) (l ∷ ls))

abbrev pub is_uplink_of : ℕ → Interface → Bool
is_uplink_of id i =
    i.device_id == id && config_type_eq i.configtype InterfaceConfigType.access_uplink

abbrev neighbor_key : Option InterfaceData → Option String
neighbor_key none = none
neighbor_key (some info) = info.neighbor

abbrev put_uplink : String → Option String → List (String × String) → List (String × String)
put_uplink name none uplinks = uplinks
put_uplink name (some host) uplinks = insert name host uplinks

-- The uplinks in the rows; a row without the key `neighbor` is passed over.
current_uplinks : List Interface → List (String × String) → List (String × String)
current_uplinks [] uplinks = uplinks
current_uplinks (i ∷ is) uplinks =
    current_uplinks is (put_uplink i.name (neighbor_key i.info) uplinks)

unfoldable pub put_all :
    List (String × String) → String → List (String × String) → List (String × String)
put_all [] host uplinks = uplinks
put_all ((local_if, remote_if) ∷ ifs) host uplinks = put_all ifs host (insert local_if host uplinks)

abbrev is_uplink_type : DeviceType → Bool
is_uplink_type t = type_eq t DeviceType.dist || type_eq t DeviceType.access

-- The loop over the neighbours. The interfaces of an access neighbour are only logged.
uplinks_to :
    Device → List LinkDict → Db → List Device → List (String × String) → List (String × String)
unfolding put_all
uplinks_to dev linknets db [] uplinks = uplinks
uplinks_to dev linknets db (d ∷ ds) uplinks = uplinks_to dev linknets db ds (
    if is_uplink_type d.device_type
    then put_all (neighbor_ifnames dev d linknets db) d.hostname uplinks
    else uplinks)

-- `if not recheck`
abbrev known_uplinks : Bool → Device → Db → List (String × String)
known_uplinks true dev db = []
known_uplinks false dev db = current_uplinks (select (is_uplink_of dev.id) db.interfaces) []

abbrev search_uplinks :
    Bool → Device → List LinkDict → Db → List (String × String) → Result (List (String × String))
search_uplinks recheck dev linknets db known =
    if is_false recheck && leb 1 (length known) && leb (length known) 2
    then ok known
    else then_do (get_neighbors dev linknets db) (λ ds. ok (uplinks_to dev linknets db ds known))

-- `get_uplinks(session, hostname, recheck, linknets=linknets)`: no caller gives `neighbors`.
unfoldable pub get_uplinks :
    (hostname : String) (recheck : Bool) → List LinkDict → Db → Result (List (String × String))
unfolding current_uplinks uplinks_to
get_uplinks hostname recheck linknets db =
    then_do (found (find_device hostname db.devices))
      (λ dev. search_uplinks recheck dev linknets db (known_uplinks recheck dev db))

-- `get_local_ifnames(local_devid, peer_devid, linknets)`
unfoldable pub get_local_ifnames : (local_devid peer_devid : ℕ) → List LinkDict → List String
get_local_ifnames local_devid peer_devid [] = []
get_local_ifnames local_devid peer_devid (l ∷ linknets) =
    let rest = get_local_ifnames local_devid peer_devid linknets in
    if l.device_a_id == local_devid && l.device_b_id == peer_devid
    then l.device_a_port ∷ rest
    else if l.device_b_id == local_devid && l.device_a_id == peer_devid
    then l.device_b_port ∷ rest
    else rest

unfoldable put_ids : List String → ℕ → List (String × ℕ) → List (String × ℕ)
put_ids [] id ifs = ifs
put_ids (name ∷ names) id ifs = put_ids names id (insert name id ifs)

mlag_ifs_to : ℕ → String → List LinkDict → List Device → List (String × ℕ) → List (String × ℕ)
mlag_ifs_to id mlag_peer_hostname linknets [] ifs = ifs
mlag_ifs_to id mlag_peer_hostname linknets (d ∷ ds) ifs =
    mlag_ifs_to id mlag_peer_hostname linknets ds (
      if str_eq d.hostname mlag_peer_hostname
      then put_ids (get_local_ifnames id d.id linknets) d.id ifs
      else ifs)

-- `get_mlag_ifs(session, dev, mlag_peer_hostname, linknets)`
unfoldable pub get_mlag_ifs :
    Device → (mlag_peer_hostname : String) → List LinkDict → Db → Result (List (String × ℕ))
unfolding mlag_ifs_to put_ids
get_mlag_ifs dev mlag_peer_hostname linknets db =
    then_do (found (find_device dev.hostname db.devices)) (λ d.
      then_do (get_neighbors d linknets db)
        (λ ds. ok (mlag_ifs_to d.id mlag_peer_hostname linknets ds [])))

abbrev is_empty : InterfaceData → Bool
is_empty info = elim info.neighbor [
  | some _ ↦ false
  | none ↦ elim info.neighbor_id [
    | some _ ↦ false
    | none ↦ elim info.redundant_link [ some _ ↦ false | none ↦ is_false info.others ]
  ]
]

-- What one row adds to `peer_hostnames`: a row without data adds nothing, one whose data lack the key
-- raises.
abbrev pub peer_of : Option InterfaceData → Result (List String)
peer_of none = ok []
peer_of (some info) =
    if is_empty info
    then ok []
    else elim info.neighbor [ none ↦ err key_error | some host ↦ ok (host ∷ []) ]

unfoldable pub peers_of : List Interface → Result (List String)
peers_of [] = ok []
peers_of (i ∷ is) = then_do (peer_of i.info) (λ h. then_do (peers_of is) (λ hs. ok (h ++ hs)))

-- `get_uplink_peer_hostnames(session)`
unfoldable pub get_uplink_peer_hostnames : Device → Db → Result (List String)
get_uplink_peer_hostnames dev db = peers_of (select (is_uplink_of dev.id) db.interfaces)

abbrev no_info : InterfaceData
no_info = record { neighbor = none; neighbor_id = none; redundant_link = none; others = false }

-- `if intf.data: intf.data = {}`
abbrev cleared : Option InterfaceData → Option InterfaceData
cleared none = none
cleared (some info) = some no_info

abbrev pub reset_interface : Interface → Interface
reset_interface i = record i { configtype = InterfaceConfigType.access_auto; info = cleared i.info }

-- `reset_uplink_interfaces(session)`
unfoldable pub reset_uplink_interfaces : Device → Db → Db
reset_uplink_interfaces dev db = record db {
  interfaces = update (is_uplink_of dev.id) reset_interface db.interfaces;
}
