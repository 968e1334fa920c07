-- ===== src/Topology.antt =====
-- Links between devices: src/cnaas_nms/db/linknet.py, and the methods of src/cnaas_nms/db/device.py
-- that read links and interfaces.
pub mod Symmetry
pub mod Created
pub mod Dedup
pub mod Mlag
use cnaas_nms.Prelude.{
  is_false, ℕ, zero, suc, ◌+◌, String, Bool, true, false, Option, none, some, List, [], ◌∷◌, ◌++◌,
  ◌||◌, ◌&&◌, ◌==◌, if◌then◌else◌, select, first, any, update, mem, str_eq, append, map,
}
use cnaas_nms.Prelude.Exec.{
  Exec, Error, Result, ok, err, value_error, device_error, exception, no_result_found,
  multiple_results_found,
}
use cnaas_nms.Schema.{
  Db, Device, Linknet, Interface, InterfaceData, InterfaceConfigType, DeviceType, IpAddress,
  IpNetwork, type_eq, config_type_eq,
}
use cnaas_nms.Sync.History.{add_sync_event}
use cnaas_nms.Sync.Tasks.{find_device, set_device}

-- `get_port(device_id)`
unfoldable pub get_port : Linknet → ℕ → Result String
get_port ln device_id =
    if device_id == ln.device_a_id
    then ok ln.device_a_port
    else if device_id == ln.device_b_id
    then ok ln.device_b_port
    else err value_error

-- `get_ip(device_id)`
unfoldable pub get_ip : Linknet → ℕ → Result (Option IpAddress)
get_ip ln device_id =
    if device_id == ln.device_a_id
    then ok ln.device_a_ip
    else if device_id == ln.device_b_id
    then ok ln.device_b_ip
    else err value_error

-- The dict of a linknet, with the keys that the modelled code reads.
pub record LinkDict : Type 0 where
  pub device_a_hostname : String
  pub device_a_id : ℕ
  pub device_a_port : String
  pub device_b_hostname : String
  pub device_b_id : ℕ
  pub device_b_port : String
  pub redundant_link : Option Bool  -- only in what `update_linknets` returns

-- `":".join([...])`
abbrev join4 : String → String → String → String → String
join4 a b c d = append a (append ":" (append b (append ":" (append c (append ":" d)))))

unfoldable pub linknet_str_a : LinkDict → String
linknet_str_a l = join4 l.device_a_hostname l.device_a_port l.device_b_hostname l.device_b_port

unfoldable pub linknet_str_b : LinkDict → String
linknet_str_b l = join4 l.device_b_hostname l.device_b_port l.device_a_hostname l.device_a_port

-- The loop, with the names populated so far.
unfoldable pub deduplicate_from : List String → List LinkDict → List LinkDict
deduplicate_from populated_links [] = []
deduplicate_from populated_links (l ∷ linknets) =
    let skip = deduplicate_from populated_links linknets in
    let keep = deduplicate_from (linknet_str_a l ∷ linknet_str_b l ∷ populated_links) linknets in
    if mem (linknet_str_a l) populated_links || mem (linknet_str_b l) populated_links
    then skip
    else l ∷ keep

-- `deduplicate_linknet_dicts(linknets)`
unfoldable pub deduplicate_linknet_dicts : List LinkDict → List LinkDict
deduplicate_linknet_dicts linknets = deduplicate_from [] linknets

abbrev pub may_be_numbered : Device → Bool
may_be_numbered dev =
    type_eq dev.device_type DeviceType.dist || type_eq dev.device_type DeviceType.core

abbrev has_network : Option IpNetwork → Bool
has_network none = false
has_network (some n) = true

abbrev bad_network : Option IpNetwork → Bool
bad_network none = false
bad_network (some n) = if n.version == 4 && n.prefixlen == 31 then false else true

-- `ip_a, ip_b = ipv4_network.hosts()`: the two addresses of a /31.
abbrev host_ip : ℕ → Option IpNetwork → Option IpAddress
host_ip n none = none
host_ip n (some net) = some (record { version = 4; value = net.network_address + n })

-- The row that is made; its id comes with the insert.
abbrev pub new_linknet : Device → String → Device → String → Option IpNetwork → Linknet
new_linknet dev_a interface_a dev_b interface_b ipv4_network = record {
  id = 0;
  ipv4_network = ipv4_network;
  device_a_id = dev_a.id;
  device_a_ip = host_ip 0 ipv4_network;
  device_a_port = interface_a;
  device_b_id = dev_b.id;
  device_b_ip = host_ip 1 ipv4_network;
  device_b_port = interface_b;
}

-- `dev.synchronized = False`, and the event.
abbrev pub link_created : ℕ → String → Db → Db
link_created now host db = record (set_device host (λ d. record d { synchronized = false }) db) {
  sync_events = add_sync_event now host "linknet_created" none none none db.sync_events;
}

-- The refusals of `create_linknet`, in the order of the source.
abbrev pub refuse_linknet : Option Device → Option Device → Option IpNetwork → Bool → Bool
refuse_linknet none dev_b ipv4_network strict_check = true
refuse_linknet (some a) none ipv4_network strict_check = true
refuse_linknet (some a) (some b) ipv4_network strict_check =
    (strict_check
      && has_network ipv4_network
      && (is_false (may_be_numbered a) || is_false (may_be_numbered b)))
    || bad_network ipv4_network

abbrev pub finish_linknet :
    ℕ → Option Device → String → Option Device → String → Option IpNetwork → Bool → Exec Db Linknet
finish_linknet now (some a) interface_a (some b) interface_b ipv4_network strict_check db = (
  ok (new_linknet a interface_a b interface_b ipv4_network),
  if strict_check then link_created now b.hostname (link_created now a.hostname db) else db,
)
finish_linknet now _ interface_a _ interface_b ipv4_network strict_check db = (err value_error, db)

-- `create_linknet(session, hostname_a, interface_a, hostname_b, interface_b, ipv4_network,
-- strict_check)`. Every refusal is a `ValueError`.
unfoldable pub create_linknet :
    (now : ℕ) (hostname_a interface_a hostname_b interface_b : String)
    → Option IpNetwork
    → (strict_check : Bool) → Exec Db Linknet
create_linknet now hostname_a interface_a hostname_b interface_b ipv4_network strict_check db =
    let dev_a = find_device hostname_a db.devices in
    let dev_b = find_device hostname_b db.devices in
    if refuse_linknet dev_a dev_b ipv4_network strict_check
    then (err value_error, db)
    else finish_linknet now dev_a interface_a dev_b interface_b ipv4_network strict_check db

-- `get_linknets(session)`
unfoldable pub get_linknets : Device → Db → List Linknet
get_linknets dev db =
    select (λ ln. ln.device_a_id == dev.id || ln.device_b_id == dev.id) db.linknets

-- `get_links_to(session, peer_device)`
unfoldable pub get_links_to : Device → Device → Db → List Linknet
get_links_to dev peer db =
    select
      (λ ln.
        (ln.device_a_id == dev.id && ln.device_b_id == peer.id)
        || (ln.device_b_id == dev.id && ln.device_a_id == peer.id))
      db.linknets

abbrev pub ifnames : ℕ → List Linknet → List (String × String)
ifnames id [] = []
ifnames id (ln ∷ lns) =
    let rest = ifnames id lns in
    if ln.device_a_id == id
    then (ln.device_a_port, ln.device_b_port) ∷ rest
    else if ln.device_b_id == id
    then (ln.device_b_port, ln.device_a_port) ∷ rest
    else rest

-- `get_neighbor_ifnames(session, peer_device)`
unfoldable pub get_neighbor_ifnames : Device → Device → Db → List (String × String)
unfolding get_links_to
get_neighbor_ifnames dev peer db = ifnames dev.id (get_links_to dev peer db)

abbrev pub peer_ip : ℕ → List Linknet → Result (Option IpAddress)
peer_ip id [] = ok none
peer_ip id (a ∷ b ∷ lns) = err value_error
peer_ip id (ln ∷ []) =
    if ln.device_a_id == id
    then ok ln.device_b_ip
    else if ln.device_b_id == id
    then ok ln.device_a_ip
    else ok none

-- `get_neighbor_ip(session, peer_device)`
unfoldable pub get_neighbor_ip : Device → Device → Db → Result (Option IpAddress)
unfolding get_links_to
get_neighbor_ip dev peer db = peer_ip dev.id (get_links_to dev peer db)
