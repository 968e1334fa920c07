-- ===== src/Init/Checks.antt =====
-- The checks of a device and of its neighbours before an initialisation: `pre_init_checks` and
-- `pre_init_check_neighbors` of src/cnaas_nms/devicehandler/init_device.py.
pub mod Uplinks
use cnaas_nms.Prelude.{
  ℕ, ◌+◌, String, Bool, true, false, Option, none, some, List, [], ◌∷◌, ◌++◌, ◌||◌, ◌&&◌, ◌==◌,
  if◌then◌else◌, mem, str_eq, length, ltb,
}
use cnaas_nms.Prelude.Exec.{
  Result, ok, err, exception, value_error, device_state_error, connection_check_error,
  init_verification_error, neighbor_error, unbound_local,
}
use cnaas_nms.Schema.{Db, Device, DeviceType, DeviceState, type_eq}
use cnaas_nms.Lookup.{find_mgmtdomain}
use cnaas_nms.Sync.Tasks.{find_device}
use cnaas_nms.Topology.{LinkDict}
use cnaas_nms.Links.{find_id, then_do, is_fabric}
use cnaas_nms.Init.{state_in}

-- `pre_init_checks(session, device_id, accepted_state)`
unfoldable pub pre_init_checks :
    (reachable : String → Bool)
    → (device_id : ℕ) → (accepted_state : List DeviceState) → Db
    → Result Device
pre_init_checks reachable device_id accepted_state db = elim (find_id device_id db.devices) [
  | none ↦ err value_error
  | some dev ↦
      if state_in dev.state accepted_state
      then (if reachable dev.hostname then ok dev else err connection_check_error)
      else err device_state_error
]

-- The variables of the loop over the links of an access device.
pub record Seen : Type 0 where
  pub neighbor : Option String  -- none: not bound yet
  pub neighbors : List String
  pub uplinks : List String
  pub mlag_peers : List String
  pub redundant_uplinks : ℕ

abbrev pub no_links : Seen
no_links = record {
  neighbor = none;
  neighbors = [];
  uplinks = [];
  mlag_peers = [];
  redundant_uplinks = 0;
}

-- The name at the other end. A link of neither device of an MLAG pair leaves the variable as it is.
abbrev pub other_name : Device → Option Device → Option String → LinkDict → Result (Option String)
other_name dev none old l =
    if str_eq l.device_a_hostname dev.hostname
    then ok (some l.device_b_hostname)
    else if str_eq l.device_b_hostname dev.hostname
    then ok (some l.device_a_hostname)
    else err exception
other_name dev (some peer) old l =
    if str_eq l.device_a_hostname dev.hostname
    then ok (some l.device_b_hostname)
    else if str_eq l.device_b_hostname dev.hostname
    then ok (some l.device_a_hostname)
    else if str_eq l.device_a_hostname peer.hostname
    then ok (some l.device_b_hostname)
    else if str_eq l.device_b_hostname peer.hostname
    then ok (some l.device_a_hostname)
    else ok old

abbrev pub is_device : Option Device → Device → Bool
is_device none d = false
is_device (some peer) d = d.id == peer.id

-- `linknet["redundant_link"]`, true where the key is absent
abbrev pub counts : Option Bool → ℕ
counts none = 1
counts (some true) = 1
counts (some false) = 0

abbrev pub is_switch : DeviceType → Bool
is_switch t = type_eq t DeviceType.access || type_eq t DeviceType.dist

-- The end of a turn, for a neighbour that is in the database.
abbrev pub count_neighbor : Option Device → LinkDict → String → Device → Seen → Seen
count_neighbor mlag_peer l name d seen =
    if is_device mlag_peer d
    then record seen {
      neighbor = some name;
      neighbors = seen.neighbors ++ name ∷ [];
      mlag_peers = seen.mlag_peers ++ name ∷ [];
    }
    else if is_switch d.device_type
    then record seen {
      neighbor = some name;
      neighbors = seen.neighbors ++ name ∷ [];
      uplinks = seen.uplinks ++ name ∷ [];
      redundant_uplinks = seen.redundant_uplinks + counts l.redundant_link;
    }
    else record seen { neighbor = some name }

abbrev pub known_neighbor : Option Device → LinkDict → Seen → String → Option Device → Result Seen
known_neighbor mlag_peer l seen name none = err neighbor_error
known_neighbor mlag_peer l seen name (some d) = ok (count_neighbor mlag_peer l name d seen)

abbrev pub named_neighbor : Db → Option Device → LinkDict → Seen → Option String → Result Seen
named_neighbor db mlag_peer l seen none = err unbound_local
named_neighbor db mlag_peer l seen (some name) =
    known_neighbor mlag_peer l seen name (find_device name db.devices)

-- One turn of the loop of an access device, and the loop.
unfoldable pub see_link : Db → Device → Option Device → Seen → LinkDict → Result Seen
see_link db dev mlag_peer seen l =
    if str_eq l.device_a_hostname l.device_b_hostname
    then ok seen
    else then_do (other_name dev mlag_peer seen.neighbor l) (named_neighbor db mlag_peer l seen)

unfoldable pub see_links : Db → Device → Option Device → Seen → List LinkDict → Result Seen
see_links db dev mlag_peer seen [] = ok seen
see_links db dev mlag_peer seen (l ∷ linknets) =
    then_do (see_link db dev mlag_peer seen l) (λ seen'. see_links db dev mlag_peer seen' linknets)

abbrev pub compatible : Seen → Bool
compatible seen =
    (length seen.uplinks == 1 && seen.redundant_uplinks == 0)
    || (length seen.uplinks == 2 && seen.redundant_uplinks == 2)

abbrev pub enough_peers : Option Device → Seen → Bool
enough_peers none seen = true
enough_peers (some peer) seen = if ltb (length seen.mlag_peers) 2 then false else true

abbrev pub has_domain : Result (Option (Unit {0})) → List String → Result (List String)
has_domain (err e) ns = err init_verification_error
has_domain (ok m) ns = ok ns

abbrev pub forget {ℓ} : {A : Type ℓ} → Result A → Result (Option (Unit {0}))
forget (err e) = err e
forget (ok a) = ok none

-- The checks after the loop.
abbrev pub judge_access : Db → Option Device → Seen → Result (List String)
judge_access db mlag_peer seen =
    if compatible seen && enough_peers mlag_peer seen
    then has_domain (forget (find_mgmtdomain db seen.uplinks)) seen.neighbors
    else err init_verification_error

-- The name at the other end, for a CORE or DIST device.
abbrev pub far_name : Device → LinkDict → Result String
far_name dev l =
    if str_eq l.device_a_hostname dev.hostname
    then ok l.device_b_hostname
    else if str_eq l.device_b_hostname dev.hostname
    then ok l.device_a_hostname
    else err exception

-- A CORE device is joined to DIST devices, and a DIST device to CORE devices.
abbrev pub fits : DeviceType → Device → Bool
fits devtype d =
    if type_eq devtype DeviceType.core
    then type_eq d.device_type DeviceType.dist
    else type_eq d.device_type DeviceType.core

abbrev fitting : DeviceType → String → Option Device → Result (List String)
fitting devtype name none = err neighbor_error
fitting devtype name (some d) = ok (if fits devtype d then name ∷ [] else [])

-- What one link of a CORE or DIST device adds to `verified_neighbors`.
abbrev pub verify_link : Db → DeviceType → List String → String → Result (List String)
verify_link db devtype [] name = fitting devtype name (find_device name db.devices)
verify_link db devtype (h ∷ hs) name = ok (if mem name (h ∷ hs) then name ∷ [] else [])

unfoldable pub verify_links :
    Db → Device → DeviceType → List String → List LinkDict → Result (List String)
verify_links db dev devtype expected [] = ok []
verify_links db dev devtype expected (l ∷ linknets) = then_do (far_name dev l) (λ name.
    then_do (verify_link db devtype expected name) (λ found.
      then_do (verify_links db dev devtype expected linknets) (λ more. ok (found ++ more))))

abbrev pub judge_fabric : List String → List String → Result (List String)
judge_fabric [] verified =
    if ltb (length verified) 2 then err init_verification_error else ok verified
judge_fabric (h ∷ hs) verified =
    if length (h ∷ hs) == length verified then ok verified else err init_verification_error

abbrev check_access : Db → Device → List LinkDict → Option Device → Result (List String)
check_access db dev linknets mlag_peer =
    then_do (see_links db dev mlag_peer no_links linknets) (judge_access db mlag_peer)

abbrev check_fabric : Db → Device → DeviceType → List LinkDict → List String → Result (List String)
check_fabric db dev devtype linknets expected =
    then_do (verify_links db dev devtype expected linknets) (judge_fabric expected)

abbrev by_devtype :
    Db → Device → DeviceType → List LinkDict → List String → Option Device → Result (List String)
by_devtype db dev devtype [] expected mlag_peer = err exception
by_devtype db dev devtype (l ∷ ls) expected mlag_peer =
    if type_eq devtype DeviceType.access
    then check_access db dev (l ∷ ls) mlag_peer
    else if is_fabric devtype
    then check_fabric db dev devtype (l ∷ ls) expected
    else ok []

-- `pre_init_check_neighbors(session, dev, devtype, linknets, expected_neighbors, mlag_peer_dev)`; an
-- explicit empty list of neighbours skips the checks.
unfoldable pub pre_init_check_neighbors :
    Db
    → Device
    → DeviceType
    → (linknets : List LinkDict) → (expected_neighbors : Option (List String))
    → (mlag_peer_dev : Option Device) → Result (List String)
pre_init_check_neighbors db dev devtype linknets (some []) mlag_peer = ok []
pre_init_check_neighbors db dev devtype linknets (some (h ∷ hs)) mlag_peer =
    by_devtype db dev devtype linknets (h ∷ hs) mlag_peer
pre_init_check_neighbors db dev devtype linknets none mlag_peer =
    by_devtype db dev devtype linknets [] mlag_peer
