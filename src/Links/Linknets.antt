-- ===== src/Links/Linknets.antt =====
-- `update_linknets` of src/cnaas_nms/devicehandler/update.py. The devices that the loop reads are
-- looked up again in each turn: no turn removes a device or renames one.
pub mod DryRun
pub mod Ports
pub mod Wired
use cnaas_nms.Prelude.{
  is_false, ℕ, suc, ◌+◌, String, Bool, true, false, Option, none, some, List, [], ◌∷◌, ◌++◌, ◌||◌,
  ◌&&◌, ◌==◌, if◌then◌else◌, select, str_eq, map,
}
use cnaas_nms.Prelude.Exec.{
  Exec, Error, Result, ok, err, pure, raise, ◌>>=◌, no_result_found, multiple_results_found,
}
use cnaas_nms.Schema.{Db, Device, DeviceType, DeviceState, Linknet, IpNetwork, state_eq}
use cnaas_nms.Addressing.{find_free_infra_linknet}
use cnaas_nms.Sync.Tasks.{find_device}
use cnaas_nms.Topology.{LinkDict, create_linknet}
use cnaas_nms.Links.{LinkEnv, is_fabric, then_do}
use cnaas_nms.Links.Iftype.{verify_peer_iftype}

pub record UpdateArgs : Type 0 where
  pub hostname : String
  pub devtype : DeviceType
  pub ztp_hostname : Option String
  pub mlag_peer : Option ℕ  -- the id of `mlag_peer_dev`
  pub dry_run : Bool

-- A port of the device and its neighbour: `local_if`, `data[0]["hostname"]` and `data[0]["port"]`.
pub record Neighbor : Type 0 where
  pub local_if : String
  pub hostname : String
  pub port : String

abbrev is_peer : Option ℕ → Device → Bool
is_peer none d = false
is_peer (some id) d = d.id == id

-- The type that the neighbour counts as; none, where it is ignored.
abbrev remote_devtype : UpdateArgs → Device → Option DeviceType
remote_devtype args remote =
    if is_peer args.mlag_peer remote
    then some args.devtype
    else if state_eq remote.state DeviceState.managed || state_eq remote.state DeviceState.unmanaged
    then some remote.device_type
    else none

abbrev settings_hostname : UpdateArgs → String
settings_hostname args = elim args.ztp_hostname [
  | none ↦ args.hostname
  | some h ↦ if str_eq h "" then args.hostname else h
]

-- The settings of both ends, and the check of their interface classes: is the link redundant?
unfoldable pub check_link :
    LinkEnv → UpdateArgs → Neighbor → (local remote : Device) → DeviceType → Db → Result Bool
check_link env args n local remote devtype db =
    then_do (env.get_settings (settings_hostname args) args.devtype local.model) (λ ls.
      then_do (env.get_settings remote.hostname devtype remote.model)
        (λ rs. verify_peer_iftype env db args.devtype ls n.local_if remote rs n.port))

-- The link has that port at one of its ends.
abbrev pub uses_port : ℕ → String → Linknet → Bool
uses_port id port ln =
    (ln.device_a_id == id && str_eq ln.device_a_port port)
    || (ln.device_b_id == id && str_eq ln.device_b_port port)

abbrev pub touches : ℕ → String → ℕ → String → Linknet → Bool
touches local local_if remote port ln = uses_port local local_if ln || uses_port remote port ln

-- `query.one_or_none()`
abbrev pub one_or_none : List Linknet → Result (Option Linknet)
one_or_none [] = ok none
one_or_none (ln ∷ []) = ok (some ln)
one_or_none (ln ∷ ln' ∷ lns) = err multiple_results_found

-- The condition for `All info is the same`: both sides of the `or` are this one.
abbrev pub same_link : ℕ → String → ℕ → String → Linknet → Bool
same_link local local_if remote port ln =
    ln.device_a_id == local
    && str_eq ln.device_a_port local_if
    && ln.device_b_id == remote
    && str_eq ln.device_b_port port

abbrev pub delete_linknet : Linknet → Db → Db
delete_linknet ln db = record db { linknets = select (λ l. is_false (l.id == ln.id)) db.linknets }

-- `find_free_infra_linknet(session, idx)` between fabric devices
abbrev new_network : LinkEnv → UpdateArgs → ℕ → Device → Db → Result (Option IpNetwork)
new_network env args idx remote db =
    if is_fabric args.devtype && is_fabric remote.device_type
    then find_free_infra_linknet env.infra_link_net db (if args.dry_run then idx else 0)
    else ok none

abbrev pub add_linknet : Linknet → Db → Db
add_linknet ln db = record db {
  linknets = db.linknets ++ record ln { id = db.next_linknet_id } ∷ [];
  next_linknet_id = db.next_linknet_id + 1;
}

abbrev pub link_dict : Device → Device → Linknet → Bool → LinkDict
link_dict local remote ln redundant = record {
  device_a_hostname = local.hostname;
  device_a_id = local.id;
  device_a_port = ln.device_a_port;
  device_b_hostname = remote.hostname;
  device_b_id = remote.id;
  device_b_port = ln.device_b_port;
  redundant_link = some redundant;
}

-- What is done with the row that `create_linknet` made: `Linknet.create_linknet(...)`, then
-- `session.add`.
abbrev pub keep_link :
    UpdateArgs → Device → Device → Bool → Result Linknet × Db → Result (List LinkDict) × Db
keep_link args local remote redundant (err e, db) = (err e, db)
keep_link args local remote redundant (ok ln, db) =
    (ok (link_dict local remote ln redundant ∷ []), if args.dry_run then db else add_linknet ln db)

abbrev pub new_link :
    LinkEnv
    → UpdateArgs
    → Neighbor
    → Device
    → Device
    → Bool
    → Result (Option IpNetwork)
    → Exec Db (List LinkDict)
new_link env args n local remote redundant (err e) db = (err e, db)
new_link env args n local remote redundant (ok network) db = keep_link args local remote redundant (
    create_linknet env.now local.hostname n.local_if remote.hostname n.port network
      (is_false args.dry_run) db)

abbrev pub make_link :
    LinkEnv → UpdateArgs → ℕ → Neighbor → Device → Device → Bool → Exec Db (List LinkDict)
make_link env args idx n local remote redundant db =
    new_link env args n local remote redundant (new_network env args idx remote db) db

-- The branches over the row that is there.
abbrev pub replace_link :
    LinkEnv
    → UpdateArgs
    → ℕ
    → Neighbor
    → Device
    → Device
    → Bool
    → Result (Option Linknet)
    → Exec Db (List LinkDict)
replace_link env args idx n local remote redundant (err e) db = (err e, db)
replace_link env args idx n local remote redundant (ok none) db =
    make_link env args idx n local remote redundant db
replace_link env args idx n local remote redundant (ok (some ln)) db =
    if args.dry_run
    then make_link env args idx n local remote redundant db
    else if same_link local.id n.local_if remote.id n.port ln
    then (ok (link_dict local remote ln redundant ∷ []), db)
    else make_link env args idx n local remote redundant (delete_linknet ln db)

abbrev pub checked_link :
    LinkEnv → UpdateArgs → ℕ → Neighbor → Device → Device → Result Bool → Exec Db (List LinkDict)
checked_link env args idx n local remote (err e) db = (err e, db)
checked_link env args idx n local remote (ok redundant) db =
    replace_link env args idx n local remote redundant
      (one_or_none (select (touches local.id n.local_if remote.id n.port) db.linknets)) db

abbrev pub typed_link :
    LinkEnv
    → UpdateArgs
    → ℕ
    → Neighbor
    → Device
    → Device
    → Option DeviceType
    → Exec Db (List LinkDict)
typed_link env args idx n local remote none db = (ok [], db)
typed_link env args idx n local remote (some devtype) db =
    checked_link env args idx n local remote (check_link env args n local remote devtype db) db

abbrev pub link_between :
    LinkEnv → UpdateArgs → ℕ → Neighbor → Option Device → Option Device → Exec Db (List LinkDict)
link_between env args idx n none remote db = (err no_result_found, db)
link_between env args idx n (some local) none db = (ok [], db)
link_between env args idx n (some local) (some remote) db =
    typed_link env args idx n local remote (remote_devtype args remote) db

-- One turn of the loop: the entries that it appends to `ret`.
unfoldable pub update_link : LinkEnv → UpdateArgs → ℕ → Neighbor → Exec Db (List LinkDict)
update_link env args idx n db =
    link_between env args idx n (find_device args.hostname db.devices)
      (find_device n.hostname db.devices) db

-- The loop over `neighbors.items()`, from the index `idx` on.
unfoldable pub update_links : LinkEnv → UpdateArgs → ℕ → List Neighbor → Exec Db (List LinkDict)
update_links env args idx [] = pure []
update_links env args idx (n ∷ ns) = do
  ls ← update_link env args idx n
  ls' ← update_links env args (suc idx) ns
  pure (ls ++ ls')

abbrev neighbor : String × (String × String) → Neighbor
neighbor (local_if, (hostname, port)) = record {
  local_if = local_if;
  hostname = hostname;
  port = port;
}

abbrev pub from_device :
    LinkEnv
    → UpdateArgs
    → Option Device
    → Result (List (String × (String × String)))
    → Exec Db (List LinkDict)
from_device env args local (err e) = raise e
from_device env args none (ok neighbors) = raise no_result_found
from_device env args (some local) (ok neighbors) = update_links env args 0 (map neighbor neighbors)

abbrev given_neighbors :
    LinkEnv
    → UpdateArgs
    → List (String × (String × String))
    → Result (List (String × (String × String)))
given_neighbors env args [] = env.lldp_neighbors args.hostname
given_neighbors env args (n ∷ ns) = ok (n ∷ ns)

-- `update_linknets(session, hostname, devtype, ztp_hostname, mlag_peer_dev, dry_run, neighbors_arg)`
unfoldable pub update_linknets :
    LinkEnv
    → UpdateArgs
    → (neighbors_arg : List (String × (String × String))) → Exec Db (List LinkDict)
update_linknets env args neighbors_arg db =
    from_device env args (find_device args.hostname db.devices)
      (given_neighbors env args neighbors_arg) db
