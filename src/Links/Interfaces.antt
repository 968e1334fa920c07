-- ===== src/Links/Interfaces.antt =====
-- `update_interfacedb_worker`, `update_interfacedb` and `reset_interfacedb` of
-- src/cnaas_nms/devicehandler/update.py, and `filter_interfaces` of
-- src/cnaas_nms/devicehandler/get.py.
pub mod Classes
use cnaas_nms.Prelude.{
  is_false, ℕ, String, Bool, true, false, Option, none, some, List, [], ◌∷◌, ◌++◌, ◌||◌, ◌&&◌, ◌==◌,
  if◌then◌else◌, select, first, any, update, lookup, mem, str_eq, leb,
}
use cnaas_nms.Prelude.Exec.{Exec, Result, ok, err, exception, value_error, no_result_found}
use cnaas_nms.Schema.{
  Db, Device, DeviceType, DeviceState, Interface, InterfaceData, InterfaceConfigType,
  config_type_eq, state_eq, type_eq,
}
use cnaas_nms.Sync.Score.{Text, codes, starts}
use cnaas_nms.Sync.History.{add_sync_event}
use cnaas_nms.Sync.Tasks.{find_device, set_device}
use cnaas_nms.Topology.{LinkDict}
use cnaas_nms.Links.{LinkEnv, is_interface, then_do}
use cnaas_nms.Links.Uplinks.{get_uplinks, get_mlag_ifs}

abbrev is_digit : ℕ → Bool
is_digit c = leb 48 c && leb c 57

-- `([0-9]+\/)+[0-9]+$`: `digit` is that the part has one, `part` that a part has ended; `$` also
-- stands before a newline at the end.
ports_pattern : (digit part : Bool) → Text → Bool
ports_pattern digit part [] = digit && part
ports_pattern digit part (c ∷ []) = (is_digit c && part) || (c == b'\n' && digit && part)
ports_pattern digit part (c ∷ d ∷ s) =
    let more = ports_pattern true part (d ∷ s) in
    let next = ports_pattern false true (d ∷ s) in
    if is_digit c then more else c == b'/' && digit && next

skip : Text → Text → Text
skip [] s = s
skip (c ∷ p) [] = []
skip (c ∷ p) (d ∷ s) = skip p s

abbrev junos_prefixes : List Text
junos_prefixes = codes "ge-" ∷ codes "xe-" ∷ codes "et-" ∷ codes "mge-" ∷ []

-- `re.match(junos_phy_r, intf)`
is_junos_phy : Text → Bool
unfolding skip ports_pattern
is_junos_phy s = any (λ p. starts p s && ports_pattern false false (skip p s)) junos_prefixes

abbrev is_junos : Option String → Bool
is_junos none = false
is_junos (some platform) = str_eq platform "junos"

-- `filter_interfaces(iflist, platform, include="physical")`
unfoldable pub filter_interfaces : Option String → List String → List String
unfolding is_junos_phy
filter_interfaces platform iflist =
    if is_junos platform
    then select (λ i. is_junos_phy (codes i)) iflist
    else select (λ i. starts (codes "Ethernet") (codes i)) iflist

-- What is known about the interfaces of a device before its rows are written.
pub record Plan : Type 0 where
  pub physical : List String
  pub uplinks : List (String × String)
  pub mlag_ifs : List (String × ℕ)

abbrev peer_ifs : Device → Option String → List LinkDict → Db → Result (List (String × ℕ))
peer_ifs dev none linknets db = ok []
peer_ifs dev (some host) linknets db = get_mlag_ifs dev host linknets db

abbrev pub nonempty_plan : List String → List (String × String) → List (String × ℕ) → Result Plan
nonempty_plan [] uplinks mlag_ifs = err exception
nonempty_plan (i ∷ is) uplinks mlag_ifs =
    ok (record { physical = i ∷ is; uplinks = uplinks; mlag_ifs = mlag_ifs })

-- The queries, up to the check that there are physical interfaces.
unfoldable pub make_plan :
    LinkEnv → Device → (replace : Bool) → Option String → List LinkDict → Db → Result Plan
make_plan env dev replace mlag_peer_hostname linknets db =
    then_do (env.interfaces_names dev.hostname) (λ iflist.
      then_do (get_uplinks dev.hostname replace linknets db) (λ uplinks.
        then_do (peer_ifs dev mlag_peer_hostname linknets db)
          (λ mlag_ifs. nonempty_plan (filter_interfaces dev.platform iflist) uplinks mlag_ifs)))

-- The class and the data of an interface, by the dicts that its name is a key of.
abbrev pub class_from :
    Option String → Option ℕ → Option InterfaceData → InterfaceConfigType × Option InterfaceData
class_from (some host) m old = (
  InterfaceConfigType.access_uplink,
  some (record { neighbor = some host; neighbor_id = none; redundant_link = none; others = false }),
)
class_from none (some id) old = (
  InterfaceConfigType.mlag_peer,
  some (record { neighbor = none; neighbor_id = some id; redundant_link = none; others = false }),
)
class_from none none old = (InterfaceConfigType.access_auto, old)

abbrev pub class_of :
    Plan → String → Option InterfaceData → InterfaceConfigType × Option InterfaceData
class_of plan name old = class_from (lookup name plan.uplinks) (lookup name plan.mlag_ifs) old

abbrev pub row : Plan → ℕ → String → Option InterfaceData → Interface
row plan device_id name old =
    let (configtype, info) = class_of plan name old in
    record { device_id = device_id; name = name; configtype = configtype; info = info }

abbrev pub written : Plan → ℕ → Bool → String → Option Interface → List Interface → List Interface
written plan id replace name none rows = rows ++ row plan id name none ∷ []
written plan id replace name (some i) rows =
    if replace then update (is_interface id name) (λ j. row plan id name j.info) rows else rows

-- What the loop appends to `ret`.
abbrev reported : Plan → ℕ → Bool → String → Option Interface → List Interface
reported plan id replace name none = row plan id name none ∷ []
reported plan id replace name (some i) = if replace then row plan id name i.info ∷ [] else []

-- One turn of the loop over the physical interfaces, and the loop.
unfoldable pub write_one : Plan → ℕ → Bool → String → List Interface → List Interface
write_one plan id replace name rows =
    written plan id replace name (first (is_interface id name) rows) rows

unfoldable pub write_all : Plan → ℕ → Bool → List String → List Interface → List Interface
write_all plan id replace [] rows = rows
write_all plan id replace (name ∷ names) rows =
    write_all plan id replace names (write_one plan id replace name rows)

unfoldable pub report_all : Plan → ℕ → Bool → List String → List Interface → List Interface
unfolding write_one
report_all plan id replace [] rows = []
report_all plan id replace (name ∷ names) rows =
    reported plan id replace name (first (is_interface id name) rows)
    ++ report_all plan id replace names (write_one plan id replace name rows)

abbrev pub is_protected : InterfaceConfigType → Bool
is_protected t =
    config_type_eq t InterfaceConfigType.access_uplink
    || config_type_eq t InterfaceConfigType.mlag_peer

-- A row of the device whose interface has disappeared, and which is not of a protected type.
abbrev pub is_gone : ℕ → List String → Interface → Bool
is_gone id physical i =
    i.device_id == id && is_false (mem i.name physical) && is_false (is_protected i.configtype)

abbrev pub written_rows : Plan → ℕ → Bool → List Interface → List Interface
written_rows plan id replace rows =
    select (λ i. is_false (is_gone id plan.physical i))
      (write_all plan id replace plan.physical rows)

abbrev pub write_plan : Device → Bool → Result Plan → Exec Db (List Interface)
write_plan dev replace (err e) db = (err e, db)
write_plan dev replace (ok plan) db = (
  ok (report_all plan dev.id replace plan.physical db.interfaces),
  record db { interfaces = written_rows plan dev.id replace db.interfaces },
)

abbrev pub not_of : ℕ → Interface → Bool
not_of id i = is_false (i.device_id == id)

-- `update_interfacedb_worker(session, dev, replace, delete_all, mlag_peer_hostname, linknets)`
unfoldable pub update_interfacedb_worker :
    LinkEnv
    → Device
    → (replace delete_all : Bool) → (mlag_peer_hostname : Option String)
    → (linknets : List LinkDict) → Exec Db (List Interface)
update_interfacedb_worker env dev replace delete_all mlag_peer_hostname linknets db =
    if delete_all
    then (ok [], record db { interfaces = select (not_of dev.id) db.interfaces })
    else write_plan dev replace (make_plan env dev replace mlag_peer_hostname linknets db) db

abbrev interfaces_changed :
    ℕ
    → String
    → Option String
    → Option ℕ
    → Result (List Interface) × Db
    → Result (List Interface) × Db
interfaces_changed now hostname scheduled_by job_id (err e, db) = (err e, db)
interfaces_changed now hostname scheduled_by job_id (ok [], db) = (ok [], db)
interfaces_changed now hostname scheduled_by job_id (ok (i ∷ is), db) = (
  ok (i ∷ is),
  record (set_device hostname (λ d. record d { synchronized = false }) db) {
    sync_events =
        add_sync_event now hostname "update_interfacedb" scheduled_by job_id none db.sync_events;
  },
)

abbrev update_for :
    LinkEnv
    → (replace delete_all : Bool) → Option String
    → Option ℕ
    → Option String
    → Option Device
    → Exec Db (List Interface)
update_for env replace delete_all peer job_id scheduled_by none db = (err value_error, db)
update_for env replace delete_all peer job_id scheduled_by (some dev) db =
    if state_eq dev.state DeviceState.managed && type_eq dev.device_type DeviceType.access
    then interfaces_changed env.now dev.hostname scheduled_by job_id
        (update_interfacedb_worker env dev replace delete_all peer [] db)
    else (err value_error, db)

-- `update_interfacedb(hostname, replace, delete_all, mlag_peer_hostname, job_id, scheduled_by)`
unfoldable pub update_interfacedb :
    LinkEnv
    → (hostname : String) → (replace delete_all : Bool) → (mlag_peer_hostname : Option String)
    → (job_id : Option ℕ) → (scheduled_by : Option String) → Exec Db (List Interface)
update_interfacedb env hostname replace delete_all peer job_id scheduled_by db =
    update_for env replace delete_all peer job_id scheduled_by (find_device hostname db.devices) db

abbrev reset_for : Option Device → Exec Db (Unit {0})
reset_for none db = (err value_error, db)
reset_for (some dev) db = (ok tt, record db { interfaces = select (not_of dev.id) db.interfaces })

-- `reset_interfacedb(hostname)`; the number of rows that it returns is left out.
unfoldable pub reset_interfacedb : String → Exec Db (Unit {0})
reset_interfacedb hostname db = reset_for (find_device hostname db.devices) db
