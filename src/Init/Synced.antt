-- ===== src/Init/Synced.antt =====
-- The checks that the neighbours are in sync: `pre_init_check_mlag` and `check_neighbor_sync` of
-- src/cnaas_nms/devicehandler/init_device.py, and `confcheck_devices` of
-- src/cnaas_nms/devicehandler/sync_devices.py.
pub mod Checked
use cnaas_nms.Prelude.{
  ℕ, String, Bool, true, false, Option, none, some, List, [], ◌∷◌, ◌&&◌, ◌==◌, if◌then◌else◌,
  select,
}
use cnaas_nms.Prelude.Exec.{
  Exec, Error, Result, ok, err, exception, device_error, device_state_error, device_sync_error,
  key_error, type_error,
}
use cnaas_nms.Schema.{Db, Device, DeviceState, Interface, InterfaceData, state_eq}
use cnaas_nms.Sync.Env.{Env}
use cnaas_nms.Sync.History.{add_sync_event}
use cnaas_nms.Sync.Inventory.{load, inventory_selector, names, several}
use cnaas_nms.Sync.Tasks.{HostRun, find_device, set_device, run_check, run_failed}
use cnaas_nms.Links.{then_do}

-- The loop of `pre_init_check_mlag`.
abbrev info_peer : Option InterfaceData → Result ℕ
info_peer none = err type_error
info_peer (some info) = elim info.neighbor_id [ none ↦ err key_error | some id ↦ ok id ]

unfoldable pub check_peers : Device → List Interface → Result (Unit {0})
check_peers peer [] = ok tt
check_peers peer (i ∷ is) =
    then_do (info_peer i.info) (λ id. if id == peer.id then check_peers peer is else err exception)

-- `InterfaceConfigType == InterfaceConfigType.MLAG_PEER`, of a class and a member of it
abbrev class_is_member : Bool
class_is_member = false

-- `pre_init_check_mlag(session, dev, mlag_peer_dev)`: the second filter compares the class of the
-- column's values, and not the column.
unfoldable pub pre_init_check_mlag : Device → Device → Db → Result (Unit {0})
pre_init_check_mlag dev mlag_peer_dev db =
    check_peers mlag_peer_dev (select (λ i. i.device_id == dev.id && class_is_member) db.interfaces)

abbrev pub mark_unsynced : ℕ → HostRun → Db → Db
mark_unsynced now r db =
    if r.failed
    then record (set_device r.name (λ d. record d { synchronized = false }) db) {
      sync_events =
          add_sync_event now r.name "confighash" (some "unknown") none none db.sync_events;
    }
    else db

unfoldable pub mark_failed : ℕ → List HostRun → Db → Db
mark_failed now [] db = db
mark_failed now (r ∷ runs) db = mark_failed now runs (mark_unsynced now r db)

abbrev pub confcheck_runs : Env → List HostRun → Exec Db (Unit {0})
confcheck_runs env runs db =
    if run_failed runs then (err exception, mark_failed env.now runs db) else (ok tt, db)

-- The hosts that are checked: without names, every managed device.
abbrev pub checked_hosts : Env → List String → Db → List String
checked_hosts env hostnames db =
    names
      (inventory_selector (load env.get_groups db.devices) true (several hostnames) none none).hosts

abbrev pub confcheck_run : Env → Option Error → List HostRun → Exec Db (Unit {0})
confcheck_run env (some e) runs db = (err e, db)
confcheck_run env none runs db = confcheck_runs env runs db

-- `confcheck_devices(session, hostnames)`
unfoldable pub confcheck_devices : Env → List String → Exec Db (Unit {0})
confcheck_devices env hostnames db =
    confcheck_run env env.check_raises (run_check env false db (checked_hosts env hostnames db)) db

abbrev pub check_neighbor : Option Device → Result (Unit {0})
check_neighbor none = err device_error
check_neighbor (some dev) =
    if state_eq dev.state DeviceState.managed
    then (if dev.synchronized then ok tt else err device_sync_error)
    else err device_state_error

unfoldable pub check_neighbors : List String → Db → Result (Unit {0})
check_neighbors [] db = ok tt
check_neighbors (h ∷ hs) db =
    then_do (check_neighbor (find_device h db.devices)) (λ _. check_neighbors hs db)

abbrev pub then_confcheck : Env → List String → Result (Unit {0}) → Exec Db (Unit {0})
then_confcheck env hostnames (err e) db = (err e, db)
then_confcheck env hostnames (ok _) db = confcheck_devices env hostnames db

-- `check_neighbor_sync(session, hostnames)`
unfoldable pub check_neighbor_sync : Env → List String → Exec Db (Unit {0})
check_neighbor_sync env hostnames db =
    then_confcheck env hostnames (check_neighbors hostnames db) db
