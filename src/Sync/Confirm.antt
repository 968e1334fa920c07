-- ===== src/Sync/Confirm.antt =====
-- `confirm_devices` and `apply_config` of src/cnaas_nms/devicehandler/sync_devices.py.
pub mod Confirmed
pub mod Applied
use cnaas_nms.Prelude.{
  is_false, ℕ, String, Bool, true, false, Option, none, some, List, [], ◌∷◌, ◌||◌, ◌==◌,
  if◌then◌else◌, map,
}
use cnaas_nms.Prelude.Exec.{
  Exec, Error, Result, ok, err, pure, raise, lift, modify, handle, exception, type_error,
  unbound_local, no_result_found, attribute_error, ◌>>=◌, ◌>>◌,
}
use cnaas_nms.Schema.{Db, Device, DeviceState, state_eq}
use cnaas_nms.Sync.History.{add_sync_event}
use cnaas_nms.Sync.Inventory.{load, select_devices, names, given, several, Host}
use cnaas_nms.Sync.Env.{Env}
use cnaas_nms.Sync.Tasks.{
  HostRun, failed_hosts, find_device, set_device, post_sync_update_confighash,
}
use cnaas_nms.Sync.Locks.{release, session}
use cnaas_nms.Sync.Marking.{touch, mark_synchronized}

pub record ConfirmArgs : Type 0 where
  pub prev_job_id : ℕ
  pub hostnames : List String
  pub job_id : ℕ
  pub scheduled_by : Option String
  pub resync : Bool

-- What the task `napalm_confirm_commit` leaves of a host.
abbrev pub confirm_one : Env → String → HostRun
confirm_one env host =
    let (failed, results) = env.confirms host in
    record {
      name = host;
      failed = failed;
      results = results;
      diff = [];
      change_score = none;
      lost = false;
    }

abbrev pub confirm_runs : Env → List String → List HostRun
confirm_runs env = map (confirm_one env)

abbrev pub mark_lost : Device → Device
mark_lost dev = record dev { synchronized = false; confhash = none }

-- The branch of the loop for a host whose confirmation failed.
unfoldable pub lose_confirm : Env → ConfirmArgs → String → Exec Db (Unit {0})
lose_confirm env args host db = elim (find_device host db.devices) [
  | none ↦ (err no_result_found, db)
  | some dev ↦ (
    ok tt,
    record (set_device host mark_lost db) {
      sync_events =
          add_sync_event env.now host "commit_confirm_failed" args.scheduled_by (some args.job_id)
            none db.sync_events;
    },
  )
]

abbrev pub not_confirmed : HostRun → Bool
not_confirmed r = r.failed || is_false (r.results == 1)

-- The loop over `nrresult.items()`.
unfoldable pub mark_confirmed : Env → ConfirmArgs → List HostRun → Exec Db (Unit {0})
mark_confirmed env args [] = pure tt
mark_confirmed env args (r ∷ runs) = do
  (if not_confirmed r
      then lose_confirm env args r.name
      else touch env r.name (mark_synchronized env.now) true)
  mark_confirmed env args runs

-- The session that marks the devices and gives back the lock of the sync.
unfoldable pub confirm_rows : Env → ConfirmArgs → List HostRun → Exec Db Bool
confirm_rows env args runs = do mark_confirmed env args runs; release args.prev_job_id

-- `select_devices(nr, hostnames, resync)`: the third argument is `device_type`, so without names a
-- resync would join the text "T_" and a truth value.
unfoldable pub confirm_selected : Env → ConfirmArgs → Db → Result (List String)
confirm_selected env args db =
    if given (several args.hostnames) || is_false args.resync
    then ok (
        names
          (select_devices (load env.get_groups db.devices) args.hostnames none none false).hosts)
    else err type_error

unfoldable pub confirm_phase :
    Env → ConfirmArgs → Option Error → List String → Exec Db (List HostRun)
confirm_phase env args (some e) hosts = do
  handle (session (release args.prev_job_id)) (λ _. pure false)
  raise unbound_local
confirm_phase env args none hosts =
    let runs = confirm_runs env hosts in
    do
      modify (post_sync_update_confighash env false false hosts [] (failed_hosts runs))
      session (confirm_rows env args runs)
      pure runs

abbrev pub confirm_hosts : Env → ConfirmArgs → Result (List String) → Exec Db (List HostRun)
confirm_hosts env args (err e) = raise e
confirm_hosts env args (ok hosts) = confirm_phase env args env.confirm_raises hosts

-- `confirm_devices`. Where the run raises, `nrresult` has no value at the return.
unfoldable pub confirm_devices : Env → ConfirmArgs → Exec Db (List HostRun)
confirm_devices env args db = confirm_hosts env args (confirm_selected env args db) db

pub record ApplyArgs : Type 0 where
  pub hostname : String
  pub dry_run : Bool
  pub job_id : ℕ
  pub scheduled_by : Option String

abbrev pub unmanage : Device → Device
unmanage dev = record dev { state = DeviceState.unmanaged; synchronized = false }

-- The session after the push, over the row that is there when the push is over.
unfoldable pub mark_applied : Env → ApplyArgs → Exec Db (Unit {0})
mark_applied env args db = elim (find_device args.hostname db.devices) [
  | none ↦ (err attribute_error, db)
  | some dev ↦ (
    ok tt,
    record (set_device args.hostname unmanage db) {
      sync_events =
          add_sync_event env.now args.hostname "apply_config" args.scheduled_by (some args.job_id)
            none db.sync_events;
    },
  )
]

abbrev pub may_apply : Device → Bool
may_apply dev = state_eq dev.state DeviceState.managed || state_eq dev.state DeviceState.unmanaged

-- `apply_config`. Where the run raises, `nrresult` has no value at the return.
unfoldable pub apply_config : Env → ApplyArgs → Exec Db (Unit {0})
apply_config env args db = elim (find_device args.hostname db.devices) [
  | none ↦ (err exception, db)
  | some dev ↦
      if may_apply dev
      then elim env.apply_raises [
        | some e ↦ (err unbound_local, db)
        | none ↦ if args.dry_run then (ok tt, db) else mark_applied env args db
      ]
      else (err exception, db)
]
