-- ===== src/Sync/Locks.antt =====
-- The first phases of `sync_devices` of src/cnaas_nms/devicehandler/sync_devices.py: the hash check
-- and the lock. A session that ends by an exception rolls the tables back, and the redis hash of sync
-- events stays as it is.
pub mod Tries
use cnaas_nms.Prelude.{
  ℕ, zero, suc, ◌+◌, ◌*◌, ◌/◌, String, Bool, true, false, Option, none, some, List, [], ◌∷◌, ◌++◌,
  ◌&&◌, ◌||◌, ◌==◌, if◌then◌else◌, ltb, leb, mem, length,
}
use cnaas_nms.Prelude.Exec.{
  Exec, Error, Result, ok, err, pure, raise, lift, gets, modify, handle, exception, joblock_error,
  no_result_found, ◌>>=◌, ◌>>◌,
}
use cnaas_nms.Schema.{Db, Device, Joblock, ArgValue}
use cnaas_nms.Jobs.Joblock.{acquire_lock, release_lock}
use cnaas_nms.Jobs.Scheduler.{add_onetime_job}
use cnaas_nms.Sync.Score.{Score}
use cnaas_nms.Sync.History.{add_sync_event, remove_sync_events}
use cnaas_nms.Sync.Inventory.{load, select_devices, names, Host, given, several}
use cnaas_nms.Sync.Env.{Env}
use cnaas_nms.Sync.Tasks.{
  HostRun, failed_hosts, run_failed, find_device, set_device, run_check, run_push, after_push,
  get_confirm_mode, post_sync_update_confighash,
}

pub record SyncArgs : Type 0 where
  pub hostnames : List String
  pub device_type : Option String
  pub group : Option String
  pub dry_run : Bool
  pub force : Bool
  pub auto_push : Bool
  pub job_id : ℕ
  pub scheduled_by : Option String
  pub resync : Bool
  pub confirm_mode_override : Option ℕ

-- The `NornirJobResult` that a sync returns.
pub record SyncResult : Type 0 where
  pub nrresult : List HostRun
  pub next_job_id : Option ℕ
  pub change_score : Option ℕ

abbrev pub job_mode : Env → SyncArgs → ℕ
job_mode env args = get_confirm_mode env.commit_confirmed_mode args.confirm_mode_override

abbrev pub desynchronize : List HostRun → Db → Db
desynchronize [] db = db
desynchronize (r ∷ runs) db =
    desynchronize runs
      (if r.failed then set_device r.name (λ d. record d { synchronized = false }) db else db)

-- The hash check: a host that fails it is marked, and the job raises before anything is pushed.
unfoldable pub check_phase : Env → SyncArgs → List String → Exec Db (List HostRun)
check_phase env args hosts db = elim env.check_raises [
  | some e ↦ (err e, db)
  | none ↦
      let runs = run_check env args.force db hosts in
      if run_failed runs then (err exception, desynchronize runs db) else (ok runs, db)
]

-- The `for` loop over `max_attempts`, from the `n`-th attempt on. Other jobs act while it sleeps.
unfoldable pub lock_attempts : Env → (job_id attempts n : ℕ) → Exec Db (Unit {0})
lock_attempts env job_id zero n db = (err joblock_error, db)
lock_attempts env job_id (suc attempts) n db =
    let locks = env.others n db.locks in
    let (r, locks') = acquire_lock env.now "devices" job_id locks in
    let db' = record db { locks = locks' } in
    elim r [
      | err e ↦ (err e, db')
      | ok true ↦ (ok tt, db')
      | ok false ↦ lock_attempts env job_id attempts (n + 1) db'
    ]

unfoldable pub lock_phase : Env → SyncArgs → Exec Db (Unit {0})
unfolding lock_attempts
lock_phase env args db = if args.dry_run then (ok tt, db) else lock_attempts env args.job_id 5 0 db

-- `Joblock.release_lock(session, job_id=job_id)`
unfoldable pub release : ℕ → Exec Db Bool
release job_id db =
    let (r, locks') = release_lock none (some job_id) db.locks in (r, record db { locks = locks' })

-- `with sqla_session() as session`
abbrev pub session : {A : Type 0} → Exec Db A → Exec Db A
session m db = elim ((m db).0) [
  | ok a ↦ (ok a, (m db).1)
  | err e ↦ (err e, record db { sync_events = (m db).1.sync_events })
]
