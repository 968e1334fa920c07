-- ===== src/Sync/Marking.antt =====
-- How `sync_devices` of src/cnaas_nms/devicehandler/sync_devices.py sorts the hosts by their results
-- and marks their rows.
pub mod Marks
use cnaas_nms.Prelude.{
  ℕ, zero, suc, ◌+◌, ◌*◌, ◌/◌, String, Bool, true, false, Option, none, some, List, [], ◌∷◌, ◌++◌,
  ◌&&◌, ◌||◌, ◌==◌, if◌then◌else◌, ltb, leb, mem, length,
}
use cnaas_nms.Prelude.Exec.{
  Exec, Error, Result, ok, err, pure, raise, lift, gets, modify, handle, exception, joblock_error,
  no_result_found, ◌>>=◌, ◌>>◌,
}
use cnaas_nms.Schema.{Db, Device, Joblock, ArgValue}
use cnaas_nms.Jobs.Joblock.{acquire_lock, release_lock}
use cnaas_nms.Jobs.Scheduler.{add_onetime_job}
use cnaas_nms.Sync.Score.{Score}
use cnaas_nms.Sync.History.{add_sync_event, remove_sync_events}
use cnaas_nms.Sync.Inventory.{load, select_devices, names, Host, given, several}
use cnaas_nms.Sync.Env.{Env}
use cnaas_nms.Sync.Tasks.{
  HostRun, failed_hosts, run_failed, find_device, set_device, run_check, run_push, after_push,
  get_confirm_mode, post_sync_update_confighash,
}
use cnaas_nms.Sync.Locks.{SyncArgs, job_mode, release, session}

-- What the score loop collects.
pub record Outcome : Type 0 where
  pub changed : List String
  pub unchanged : List String
  pub scores : List Score

abbrev add_score : Option Score → List Score → List Score
add_score none scores = scores
add_score (some s) scores = s ∷ scores

-- The loop over `nrresult.items()`. A host that failed or has fewer than three results counts for
-- nothing, one with a diff is changed, any other is unchanged.
unfoldable pub classify : List String → List HostRun → Outcome
classify failed [] = record { changed = []; unchanged = []; scores = [] }
classify failed (r ∷ runs) =
    let rest = classify failed runs in
    if mem r.name failed || ltb r.results 3 then rest else elim r.diff [
      | [] ↦ record rest {
        unchanged = r.name ∷ rest.unchanged;
        scores = record { num = 0; den = 1 } ∷ rest.scores;
      }
      | c ∷ cs ↦ record rest {
        changed = r.name ∷ rest.changed;
        scores = add_score r.change_score rest.scores;
      }
    ]

-- `dev = session.query(Device)....one()`, and an update of the row and of the events.
unfoldable pub touch : Env → String → (Device → Device) → Bool → Exec Db (Unit {0})
touch env host f forget db = elim (find_device host db.devices) [
  | none ↦ (err no_result_found, db)
  | some dev ↦
      let db' = set_device host f db in
      (
        ok tt,
        record db' {
          sync_events = if forget then remove_sync_events host db.sync_events else db.sync_events;
        },
      )
]

abbrev pub mark_synchronized : ℕ → Device → Device
mark_synchronized now dev = record dev { synchronized = true; last_seen = now }

-- A dry run with a diff: a device that was in sync no longer is, and the history says why.
unfoldable pub mark_dry_run : Env → SyncArgs → String → Exec Db (Unit {0})
mark_dry_run env args host db = elim (find_device host db.devices) [
  | none ↦ (err no_result_found, db)
  | some dev ↦
      let db' = set_device host (λ d. record d { synchronized = false; last_seen = env.now }) db in
      (
        ok tt,
        if dev.synchronized
            then record db' {
              sync_events =
                  add_sync_event env.now host "syncto_dryrun" args.scheduled_by (some args.job_id)
                    none db.sync_events;
            }
            else db',
      )
]

-- One host with a diff: the body of the loop over the changed hosts.
unfoldable pub mark_one : Env → SyncArgs → String → Exec Db (Unit {0})
mark_one env args host db =
    if args.dry_run
    then mark_dry_run env args host db
    else if job_mode env args == 2
    then (ok tt, db)
    else touch env host (mark_synchronized env.now) true db

unfoldable pub mark_changed : Env → SyncArgs → List String → Exec Db (Unit {0})
mark_changed env args [] = pure tt
mark_changed env args (host ∷ hosts) = do mark_one env args host; mark_changed env args hosts

unfoldable pub mark_unchanged : Env → List String → Exec Db (Unit {0})
mark_unchanged env [] = pure tt
mark_unchanged env (host ∷ hosts) = do
  touch env host (mark_synchronized env.now) true
  mark_unchanged env hosts

unfoldable pub release_now : Env → SyncArgs → Exec Db (Unit {0})
release_now env args = do release args.job_id; pure tt

-- The lock is given back unless this was a dry run or a confirm job is to give it back.
unfoldable pub release_rows : Env → SyncArgs → Exec Db (Unit {0})
release_rows env args db =
    if args.dry_run
    then (ok tt, db)
    else if job_mode env args == 2
    then (ok tt, db)
    else release_now env args db

-- The body of the session that marks devices and releases the lock, unless a confirm job is to do
-- that.
unfoldable pub mark_rows : Env → SyncArgs → Outcome → Exec Db (Unit {0})
mark_rows env args out = do
  mark_changed env args out.changed
  mark_unchanged env out.unchanged
  release_rows env args

unfoldable pub mark_phase : Env → SyncArgs → Outcome → Exec Db (Unit {0})
mark_phase env args out = session (mark_rows env args out)
