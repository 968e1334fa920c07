-- ===== src/Sync/Devices/Checking.antt =====
-- What a sync does where the hash check fails, or where the lock cannot be had.
use cnaas_nms.Prelude.{
  ℕ, zero, suc, ◌+◌, ◌≡◌, refl, true, false, none, List, [], ◌∷◌, arith, if◌then◌else◌, String, mem,
  eq_iff,
}
use cnaas_nms.Prelude.Exec.{ok, err, exception, joblock_error, ◌>>=◌}
use cnaas_nms.Schema.{Db, Joblock}
use cnaas_nms.Jobs.Joblock.{acquire_lock}
use cnaas_nms.Sync.Env.{Env}
use cnaas_nms.Sync.Tasks.{HostRun, run_check, run_failed, sync_check_hash, set_device, is_err}
use cnaas_nms.Sync.Locks.{SyncArgs, check_phase, desynchronize, lock_phase, lock_attempts}
use cnaas_nms.Sync.Devices.{sync_hosts, selected, sync_devices}

-- The host fails the hash check.
abbrev pub Fails : Env → SyncArgs → Db → String → Type 0
Fails env args db host = is_err (sync_check_hash env args.force db host) ≡ true

run_check_failed :
    (env : Env) (args : SyncArgs) (db : Db) (host : String) (hosts : List String)
    → mem host hosts ≡ true
    → Fails env args db host
    → run_failed (run_check env args.force db hosts) ≡ true
unfolding run_check
run_check_failed env args db host [] m f = cc
run_check_failed env args db host (h ∷ hosts) m f =
    ground (arith, eq_iff host h, run_check_failed env args db host hosts)

-- What marking devices leaves alone.
abbrev pub OnlyDevices : Db → Db → Type 0
OnlyDevices before after =
    (after.locks ≡ before.locks)
    × (after.jobs ≡ before.jobs)
    × (after.dispatched ≡ before.dispatched)
    × (after.sync_events ≡ before.sync_events)

desynchronize-OnlyDevices : (runs : List HostRun) (db : Db) → OnlyDevices db (desynchronize runs db)
desynchronize-OnlyDevices [] db = (refl, refl, refl, refl)
desynchronize-OnlyDevices (r ∷ runs) db = ground (
  arith,
  desynchronize-OnlyDevices runs
      (if r.failed then set_device r.name (λ d. record d { synchronized = false }) db else db),
)

-- Where the run of the hash check does not itself raise, a selected host whose configuration cannot be read, or hashes to something else than what is
-- stored, stops the sync: the job raises, and no lock is taken, no job is scheduled and no event is
-- written.
pub sync_devices_check_failed :
    (env : Env) (args : SyncArgs) (db : Db) (host : String)
    → env.check_raises ≡ none
    → mem host (selected env args db) ≡ true
    → is_err (sync_check_hash env args.force db host) ≡ true
    → ((sync_devices env args db).0 ≡ err exception) × OnlyDevices db (sync_devices env args db).1
unfolding sync_devices sync_hosts check_phase ◌>>=◌
sync_devices_check_failed env args db host runs m f =
    let failed = run_check_failed env args db host (selected env args db) m f in
    ground (
      arith,
      failed,
      desynchronize-OnlyDevices (run_check env args.force db (selected env args db)) db,
    )

lock_attempts_taken :
    (env : Env) (job_id attempts n : ℕ) (db : Db)
    → ((m : ℕ) (locks : List Joblock)
        → (acquire_lock env.now "devices" job_id (env.others m locks)).0 ≡ ok false)
    → (lock_attempts env job_id attempts n db).0 ≡ err joblock_error
unfolding lock_attempts
lock_attempts_taken env job_id zero n db taken = refl
lock_attempts_taken env job_id (suc attempts) n db taken = ground (
  arith,
  taken n db.locks,
  lock_attempts_taken env job_id attempts (n + 1)
      (record db { locks = (acquire_lock env.now "devices" job_id (env.others n db.locks)).1 })
      taken,
)

-- A sync that is not a dry run, whose hosts pass a hash check that does not itself raise, raises the lock's error where other
-- jobs hold the device lock at each of its tries.
pub sync_devices_lock_taken :
    (env : Env) (args : SyncArgs) (db : Db)
    → args.dry_run ≡ false
    → env.check_raises ≡ none
    → run_failed (run_check env args.force db (selected env args db)) ≡ false
    → ((m : ℕ) (locks : List Joblock)
        → (acquire_lock env.now "devices" args.job_id (env.others m locks)).0 ≡ ok false)
    → (sync_devices env args db).0 ≡ err joblock_error
unfolding sync_devices sync_hosts check_phase lock_phase ◌>>=◌ run_check
sync_devices_lock_taken env args db dry runs passes taken =
    rw (runs, passes, dry) (ground (arith, lock_attempts_taken env args.job_id 5 0 db taken))
