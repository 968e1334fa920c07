-- ===== src/Sync/Devices.antt =====
-- `sync_devices` of src/cnaas_nms/devicehandler/sync_devices.py: its phases in order, the total
-- change score and the job that follows.
pub mod DryRun
pub mod Locking
pub mod Checking
pub mod Total
use cnaas_nms.Prelude.{
  ℕ, zero, suc, ◌+◌, ◌*◌, ◌/◌, String, Bool, true, false, Option, none, some, List, [], ◌∷◌, ◌++◌,
  ◌&&◌, ◌||◌, ◌==◌, if◌then◌else◌, ltb, leb, mem, length,
}
use cnaas_nms.Prelude.Exec.{
  Exec, Error, Result, ok, err, pure, raise, lift, gets, modify, handle, exception, joblock_error,
  no_result_found, ◌>>=◌, ◌>>◌,
}
use cnaas_nms.Schema.{Db, Device, Joblock, ArgValue}
use cnaas_nms.Jobs.Joblock.{acquire_lock, release_lock}
use cnaas_nms.Jobs.Scheduler.{add_onetime_job}
use cnaas_nms.Sync.Score.{Score}
use cnaas_nms.Sync.History.{add_sync_event, remove_sync_events}
use cnaas_nms.Sync.Inventory.{load, select_devices, names, Host, given, several}
use cnaas_nms.Sync.Env.{Env}
use cnaas_nms.Sync.Tasks.{
  HostRun, failed_hosts, run_failed, find_device, set_device, run_check, run_push, after_push,
  get_confirm_mode, post_sync_update_confighash,
}
use cnaas_nms.Sync.Locks.{SyncArgs, SyncResult, job_mode, check_phase, lock_phase, release, session}
use cnaas_nms.Sync.Marking.{Outcome, classify, mark_phase}

-- The larger of two scores, by cross multiplication.
abbrev max_score : Score → Score → Score
max_score a b = if ltb (a.num * b.den) (b.num * a.den) then b else a

abbrev max_of : Score → List Score → Score
max_of a [] = a
max_of a (b ∷ scores) = max_score a (max_of b scores)

-- `max(min(int(x + 0.5), 100), 1)`
abbrev clamp_score : Score → ℕ
clamp_score s =
    let rounded = (2 * s.num + s.den) / (2 * s.den) in
    let capped = if ltb rounded 100 then rounded else 100 in if ltb 1 capped then capped else 1

-- `total_change_score`
unfoldable pub total_change_score : List String → List String → List Score → ℕ
total_change_score [] failed scores = 0
total_change_score (d ∷ devices) (f ∷ failed) scores = 100
total_change_score (d ∷ devices) [] [] = 100
total_change_score (d ∷ devices) [] (s ∷ scores) = clamp_score (max_of s scores)

abbrev pub autopush_max_score : ℕ
autopush_max_score = 10

abbrev pub schedule_autopush : Env → SyncArgs → Exec Db ℕ
schedule_autopush env args =
    add_onetime_job true env.use_mule env.now "cnaas_nms.devicehandler.sync_devices:sync_devices"
      (some 0) args.scheduled_by
      (("hostnames", ArgValue.names args.hostnames)
        ∷ ("dry_run", ArgValue.flag false)
        ∷ ("force", ArgValue.flag args.force)
        ∷ [])

abbrev pub schedule_confirm : Env → SyncArgs → List String → Exec Db ℕ
schedule_confirm env args changed =
    add_onetime_job true env.use_mule env.now "cnaas_nms.devicehandler.sync_devices:confirm_devices"
      (some 0) args.scheduled_by
      (("prev_job_id", ArgValue.number args.job_id) ∷ ("hostnames", ArgValue.names changed) ∷ [])

-- A dry run of one host that would change it a little schedules the sync itself.
unfoldable pub autopush : Env → SyncArgs → ℕ → List String → Exec Db (Option ℕ)
autopush env args total [] = pure none
autopush env args total (h ∷ hs) =
    if ltb total autopush_max_score
    then (do id ← schedule_autopush env args; pure (some id))
    else pure none

-- The end of a two-step commit: a confirm job takes over the lock, unless there is nothing to confirm.
unfoldable pub two_step_end : Env → SyncArgs → (failed changed : List String) → Exec Db (Option ℕ)
two_step_end env args (f ∷ failed) changed = do release args.job_id; pure none
two_step_end env args [] [] = do release args.job_id; pure none
two_step_end env args [] (h ∷ hs) = do
  id ← schedule_confirm env args (h ∷ hs)
  (λ db. env.waited db)
  pure (some id)

-- The last part: auto-push after a dry run of one host, or the end of a two-step commit.
unfoldable pub next_phase :
    Env → SyncArgs → (devices failed : List String) → Outcome → ℕ → Exec Db (Option ℕ)
next_phase env args devices failed out total db =
    if args.auto_push && length devices == 1 && given (several args.hostnames) && args.dry_run
    then autopush env args total out.changed db
    else if job_mode env args == 2
    then (if args.dry_run then (ok none, db) else two_step_end env args failed out.changed db)
    else (ok none, db)

-- The run of the push raised: the lock is given back, errors of that are swallowed, and the results
-- of the hash check are returned.
unfoldable pub push_raised : Env → SyncArgs → List HostRun → Exec Db SyncResult
push_raised env args checked =
    let done = pure (record { nrresult = checked; next_job_id = none; change_score = none }) in
    if args.dry_run
    then done
    else (do handle (session (release args.job_id)) (λ _. pure false); done)

-- The configuration hashes after a push; a two-step commit leaves them to the confirm job.
unfoldable pub renew_hashes : Env → SyncArgs → (hosts unchanged failed : List String) → Db → Db
renew_hashes env args hosts unchanged failed db =
    if job_mode env args == 2
    then db
    else post_sync_update_confighash env args.dry_run args.force hosts unchanged failed db

-- From the results of the push to the end of the job.
unfoldable pub finish_phase : Env → SyncArgs → List String → List HostRun → Exec Db SyncResult
finish_phase env args hosts runs =
    let failed = failed_hosts runs in
    let out = classify failed runs in
    let total = total_change_score hosts failed out.scores in
    do
      modify (renew_hashes env args hosts out.unchanged failed)
      mark_phase env args out
      next ← next_phase env args hosts failed out total
      pure (record { nrresult = runs; next_job_id = next; change_score = some total })

-- The push, and what follows it. The last argument is the exception that the run of the push
-- raises, if it does.
unfoldable pub push_phase :
    Env → SyncArgs → List String → List HostRun → Option Error → Exec Db SyncResult
push_phase env args hosts checked (some e) = push_raised env args checked
push_phase env args hosts checked none =
    let runs = run_push env (job_mode env args) args.dry_run hosts in
    do
      modify (after_push env args.scheduled_by (some args.job_id) runs)
      finish_phase env args hosts runs

-- The phases over the selected hosts.
unfoldable pub sync_hosts : Env → SyncArgs → List String → Exec Db SyncResult
sync_hosts env args hosts = do
  checked ← check_phase env args hosts
  lock_phase env args
  push_phase env args hosts checked env.push_raises

abbrev pub selected : Env → SyncArgs → Db → List String
selected env args db =
    names
      (select_devices (load env.get_groups db.devices) args.hostnames args.device_type args.group
        args.resync).hosts

-- `sync_devices`
unfoldable pub sync_devices : Env → SyncArgs → Exec Db SyncResult
sync_devices env args db = sync_hosts env args (selected env args db) db
