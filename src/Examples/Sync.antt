-- ===== src/Examples/Sync.antt =====
-- A sync, tried out.
use cnaas_nms.Prelude.{◌≡◌, refl, true, false, none, some, [], ◌∷◌, ◌⊎◌, ◌==◌}
use cnaas_nms.Prelude.Exec.{Result, ok, ◌>>=◌}
use cnaas_nms.Jobs.Joblock.{find_by_job, acquire_lock, release_lock}
use cnaas_nms.Sync.Score.{codes, calculate_score}
use cnaas_nms.Sync.History.{remove_sync_events}
use cnaas_nms.Sync.Inventory.{load, select_devices}
use cnaas_nms.Sync.Tasks.{
  sync_check_hash, run_check, run_push, after_push, post_sync_update_confighash, update_hashes,
  hash_hosts, get_confirm_mode, push_sync_device, lost_events,
}
use cnaas_nms.Sync.Locks.{
  SyncArgs, SyncResult, job_mode, lock_attempts, check_phase, lock_phase, release,
}
use cnaas_nms.Sync.Marking.{
  mark_phase, classify, mark_rows, mark_changed, mark_one, touch, mark_unchanged, release_rows,
  release_now,
}
use cnaas_nms.Sync.Devices.{
  sync_devices, sync_hosts, push_phase, finish_phase, renew_hashes, total_change_score, next_phase,
}
use cnaas_nms.Sync.Devices.DryRun.{sync_devices-dry_run}
use cnaas_nms.Sync.Devices.Locking.{sync_devices-settled, Confirming}
use cnaas_nms.Examples.Data.{db0, env0, args0}

abbrev dry_args : SyncArgs
dry_args = record args0 { dry_run = true }

sync_devices-dry_run_example : (sync_devices env0 dry_args db0).1.locks ≡ []
sync_devices-dry_run_example = sync_devices-dry_run env0 dry_args db0 refl

-- The sync of one device: it is pushed, marked and given back.
abbrev synced : Result SyncResult
synced = ok (record {
  nrresult =
      record {
        name = "access1";
        failed = false;
        results = 3;
        diff = codes "+ntp server 1.2.3.4";
        change_score = some (calculate_score (codes "hostname x") (codes "+ntp server 1.2.3.4"));
        lost = false;
      }
      ∷ [];
  next_job_id = none;
  change_score = some 20;
})

sync_returns : (sync_devices env0 args0 db0).0 ≡ synced
unfolding sync_devices sync_hosts check_phase run_check sync_check_hash lock_phase acquire_lock
    push_phase run_push after_push finish_phase renew_hashes post_sync_update_confighash
    update_hashes hash_hosts classify total_change_score next_phase mark_phase mark_rows
    mark_changed mark_one touch mark_unchanged release_rows release_now release release_lock
    get_confirm_mode load select_devices calculate_score remove_sync_events lock_attempts
    push_sync_device lost_events ◌>>=◌
sync_returns = refl

sync_devices-settled_example :
    (find_by_job 2 (sync_devices env0 args0 db0).1.locks ≡ none)
    ⊎ (((job_mode env0 args0 == 2) ≡ true) × Confirming env0 2 none (sync_devices env0 args0 db0).1)
sync_devices-settled_example = sync_devices-settled env0 args0 1 db0 _ refl refl sync_returns
