-- ===== src/Examples/Phases.antt =====
-- The phases of a sync, tried out.
use cnaas_nms.Prelude.{
  String, ◌≡◌, ◌≤◌, ◌↔◌, refl, true, false, none, some, List, [], ◌∷◌, select, lookup, length, ◌≢◌,
}
use cnaas_nms.Prelude.Exec.{err, exception, ◌>>=◌}
use cnaas_nms.Schema.{Db}
use cnaas_nms.Jobs.Joblock.{release_lock}
use cnaas_nms.Jobs.Joblock.Unique.{new_lock}
use cnaas_nms.Jobs.Scheduler.{add_onetime_job}
use cnaas_nms.Sync.Env.{Env}
use cnaas_nms.Sync.History.{
  SyncEvents, new_event, get_sync_events, add_sync_event, remove_sync_events,
}
use cnaas_nms.Sync.History.Events.{get-add_sync_event}
use cnaas_nms.Sync.Inventory.{load, select_devices}
use cnaas_nms.Sync.Inventory.Chosen.{asked, select_devices-asked}
use cnaas_nms.Sync.Tasks.{sync_check_hash, get_confirm_mode}
use cnaas_nms.Sync.Locks.{SyncArgs, release}
use cnaas_nms.Sync.Marking.{
  Outcome, mark_phase, mark_rows, mark_changed, mark_one, touch, mark_unchanged, release_rows,
  release_now,
}
use cnaas_nms.Sync.Marking.Marks.{is_synced, mark_phase-is_synced}
use cnaas_nms.Sync.Devices.{sync_devices, total_change_score, next_phase, autopush}
use cnaas_nms.Sync.Devices.Checking.{sync_devices_check_failed, OnlyDevices}
use cnaas_nms.Sync.Devices.Total.{total_change_score_bounds, next_phase-dry_run, AutoPushed}
use cnaas_nms.Examples.Data.{db0, env0, args0, access1}

abbrev hashed_db : Db
hashed_db = record db0 { devices = record access1 { confhash = some "old" } ∷ [] }

sync_devices_check_failed_example :
    ((sync_devices env0 args0 hashed_db).0 ≡ err exception)
    × OnlyDevices hashed_db (sync_devices env0 args0 hashed_db).1
unfolding load select_devices sync_check_hash
sync_devices_check_failed_example =
    sync_devices_check_failed env0 args0 hashed_db "access1" refl refl refl

abbrev busy : Env
busy = record env0 { others = λ n locks. new_lock 1 "devices" 9 ∷ [] }

abbrev changed : Outcome
changed = record { changed = "access1" ∷ []; unchanged = "dist1" ∷ []; scores = [] }

abbrev locked_db : Db
locked_db = record db0 { locks = new_lock 1 "devices" 2 ∷ [] }

mark_phase-is_synced_example :
    is_synced "access1" (mark_phase env0 args0 changed locked_db).1 ≡ true
unfolding mark_phase mark_rows mark_changed mark_one touch mark_unchanged release_rows release_now
    release release_lock get_confirm_mode remove_sync_events ◌>>=◌
mark_phase-is_synced_example =
    mark_phase-is_synced env0 args0 changed "access1" locked_db refl refl refl refl

abbrev one_device : List String
one_device = "a" ∷ []

total_change_score_bounds_example :
    (total_change_score one_device [] (record { num = 25; den = 2 } ∷ []) ≤ 100)
    × ((total_change_score one_device [] (record { num = 25; den = 2 } ∷ []) ≡ 0)
        ↔ (one_device ≡ []))
    × ((d : String) (ds : List String) (f : String) (fs : List String)
        → total_change_score (d ∷ ds) (f ∷ fs) (record { num = 25; den = 2 } ∷ []) ≡ 100)
total_change_score_bounds_example =
    total_change_score_bounds one_device [] (record { num = 25; den = 2 } ∷ [])

abbrev auto_args : SyncArgs
auto_args = record args0 { dry_run = true; auto_push = true }

next_phase-dry_run_example :
    (true ≡ true)
    × (length {A = String} ("access1" ∷ []) ≡ 1)
    × (auto_args.hostnames ≢ [])
    × AutoPushed auto_args 5 changed.changed 4 db0
        (next_phase env0 auto_args ("access1" ∷ []) [] changed 5 db0).1
unfolding next_phase autopush add_onetime_job ◌>>=◌
next_phase-dry_run_example =
    next_phase-dry_run env0 auto_args ("access1" ∷ []) [] changed 5 4 db0 refl refl

select_devices-asked_example :
    (select_devices (load env0.get_groups db0.devices) [] none (some "T_DIST") false).hosts
    ≡ select (asked [] none (some "T_DIST") false) (load env0.get_groups db0.devices)
select_devices-asked_example =
    select_devices-asked (load env0.get_groups db0.devices) [] none (some "T_DIST") false

abbrev history0 : SyncEvents
history0 = ("a", new_event 1 "refresh" none none none ∷ []) ∷ []

get-add_sync_event_example :
    (lookup "a" (
        get_sync_events one_device (add_sync_event 2 "a" "linknet_created" none none none history0))
      ≡ some (
          new_event 1 "refresh" none none none ∷ new_event 2 "linknet_created" none none none ∷ []))
    × (lookup "a" (get_sync_events [] (remove_sync_events "a" history0)) ≡ none)
get-add_sync_event_example =
    get-add_sync_event 2 "a" "linknet_created" none none none "a" [] "a" history0
