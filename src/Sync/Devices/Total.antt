-- ===== src/Sync/Devices/Total.antt =====
-- The total change score of a sync.
use cnaas_nms.Prelude.{
  ℕ, ◌≡◌, ◌≤◌, ◌<◌, ◌↔◌, ◌≢◌, refl, lookup, ltb→lt, Option, Bool, ◌&&◌, ◌==◌, false, none, List, [],
  ◌∷◌, true, arith, String, ltb, some, length, Bool-cases, inl, inr,
}
use cnaas_nms.Prelude.Exec.{Exec, ok, pure, ◌>>=◌}
use cnaas_nms.Schema.{Db, ArgValue, Dispatch}
use cnaas_nms.Jobs.Scheduler.{add_onetime_job}
use cnaas_nms.Sync.Score.{Score}
use cnaas_nms.Sync.Env.{Env}
use cnaas_nms.Sync.Locks.{SyncArgs}
use cnaas_nms.Sync.Marking.{Outcome}
use cnaas_nms.Sync.Inventory.{given, several}
use cnaas_nms.Sync.Devices.{
  total_change_score, clamp_score, max_of, autopush, next_phase, autopush_max_score,
  schedule_autopush,
}

clamp_score_bounds : (s : Score) → (1 ≤ clamp_score s) × (clamp_score s ≤ 100)
clamp_score_bounds s = ground arith

-- The total score is at most 100; it is 0 exactly where no device was selected; it is 100 where a
-- device failed.
pub total_change_score_bounds :
    (devices failed : List String) (scores : List Score)
    → (total_change_score devices failed scores ≤ 100)
      × ((total_change_score devices failed scores ≡ 0) ↔ (devices ≡ []))
      × ((d : String) (ds : List String) (f : String) (fs : List String)
          → total_change_score (d ∷ ds) (f ∷ fs) scores ≡ 100)
unfolding total_change_score
total_change_score_bounds [] failed scores = (ground arith, ground arith, λ d ds f fs. refl)
total_change_score_bounds (d ∷ devices) (f ∷ failed) scores =
    (ground arith, ground arith, λ d ds f fs. refl)
total_change_score_bounds (d ∷ devices) [] [] = (ground arith, ground arith, λ d ds f fs. refl)
total_change_score_bounds (d ∷ devices) [] (s ∷ scores) =
    let b = clamp_score_bounds (max_of s scores) in (b.1, ground (arith, b.0), λ d ds f fs. refl)

-- The live run of the same hosts that is handed to the scheduler.
abbrev pub IsLiveRun : SyncArgs → ℕ → Dispatch → Type 0
IsLiveRun args next dispatch =
    (dispatch.job_id ≡ next)
    × (dispatch.func ≡ "cnaas_nms.devicehandler.sync_devices:sync_devices")
    × (lookup "hostnames" dispatch.kwargs ≡ some (ArgValue.names args.hostnames))
    × (lookup "dry_run" dispatch.kwargs ≡ some (ArgValue.flag false))
    × (lookup "force" dispatch.kwargs ≡ some (ArgValue.flag args.force))
    × (lookup "auto_push" dispatch.kwargs ≡ none)

-- What auto-push has done where it gave an id.
abbrev pub AutoPushed : SyncArgs → ℕ → List String → ℕ → Db → Db → Type 0
AutoPushed args total changed next db db' =
    (total < autopush_max_score)
    × (changed ≢ [])
    × (dispatch : Dispatch) × (db'.dispatched ≡ dispatch ∷ db.dispatched)
    × IsLiveRun args next dispatch

abbrev then_id : Exec Db ℕ → Exec Db (Option ℕ)
then_id run = do id ← run; pure (some id)

scheduled-AutoPushed :
    (env : Env) (args : SyncArgs) (total : ℕ) (changed : List String) (next : ℕ) (db : Db)
    → total < autopush_max_score
    → changed ≢ []
    → (then_id (schedule_autopush env args) db).0 ≡ ok (some next)
    → AutoPushed args total changed next db (then_id (schedule_autopush env args) db).1
unfolding add_onetime_job ◌>>=◌ pure
scheduled-AutoPushed env args total changed next db small some_changed h =
    (small, some_changed, _, refl, (ground (arith, h), refl, refl, refl, refl, refl))

autopush-AutoPushed :
    (env : Env) (args : SyncArgs) (total : ℕ) (changed : List String) (next : ℕ) (db : Db)
    → (autopush env args total changed db).0 ≡ ok (some next)
    → AutoPushed args total changed next db (autopush env args total changed db).1
unfolding autopush
autopush-AutoPushed env args total [] next db h = unfold pure in cc
autopush-AutoPushed env args total (c ∷ changed) next db h =
    elim (Bool-cases (ltb total autopush_max_score)) [
      | inl e ↦ rw e (
          scheduled-AutoPushed env args total (c ∷ changed) next db (ltb→lt _ _ e) (λ k. cc)
            (rw e at h))
      | inr e ↦ unfold pure in ground arith
    ]

abbrev asks : SyncArgs → List String → Bool
asks args devices =
    args.auto_push && length devices == 1 && given (several args.hostnames) && args.dry_run

given_lem : (hostnames : List String) → given (several hostnames) ≡ true → hostnames ≢ []
given_lem [] h e = cc
given_lem (n ∷ hostnames) h e = cc

-- A dry run schedules a next job only where auto-push was asked for, exactly one device was selected
-- and it was named, the total score is below the limit, and the run has found a device that would
-- change. The job is a sync of the same devices that is no dry run and does not ask for auto-push.
pub next_phase-dry_run :
    (env : Env) (args : SyncArgs) (devices failed : List String) (out : Outcome) (total next : ℕ)
    (db : Db)
    → args.dry_run ≡ true
    → (next_phase env args devices failed out total db).0 ≡ ok (some next)
    → (args.auto_push ≡ true)
      × (length devices ≡ 1)
      × (args.hostnames ≢ [])
      × AutoPushed args total out.changed next db
          (next_phase env args devices failed out total db).1
unfolding next_phase
next_phase-dry_run env args devices failed out total next db dry h =
    elim (Bool-cases (asks args devices)) [
      | inl e ↦ (
        ground (arith, e),
        ground (arith, e),
        given_lem args.hostnames (ground (arith, e)),
        rw e (autopush-AutoPushed env args total out.changed next db (rw e at h)),
      )
      | inr e ↦ absurd (ground (arith, e, dry, h))
    ]
