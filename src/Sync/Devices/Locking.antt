-- ===== src/Sync/Devices/Locking.antt =====
-- What a sync that is not a dry run does with the device lock.
use cnaas_nms.Prelude.{
  ℕ, suc, ◌≡◌, true, false, Option, none, some, List, [], ◌∷◌, arith, ◌==◌, inl, inr, String, ◌⊎◌,
  lookup, refl, ap, ◌∙◌,
}
use cnaas_nms.Prelude.Exec.{Error, ok, pure, modify, ◌>>=◌}
use cnaas_nms.Prelude.Same.{>>=-returned}
use cnaas_nms.Schema.{Db, ArgValue, Dispatch}
use cnaas_nms.Jobs.Scheduler.{add_onetime_job}
use cnaas_nms.Jobs.Joblock.{find_by_job, release_lock, current_lock}
use cnaas_nms.Sync.Env.{Env}
use cnaas_nms.Sync.Tasks.{HostRun, after_push, failed_hosts}
use cnaas_nms.Sync.Locks.{SyncArgs, SyncResult, job_mode, check_phase, lock_phase, release}
use cnaas_nms.Sync.Locks.Tries.{release_frees, session_returned}
use cnaas_nms.Sync.Marking.{
  Outcome, classify, mark_phase, mark_rows, mark_changed, mark_unchanged, release_now, release_rows,
}
use cnaas_nms.Sync.Devices.{
  next_phase, two_step_end, schedule_confirm, push_raised, finish_phase, push_phase, sync_hosts,
  selected, renew_hashes, sync_devices,
}

-- The job holds no lock.
abbrev pub IsFree : ℕ → Db → Type 0
IsFree k db = find_by_job (suc k) db.locks ≡ none

-- A release that raised found no lock of the job.
pub release_refused : (k : ℕ) (db : Db) → IsFree k db ⊎ ((release (suc k) db).0 ≡ ok true)
unfolding release release_lock current_lock
release_refused k db = ground arith

push_raised_frees :
    (env : Env) (args : SyncArgs) (k : ℕ) (checked : List HostRun) (db : Db)
    → args.dry_run ≡ false
    → args.job_id ≡ suc k
    → IsFree k (push_raised env args checked db).1
unfolding push_raised ◌>>=◌
push_raised_frees env args k checked db dry id =
    rw (dry, id) (ground (arith, release_refused k db, release_frees k db))

release_now_frees :
    (env : Env) (args : SyncArgs) (k : ℕ) (db : Db)
    → args.job_id ≡ suc k
    → IsFree k (release_now env args db).1
unfolding release_now ◌>>=◌
release_now_frees env args k db id = ground (arith, release_frees k db)

release_rows_frees :
    (env : Env) (args : SyncArgs) (k : ℕ) (db : Db)
    → args.dry_run ≡ false
    → (job_mode env args == 2) ≡ false
    → args.job_id ≡ suc k
    → IsFree k (release_rows env args db).1
unfolding release_rows
release_rows_frees env args k db dry mode id = ground (arith, release_now_frees env args k db id)

mark_phase_frees :
    (env : Env) (args : SyncArgs) (k : ℕ) (out : Outcome) (db : Db)
    → args.dry_run ≡ false
    → (job_mode env args == 2) ≡ false
    → args.job_id ≡ suc k
    → (mark_phase env args out db).0 ≡ ok tt
    → IsFree k (mark_phase env args out db).1
unfolding mark_phase mark_rows
mark_phase_frees env args k out db dry mode id h =
    let (one, here) = session_returned (mark_rows env args out) db tt h in
    let (_, _, two, e1) = >>=-returned (mark_changed env args out.changed) _ db tt one in
    let (_, _, three, e2) = >>=-returned (mark_unchanged env out.unchanged) _ _ tt two in
    rw (here, e1, e2) (release_rows_frees env args k _ dry mode id)

-- The confirm job of a sync, as it is handed to the scheduler with that id.
abbrev pub IsConfirmOf : ℕ → ℕ → Dispatch → Type 0
IsConfirmOf job_id next dispatch =
    (dispatch.job_id ≡ next)
    × (dispatch.func ≡ "cnaas_nms.devicehandler.sync_devices:confirm_devices")
    × (lookup "prev_job_id" dispatch.kwargs ≡ some (ArgValue.number job_id))

-- The sync has handed its confirm job to the scheduler, and has waited for it.
abbrev pub Confirming : Env → ℕ → Option ℕ → Db → Type 0
Confirming env job_id next db' =
    (id : ℕ) × (next ≡ some id)
    × (db : Db) × (db' ≡ (env.waited db).1)
    × (dispatch : Dispatch) × (others : List Dispatch) × (db.dispatched ≡ dispatch ∷ others)
    × IsConfirmOf job_id id dispatch

schedule_confirm_lem :
    (env : Env) (args : SyncArgs) (k : ℕ) (changed : List String) (db : Db) (id : ℕ)
    → args.job_id ≡ k
    → (schedule_confirm env args changed db).0 ≡ ok id
    → (dispatch : Dispatch) × ((schedule_confirm env args changed db).1.dispatched
        ≡ dispatch ∷ db.dispatched)
      × IsConfirmOf k id dispatch
unfolding add_onetime_job
schedule_confirm_lem env args k changed db id is h =
    (_, refl, (ground (arith, h), refl, ap (λ (n : ℕ). some (ArgValue.number n)) is))

two_step_end_frees :
    (env : Env) (args : SyncArgs) (k : ℕ) (failed changed : List String) (db : Db) (next : Option ℕ)
    → args.job_id ≡ suc k
    → (two_step_end env args failed changed db).0 ≡ ok next
    → IsFree k (two_step_end env args failed changed db).1
      ⊎ Confirming env (suc k) next (two_step_end env args failed changed db).1
unfolding two_step_end ◌>>=◌
two_step_end_frees env args k (f ∷ failed) changed db next id h =
    inl (ground (arith, release_frees k db))
two_step_end_frees env args k [] [] db next id h = inl (ground (arith, release_frees k db))
two_step_end_frees env args k [] (c ∷ changed) db next id h =
    let (n, is, one, e1) = >>=-returned (schedule_confirm env args (c ∷ changed)) _ db next h in
    let (u, _, two, e2) = >>=-returned env.waited _ _ next one in
    let (dispatch, first, confirms) =
      schedule_confirm_lem env args (suc k) (c ∷ changed) db n id is in
    inr (
      n,
      unfold pure in ground (arith, two),
      (schedule_confirm env args (c ∷ changed) db).1,
      e1 ∙ e2,
      dispatch,
      db.dispatched,
      first,
      confirms,
    )

-- What is left of the lock: it is free, or the job that is scheduled next will free it.
abbrev Settled : Env → SyncArgs → ℕ → Option ℕ → Db → Type 0
Settled env args k next db =
    IsFree k db ⊎ (((job_mode env args == 2) ≡ true) × Confirming env (suc k) next db)

module _ (env : Env) (args : SyncArgs) (k : ℕ) (dry : args.dry_run ≡ false)
    (id : args.job_id ≡ suc k) where
  next_phase-Settled :
      (hosts failed : List String) (out : Outcome) (total : ℕ) (db : Db) (next : Option ℕ)
      → ((job_mode env args == 2) ≡ false → IsFree k db)
      → (next_phase env args hosts failed out total db).0 ≡ ok next
      → Settled env args k next (next_phase env args hosts failed out total db).1
  unfolding next_phase
  next_phase-Settled hosts failed out total db next free h =
      ground (arith, two_step_end_frees env args k failed out.changed db next id)

  finish_phase-Settled :
      (hosts : List String) (runs : List HostRun) (db : Db) (r : SyncResult)
      → (finish_phase env args hosts runs db).0 ≡ ok r
      → Settled env args k r.next_job_id (finish_phase env args hosts runs db).1
  unfolding finish_phase pure next_phase
  finish_phase-Settled hosts runs db r h =
      let failed = failed_hosts runs in
      let out = classify failed runs in
      let (_, _, two, e1) =
        >>=-returned (modify (renew_hashes env args hosts out.unchanged failed)) _ db r h in
      let (_, marked, three, e2) = >>=-returned (mark_phase env args out) _ _ r two in
      let (next, done, four, e3) =
        >>=-returned (next_phase env args hosts failed out _) _ _ r three in
      let same : r.next_job_id ≡ next = ground (arith, four) in
      rw (e1, e2, e3, same)
        (next_phase-Settled hosts failed out _ _ next
          (λ mode. mark_phase_frees env args k out _ dry mode id marked) done)

  push_phase-Settled :
      (hosts : List String) (checked : List HostRun) (raises : Option Error) (db : Db)
      (r : SyncResult)
      → (push_phase env args hosts checked raises db).0 ≡ ok r
      → Settled env args k r.next_job_id (push_phase env args hosts checked raises db).1
  unfolding push_phase
  push_phase-Settled hosts checked (some e) db r h =
      inl (push_raised_frees env args k checked db dry id)
  push_phase-Settled hosts checked none db r h =
      let (_, _, two, e1) =
        >>=-returned (modify (after_push env args.scheduled_by (some args.job_id) _)) _ db r h in
      rw e1 (finish_phase-Settled hosts _ _ r two)

-- A sync that is not a dry run, under a job id that is not 0, and that returns has given the
-- device lock back; or it ran in the two-step mode, has handed the scheduler a confirm job whose id is
-- the next job of its result and which confirms this sync, and has waited for it.
pub sync_devices-settled :
    (env : Env) (args : SyncArgs) (k : ℕ) (db : Db) (r : SyncResult)
    → args.dry_run ≡ false
    → args.job_id ≡ suc k
    → (sync_devices env args db).0 ≡ ok r
    → (find_by_job (suc k) (sync_devices env args db).1.locks ≡ none)
      ⊎ (((job_mode env args == 2) ≡ true)
          × Confirming env (suc k) r.next_job_id (sync_devices env args db).1)
unfolding sync_devices sync_hosts
sync_devices-settled env args k db r dry id h =
    let hosts = selected env args db in
    let (checked, _, two, e1) = >>=-returned (check_phase env args hosts) _ db r h in
    let (_, _, three, e2) = >>=-returned (lock_phase env args) _ _ r two in
    rw (e1, e2) (push_phase-Settled env args k dry id hosts checked env.push_raises _ r three)
