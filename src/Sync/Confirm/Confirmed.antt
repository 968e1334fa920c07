-- ===== src/Sync/Confirm/Confirmed.antt =====
-- What a confirm job leaves behind.
use cnaas_nms.Prelude.{ℕ, suc, ◌≡◌, ap, List, [], false, arith, String, Option, none, some}
use cnaas_nms.Prelude.Exec.{Error, ok, pure, modify, handle, ◌>>=◌}
use cnaas_nms.Prelude.Same.{>>=-returned}
use cnaas_nms.Schema.{Db}
use cnaas_nms.Jobs.Joblock.{find_by_job}
use cnaas_nms.Sync.Env.{Env}
use cnaas_nms.Sync.Tasks.{HostRun, failed_hosts, post_sync_update_confighash}
use cnaas_nms.Sync.Locks.{release, session}
use cnaas_nms.Sync.Locks.Tries.{session_returned, release_frees}
use cnaas_nms.Sync.Devices.Locking.{IsFree, release_refused}
use cnaas_nms.Sync.Confirm.{
  ConfirmArgs, confirm_devices, confirm_phase, confirm_rows, confirm_hosts, confirm_runs,
  mark_confirmed, confirm_selected,
}

-- A release that is tried in a session of its own, its errors swallowed, frees the lock all the same.
give_back_frees :
    (k : ℕ) (db : Db) → IsFree k (handle (session (release (suc k))) (λ _. pure false) db).1
unfolding pure
give_back_frees k db = ground (arith, release_refused k db, release_frees k db)

confirm_phase_frees :
    (env : Env) (args : ConfirmArgs) (k : ℕ) (hosts : List String) (db : Db) (runs : List HostRun)
    → args.prev_job_id ≡ suc k
    → (confirm_phase env args none hosts db).0 ≡ ok runs
    → IsFree k (confirm_phase env args none hosts db).1
unfolding confirm_phase confirm_rows pure
confirm_phase_frees env args k hosts db runs id h =
    let rs = confirm_runs env hosts in
    let (_, _, two, e1) =
      >>=-returned (modify (post_sync_update_confighash env false false hosts [] (failed_hosts rs)))
        _ db runs h in
    let (a, three, _, e2) = >>=-returned (session (confirm_rows env args rs)) _ _ runs two in
    let (four, e3) = session_returned (confirm_rows env args rs) _ a three in
    let (_, _, _, e4) = >>=-returned (mark_confirmed env args rs) _ _ a four in
    rw (e1, e2, e3, e4, id) (release_frees k _)

confirm_phase_raised :
    (env : Env) (args : ConfirmArgs) (k : ℕ) (e : Error) (hosts : List String) (db : Db)
    → args.prev_job_id ≡ suc k
    → IsFree k (confirm_phase env args (some e) hosts db).1
unfolding confirm_phase ◌>>=◌
confirm_phase_raised env args k e hosts db id = rw id (ground (arith, give_back_frees k db))

confirm_devices-confirm_phase :
    (env : Env) (args : ConfirmArgs) (db : Db) (hosts : List String)
    → confirm_selected env args db ≡ ok hosts
    → confirm_devices env args db ≡ confirm_phase env args env.confirm_raises hosts db
unfolding confirm_devices
confirm_devices-confirm_phase env args db hosts selected =
    ap (λ r. confirm_hosts env args r db) selected

-- A confirm job that got past the selection of its hosts, for a sync with a job id that is not 0:
-- if it returns, it has given back the lock of that sync; so it has if its run raised, though it
-- then raises itself.
pub confirm_devices_frees :
    (env : Env) (args : ConfirmArgs) (k : ℕ) (db : Db) (hosts : List String)
    → args.prev_job_id ≡ suc k
    → confirm_selected env args db ≡ ok hosts
    → ((runs : List HostRun)
        → (confirm_devices env args db).0 ≡ ok runs
        → find_by_job (suc k) (confirm_devices env args db).1.locks ≡ none)
      × ((e : Error)
          → env.confirm_raises ≡ some e
          → find_by_job (suc k) (confirm_devices env args db).1.locks ≡ none)
confirm_devices_frees env args k db hosts id selected =
    rw (confirm_devices-confirm_phase env args db hosts selected) (frees env.confirm_raises)
  where
    frees :
        (raises : Option Error)
        → ((runs : List HostRun)
            → (confirm_phase env args raises hosts db).0 ≡ ok runs
            → find_by_job (suc k) (confirm_phase env args raises hosts db).1.locks ≡ none)
          × ((e : Error)
              → raises ≡ some e
              → find_by_job (suc k) (confirm_phase env args raises hosts db).1.locks ≡ none)
    frees none = (λ runs h. confirm_phase_frees env args k hosts db runs id h, λ e h. cc)
    frees (some e) =
        let f = confirm_phase_raised env args k e hosts db id in (λ runs h. f, λ e h. f)
