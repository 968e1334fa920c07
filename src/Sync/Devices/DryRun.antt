-- ===== src/Sync/Devices/DryRun.antt =====
-- The device lock in a dry run.
use cnaas_nms.Prelude.{
  ℕ, ◌≡◌, refl, ◌∙◌, Bool, true, false, Option, none, some, List, [], ◌∷◌, arith, if◌then◌else◌,
  String,
}
use cnaas_nms.Prelude.Exec.{Exec, Error}
use cnaas_nms.Prelude.Same.{Same, Same-bind, same_rules}
use cnaas_nms.Schema.{Db, Joblock, ArgValue, Device}
use cnaas_nms.Jobs.Scheduler.{add_onetime_job}
use cnaas_nms.Sync.Env.{Env}
use cnaas_nms.Sync.Tasks.{
  HostRun, set_device, lose, run_check, after_push, update_hashes, hashed, hash_hosts,
  post_sync_update_confighash,
}
use cnaas_nms.Sync.Locks.{SyncArgs, check_phase, lock_phase, desynchronize, session}
use cnaas_nms.Sync.Marking.{
  Outcome, mark_phase, mark_rows, mark_changed, mark_unchanged, mark_dry_run, mark_one, touch,
  release_rows, mark_synchronized,
}
use cnaas_nms.Sync.Devices.{
  autopush, next_phase, push_raised, finish_phase, push_phase, sync_hosts, selected, renew_hashes,
  sync_devices,
}

abbrev pub locks_of : Db → List Joblock
locks_of db = db.locks

locks-desynchronize : (runs : List HostRun) (db : Db) → (desynchronize runs db).locks ≡ db.locks
locks-desynchronize [] db = refl
locks-desynchronize (r ∷ runs) db =
    locks-desynchronize runs
      (if r.failed then set_device r.name (λ d. record d { synchronized = false }) db else db)
    ∙ ground arith

pub check_phase-locks :
    (env : Env) (args : SyncArgs) (hosts : List String) → Same locks_of (check_phase env args hosts)
unfolding check_phase
check_phase-locks env args hosts = record {
  at = λ db. ground (arith, locks-desynchronize (run_check env args.force db hosts) db);
}

pub after_push-locks :
    (env : Env) (by : Option String) (job_id : Option ℕ) (runs : List HostRun) (db : Db)
    → (after_push env by job_id runs db).locks ≡ db.locks
unfolding after_push
after_push-locks env by job_id [] db = refl
after_push-locks env by job_id (r ∷ runs) db =
    after_push-locks env by job_id runs (lose env by job_id r db)

update_hashes-locks :
    (env : Env) (hosts : List String) (db : Db) → (update_hashes env hosts db).locks ≡ db.locks
unfolding update_hashes
update_hashes-locks env [] db = refl
update_hashes-locks env (host ∷ hosts) db =
    update_hashes-locks env hosts (hashed env host db) ∙ ground arith

pub renew_hashes-locks :
    (env : Env) (args : SyncArgs) (hosts unchanged failed : List String) (db : Db)
    → (renew_hashes env args hosts unchanged failed db).locks ≡ db.locks
unfolding renew_hashes post_sync_update_confighash
renew_hashes-locks env args hosts unchanged failed db =
    ground (
      arith,
      update_hashes-locks env (hash_hosts args.dry_run args.force hosts unchanged failed) db,
    )

touch-locks :
    (env : Env) (host : String) (f : Device → Device) (forget : Bool)
    → Same locks_of (touch env host f forget)
unfolding touch
touch-locks env host f forget = record { at = λ db. ground arith }

mark_dry_run-locks :
    (env : Env) (args : SyncArgs) (host : String) → Same locks_of (mark_dry_run env args host)
unfolding mark_dry_run
mark_dry_run-locks env args host = record { at = λ db. ground arith }

mark_one-locks :
    (env : Env) (args : SyncArgs) (host : String) → Same locks_of (mark_one env args host)
unfolding mark_one
mark_one-locks env args host = record {
  at = λ db. ground (
    arith,
    (mark_dry_run-locks env args host).at db,
    (touch-locks env host (mark_synchronized env.now) true).at db,
  );
}

pub mark_changed-locks :
    (env : Env) (args : SyncArgs) (hosts : List String)
    → Same locks_of (mark_changed env args hosts)
unfolding mark_changed
mark_changed-locks env args [] = search same_rules
mark_changed-locks env args (host ∷ hosts) =
    Same-bind locks_of (mark_one env args host) _ (mark_one-locks env args host)
      (λ _. mark_changed-locks env args hosts)

pub mark_unchanged-locks :
    (env : Env) (hosts : List String) → Same locks_of (mark_unchanged env hosts)
unfolding mark_unchanged
mark_unchanged-locks env [] = search same_rules
mark_unchanged-locks env (host ∷ hosts) =
    Same-bind locks_of (touch env host (mark_synchronized env.now) true) _
      (touch-locks env host (mark_synchronized env.now) true) (λ _. mark_unchanged-locks env hosts)

pub Same-session : {A : Type 0} (m : Exec Db A) → Same locks_of m → Same locks_of (session m)
Same-session m h = record { at = λ db. ground (arith, h.at db) }

pub add_onetime_job-locks :
    (serializable use_mule : Bool) (now : ℕ) (func : String) (when : Option ℕ) (by : Option String)
    (kwargs : List (String × ArgValue))
    → Same locks_of (add_onetime_job serializable use_mule now func when by kwargs)
unfolding add_onetime_job
add_onetime_job-locks serializable use_mule now func when by kwargs = record {
  at = λ db. ground arith;
}

ruleset lock_rules = (
  same_rules, mark_changed-locks, mark_unchanged-locks, Same-session, add_onetime_job-locks,
  renew_hashes-locks, after_push-locks,
)

-- The phases of a dry run.
module _ (env : Env) (args : SyncArgs) (dry : args.dry_run ≡ true) where
  lock_phase-dry : Same locks_of (lock_phase env args)
  unfolding lock_phase
  lock_phase-dry = record { at = λ db. rw dry refl }

  push_raised-dry : (checked : List HostRun) → Same locks_of (push_raised env args checked)
  unfolding push_raised
  push_raised-dry checked = rw dry (search lock_rules)

  release_rows-dry : Same locks_of (release_rows env args)
  unfolding release_rows
  release_rows-dry = record { at = λ db. ground arith }

  mark_rows-dry : (out : Outcome) → Same locks_of (mark_rows env args out)
  unfolding mark_rows
  mark_rows-dry out =
      Same-bind locks_of (mark_changed env args out.changed) _
        (mark_changed-locks env args out.changed)
        (λ _.
          Same-bind locks_of (mark_unchanged env out.unchanged) _
            (mark_unchanged-locks env out.unchanged) (λ _. release_rows-dry))

  mark_phase-dry : (out : Outcome) → Same locks_of (mark_phase env args out)
  unfolding mark_phase
  mark_phase-dry out = Same-session (mark_rows env args out) (mark_rows-dry out)

  autopush-dry :
      (total : ℕ) (changed : List String) → Same locks_of (autopush env args total changed)
  unfolding autopush
  autopush-dry total [] = search lock_rules
  autopush-dry total (h ∷ hs) = search lock_rules

  next_phase-dry :
      (devices failed : List String) (out : Outcome) (total : ℕ)
      → Same locks_of (next_phase env args devices failed out total)
  unfolding next_phase
  next_phase-dry devices failed out total = record {
    at = λ db. ground (arith, (autopush-dry total out.changed).at db);
  }

  finish_phase-dry :
      (hosts : List String) (runs : List HostRun) → Same locks_of (finish_phase env args hosts runs)
  unfolding finish_phase
  finish_phase-dry hosts runs = search (lock_rules, mark_phase-dry, next_phase-dry)

  push_phase-dry :
      (hosts : List String) (checked : List HostRun) (raises : Option Error)
      → Same locks_of (push_phase env args hosts checked raises)
  unfolding push_phase
  push_phase-dry hosts checked (some e) = push_raised-dry checked
  push_phase-dry hosts checked none = search (lock_rules, finish_phase-dry)

-- A dry run ends with the lock table it started with, whatever the devices, the database and the
-- other answers do.
pub sync_devices-dry_run :
    (env : Env) (args : SyncArgs) (db : Db)
    → args.dry_run ≡ true
    → (sync_devices env args db).1.locks ≡ db.locks
unfolding sync_devices sync_hosts
sync_devices-dry_run env args db dry =
    let hosts = selected env args db in
    (Same-bind locks_of (check_phase env args hosts) _ (check_phase-locks env args hosts)
        (λ checked.
          Same-bind locks_of (lock_phase env args) _ (lock_phase-dry env args dry)
            (λ _. push_phase-dry env args dry hosts checked env.push_raises))).at
      db
