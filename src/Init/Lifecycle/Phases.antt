-- ===== src/Init/Lifecycle/Phases.antt =====
-- The phases of the first steps keep the states of all devices.
use cnaas_nms.Prelude.{
  ℕ, ◌+◌, ◌*◌, ◌≡◌, refl, ◌∙◌, String, Bool, true, false, Option, none, some, List, [], ◌∷◌,
  if_elim, ltb, leb, ◌&&◌,
}
use cnaas_nms.Prelude.Exec.{Exec, Error, Result, ok, err, modify, exception, integrity_error}
use cnaas_nms.Prelude.Same.{Same-bind, Same-pure, Same-raise, Same-modify, Same-query}
use cnaas_nms.Schema.{Db, Device, IpAddress, Mgmtdomain, ArgValue}
use cnaas_nms.Jobs.Scheduler.{add_onetime_job}
use cnaas_nms.Sync.Env.{Env}
use cnaas_nms.Sync.Tasks.{HostRun, run_failed, run_check}
use cnaas_nms.Sync.Locks.{session}
use cnaas_nms.Init.{InitEnv, set_id}
use cnaas_nms.Init.Synced.{
  check_neighbor_sync, then_confcheck, confcheck_devices, confcheck_run, confcheck_runs,
  mark_failed, mark_unsynced, checked_hosts,
}
use cnaas_nms.Init.Schedule.{
  schedule_mlag_peer_init, schedule_init_device_step2, schedule_discover_device, step2_job, some_id,
  discover_job,
}
use cnaas_nms.Addressing.{clean_reservations}
use cnaas_nms.Init.Rows.{
  reserve_primary, reserve_secondary, secondary_if, reserve_both, reserved, is_dual_stack, rename,
  is_taken_by_other, clear,
}
use cnaas_nms.Init.Lifecycle.{state_at}
use cnaas_nms.Init.Lifecycle.States.{KeepsState, state-update}
use cnaas_nms.Init.Lifecycle.Kept.{Kept}

module _ (id : ℕ) where
  kept-marked :
      (now : ℕ) (b : Bool) (r : HostRun) (db : Db)
      → r.failed ≡ b
      → state_at id (mark_unsynced now r db) ≡ state_at id db
  kept-marked now true r db e =
      rw e
        (state-update id _ (λ d. record d { synchronized = false }) (λ d. (refl, refl)) db.devices)
  kept-marked now false r db e = rw e refl

  kept-mark_failed :
      (now : ℕ) (runs : List HostRun) (db : Db)
      → state_at id (mark_failed now runs db) ≡ state_at id db
  unfolding mark_failed
  kept-mark_failed now [] db = refl
  kept-mark_failed now (r ∷ runs) db =
      kept-mark_failed now runs (mark_unsynced now r db) ∙ kept-marked now _ r db refl

  kept-runs :
      (env : Env) (runs : List HostRun) (db : Db)
      → state_at id (confcheck_runs env runs db).1 ≡ state_at id db
  kept-runs env runs db =
      if_elim (λ (r : Result (Unit {0}) × Db). state_at id r.1 ≡ state_at id db) (run_failed runs)
        (err exception, mark_failed env.now runs db) (ok tt, db)
        (λ e. kept-mark_failed env.now runs db) (λ e. refl)

  kept-run :
      (env : Env) (raises : Option Error) (runs : List HostRun) (db : Db)
      → state_at id (confcheck_run env raises runs db).1 ≡ state_at id db
  kept-run env (some e) runs db = refl
  kept-run env none runs db = kept-runs env runs db

  kept-confcheck :
      (env : Env) (hosts : List String) (r : Result (Unit {0})) (db : Db)
      → state_at id (then_confcheck env hosts r db).1 ≡ state_at id db
  unfolding confcheck_devices
  kept-confcheck env hosts (err e) db = refl
  kept-confcheck env hosts (ok u) db =
      kept-run env env.check_raises (run_check env false db (checked_hosts env hosts db)) db

  pub Kept-check : (env : Env) (hosts : List String) → Kept id (check_neighbor_sync env hosts)
  unfolding check_neighbor_sync
  Kept-check env hosts = record { at = λ db. kept-confcheck env hosts _ db }

  kept-session :
      {A : Type 0} (r : Result A) (db db' : Db)
      → state_at id db' ≡ state_at id db
      → state_at id (
          (elim r as (λ x. Result A × Db) [
            | ok a ↦ (ok a, db')
            | err e ↦ (err e, record db { sync_events = db'.sync_events })
          ]).1)
        ≡ state_at id db
  kept-session (ok a) db db' h = h
  kept-session (err e) db db' h = refl

  pub Kept-session : {A : Type 0} (m : Exec Db A) → Kept id m → Kept id (session m)
  Kept-session m h = record { at = λ db. kept-session (m db).0 db (m db).1 (h.at db) }

  pub Kept-job :
      (b c : Bool) (now : ℕ) (func : String) (when : Option ℕ) (by : Option String)
      (kwargs : List (String × ArgValue))
      → Kept id (add_onetime_job b c now func when by kwargs)
  unfolding add_onetime_job
  Kept-job b c now func when by kwargs = record {
    at = λ db.
        if_elim (λ (r : Result ℕ × Db). state_at id r.1 ≡ state_at id db) _ _ _ (λ e. refl)
          (λ e. refl);
  }

  Kept-reserved : (now device_id : ℕ) (ip : Option IpAddress) → Kept id (reserved now device_id ip)
  Kept-reserved now device_id none = Same-raise _ _
  Kept-reserved now device_id (some ip) =
      Same-bind _ _ _ (Same-modify _ _ (λ db. refl)) (λ u. Same-pure _ _)

  Kept-primary :
      (env : InitEnv) (device_id : ℕ) (dom : Mgmtdomain)
      → Kept id (reserve_primary env device_id dom)
  unfolding reserve_primary
  Kept-primary env device_id dom =
      Same-bind _ _ _ (Same-query _ _) (λ ip. Kept-reserved env.sync.now device_id ip)

  Kept-secondary_if :
      (env : InitEnv) (device_id : ℕ) (dom : Mgmtdomain) (b : Bool)
      → Kept id (secondary_if env device_id dom b)
  Kept-secondary_if env device_id dom false = Same-pure _ _
  Kept-secondary_if env device_id dom true =
      Same-bind _ _ _ (Same-query _ _)
        (λ ip. Same-bind _ _ _ (Kept-reserved env.sync.now device_id ip) (λ a. Same-pure _ _))

  Kept-secondary :
      (env : InitEnv) (device_id : ℕ) (dom : Mgmtdomain)
      → Kept id (reserve_secondary env device_id dom)
  unfolding reserve_secondary
  Kept-secondary env device_id dom = Kept-secondary_if env device_id dom (is_dual_stack dom)

  pub Kept-reserve :
      (env : InitEnv) (device_id : ℕ) (dom : Mgmtdomain) → Kept id (reserve_both env device_id dom)
  unfolding reserve_both
  Kept-reserve env device_id dom =
      Same-bind _ _ _ (Kept-primary env device_id dom)
        (λ ip. Same-bind _ _ _ (Kept-secondary env device_id dom) (λ s. Same-pure _ _))

  pub Kept-set_id :
      (device_id : ℕ) (f : Device → Device) → KeepsState f → Kept id (modify (set_id device_id f))
  Kept-set_id device_id f k = Same-modify _ _ (λ db. state-update id _ f k db.devices)

  pub Kept-rename : (device_id : ℕ) (name : String) → Kept id (rename device_id name)
  unfolding rename
  Kept-rename device_id name = record {
    at = λ db.
        if_elim (λ (r : Result (Unit {0}) × Db). state_at id r.1 ≡ state_at id db)
          (is_taken_by_other device_id name db) (err integrity_error, db)
          (ok tt, set_id device_id (λ d. record d { hostname = name }) db) (λ e. refl)
          (λ e.
            state-update id _ (λ d. record d { hostname = name }) (λ d. (refl, refl)) db.devices);
  }

  pub Kept-peer :
      (env : Env) (peer : ℕ) (name : String) (hosts : List String) (by : Option String)
      → Kept id (schedule_mlag_peer_init env peer name hosts by)
  unfolding schedule_mlag_peer_init
  Kept-peer env peer name hosts by = Kept-job _ _ _ _ _ _ _

  kept-some_id : (r : Result ℕ × Db) → state_at id (some_id r).1 ≡ state_at id r.1
  kept-some_id (err e, db) = refl
  kept-some_id (ok n, db) = refl

  pub kept-step2 :
      (env : Env) (device_id i : ℕ) (by : Option String) (db : Db)
      → state_at id (schedule_init_device_step2 env device_id i by db).1 ≡ state_at id db
  unfolding schedule_init_device_step2
  kept-step2 env device_id i by db =
      if_elim (λ (r : Result (Option ℕ) × Db). state_at id r.1 ≡ state_at id db)
        (ltb 0 i && ltb i 2) (some_id (step2_job env (30 * i) device_id (i + 1) by db))
        (ok none, db)
        (λ e.
          kept-some_id (step2_job env (30 * i) device_id (i + 1) by db)
          ∙ (Kept-job _ _ _ _ _ _ _).at db)
        (λ e. refl)

  pub kept-discover :
      (env : Env) (mac ip : String) (i : ℕ) (by : Option String) (db : Db)
      → state_at id (schedule_discover_device env mac ip i by db).1 ≡ state_at id db
  unfolding schedule_discover_device
  kept-discover env mac ip i by db =
      if_elim (λ (r : Result (Option ℕ) × Db). state_at id r.1 ≡ state_at id db)
        (ltb 0 i && leb i 3) (some_id (discover_job env mac ip i by db)) (ok none, db)
        (λ e. kept-some_id (discover_job env mac ip i by db) ∙ (Kept-job _ _ _ _ _ _ _).at db)
        (λ e. refl)

  pub Kept-clear : (now device_id : ℕ) → Kept id (modify (clear now device_id))
  unfolding clean_reservations
  Kept-clear now device_id = Same-modify _ _ (λ db. refl)
