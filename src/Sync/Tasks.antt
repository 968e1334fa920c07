-- ===== src/Sync/Tasks.antt =====
-- The nornir tasks of src/cnaas_nms/devicehandler/sync_devices.py, and what a run of one over the
-- selected hosts gives: a task that raises marks its host as failed.
use cnaas_nms.Prelude.{
  ℕ, zero, suc, String, Bool, true, false, Option, none, some, List, [], ◌∷◌, ◌++◌, ◌&&◌, ◌==◌,
  if◌then◌else◌, select, mem, str_eq, any, first, update,
}
use cnaas_nms.Prelude.Exec.{Result, ok, err, exception}
use cnaas_nms.Schema.{Db, Device}
use cnaas_nms.Sync.Score.{Text, Score, calculate_score}
use cnaas_nms.Sync.History.{add_sync_event}
use cnaas_nms.Sync.Env.{Env, PushAnswers}

-- What `nrresult` holds of one host: the mark, the number of results, the diff of the third, and
-- what the task stored in `host["change_score"]`.
pub record HostRun : Type 0 where
  pub name : String
  pub failed : Bool
  pub results : ℕ
  pub diff : Text
  pub change_score : Option Score
  pub lost : Bool  -- the check after a commit could not reach the device

abbrev pub is_err {ℓ} : {A : Type ℓ} → Result A → Bool
is_err (ok a) = false
is_err (err e) = true

-- `list(nrresult.failed_hosts.keys())`
abbrev pub failed_hosts : List HostRun → List String
failed_hosts [] = []
failed_hosts (r ∷ runs) = let rest = failed_hosts runs in if r.failed then r.name ∷ rest else rest

-- `nrresult.failed`
abbrev pub run_failed : List HostRun → Bool
run_failed = any (λ r. r.failed)

abbrev pub find_device : String → List Device → Option Device
find_device hostname = first (λ d. str_eq d.hostname hostname)

abbrev pub set_device : String → (Device → Device) → Db → Db
set_device hostname f db = record db {
  devices = update (λ d. str_eq d.hostname hostname) f db.devices;
}

-- `Device.get_config_hash`
abbrev stored_hash : String → Db → Option String
stored_hash hostname db = elim (find_device hostname db.devices) [
  | none ↦ none
  | some d ↦ d.confhash
]

-- `sync_check_hash(task, force)`: the configuration's hash must be the stored one.
unfoldable pub sync_check_hash : Env → Bool → Db → String → Result (Unit {0})
sync_check_hash env force db hostname = if force then ok tt else elim (stored_hash hostname db) [
  | none ↦ ok tt
  | some stored ↦ elim (env.running hostname) [
    | err e ↦ err e
    | ok config ↦ if str_eq stored (env.sha256 config) then ok tt else err exception
  ]
]

-- `nr_filtered.run(task=sync_check_hash)`
unfoldable pub run_check : Env → Bool → Db → List String → List HostRun
unfolding sync_check_hash
run_check env force db [] = []
run_check env force db (host ∷ hosts) =
    record {
      name = host;
      failed = is_err (sync_check_hash env force db host);
      results = 1;
      diff = [];
      change_score = none;
      lost = false;
    }
    ∷ run_check env force db hosts

-- `get_confirm_mode(confirm_mode_override)`
unfoldable pub get_confirm_mode : (setting override : Option ℕ) → ℕ
get_confirm_mode setting (some zero) = 0
get_confirm_mode setting (some (suc zero)) = 1
get_confirm_mode setting (some (suc (suc zero))) = 2
get_confirm_mode (some zero) _ = 0
get_confirm_mode (some (suc zero)) _ = 1
get_confirm_mode (some (suc (suc zero))) _ = 2
get_confirm_mode _ _ = 1

abbrev pushed : String → ℕ → Text → Text → Bool → Bool → HostRun
pushed host results config diff failed lost = record {
  name = host;
  failed = failed;
  results = results;
  diff = diff;
  change_score = elim diff [
    | [] ↦ some (record { num = 0; den = 1 })
    | c ∷ cs ↦ some (calculate_score config (c ∷ cs))
  ];
  lost = lost;
}

abbrev broken : String → ℕ → Bool → HostRun
broken host results lost = record {
  name = host;
  failed = true;
  results = results;
  diff = [];
  change_score = none;
  lost = lost;
}

-- `push_sync_device(task, confirm_mode, dry_run)` by the answers of its steps. Results: the task's
-- own, then one for each step that was run.
unfoldable pub push_sync_device :
    (confirm_mode : ℕ) (dry_run : Bool) → String → PushAnswers → HostRun
push_sync_device confirm_mode dry_run host answers = elim answers.generate [
  | err e ↦ broken host 2 false
  | ok config ↦ elim answers.configure [
    | err e ↦ broken host 3 false
    | ok diff ↦
        if confirm_mode == 2
        then (if dry_run then pushed host 3 config diff false false else elim answers.verify [
          | err e ↦ broken host 4 true
          | ok _ ↦ pushed host 4 config diff false false
        ])
        else pushed host 3 config diff false false
  ]
]

-- `nr_filtered.run(task=push_sync_device)`
unfoldable pub run_push : Env → (confirm_mode : ℕ) (dry_run : Bool) → List String → List HostRun
unfolding push_sync_device
run_push env confirm_mode dry_run [] = []
run_push env confirm_mode dry_run (host ∷ hosts) =
    push_sync_device confirm_mode dry_run host (env.answers host)
    ∷ run_push env confirm_mode dry_run hosts

-- A host that was lost after a commit leaves a sync event.
abbrev pub lose : Env → Option String → Option ℕ → HostRun → Db → Db
lose env scheduled_by job_id r db = record db {
  sync_events =
      if r.lost
      then add_sync_event env.now r.name "commit_confirm_failed" scheduled_by job_id none
          db.sync_events
      else db.sync_events;
}

unfoldable pub lost_events : Env → Option String → Option ℕ → List HostRun → Db → Db
lost_events env scheduled_by job_id [] db = db
lost_events env scheduled_by job_id (r ∷ runs) db =
    lost_events env scheduled_by job_id runs (lose env scheduled_by job_id r db)

unfoldable pub after_push : Env → Option String → Option ℕ → List HostRun → Db → Db
unfolding lost_events
after_push env scheduled_by job_id runs db = lost_events env scheduled_by job_id runs db

-- `update_config_hash(task)`: a host that cannot be read, or whose hash is empty, keeps its hash.
abbrev pub hashed : Env → String → Db → Db
hashed env host db = elim (env.running_after host) [
  | err e ↦ db
  | ok config ↦
      if str_eq (env.sha256 config) ""
      then db
      else set_device host (λ d. record d { confhash = some (env.sha256 config) }) db
]

unfoldable pub update_hashes : Env → List String → Db → Db
update_hashes env [] db = db
update_hashes env (host ∷ hosts) db = update_hashes env hosts (hashed env host db)

abbrev is_not : Bool → Bool
is_not true = false
is_not false = true

-- The hosts whose hash `post_sync_update_cofighash` renews.
unfoldable pub hash_hosts :
    (dry_run force : Bool) (hosts unchanged failed : List String) → List String
hash_hosts dry_run force hosts unchanged failed =
    if dry_run && force
    then select (λ h. mem h unchanged) hosts
    else if dry_run
    then []
    else select (λ h. is_not (mem h (failed ++ unchanged))) hosts

-- `post_sync_update_cofighash`
unfoldable pub post_sync_update_confighash :
    Env → (dry_run force : Bool) (hosts unchanged failed : List String) → Db → Db
unfolding update_hashes hash_hosts
post_sync_update_confighash env dry_run force hosts unchanged failed db =
    update_hashes env (hash_hosts dry_run force hosts unchanged failed) db
