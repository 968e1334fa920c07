-- ===== src/Jobs/History.antt =====
-- `Job.get_previous_config` of src/cnaas_nms/db/job.py: the configuration that an earlier sync job
-- generated for a device.
pub mod Newest
use cnaas_nms.Prelude.{
  ℕ, zero, suc, ◌+◌, String, Bool, true, false, Option, none, some, List, [], ◌∷◌, ◌&&◌, ltb,
  if◌then◌else◌, str_eq, select, lookup, is_some, drop, ◌==◌,
}
use cnaas_nms.Prelude.Exec.{Result, ok, err, job_not_found, invalid_job, attribute_error}
use cnaas_nms.Schema.{Job, JobData, HostEntry, TaskResult}
use cnaas_nms.Jobs.Job.{truthy}

-- The hosts under the key "devices" of a result: none where there is no such key.
unfoldable pub devices_of : Option JobData → List (String × HostEntry)
devices_of (some (JobData.devices hosts)) = hosts
devices_of _ = []

-- The three filters that every query starts with.
unfoldable pub is_sync_of : String → Job → Bool
unfolding devices_of
is_sync_of hostname job =
    str_eq job.function_name "sync_devices" && is_some (lookup hostname (devices_of job.result))

insert_desc : Job → List Job → List Job
insert_desc job [] = job ∷ []
insert_desc job (j ∷ jobs) =
    let rest = insert_desc job jobs in if ltb job.id j.id then j ∷ rest else job ∷ j ∷ jobs

-- `order_by(Job.id.desc())`
unfoldable pub order_desc : List Job → List Job
unfolding insert_desc
order_desc [] = []
order_desc (job ∷ jobs) = insert_desc job (order_desc jobs)

abbrev or_zero : Option ℕ → ℕ
or_zero none = 0
or_zero (some n) = n

-- `Job.finish_time < before`: a row with no finish time does not pass.
abbrev finished_before : ℕ → Job → Bool
finished_before before job = elim job.finish_time [ none ↦ false | some t ↦ ltb t before ]

abbrev pub head? : List Job → Option Job
head? [] = none
head? (job ∷ jobs) = some job

-- The query: by job, by a number of revisions back, before a time, or the latest.
unfoldable pub query_previous :
    (hostname : String) (previous job_id before : Option ℕ) (jobs : List Job) → Option Job
unfolding is_sync_of order_desc
query_previous hostname previous job_id before jobs =
    let syncs = select (is_sync_of hostname) jobs in
    if truthy job_id
    then head? (select (λ j. j.id == or_zero job_id) syncs)
    else if truthy previous
    then head? (drop (or_zero previous) (order_desc syncs))
    else elim before [
      | some t ↦ head? (order_desc (select (finished_before t) syncs))
      | none ↦ head? (order_desc syncs)
    ]

pub record PreviousConfig : Type 0 where
  pub job_id : ℕ
  pub finish_time : ℕ
  pub config : Option String
  pub failed : Bool

-- The loop over the tasks: the last task of that name wins.
config_of : Option String → List TaskResult → Option String
config_of config [] = config
config_of config (task ∷ tasks) =
    config_of (if str_eq task.name "Generate device config" then some task.result else config) tasks

entry_result : Job → ℕ → Option HostEntry → Result PreviousConfig
unfolding config_of
entry_result job finish_time none = err invalid_job
entry_result job finish_time (some entry) = elim entry.job_tasks [
  | none ↦ err invalid_job
  | some tasks ↦ elim entry.failed [
    | none ↦ err invalid_job
    | some failed ↦ ok (record {
      job_id = job.id;
      finish_time = finish_time;
      config = config_of none tasks;
      failed = failed;
    })
  ]
]

-- What is read from the job that the query found.
job_result : String → Option Job → Result PreviousConfig
unfolding entry_result devices_of
job_result hostname none = err job_not_found
job_result hostname (some job) = elim job.finish_time [
  | none ↦ err attribute_error
  | some t ↦ entry_result job t (lookup hostname (devices_of job.result))
]

-- `get_previous_config(session, hostname, previous, job_id, before)`
unfoldable pub get_previous_config :
    (hostname : String) (previous job_id before : Option ℕ) (jobs : List Job)
    → Result PreviousConfig
unfolding query_previous job_result
get_previous_config hostname previous job_id before jobs =
    job_result hostname (query_previous hostname previous job_id before jobs)
