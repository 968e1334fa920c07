-- ===== src/Jobs/Wrapper.antt =====
-- src/cnaas_nms/scheduler/wrapper.py: the decorator that keeps a job's row in step with the run of
-- its function, and the progress of its devices.
pub mod Outcome
use cnaas_nms.Prelude.{
  ℕ, String, Bool, true, false, Option, none, some, List, [], ◌∷◌, ◌++◌, if◌then◌else◌, str_eq, mem,
  update, ◌==◌,
}
use cnaas_nms.Prelude.Exec.{
  Exec, Error, Result, ok, err, pure, raise, modify, value_error, type_error, ◌>>=◌, ◌>>◌,
}
use cnaas_nms.Schema.{Db, Job}
use cnaas_nms.Jobs.Job.{JobResult, truthy, find_job, start_job, finish_success, finish_exception}

-- `find_nextjob`
unfoldable pub find_nextjob : JobResult → Option ℕ
find_nextjob result =
    if result.is_job_result
    then (if truthy result.next_job_id then result.next_job_id else none)
    else none

-- `insert_job_id`
unfoldable pub insert_job_id : JobResult → ℕ → JobResult
insert_job_id result job_id =
    if result.is_job_result
    then (if truthy result.job_id then result else record result { job_id = some job_id })
    else result

abbrev pub set_job : ℕ → (Job → Job) → Db → Db
set_job job_id f db = record db { jobs = update (λ j. j.id == job_id) f db.jobs }

-- The name that `start_job` is given.
abbrev new_function_name : String → Job → Option String
new_function_name func_name job =
    if str_eq job.function_name "wrapper" then some func_name else none

-- The first session: the row must be there, and is started.
start_row : ℕ → String → ℕ → Exec Db Unit
start_row now func_name job_id db = elim (find_job job_id db.jobs) [
  | none ↦ (err value_error, db)
  | some job ↦ (ok tt, set_job job_id (start_job now (new_function_name func_name job) none) db)
]

-- The last session, on either way out: the row must still be there, and is finished by `f`.
finish_row : ℕ → (Job → Job) → Exec Db Unit
finish_row job_id f db = elim (find_job job_id db.jobs) [
  | none ↦ (err value_error, db)
  | some job ↦ (ok tt, set_job job_id f db)
]

-- What an exception is in text (none: `json.dumps` refuses it), and its traceback.
pub record Report : Type 0 where
  pub text : Option String
  pub traceback : String

-- `wrapper(job_id, scheduled_by, kwargs)`: `func` is the wrapped function with its arguments;
-- `begun` and `ended` are the times of the two sessions. The progress thread is
-- `update_device_progress`.
unfoldable pub job_wrapper :
    (func_name : String) (func : Exec Db JobResult) (describe : Error → Report)
    → (begun ended : ℕ) (job_id : ℕ) → Exec Db JobResult
unfolding start_row finish_row insert_job_id find_nextjob ◌>>=◌
job_wrapper func_name func describe begun ended job_id db =
    if job_id == 0
    then (err value_error, db)
    else (do
      start_row begun func_name job_id
      λ started. elim ((func started).0) [
        | err e ↦
            (do
              finish_row job_id (finish_exception ended (describe e).text (describe e).traceback)
              raise e)
              (func started).1
        | ok res ↦
            (do
              let res' = insert_job_id res job_id
              finish_row job_id (finish_success ended res'.payload (find_nextjob res'))
              pure res')
              (func started).1
      ])
        db

abbrev add_finished : List String → Job → Result (Option (List String))
add_finished new job = elim job.finished_devices [
  | none ↦ err type_error
  | some old ↦ ok (some (old ++ new))
]

-- `update_device_progress`: the redis list `queue` is drained by `lpop`, and its hosts are appended
-- to the job's `finished_devices`. An exception leaves the queue drained.
unfoldable pub update_device_progress :
    ℕ → List String → List Job → Result (Unit {0}) × List String × List Job
update_device_progress job_id [] jobs = (ok tt, [], jobs)
update_device_progress job_id (host ∷ queue) jobs = elim (find_job job_id jobs) [
  | none ↦ (err value_error, [], jobs)
  | some job ↦ elim (add_finished (host ∷ queue) job) [
    | err e ↦ (err e, [], jobs)
    | ok finished ↦ (
      ok tt,
      [],
      update (λ j. j.id == job_id) (λ j. record j { finished_devices = finished }) jobs,
    )
  ]
]
