-- ===== src/Jobs/Job.antt =====
-- The methods of `Job` in src/cnaas_nms/db/job.py that change a job's row. A method returns the new
-- row. The event that it sends to redis is sent inside `try ... except: pass` and is left out.
pub mod Lifecycle
use cnaas_nms.Prelude.{
  ℕ, zero, suc, ◌+◌, String, Bool, true, false, Option, none, some, List, [], ◌∷◌, ◌||◌, ltb,
  if◌then◌else◌, is_some, str_eq, select, first, update, ◌==◌, map,
}
use cnaas_nms.Prelude.Exec.{Exec, Error, pure, raise, job_not_found, ◌>>=◌}
use cnaas_nms.Schema.{Db, Job, JobStatus, JobData, ExceptionData, HostEntry, TaskResult, status_eq}

-- `if x:` for an optional number: none and 0 are false.
abbrev pub truthy : Option ℕ → Bool
truthy none = false
truthy (some zero) = false
truthy (some (suc n)) = true

abbrev pub or_keep : Option String → String → String
or_keep none old = old
or_keep (some s) old = if str_eq s "" then old else s

-- `change_score` of a nornir job's result: `Optional[float]`, of which only an `int` is stored.
pub data ChangeScore : Type 0 where
  int : ℕ → ChangeScore
  float : ChangeScore

-- What a job's function returns, by the tests of `finish_success`: a nornir result with its
-- `AggregatedResult`, a `StrJobResult` or `DictJobResult`, or any other value by what
-- `json.dumps` makes of it (none: it raises).
pub data Payload : Type 0 where
  nornir : List (String × List TaskResult) → Option ChangeScore → Payload
  direct : JobData → Payload
  other : Option String → Payload

-- scheduler/jobresult.py: `is_job_result` is `isinstance(res, JobResult)`.
pub record JobResult : Type 0 where
  pub is_job_result : Bool
  pub job_id : Option ℕ
  pub next_job_id : Option ℕ
  pub payload : Payload

-- The loop over one host's results in `nr_result_serialize` (devicehandler/nornir_helper.py).
serialize_tasks : Bool → List TaskResult → Bool
serialize_tasks failed [] = failed
serialize_tasks failed (res ∷ multires) = serialize_tasks (res.failed || failed) multires

unfoldable pub nr_result_serialize : List (String × List TaskResult) → List (String × HostEntry)
unfolding serialize_tasks
nr_result_serialize [] = []
nr_result_serialize ((host, multires) ∷ result) =
    (host, record { failed = some (serialize_tasks false multires); job_tasks = some multires })
    ∷ nr_result_serialize result

-- `start_job(function_name, scheduled_by)`
unfoldable pub start_job : ℕ → Option String → Option String → Job → Job
start_job now function_name scheduled_by job = record job {
  start_time = some now;
  status = JobStatus.running;
  finished_devices = some [];
  function_name = or_keep function_name job.function_name;
  scheduled_by = or_keep scheduled_by job.scheduled_by;
}

abbrev stored_score : Option ChangeScore → Option ℕ → Option ℕ
stored_score (some (int (suc n))) old = some (suc n)
stored_score _ old = old

-- The `try` block of `finish_success` that fills `result` and `change_score`.
store_result : Payload → Job → Job
unfolding nr_result_serialize
store_result (nornir nrresult score) job = record job {
  result = some (JobData.devices (nr_result_serialize nrresult));
  change_score = stored_score score job.change_score;
}
store_result (direct value) job = record job { result = some value }
store_result (other (some text)) job = record job { result = some (JobData.plain text) }
store_result (other none) job = record job { result = some (JobData.error "unserializable") }

abbrev pub finished_status : JobStatus → JobStatus
finished_status JobStatus.aborting = JobStatus.aborted
finished_status _ = JobStatus.finished

abbrev or_next : Option ℕ → Option ℕ → Option ℕ
or_next next old = if truthy next then next else old

-- `finish_success(res, next_job_id)`
unfoldable pub finish_success : ℕ → Payload → Option ℕ → Job → Job
unfolding store_result
finish_success now res next job =
    let job' = store_result res job in
    record job' {
      finish_time = some now;
      status = finished_status job.status;
      next_job_id = or_next next job.next_job_id;
    }

-- `finish_exception(e, traceback)`: none is an exception that `json.dumps` cannot write.
unfoldable pub finish_exception : ℕ → Option String → String → Job → Job
finish_exception now text traceback job = record job {
  finish_time = some now;
  status = JobStatus.exception;
  exception = some (elim text [
    | some message ↦ ExceptionData.raised message traceback
    | none ↦ ExceptionData.unserializable
  ]);
}

-- `finish_abort(message)`
unfoldable pub finish_abort : ℕ → String → Job → Job
finish_abort now message job = record job {
  finish_time = some now;
  status = JobStatus.aborted;
  result = some (JobData.message message);
}

abbrev aps_misfire_grace_time : ℕ
aps_misfire_grace_time = 5

abbrev abort_job : Job → Job
abort_job job = record job { status = JobStatus.aborted }

-- `clear_jobs`: the three loops, each over its own query.
unfoldable pub clear_jobs : ℕ → List Job → List Job
clear_jobs now jobs =
    let running = update (λ j. status_eq j.status JobStatus.running) abort_job jobs in
    let aborting = update (λ j. status_eq j.status JobStatus.aborting) abort_job running in
    update (λ j. status_eq j.status JobStatus.scheduled)
      (λ j. if ltb (j.scheduled_time + aps_misfire_grace_time) now then abort_job j else j) aborting

abbrev pub find_job : ℕ → List Job → Option Job
find_job id = first (λ j. j.id == id)

-- `check_job_abort_status`
unfoldable pub check_job_abort_status : ℕ → List Job → Bool
check_job_abort_status id jobs = elim (find_job id jobs) [
  | none ↦ true
  | some job ↦ if status_eq job.status JobStatus.running then false else true
]
