-- ===== src/Jobs/Abort.antt =====
-- The abort call of src/cnaas_nms/api/jobs.py (`JobByIdApi.put`), with the action, the reason and
-- the caller already read from the request.
pub mod Effect
use cnaas_nms.Prelude.{
  ℕ, zero, suc, ◌+◌, String, Bool, true, false, Option, none, some, List, [], ◌∷◌, ◌||◌,
  if◌then◌else◌, str_eq, update, ◌==◌,
}
use cnaas_nms.Prelude.Exec.{Exec, Error, Result, ok, err}
use cnaas_nms.Schema.{Db, Job, JobStatus, status_eq}
use cnaas_nms.Jobs.Job.{find_job}
use cnaas_nms.Jobs.Wrapper.{set_job}
use cnaas_nms.Jobs.Scheduler.{remove_scheduled_job}

-- The HTTP status of the answer.
pub data Answer : Type 0 where
  success : Answer
  bad_request : Answer

abbrev aborting_job : Job → Job
aborting_job job = record job { status = JobStatus.aborting }

unfoldable pub answered : {S : Type 0} → Result (Unit {0}) × S → Result Answer × S
answered (ok _, s) = (ok success, s)
answered (err e, s) = (err e, s)

unfoldable pub abort_by_status :
    JobStatus → (removed use_mule : Bool) (now job_id : ℕ) (reason : String) → Exec Db Answer
unfolding answered
abort_by_status JobStatus.scheduled removed use_mule now job_id reason db =
    answered (remove_scheduled_job removed use_mule now job_id reason db)
abort_by_status JobStatus.running removed use_mule now job_id reason db =
    (ok success, set_job job_id aborting_job db)
abort_by_status _ removed use_mule now job_id reason db = (ok bad_request, db)

unfoldable pub put_found :
    String
    → (removed use_mule : Bool) (now job_id : ℕ) (reason : String) → Option Job
    → Exec Db Answer
put_found action removed use_mule now job_id reason none db = (ok bad_request, db)
put_found action removed use_mule now job_id reason (some job) db =
    if str_eq action "ABORT"
    then abort_by_status job.status removed use_mule now job_id reason db
    else (ok bad_request, db)

-- `put(job_id)`: the row is read first, then the action is looked at.
unfoldable pub put_job :
    (action : Option String) (removed use_mule : Bool) (now job_id : ℕ) (reason : String)
    → Exec Db Answer
put_job none removed use_mule now job_id reason db = (ok bad_request, db)
put_job (some action) removed use_mule now job_id reason db =
    put_found action removed use_mule now job_id reason (find_job job_id db.jobs) db
