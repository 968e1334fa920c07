-- ===== src/Jobs/Job/Lifecycle.antt =====
-- What holds of a job's row over its life.
use cnaas_nms.Prelude.{
  ℕ, ◌+◌, ◌≡◌, ◌≢◌, ◌↔◌, refl, Bool, Option, some, List, [], ◌∷◌, map, ltb, if◌then◌else◌, any,
  arith, ◌||◌,
}
use cnaas_nms.Schema.{Job, JobStatus, TaskResult}
use cnaas_nms.Jobs.Job.{Payload, serialize_tasks, finish_success, clear_jobs, truthy}

-- What a restart of the server makes of a status.
abbrev pub status_after_restart : ℕ → ℕ → JobStatus → JobStatus
status_after_restart now scheduled_time JobStatus.running = JobStatus.aborted
status_after_restart now scheduled_time JobStatus.aborting = JobStatus.aborted
status_after_restart now scheduled_time JobStatus.scheduled =
    if ltb (scheduled_time + 5) now then JobStatus.aborted else JobStatus.scheduled
status_after_restart now scheduled_time status = status

-- The three passes of `clear_jobs` are one pass that aborts every running, aborting and overdue
-- scheduled job, and leaves every other column and row as it was.
pub clear_jobs_one_pass :
    (now : ℕ) (jobs : List Job)
    → clear_jobs now jobs
      ≡ map {A = Job}
          (λ j. record j { status = status_after_restart now j.scheduled_time j.status })
          jobs
unfolding clear_jobs
clear_jobs_one_pass now [] = refl
clear_jobs_one_pass now (j ∷ jobs) = ground (arith, clear_jobs_one_pass now jobs)

serialize_tasks-any :
    (b : Bool) (ts : List TaskResult) → serialize_tasks b ts ≡ (b || any (λ t. t.failed) ts)
unfolding serialize_tasks
serialize_tasks-any b [] = ground arith
serialize_tasks-any b (t ∷ ts) = ground (arith, serialize_tasks-any (t.failed || b) ts)

-- A finished job's row: the finish time is set, its status is final, and the status is ABORTED
-- exactly if an abort was asked for while it ran.
pub finish_success_status :
    (now : ℕ) (res : Payload) (next : Option ℕ) (job : Job)
    → let job' = finish_success now res next job in
      (job'.finish_time ≡ some now)
      × ((job'.status ≡ JobStatus.aborted) ↔ (job.status ≡ JobStatus.aborting))
      × ((job'.status ≡ JobStatus.finished) ↔ (job.status ≢ JobStatus.aborting))
      × (job'.next_job_id ≡ (if truthy next then next else job.next_job_id))
unfolding finish_success
finish_success_status now res next job = ground arith

-- A job keeps its id when it finishes.
pub id-finish_success :
    (now : ℕ) (res : Payload) (next : Option ℕ) (job : Job)
    → (finish_success now res next job).id ≡ job.id
unfolding finish_success
id-finish_success now res next job = ground arith
