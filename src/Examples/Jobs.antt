-- ===== src/Examples/Jobs.antt =====
-- The life of a job, tried out.
use cnaas_nms.Prelude.{
  ℕ, String, ◌≡◌, ◌+◌, ◌≤◌, refl, true, false, Option, none, some, List, [], ◌∷◌, arith, All, suc,
}
use cnaas_nms.Prelude.Exec.{Result, ok, pure, Error}
use cnaas_nms.Schema.{Job, JobStatus, ArgValue}
use cnaas_nms.Jobs.Job.{start_job, JobResult, Payload, find_job, clear_jobs}
use cnaas_nms.Jobs.Wrapper.{Report, job_wrapper}
use cnaas_nms.Jobs.Wrapper.Outcome.{job_wrapper_returned, WithId, EndStatus}
use cnaas_nms.Jobs.Job.Lifecycle.{clear_jobs_one_pass}
use cnaas_nms.Jobs.Wait.{wait_for_job_completion}
use cnaas_nms.Jobs.Wait.Termination.{wait_for_job_completion_ends, Outcome, awaited}
use cnaas_nms.Jobs.History.{query_previous, is_sync_of}
use cnaas_nms.Jobs.History.Newest.{query_previous_newest}
use cnaas_nms.Jobs.Scheduler.{add_onetime_job}
use cnaas_nms.Jobs.Scheduler.Added.{Added, add_onetime_job_row}
use cnaas_nms.Jobs.Abort.Effect.{Effect}
use cnaas_nms.Examples.Data.{db0, job}

abbrev report : Error → Report
report e = record { text = some "text"; traceback = "trace" }

abbrev result0 : JobResult
result0 = record {
  is_job_result = true;
  job_id = none;
  next_job_id = some 9;
  payload = Payload.other (some "done");
}

job_wrapper_returned_example :
    let (r, db') = job_wrapper "f" (pure result0) report 200 210 3 db0 in
    (res' : JobResult) × (r ≡ ok res')
    × WithId 3 result0 res'
    × (row : Job) × (find_job 3 db'.jobs ≡ some row)
    × EndStatus JobStatus.running row.status
    × (row.finish_time ≡ some 210)
    × ((next : ℕ)
        → result0.is_job_result ≡ true
        → result0.next_job_id ≡ some (suc next)
        → row.next_job_id ≡ some (suc next))
unfolding pure start_job
job_wrapper_returned_example =
    job_wrapper_returned "f" (pure result0) report 200 210 3 db0 (job 3 JobStatus.scheduled) _
      (omega arith) refl refl result0 refl

clear_jobs_one_pass_example :
    clear_jobs 900 db0.jobs
    ≡ job 1 JobStatus.finished ∷ job 2 JobStatus.aborted ∷ job 3 JobStatus.aborted ∷ []
clear_jobs_one_pass_example = clear_jobs_one_pass 900 db0.jobs

abbrev aborting_job : Job
aborting_job = job 2 JobStatus.aborting

abbrev poll0 : ℕ → Option JobStatus
poll0 n = some JobStatus.running

abbrev clock0 : ℕ → ℕ
clock0 n = 50 + n

wait_for_job_completion_ends_example :
    (r : Result (Unit {0})) × (wait_for_job_completion poll0 clock0 3 [] ≡ some r)
    × Outcome poll0 clock0 50 3 (awaited []) r
wait_for_job_completion_ends_example =
    wait_for_job_completion_ends poll0 clock0 3 [] (λ n. omega arith)

query_previous_newest_example :
    (is_sync_of "access1" (job 3 JobStatus.scheduled) ≡ true)
    × All (λ j. is_sync_of "access1" j ≡ true → j.id ≤ 3) db0.jobs
unfolding query_previous
query_previous_newest_example =
    query_previous_newest "access1" db0.jobs (job 3 JobStatus.scheduled) refl

abbrev kwargs0 : List (String × ArgValue)
kwargs0 =
    ("dry_run", ArgValue.flag true)
    ∷ ("job_comment", ArgValue.text "change")
    ∷ ("job_ticket_ref", ArgValue.text "T-1")
    ∷ []

add_onetime_job_row_example :
    Added 100 "m:f" none
      (some "admin")
      kwargs0
      db0
      (add_onetime_job true false 100 "m:f" none (some "admin") kwargs0 db0)
add_onetime_job_row_example =
    add_onetime_job_row false 100 "m:f" none (some "admin") kwargs0 db0 refl
