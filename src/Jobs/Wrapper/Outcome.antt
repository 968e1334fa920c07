-- ===== src/Jobs/Wrapper/Outcome.antt =====
-- How a wrapped job ends.
use cnaas_nms.Prelude.{
  ℕ, suc, String, ◌≡◌, ◌≢◌, refl, true, false, none, some, arith, first-update_self, first_sound,
  ◌==◌,
}
use cnaas_nms.Prelude.Exec.{Exec, Error, ok, err}
use cnaas_nms.Schema.{Db, Job, JobStatus}
use cnaas_nms.Jobs.Job.{
  JobResult, find_job, start_job, finish_success, finish_exception, finished_status,
}
use cnaas_nms.Jobs.Job.Lifecycle.{id-finish_success}
use cnaas_nms.Jobs.Wrapper.{
  job_wrapper, Report, set_job, new_function_name, insert_job_id, find_nextjob,
}

-- The state in which the wrapped function runs.
abbrev pub started : String → ℕ → ℕ → Job → Db → Db
started func_name begun job_id job =
    set_job job_id (start_job begun (new_function_name func_name job) none)

find_job-set_job :
    (job_id : ℕ) (f : Job → Job) (db : Db) (job : Job)
    → find_job job_id db.jobs ≡ some job
    → (f job).id ≡ job.id
    → find_job job_id (set_job job_id f db).jobs ≡ some (f job)
find_job-set_job job_id f db job h keeps =
    let found = first_sound (λ j. j.id == job_id) db.jobs job h in
    first-update_self (λ j. j.id == job_id) f db.jobs job h (ground arith)

-- The result that is passed on: a `JobResult` without an id has that of the job.
abbrev pub WithId : ℕ → JobResult → JobResult → Type 0
WithId job_id res res' =
    (res'.is_job_result ≡ res.is_job_result)
    × (res'.next_job_id ≡ res.next_job_id)
    × (res'.payload ≡ res.payload)
    × (res.is_job_result ≡ false → res'.job_id ≡ res.job_id)
    × (res.is_job_result ≡ true → res.job_id ≡ none → res'.job_id ≡ some job_id)
    × (res.is_job_result ≡ true
        → (id : ℕ) → res.job_id ≡ some (suc id)
        → res'.job_id ≡ some (suc id))

insert_job_id-WithId : (res : JobResult) (job_id : ℕ) → WithId job_id res (insert_job_id res job_id)
unfolding insert_job_id
insert_job_id-WithId res job_id = (
  ground arith,
  ground arith,
  ground arith,
  λ e. ground (arith, e),
  λ e f. ground (arith, e, f),
  λ e id f. ground (arith, e, f),
)

-- ABORTED where an abort was asked for, and FINISHED otherwise.
abbrev pub EndStatus : JobStatus → JobStatus → Type 0
EndStatus before after =
    (before ≡ JobStatus.aborting → after ≡ JobStatus.aborted)
    × (before ≢ JobStatus.aborting → after ≡ JobStatus.finished)

finished_status-EndStatus : (s : JobStatus) → EndStatus s (finished_status s)
finished_status-EndStatus JobStatus.aborting = (λ e. refl, λ n. absurd (n refl))
finished_status-EndStatus JobStatus.unknown = (λ e. cc, λ n. refl)
finished_status-EndStatus JobStatus.scheduled = (λ e. cc, λ n. refl)
finished_status-EndStatus JobStatus.running = (λ e. cc, λ n. refl)
finished_status-EndStatus JobStatus.finished = (λ e. cc, λ n. refl)
finished_status-EndStatus JobStatus.exception = (λ e. cc, λ n. refl)
finished_status-EndStatus JobStatus.aborted = (λ e. cc, λ n. refl)

module _ (func_name : String) (func : Exec Db JobResult) (describe : Error → Report)
    (begun ended : ℕ) (job_id : ℕ) (db : Db) (job last : Job) (is_id : job_id ≢ 0)
    (known : find_job job_id db.jobs ≡ some job)
    (kept : find_job job_id (func (started func_name begun job_id job db)).1.jobs ≡ some last) where
  -- A wrapped function whose row outlives it and that raises: the row ends in state EXCEPTION with
  -- its finish time, and the wrapper raises the same exception.
  pub job_wrapper_raised :
      (e : Error)
      → (func (started func_name begun job_id job db)).0 ≡ err e
      → let (r, db') = job_wrapper func_name func describe begun ended job_id db in
        (r ≡ err e)
        × (row : Job) × (find_job job_id db'.jobs ≡ some row)
        × (row.status ≡ JobStatus.exception)
        × (row.finish_time ≡ some ended)
  unfolding job_wrapper finish_exception
  job_wrapper_raised e h =
      let row = finish_exception ended (describe e).text (describe e).traceback last in
      let final = (func (started func_name begun job_id job db)).1 in
      let found =
        find_job-set_job job_id (finish_exception ended (describe e).text (describe e).traceback)
          final last kept refl in
      (ground (arith, h), row, ground (arith, h, found), refl, refl)

  -- A wrapped function whose row outlives it and that returns: the row ends ABORTED if an abort was
  -- asked for meanwhile, else FINISHED, with its finish time and the id of the next job that a
  -- `JobResult` names; and the wrapper returns the result, with the job's id put in where it is a
  -- `JobResult` that has none.
  pub job_wrapper_returned :
      (res : JobResult)
      → (func (started func_name begun job_id job db)).0 ≡ ok res
      → let (r, db') = job_wrapper func_name func describe begun ended job_id db in
        (res' : JobResult) × (r ≡ ok res')
        × WithId job_id res res'
        × (row : Job) × (find_job job_id db'.jobs ≡ some row)
        × EndStatus last.status row.status
        × (row.finish_time ≡ some ended)
        × ((next : ℕ)
            → res.is_job_result ≡ true
            → res.next_job_id ≡ some (suc next)
            → row.next_job_id ≡ some (suc next))
  unfolding job_wrapper
  job_wrapper_returned res h =
      let res' = insert_job_id res job_id in
      let finish = finish_success ended res'.payload (find_nextjob res') in
      let final = (func (started func_name begun job_id job db)).1 in
      let found =
        find_job-set_job job_id finish final last kept
          (id-finish_success ended res'.payload (find_nextjob res') last) in
      (
        res',
        ground (arith, h),
        insert_job_id-WithId res job_id,
        finish last,
        ground (arith, h, found),
        unfold finish_success in finished_status-EndStatus last.status,
        unfold finish_success in refl,
        λ next e f. unfold finish_success find_nextjob insert_job_id in ground (arith, e, f),
      )
