-- ===== src/Jobs/Wait.antt =====
-- `Job.wait_for_job_completion` of src/cnaas_nms/db/job.py: polling a job's row once a second.
-- `poll n` is the row's status at the n-th look (none: the row is gone), `clock n` the time then.
pub mod Termination
use cnaas_nms.Prelude.{
  ℕ, zero, suc, ◌+◌, ◌-◌, Bool, true, false, Option, none, some, List, [], ◌∷◌, ltb, any,
  if◌then◌else◌,
}
use cnaas_nms.Prelude.Exec.{Result, ok, err, timeout_error, no_result_found}
use cnaas_nms.Schema.{JobStatus, status_eq}

-- `if not exit_status: exit_status = [...]`
unfoldable pub exit_statuses : List JobStatus → List JobStatus
exit_statuses [] = JobStatus.finished ∷ JobStatus.exception ∷ JobStatus.aborted ∷ []
exit_statuses (s ∷ ss) = s ∷ ss

abbrev pub is_in : JobStatus → List JobStatus → Bool
is_in status = any (λ s. status_eq status s)

-- The `while True` loop; none is that the fuel ran out.
unfoldable pub wait_loop :
    (poll : ℕ → Option JobStatus) (clock : ℕ → ℕ) (start_time timeout : ℕ) (exits : List JobStatus)
    → (fuel n : ℕ) → Option (Result (Unit {0}))
wait_loop poll clock start_time timeout exits zero n = none
wait_loop poll clock start_time timeout exits (suc fuel) n = elim (poll n) [
  | none ↦ some (err no_result_found)
  | some status ↦
      let rest = wait_loop poll clock start_time timeout exits fuel (n + 1) in
      if is_in status exits
      then some (ok tt)
      else if ltb timeout (clock n - start_time)
      then some (err timeout_error)
      else rest
]

-- `wait_for_job_completion(session, job_id, timeout, exit_status)`: a second passes between two
-- looks, and the loop is given `timeout + 2` of them.
unfoldable pub wait_for_job_completion :
    (poll : ℕ → Option JobStatus) (clock : ℕ → ℕ) (timeout : ℕ) (exit_status : List JobStatus)
    → Option (Result (Unit {0}))
unfolding wait_loop exit_statuses
wait_for_job_completion poll clock timeout exit_status =
    wait_loop poll clock (clock 0) timeout (exit_statuses exit_status) (timeout + 2) 0
