-- ===== src/Jobs/Abort/Effect.antt =====
-- What the abort call does to a job.
use cnaas_nms.Prelude.{ℕ, ◌≡◌, ◌≢◌, Option, none, some, ◌⊎◌}
use cnaas_nms.Prelude.Exec.{Result, ok}
use cnaas_nms.Schema.{Db, Job, JobStatus}
use cnaas_nms.Jobs.Job.{find_job}
use cnaas_nms.Jobs.Abort.{Answer, success}

abbrev pub status_in : Option Job → Option JobStatus
status_in none = none
status_in (some job) = some job.status

abbrev pub status_of : ℕ → Db → Option JobStatus
status_of job_id db = status_in (find_job job_id db.jobs)

-- The two outcomes of an answer `r` that goes from `db` to `db'`.
abbrev pub Effect : ℕ → Db → Result Answer × Db → Type 0
Effect job_id db (r, db') =
    ((r ≡ ok success)
      × (((status_of job_id db ≡ some JobStatus.scheduled)
            × (status_of job_id db' ≡ some JobStatus.aborted))
          ⊎ ((status_of job_id db ≡ some JobStatus.running)
              × (status_of job_id db' ≡ some JobStatus.aborting))))
    ⊎ ((r ≢ ok success) × (db' ≡ db))
