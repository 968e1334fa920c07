-- ===== src/Sync/Locks/Tries.antt =====
-- The tries for the device lock, and its release.
use cnaas_nms.Prelude.{ℕ, zero, suc, ◌+◌, ◌≡◌, none, some, arith}
use cnaas_nms.Prelude.Exec.{Exec, ok}
use cnaas_nms.Schema.{Db}
use cnaas_nms.Jobs.Joblock.{find_by_job, find_by_name, acquire_lock}
use cnaas_nms.Jobs.Joblock.Exclusion.{acquire_lock_won, release_lock_frees}
use cnaas_nms.Jobs.Joblock.Unique.{new_lock}
use cnaas_nms.Sync.Env.{Env}
use cnaas_nms.Sync.Locks.{lock_attempts, release, session}

-- A job of which a try for the lock succeeded has it: the row of the name "devices" is its own.
pub lock_attempts_won :
    (env : Env) (job_id attempts n : ℕ) (db : Db)
    → (lock_attempts env job_id attempts n db).0 ≡ ok tt
    → find_by_name "devices" (lock_attempts env job_id attempts n db).1.locks
      ≡ some (new_lock env.now "devices" job_id)
unfolding lock_attempts
lock_attempts_won env job_id zero n db h = cc
lock_attempts_won env job_id (suc attempts) n db h = ground (
  arith,
  acquire_lock_won env.now "devices" job_id (env.others n db.locks),
  lock_attempts_won env job_id attempts (n + 1)
      (record db { locks = (acquire_lock env.now "devices" job_id (env.others n db.locks)).1 }),
)

-- After a release by a job's id, whether it succeeded or found nothing, the job holds no lock.
pub release_frees : (k : ℕ) (db : Db) → find_by_job (suc k) (release (suc k) db).1.locks ≡ none
unfolding release
release_frees k db = release_lock_frees k db.locks

-- A session that returned kept all that its body did.
pub session_returned :
    {A : Type 0} (m : Exec Db A) (db : Db) (a : A)
    → (session m db).0 ≡ ok a
    → ((m db).0 ≡ ok a) × ((session m db).1 ≡ (m db).1)
session_returned m db a h = ground arith
