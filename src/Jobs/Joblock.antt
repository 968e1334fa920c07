-- ===== src/Jobs/Joblock.antt =====
-- src/cnaas_nms/db/joblock.py: locks by name, each held by one job.
pub mod Unique
pub mod Exclusion
use cnaas_nms.Prelude.{
  ℕ, String, Bool, true, false, Option, none, some, List, [], ◌∷◌, ◌++◌, if◌then◌else◌, str_eq,
  select, first, ◌==◌,
}
use cnaas_nms.Prelude.Exec.{Error, Result, ok, err, value_error, joblock_error, integrity_error}
use cnaas_nms.Schema.{Joblock}
use cnaas_nms.Jobs.Job.{truthy}

abbrev pub find_by_name : String → List Joblock → Option Joblock
find_by_name name = first (λ l. str_eq l.name name)

abbrev pub find_by_job : ℕ → List Joblock → Option Joblock
find_by_job job_id = first (λ l. l.job_id == job_id)

abbrev not_b : Bool → Bool
not_b true = false
not_b false = true

-- `session.delete(curlock)`: `job_id` is the primary key.
abbrev pub delete_lock : ℕ → List Joblock → List Joblock
delete_lock job_id = select (λ l. not_b (l.job_id == job_id))

-- `acquire_lock(session, name, job_id)`. The insert fails on the unique column `job_id` where the
-- job holds another lock.
unfoldable pub acquire_lock : ℕ → String → ℕ → List Joblock → Result Bool × List Joblock
acquire_lock now name job_id locks = elim (find_by_name name locks) [
  | some curlock ↦ (ok false, locks)
  | none ↦ elim (find_by_job job_id locks) [
    | some other ↦ (err integrity_error, locks)
    | none ↦ (
      ok true,
      locks ++ record { job_id = job_id; name = name; start_time = now; abort = false } ∷ [],
    )
  ]
]

abbrev nonempty : Option String → Bool
nonempty none = false
nonempty (some s) = not_b (str_eq s "")

abbrev or_zero : Option ℕ → ℕ
or_zero none = 0
or_zero (some n) = n

abbrev or_empty : Option String → String
or_empty none = ""
or_empty (some s) = s

-- The query of `release_lock` and `get_lock`: by job id where one is given, else by name.
unfoldable pub current_lock : Option String → Option ℕ → List Joblock → Result (Option Joblock)
current_lock name job_id locks =
    if truthy job_id
    then ok (find_by_job (or_zero job_id) locks)
    else if nonempty name
    then ok (find_by_name (or_empty name) locks)
    else err value_error

abbrev drop_lock : List Joblock → Result (Option Joblock) → Result Bool × List Joblock
drop_lock locks (err e) = (err e, locks)
drop_lock locks (ok none) = (err joblock_error, locks)
drop_lock locks (ok (some curlock)) = (ok true, delete_lock curlock.job_id locks)

-- `release_lock(session, name, job_id)`
unfoldable pub release_lock : Option String → Option ℕ → List Joblock → Result Bool × List Joblock
unfolding current_lock
release_lock name job_id locks = drop_lock locks (current_lock name job_id locks)

-- `get_lock(session, name, job_id)`
unfoldable pub get_lock : Option String → Option ℕ → List Joblock → Result (Option Joblock)
unfolding current_lock
get_lock name job_id locks = current_lock name job_id locks

-- `clear_locks`
unfoldable pub clear_locks : List Joblock → List Joblock
clear_locks locks = []
