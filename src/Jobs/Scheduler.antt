-- ===== src/Jobs/Scheduler.antt =====
-- src/cnaas_nms/scheduler/scheduler.py: the rows and the dispatches that `add_onetime_job` and
-- `remove_scheduled_job` make. APScheduler and uwsgi are the receivers of a dispatch.
pub mod Added
use cnaas_nms.Prelude.{
  is_false, ℕ, zero, suc, ◌+◌, String, Bool, true, false, Option, none, some, List, [], ◌∷◌, ◌++◌,
  ◌||◌, ◌&&◌, if◌then◌else◌, str_eq, update, ◌==◌, lookup, insert, erase, append,
}
use cnaas_nms.Prelude.Exec.{Exec, Error, Result, ok, err, type_error, attribute_error}
use cnaas_nms.Schema.{Db, Job, JobStatus, ArgValue, Dispatch}
use cnaas_nms.Jobs.Job.{truthy, find_job, finish_abort}
use cnaas_nms.Jobs.Wrapper.{set_job}

unfoldable pub has_colon : String → Bool
has_colon String.[] = false
has_colon (String.◌∷◌ c s) = str_eq (String.◌∷◌ c String.[]) ":" || has_colon s

-- `s.split(":")[-1]`
unfoldable pub last_part : String → String
unfolding has_colon
last_part String.[] = String.[]
last_part (String.◌∷◌ c s) =
    let rest = last_part s in if has_colon (String.◌∷◌ c s) then rest else String.◌∷◌ c s

-- `s[:n]`
unfoldable pub prefix : ℕ → String → String
prefix zero s = String.[]
prefix (suc n) String.[] = String.[]
prefix (suc n) (String.◌∷◌ c s) = String.◌∷◌ c (prefix n s)

-- Python's truth of an argument that may be absent.
abbrev is_true : Option ArgValue → Bool
is_true (some (ArgValue.flag b)) = b
is_true (some (ArgValue.number (suc n))) = true
is_true (some (ArgValue.text s)) = if str_eq s "" then false else true
is_true (some (ArgValue.names (x ∷ xs))) = true
is_true _ = false

-- The function's name, with the mark of a dry run.
unfoldable pub job_function_name : String → List (String × ArgValue) → String
unfolding last_part
job_function_name func kwargs =
    if is_true (lookup "dry_run" kwargs)
    then append (last_part func) " (dry_run)"
    else last_part func

abbrev pub cut_text : ℕ → Option ArgValue → Option String
cut_text n (some (ArgValue.text s)) = if str_eq s "" then none else some (prefix n s)
cut_text n _ = none

-- `if job_comment and isinstance(job_comment, str)`
unfoldable pub comment_column : Option ArgValue → Option String
unfolding prefix
comment_column comment = cut_text 255 comment

abbrev pub is_text : Option ArgValue → Bool
is_text (some (ArgValue.text s)) = true
is_text _ = false

-- `if job_ticket_ref and isinstance(job_comment, str)`: the class of the comment is tested.
unfoldable pub ticket_ref_column : Option ArgValue → Option ArgValue → Option String
unfolding prefix
ticket_ref_column comment ticket_ref = if is_text comment then cut_text 32 ticket_ref else none

-- A reference that passes that test and is no text: it cannot be sliced, or its column refuses it.
abbrev pub bad_ticket_ref : Option ArgValue → Option ArgValue → Bool
bad_ticket_ref comment ticket_ref =
    is_text comment && is_true ticket_ref && is_false (is_text ticket_ref)

abbrev or_unknown : Option String → String
or_unknown none = "unknown"
or_unknown (some s) = s

abbrev run_date : ℕ → Option ℕ → ℕ
run_date now when = if truthy when then (elim when [ none ↦ now | some n ↦ now + n ]) else now

-- The arguments that are left for the function: two are popped.
abbrev pub popped : List (String × ArgValue) → List (String × ArgValue)
popped kwargs = erase "job_ticket_ref" (erase "job_comment" kwargs)

-- The row that `Job()` and the assignments make, with the columns' defaults.
unfoldable pub new_job : ℕ → ℕ → String → Option ℕ → Option String → List (String × ArgValue) → Job
unfolding job_function_name comment_column ticket_ref_column
new_job id now func when scheduled_by kwargs = record {
  id = id;
  status = JobStatus.scheduled;
  scheduled_time = run_date now when;
  start_time = none;
  finish_time = none;
  function_name = job_function_name func kwargs;
  scheduled_by = or_unknown scheduled_by;
  comment = comment_column (lookup "job_comment" kwargs);
  ticket_ref = ticket_ref_column (lookup "job_comment" kwargs) (lookup "job_ticket_ref" kwargs);
  next_job_id = none;
  result = none;
  exception = none;
  finished_devices = none;
  change_score = none;
  start_arguments = popped kwargs;
}

-- `add_onetime_job(func, when, scheduled_by, kwargs)`; `serializable` is that `json.dumps(kwargs)`
-- returns, `use_mule` the scheduler's flag.
unfoldable pub add_onetime_job :
    (serializable use_mule : Bool) (now : ℕ) (func : String) (when : Option ℕ)
    (scheduled_by : Option String) (kwargs : List (String × ArgValue))
    → Exec Db ℕ
unfolding new_job
add_onetime_job serializable use_mule now func when scheduled_by kwargs db =
    if serializable
      && is_false (bad_ticket_ref (lookup "job_comment" kwargs) (lookup "job_ticket_ref" kwargs))
    then (
      ok db.next_job_id,
      record db {
        jobs = db.jobs ++ new_job db.next_job_id now func when scheduled_by kwargs ∷ [];
        next_job_id = db.next_job_id + 1;
        dispatched =
            record {
              job_id = db.next_job_id;
              func = func;
              when = if truthy when then when else none;
              to_mule = use_mule;
              kwargs =
                  insert "scheduled_by" (ArgValue.text (or_unknown scheduled_by)) (popped kwargs);
            }
            ∷ db.dispatched;
      },
    )
    else (err type_error, db)

-- `remove_scheduled_job(job_id, abort_message)`; `removed` is that the scheduler, which keeps the
-- job by its id, found it (a mule is sent a message, and never refuses).
unfoldable pub remove_scheduled_job :
    (removed use_mule : Bool) (now job_id : ℕ) (abort_message : String) → Exec Db (Unit {0})
remove_scheduled_job removed use_mule now job_id abort_message db =
    if use_mule || removed
    then elim (find_job job_id db.jobs) [
      | none ↦ (err attribute_error, db)
      | some job ↦ (ok tt, set_job job_id (finish_abort now abort_message) db)
    ]
    else (err Error.key_error, db)
