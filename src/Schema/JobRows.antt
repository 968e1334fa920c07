-- ===== src/Schema/JobRows.antt =====
-- The rows of db/job.py and db/joblock.py, and the values that the JSON columns of a job hold.
use Prim.Native.Nat.{ℕ}
use Prim.Native.String.{String}
use mathlib.Core.Bool.{Bool}
use mathlib.Core.Option.{Option}
use mathlib.Core.List.{List}
use cnaas_nms.Schema.Enums.{JobStatus}

-- One nornir result, as `nr_result_serialize` stores it.
pub record TaskResult : Type 0 where
  pub name : String
  pub result : String
  pub diff : String
  pub failed : Bool

-- The JSON object of one host in a job's result. A key that is absent is `none`.
pub record HostEntry : Type 0 where
  pub failed : Option Bool
  pub job_tasks : Option (List TaskResult)

-- The column `result`.
pub data JobData : Type 0 where
  devices : List (String × HostEntry) → JobData
  plain : String → JobData
  message : String → JobData
  error : String → JobData

-- The column `exception`.
pub data ExceptionData : Type 0 where
  raised : (text traceback : String) → ExceptionData
  unserializable : ExceptionData

-- A keyword argument of a job, as `json.dumps` accepts it.
pub data ArgValue : Type 0 where
  text : String → ArgValue
  number : ℕ → ArgValue
  flag : Bool → ArgValue
  names : List String → ArgValue
  null : ArgValue

pub record Job : Type 0 where
  pub id : ℕ
  pub status : JobStatus
  pub scheduled_time : ℕ
  pub start_time : Option ℕ
  pub finish_time : Option ℕ
  pub function_name : String
  pub scheduled_by : String
  pub comment : Option String
  pub ticket_ref : Option String
  pub next_job_id : Option ℕ
  pub result : Option JobData
  pub exception : Option ExceptionData
  pub finished_devices : Option (List String)
  pub change_score : Option ℕ
  pub start_arguments : List (String × ArgValue)

pub record Joblock : Type 0 where
  pub job_id : ℕ
  pub name : String
  pub start_time : ℕ
  pub abort : Bool

-- A job handed to the scheduler: to the mule process over uwsgi, or to the local scheduler.
pub record Dispatch : Type 0 where
  pub job_id : ℕ
  pub func : String
  pub when : Option ℕ  -- none: no `date` trigger
  pub to_mule : Bool
  pub kwargs : List (String × ArgValue)
