-- ===== src/Schema.antt =====
-- The rows of the database: src/cnaas_nms/db/{device,interface,linknet,mgmtdomain,reservedip,job,
-- joblock,stackmember}.py, and the `sync_history` hash in redis (devicehandler/sync_history.py).
-- Texts are native strings, times are seconds, addresses are numbers. Columns that no modelled
-- function reads are left out.
mod Enums
mod Rows
mod JobRows
pub use Enums.*
pub use Rows.*
pub use JobRows.*
use cnaas_nms.Prelude.{ℕ, String, List}

-- The state that the handlers share: the tables, and the redis hash of sync events.
pub record Db : Type 0 where
  pub devices : List Device
  pub interfaces : List Interface
  pub linknets : List Linknet
  pub mgmtdomains : List Mgmtdomain
  pub reserved_ips : List ReservedIp
  pub jobs : List Job
  pub locks : List Joblock
  pub sync_events : List (String × List SyncEvent)
  pub next_job_id : ℕ  -- the sequence of the job table
  pub next_linknet_id : ℕ  -- and that of the linknet table
  pub dispatched : List Dispatch  -- what the scheduler was given, latest first
