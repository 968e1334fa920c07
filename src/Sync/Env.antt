-- ===== src/Sync/Env.antt =====
-- What the sync jobs get from outside: the settings, the devices' answers, the clock, and what other
-- jobs do to the database while a job sleeps or waits.
use cnaas_nms.Prelude.{ℕ, String, Bool, Option, List}
use cnaas_nms.Prelude.Exec.{Error, Result}
use cnaas_nms.Schema.{Db, Joblock}
use cnaas_nms.Sync.Score.{Text}

-- What the steps of `push_sync_device` answer for one host: the rendered template, the diff of
-- `napalm_configure` or `napalm_configure_confirmed`, and the facts read after a commit.
pub record PushAnswers : Type 0 where
  pub generate : Result Text
  pub configure : Result Text
  pub verify : Result (Unit {0})

pub record Env : Type 0 where
  pub get_groups : String → List String  -- group membership, from the settings repository
  pub commit_confirmed_mode : Option ℕ  -- api_settings.COMMIT_CONFIRMED_MODE
  pub use_mule : Bool
  pub now : ℕ
  pub sha256 : String → String
  pub running : String → Result String  -- a host's running configuration before the push
  pub running_after : String → Result String  -- and after it
  pub answers : String → PushAnswers
  pub confirms : String → Bool × ℕ  -- the commit-confirm task of a host: failed, and its results
  pub check_raises : Option Error  -- `nr.run` itself raises
  pub push_raises : Option Error
  pub confirm_raises : Option Error
  pub apply_raises : Option Error
  pub describe : Error → String
  pub others : ℕ → List Joblock → List Joblock  -- other jobs, before the n-th try for the lock
  pub waited : Db → Result (Unit {0}) × Db  -- `Job.wait_for_job_completion`, and the jobs run meanwhile
