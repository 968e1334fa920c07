-- ===== src/Init/Second.antt =====
-- `init_device_step2` of src/cnaas_nms/devicehandler/init_device.py.
pub mod Managed
use cnaas_nms.Prelude.{
  ℕ, String, Bool, true, false, Option, none, some, List, [], ◌∷◌, if◌then◌else◌, str_eq, ◌==◌,
}
use cnaas_nms.Prelude.Exec.{Exec, Result, ok, err, no_result_found, device_state_error, init_error}
use cnaas_nms.Schema.{Db, Device, DeviceState, state_eq}
use cnaas_nms.Sync.History.{add_sync_event}
use cnaas_nms.Links.{Facts, FactsAnswer, failed, missing, got, find_id}
use cnaas_nms.Links.SetFacts.{set_facts}
use cnaas_nms.Init.{InitEnv, set_id}
use cnaas_nms.Init.Schedule.{schedule_init_device_step2}

pub record Step2Args : Type 0 where
  pub device_id : ℕ
  pub job_id : Option ℕ
  pub scheduled_by : Option String

-- The columns that the last session writes.
abbrev pub managed : ℕ → Facts → Device → Device
managed now facts dev = record ((set_facts dev facts).1) {
  state = DeviceState.managed;
  synchronized = false;
  dhcp_ip = none;
  last_seen = now;
}

abbrev pub make_managed : InitEnv → Step2Args → String → Facts → Db → Db
make_managed env args hostname facts db =
    record (set_id args.device_id (managed env.sync.now facts) db) {
      sync_events =
          add_sync_event env.sync.now hostname "device_init" args.scheduled_by args.job_id none
            db.sync_events;
    }

abbrev pub after_login : InitEnv → Step2Args → ℕ → String → FactsAnswer → Exec Db (Option ℕ)
after_login env args iteration hostname failed db =
    schedule_init_device_step2 env.sync args.device_id iteration args.scheduled_by db
after_login env args iteration hostname missing db = (err init_error, db)
after_login env args iteration hostname (got facts) db =
    if str_eq hostname facts.hostname
    then (ok none, make_managed env args hostname facts db)
    else (err init_error, db)

abbrev pub second_step : InitEnv → Step2Args → ℕ → Option Device → Exec Db (Option ℕ)
second_step env args iteration none db = (err no_result_found, db)
second_step env args iteration (some dev) db =
    if state_eq dev.state DeviceState.init
    then after_login env args iteration dev.hostname (env.get_facts dev.hostname) db
    else (err device_state_error, db)

-- `init_device_step2(device_id, iteration, job_id, scheduled_by)`, with the id of the job that tries
-- again. The plugin hook at the end cannot fail the job.
unfoldable pub init_device_step2 : InitEnv → Step2Args → (iteration : ℕ) → Exec Db (Option ℕ)
init_device_step2 env args iteration db =
    second_step env args iteration (find_id args.device_id db.devices) db
