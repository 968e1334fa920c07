-- ===== src/Init/Discover.antt =====
-- `discover_device` of src/cnaas_nms/devicehandler/init_device.py.
pub mod Retries
use cnaas_nms.Prelude.{
  ℕ, ◌+◌, String, Bool, true, false, Option, none, some, List, [], ◌∷◌, if◌then◌else◌, select,
  update, str_eq,
}
use cnaas_nms.Prelude.Exec.{Exec, Result, ok, err, value_error, multiple_results_found, key_error}
use cnaas_nms.Schema.{Db, Device, DeviceState, IpAddress, state_eq}
use cnaas_nms.Links.{Facts, FactsAnswer, failed, missing, got}
use cnaas_nms.Links.SetFacts.{fact_data}
use cnaas_nms.Init.{InitEnv}
use cnaas_nms.Init.Schedule.{schedule_discover_device}

pub record DiscoverArgs : Type 0 where
  pub ztp_mac : String
  pub dhcp_ip : String
  pub address : IpAddress  -- `dhcp_ip`, as the column stores it
  pub scheduled_by : Option String

abbrev pub has_mac : String → Device → Bool
has_mac mac d = elim d.ztp_mac [ none ↦ false | some m ↦ str_eq m mac ]

abbrev pub set_mac : String → (Device → Device) → Db → Db
set_mac mac f db = record db { devices = update (has_mac mac) f db.devices }

-- `dev.dhcp_ip = dhcp_ip`, where it is another one
abbrev pub seen_at : IpAddress → Device → Device
seen_at address dev = record dev { dhcp_ip = some address }

abbrev pub discovered : ℕ → Facts → Device → Device
discovered now facts dev = record dev {
  serial = some (fact_data facts.serial_number);
  vendor = some (fact_data facts.vendor);
  model = some (fact_data facts.model);
  os_version = some (fact_data facts.os_version);
  state = DeviceState.discovered;
  last_seen = now;
}

-- What the answer of the device leads to. The hostname that is configured at the end is only logged
-- where it fails.
abbrev pub after_contact : InitEnv → DiscoverArgs → ℕ → FactsAnswer → Exec Db (Option ℕ)
after_contact env args iteration failed db =
    schedule_discover_device env.sync args.ztp_mac args.dhcp_ip (iteration + 1) args.scheduled_by db
after_contact env args iteration missing db = (err key_error, db)
after_contact env args iteration (got facts) db =
    (ok none, set_mac args.ztp_mac (discovered env.sync.now facts) db)

abbrev pub discover_rows : InitEnv → DiscoverArgs → ℕ → List Device → Exec Db (Option ℕ)
discover_rows env args iteration [] db = (err value_error, db)
discover_rows env args iteration (d ∷ e ∷ ds) db = (err multiple_results_found, db)
discover_rows env args iteration (d ∷ []) db =
    if state_eq d.state DeviceState.dhcp_boot
    then after_contact env args iteration (env.get_facts d.hostname)
        (set_mac args.ztp_mac (seen_at args.address) db)
    else (err value_error, db)

-- `discover_device(ztp_mac, dhcp_ip, iteration, job_id, scheduled_by)`, with the id of the job that
-- tries again.
unfoldable pub discover_device : InitEnv → DiscoverArgs → (iteration : ℕ) → Exec Db (Option ℕ)
discover_device env args iteration db =
    discover_rows env args iteration (select (has_mac args.ztp_mac) db.devices) db
