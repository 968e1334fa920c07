-- ===== src/Init.antt =====
-- src/cnaas_nms/devicehandler/init_device.py: the initialisation of devices. What a device answers,
-- what the templates and the settings give, and the scheduler's mode are parameters.
pub mod Checks
pub mod Synced
pub mod Schedule
pub mod Discover
pub mod Second
pub mod Rows
pub mod Fabric
pub mod Access
pub mod FirstStep
pub mod Lifecycle
use cnaas_nms.Prelude.{ℕ, String, Bool, true, false, Option, none, some, List, ◌==◌, update, any}
use cnaas_nms.Prelude.Exec.{Error, Result}
use cnaas_nms.Schema.{Db, Device, DeviceState, DeviceType, IpNetwork, state_eq}
use cnaas_nms.Sync.Env.{Env}
use cnaas_nms.Links.{LinkEnv, FactsAnswer}

pub record InitEnv : Type 0 where
  pub sync : Env  -- the answers that the configuration check reads, the clock and the scheduler's mode
  pub links : LinkEnv
  pub reachable : String → Bool  -- `napalm_get` of the facts reaches the host
  pub get_facts : String → FactsAnswer
  pub populate_device_vars : Db → ℕ → String → DeviceType → Result (Unit {0})
  pub rebuild_settings_cache : Result (Unit {0})
  pub old_ip_get : String → Option Bool  -- the result `napalm_get` of the push: whether it failed
  pub primary_version : ℕ  -- MGMTDOMAIN_PRIMARY_IP_VERSION
  pub reserved_count : ℕ  -- MGMTDOMAIN_RESERVED_COUNT
  pub init_mgmt_timeout : ℕ  -- INIT_MGMT_TIMEOUT
  pub mgmt_lo_net : IpNetwork
  pub infra_lo_net : IpNetwork

-- `state in accepted_state`
abbrev pub state_in : DeviceState → List DeviceState → Bool
state_in s states = any (λ t. state_eq t s) states

-- Writes of the columns of one row.
abbrev pub set_id : ℕ → (Device → Device) → Db → Db
set_id device_id f db = record db { devices = update (λ d. d.id == device_id) f db.devices }
