-- ===== src/Schema/Enums.antt =====
-- The enumerations of db/device.py, db/interface.py and db/job.py, with the values that the
-- source gives them, and Python's `==` on them.
use Prim.Native.Nat.{ℕ}
use mathlib.Core.Bool.{Bool}
use cnaas_nms.Prelude.{◌==◌}

pub data DeviceState : Type 0 where
  unknown pre_configured dhcp_boot discovered init managed managed_noif unmanaged : DeviceState

abbrev pub device_state_value : DeviceState → ℕ
device_state_value DeviceState.unknown = 0
device_state_value DeviceState.pre_configured = 1
device_state_value DeviceState.dhcp_boot = 2
device_state_value DeviceState.discovered = 3
device_state_value DeviceState.init = 4
device_state_value DeviceState.managed = 5
device_state_value DeviceState.managed_noif = 6
device_state_value DeviceState.unmanaged = 99

pub data DeviceType : Type 0 where
  unknown access dist core : DeviceType

abbrev pub device_type_value : DeviceType → ℕ
device_type_value DeviceType.unknown = 0
device_type_value DeviceType.access = 1
device_type_value DeviceType.dist = 2
device_type_value DeviceType.core = 3

pub data InterfaceConfigType : Type 0 where
  unknown unmanaged configfile custom template mlag_peer : InterfaceConfigType
  access_auto access_untagged access_tagged access_uplink access_downlink : InterfaceConfigType

abbrev pub config_type_value : InterfaceConfigType → ℕ
config_type_value InterfaceConfigType.unknown = 0
config_type_value InterfaceConfigType.unmanaged = 1
config_type_value InterfaceConfigType.configfile = 2
config_type_value InterfaceConfigType.custom = 3
config_type_value InterfaceConfigType.template = 4
config_type_value InterfaceConfigType.mlag_peer = 5
config_type_value InterfaceConfigType.access_auto = 10
config_type_value InterfaceConfigType.access_untagged = 11
config_type_value InterfaceConfigType.access_tagged = 12
config_type_value InterfaceConfigType.access_uplink = 13
config_type_value InterfaceConfigType.access_downlink = 14

pub data JobStatus : Type 0 where
  unknown scheduled running finished exception aborted aborting : JobStatus

abbrev pub job_status_value : JobStatus → ℕ
job_status_value JobStatus.unknown = 0
job_status_value JobStatus.scheduled = 1
job_status_value JobStatus.running = 2
job_status_value JobStatus.finished = 3
job_status_value JobStatus.exception = 4
job_status_value JobStatus.aborted = 5
job_status_value JobStatus.aborting = 6

abbrev pub state_eq : DeviceState → DeviceState → Bool
state_eq s t = device_state_value s == device_state_value t

abbrev pub type_eq : DeviceType → DeviceType → Bool
type_eq s t = device_type_value s == device_type_value t

abbrev pub config_type_eq : InterfaceConfigType → InterfaceConfigType → Bool
config_type_eq s t = config_type_value s == config_type_value t

abbrev pub status_eq : JobStatus → JobStatus → Bool
status_eq s t = job_status_value s == job_status_value t
