-- ===== src/Schema/Rows.antt =====
-- The rows of db/device.py, db/interface.py, db/linknet.py, db/mgmtdomain.py and
-- db/reservedip.py. A relationship column (`device_a`) is the id of the row that it names.
use Prim.Native.Nat.{ℕ}
use Prim.Native.String.{String}
use mathlib.Core.Bool.{Bool}
use mathlib.Core.Option.{Option}
use cnaas_nms.Prelude.{◌==◌, ◌&&◌}
use cnaas_nms.Schema.Enums.{DeviceState, DeviceType, InterfaceConfigType}

-- An address of either version, as Python's `ipaddress` compares them.
pub record IpAddress : Type 0 where
  pub version : ℕ
  pub value : ℕ

abbrev pub ip_eq : IpAddress → IpAddress → Bool
ip_eq a b = a.version == b.version && a.value == b.value

-- A network address and its prefix length: `ip_interface` and `ip_network` values.
pub record IpNetwork : Type 0 where
  pub version : ℕ
  pub network_address : ℕ
  pub prefixlen : ℕ

pub record IpInterface : Type 0 where
  pub ip : IpAddress
  pub prefixlen : ℕ

pub record StackMember : Type 0 where
  pub hardware_id : String
  pub member_no : ℕ
  pub priority : Option ℕ

pub record Device : Type 0 where
  pub id : ℕ
  pub hostname : String
  pub management_ip : Option IpAddress
  pub secondary_management_ip : Option IpAddress
  pub dhcp_ip : Option IpAddress
  pub infra_ip : Option IpAddress
  pub serial : Option String
  pub ztp_mac : Option String
  pub platform : Option String
  pub vendor : Option String
  pub model : Option String
  pub os_version : Option String
  pub synchronized : Bool
  pub state : DeviceState
  pub device_type : DeviceType
  pub confhash : Option String
  pub last_seen : ℕ

-- The JSON of an interface row: the keys that the modelled code reads and writes.
pub record InterfaceData : Type 0 where
  pub neighbor : Option String
  pub neighbor_id : Option ℕ
  pub redundant_link : Option Bool
  pub others : Bool  -- it has other keys too

pub record Interface : Type 0 where
  pub device_id : ℕ
  pub name : String
  pub configtype : InterfaceConfigType
  pub info : Option InterfaceData  -- the column `data`

pub record Linknet : Type 0 where
  pub id : ℕ
  pub ipv4_network : Option IpNetwork
  pub device_a_id : ℕ
  pub device_a_ip : Option IpAddress
  pub device_a_port : String
  pub device_b_id : ℕ
  pub device_b_ip : Option IpAddress
  pub device_b_port : String

pub record Mgmtdomain : Type 0 where
  pub id : ℕ
  pub ipv4_gw : Option IpInterface
  pub ipv6_gw : Option IpInterface
  pub device_a_id : ℕ
  pub device_b_id : ℕ
  pub vlan : ℕ

pub record ReservedIp : Type 0 where
  pub device_id : ℕ
  pub ip_version : ℕ
  pub ip : IpAddress
  pub last_seen : ℕ

-- `SyncEvent` of devicehandler/sync_history.py
pub record SyncEvent : Type 0 where
  pub cause : String
  pub timestamp : ℕ
  pub by : String
  pub job_id : Option ℕ
