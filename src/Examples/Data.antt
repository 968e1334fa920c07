-- ===== src/Examples/Data.antt =====
-- The data that the tests share: three devices, a few jobs, an environment whose devices answer, and
-- the arguments of a sync.
use cnaas_nms.Prelude.{ℕ, String, Bool, true, false, none, some, [], ◌∷◌, if◌then◌else◌, str_eq}
use cnaas_nms.Prelude.Exec.{ok}
use cnaas_nms.Schema.{
  Db, Device, DeviceState, DeviceType, Job, JobStatus, JobData, IpAddress, Linknet,
}
use cnaas_nms.Sync.Score.{codes}
use cnaas_nms.Sync.Env.{Env}
use cnaas_nms.Sync.Locks.{SyncArgs}
use cnaas_nms.Links.{LinkEnv, Facts, FactsAnswer}
use cnaas_nms.Init.{InitEnv}

abbrev pub ip : ℕ → IpAddress
ip n = record { version = 4; value = n }

abbrev pub device : ℕ → String → DeviceType → Bool → Device
device id hostname device_type synchronized = record {
  id = id;
  hostname = hostname;
  management_ip = some (ip 10);
  secondary_management_ip = none;
  dhcp_ip = none;
  infra_ip = none;
  serial = none;
  ztp_mac = none;
  platform = some "eos";
  vendor = none;
  model = none;
  os_version = none;
  synchronized = synchronized;
  state = DeviceState.managed;
  device_type = device_type;
  confhash = none;
  last_seen = 0;
}

abbrev pub access1 : Device
access1 = device 1 "access1" DeviceType.access false

abbrev pub dist1 : Device
dist1 = device 2 "dist1" DeviceType.dist true

abbrev pub dist2 : Device
dist2 = device 3 "dist2" DeviceType.dist true

abbrev pub job : ℕ → JobStatus → Job
job id status = record {
  id = id;
  status = status;
  scheduled_time = 100;
  start_time = none;
  finish_time = some 120;
  function_name = "sync_devices";
  scheduled_by = "admin";
  comment = none;
  ticket_ref = none;
  next_job_id = none;
  result = some (
      JobData.devices (
        (
          "access1",
          record {
            failed = some false;
            job_tasks = some (
                record {
                  name = "Generate device config";
                  result = "hostname access1";
                  diff = "";
                  failed = false;
                }
                ∷ []);
          },
        )
        ∷ []));
  exception = none;
  finished_devices = some [];
  change_score = none;
  start_arguments = [];
}

abbrev pub link : Linknet
link = record {
  id = 1;
  ipv4_network = some (record { version = 4; network_address = 40; prefixlen = 31 });
  device_a_id = 2;
  device_a_ip = some (ip 40);
  device_a_port = "Ethernet1";
  device_b_id = 3;
  device_b_ip = some (ip 41);
  device_b_port = "Ethernet2";
}

abbrev pub db0 : Db
db0 = record {
  devices = access1 ∷ dist1 ∷ dist2 ∷ [];
  interfaces = [];
  linknets = link ∷ [];
  mgmtdomains = [];
  reserved_ips = [];
  jobs = job 1 JobStatus.finished ∷ job 2 JobStatus.running ∷ job 3 JobStatus.scheduled ∷ [];
  locks = [];
  sync_events = [];
  next_job_id = 4;
  next_linknet_id = 2;
  dispatched = [];
}

-- Every device answers, and the configuration of each would change by one line.
abbrev pub env0 : Env
env0 = record {
  get_groups = λ _. [];
  commit_confirmed_mode = some 1;
  use_mule = false;
  now = 1000;
  sha256 = λ s. s;
  running = λ _. ok "config";
  running_after = λ _. ok "new config";
  answers = λ _. record {
    generate = ok (codes "hostname x");
    configure = ok (codes "+ntp server 1.2.3.4");
    verify = ok tt;
  };
  confirms = λ _. (false, 1);
  check_raises = none;
  push_raises = none;
  confirm_raises = none;
  apply_raises = none;
  describe = λ _. "error";
  others = λ _ locks. locks;
  waited = λ db. (ok tt, db);
}

-- A sync of `access1`.
abbrev pub args0 : SyncArgs
args0 = record {
  hostnames = "access1" ∷ [];
  device_type = none;
  group = none;
  dry_run = false;
  force = false;
  auto_push = false;
  job_id = 2;
  scheduled_by = some "admin";
  resync = false;
  confirm_mode_override = none;
}

-- `access1` sees the DIST switches on its first two ports, and their ports to it are downlinks.
abbrev pub links0 : LinkEnv
links0 = record {
  lldp_neighbors = λ hostname.
      if str_eq hostname "access1"
      then ok (("Ethernet1", ("dist1", "Ethernet5")) ∷ ("Ethernet2", ("dist2", "Ethernet5")) ∷ [])
      else ok [];
  get_settings = λ hostname _ _.
      if str_eq hostname "access1"
      then ok none
      else ok
          (some (record { name = "Ethernet5"; ifclass = "downlink"; redundant_link = true } ∷ []));
  interface_range_expansion = λ name. name ∷ [];
  interfaces_names = λ _. ok ("Ethernet1" ∷ "Ethernet2" ∷ "Management1" ∷ []);
  infra_link_net = record { version = 4; network_address = 32; prefixlen = 28 };
  now = 1000;
}

abbrev pub facts1 : Facts
facts1 = record {
  hostname = "access1";
  serial_number = "ABC123";
  vendor = "Arista";
  model = "";
  os_version = "4.21";
}

-- Devices that answer, except on the addresses that they had before.
abbrev pub init0 : InitEnv
init0 = record {
  sync = env0;
  links = links0;
  reachable = λ _. true;
  get_facts = λ _. FactsAnswer.got facts1;
  populate_device_vars = λ _ _ _ _. ok tt;
  rebuild_settings_cache = ok tt;
  old_ip_get = λ _. some true;
  primary_version = 4;
  reserved_count = 5;
  init_mgmt_timeout = 30;
  mgmt_lo_net = record { version = 4; network_address = 64; prefixlen = 28 };
  infra_lo_net = record { version = 4; network_address = 96; prefixlen = 28 };
}

-- `access1` is discovered, and the DIST switches have a management domain.
abbrev pub db2 : Db
db2 = record db0 {
  devices =
      record access1 { state = DeviceState.discovered; ztp_mac = some "0800275C091F" }
      ∷ dist1
      ∷ dist2
      ∷ [];
  mgmtdomains =
      record {
        id = 1;
        ipv4_gw = some (record { ip = ip 257; prefixlen = 24 });
        ipv6_gw = none;
        device_a_id = 2;
        device_b_id = 3;
        vlan = 600;
      }
      ∷ [];
}
