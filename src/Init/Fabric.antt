-- ===== src/Init/Fabric.antt =====
-- `init_fabric_device_step1` of src/cnaas_nms/devicehandler/init_device.py. Each commit ends a phase, and
-- a phase that raises is rolled back; the plugin hook cannot fail the job.
use cnaas_nms.Prelude.{
  ℕ, String, Bool, true, false, Option, none, some, List, [], ◌∷◌, if◌then◌else◌, str_eq,
}
use cnaas_nms.Prelude.Exec.{
  Exec, Result, ok, err, pure, raise, lift, gets, query, modify, value_error, attribute_error,
  no_result_found, ◌>>=◌, ◌>>◌,
}
use cnaas_nms.Schema.{Db, Device, DeviceState, DeviceType, IpAddress, ArgValue}
use cnaas_nms.Addressing.{find_free_mgmt_lo_ip, find_free_infra_ip}
use cnaas_nms.Sync.Locks.{session}
use cnaas_nms.Links.{find_id}
use cnaas_nms.Links.Linknets.{UpdateArgs, update_linknets}
use cnaas_nms.Init.{InitEnv, set_id}
use cnaas_nms.Init.Checks.{pre_init_checks, pre_init_check_neighbors}
use cnaas_nms.Init.Synced.{check_neighbor_sync}
use cnaas_nms.Init.Schedule.{schedule, step2_job}
use cnaas_nms.Init.Rows.{reserve, drop_reservations, clear, rename}

pub record FabricArgs : Type 0 where
  pub device_id : ℕ
  pub new_hostname : String
  pub device_type : String
  pub neighbors : Option (List String)
  pub scheduled_by : Option String

-- `DeviceType[device_type]`, which must be CORE or DIST
abbrev pub fabric_type : String → Result DeviceType
fabric_type s =
    if str_eq s "CORE"
    then ok DeviceType.core
    else if str_eq s "DIST"
    then ok DeviceType.dist
    else err value_error

abbrev pub fabric_links : FabricArgs → String → DeviceType → Bool → UpdateArgs
fabric_links args hostname devtype dry_run = record {
  hostname = hostname;
  devtype = devtype;
  ztp_hostname = some args.new_hostname;
  mlag_peer = none;
  dry_run = dry_run;
}

-- The checks: the device, and the names of its verified neighbours.
unfoldable pub fabric_checks : InitEnv → FabricArgs → DeviceType → Exec Db (Device × List String)
fabric_checks env args devtype = do
  dev ← query (pre_init_checks env.reachable args.device_id (DeviceState.discovered ∷ []))
  linknets ← update_linknets env.links (fabric_links args dev.hostname devtype true) []
  verified ← query (λ db. pre_init_check_neighbors db dev devtype linknets args.neighbors none)
  session (check_neighbor_sync env.sync verified)
  pure (dev, verified)

abbrev pub reserve_lo : InitEnv → ℕ → Option IpAddress → Exec Db IpAddress
reserve_lo env device_id none = raise attribute_error
reserve_lo env device_id (some ip) = do modify (reserve env.sync.now device_id ip); pure ip

-- `IPv4Interface("{}/32".format(infra_ip))` of the address that was found
abbrev pub given_infra : Option IpAddress → IpAddress → Exec Db IpAddress
given_infra none ip = raise value_error
given_infra (some infra) ip = pure ip

-- The two loopback addresses; they are committed before a missing infra address raises.
unfoldable pub fabric_addresses : InitEnv → ℕ → Exec Db IpAddress
fabric_addresses env device_id = do
  mgmt ← gets (find_free_mgmt_lo_ip env.mgmt_lo_net)
  infra ← gets (find_free_infra_ip env.infra_lo_net)
  ip ← reserve_lo env device_id mgmt
  modify (set_id device_id (λ d. record d { infra_ip = infra }))
  given_infra infra ip

-- The columns that the session after the push writes.
abbrev pub fabric_init : IpAddress → Device → Device
fabric_init ip d = record d { management_ip = some ip; state = DeviceState.init }

abbrev pub finish_row : ℕ → IpAddress → Option Device → Exec Db (Unit {0})
finish_row device_id ip none = raise no_result_found
finish_row device_id ip (some d) =
    modify (λ db. drop_reservations device_id (set_id device_id (fabric_init ip) db))

unfoldable pub fabric_finish : ℕ → IpAddress → Exec Db (Unit {0})
fabric_finish device_id ip = do
  d ← gets (λ db. find_id device_id db.devices)
  finish_row device_id ip d

-- From the commit of the device's type to the rename. The types of the neighbours are not read again.
unfoldable pub fabric_rows : InitEnv → FabricArgs → Device → DeviceType → Exec Db IpAddress
fabric_rows env args dev devtype = do
  modify (set_id args.device_id (λ d. record d { device_type = devtype }))
  update_linknets env.links (fabric_links args dev.hostname devtype false) []
  modify (clear env.sync.now args.device_id)
  ip ← fabric_addresses env args.device_id
  query (λ db. env.populate_device_vars db args.device_id args.new_hostname devtype)
  rename args.device_id args.new_hostname
  pure ip

-- The jobs that go on: a sync of the neighbours, and the second step.
unfoldable pub fabric_jobs : InitEnv → FabricArgs → List String → Exec Db ℕ
fabric_jobs env args verified = do
  schedule env.sync "cnaas_nms.devicehandler.sync_devices:sync_devices" 1 args.scheduled_by
      (("hostnames", ArgValue.names verified) ∷ ("dry_run", ArgValue.flag false) ∷ [])
  step2_job env.sync 60 args.device_id 1 args.scheduled_by

-- `init_fabric_device_step1(device_id, new_hostname, device_type, neighbors, job_id, scheduled_by)`,
-- with the id of the next job.
unfoldable pub init_fabric_device_step1 : InitEnv → FabricArgs → Exec Db ℕ
init_fabric_device_step1 env args = do
  devtype ← lift (fabric_type args.device_type)
  (dev, verified) ← fabric_checks env args devtype
  ip ← fabric_rows env args dev devtype
  lift env.rebuild_settings_cache
  fabric_finish args.device_id ip
  fabric_jobs env args verified
