-- ===== src/Init/FirstStep.antt =====
-- `init_access_device_step1` of src/cnaas_nms/devicehandler/init_device.py: the push, the session that
-- follows it, and the jobs that go on.
pub mod RolledBack
use cnaas_nms.Prelude.{
  is_false, ℕ, ◌+◌, ◌*◌, String, Bool, true, false, Option, none, some, List, [], ◌∷◌, ◌||◌, ◌==◌,
  if◌then◌else◌, select, any,
}
use cnaas_nms.Prelude.Exec.{
  Exec, Result, ok, err, pure, raise, lift, gets, modify, no_result_found, ◌>>=◌, ◌>>◌,
}
use cnaas_nms.Schema.{Db, Device, DeviceState, DeviceType, IpAddress, Linknet}
use cnaas_nms.Links.{find_id}
use cnaas_nms.Links.Uplinks.{reset_uplink_interfaces}
use cnaas_nms.Init.{InitEnv, set_id}
use cnaas_nms.Init.Schedule.{schedule_mlag_peer_init, step2_job}
use cnaas_nms.Init.Rows.{drop_reservations}
use cnaas_nms.Init.Access.{AccessArgs, Found, mlag_pair, access_prepare}

-- The links of the device, which the rollback deletes.
abbrev pub drop_links : ℕ → Db → Db
drop_links device_id db = record db {
  linknets =
      select (λ ln. is_false (ln.device_a_id == device_id || ln.device_b_id == device_id))
        db.linknets;
}

-- Back to the state before the initialisation.
abbrev pub roll_back : Device → String → Db → Db
roll_back dev old_hostname db = reset_uplink_interfaces dev (
    drop_reservations dev.id
      (drop_links dev.id (set_id dev.id (λ d. record d { hostname = old_hostname }) db)))

abbrev or_secondary : Option IpAddress → Option IpAddress → Option IpAddress
or_secondary none old = old
or_secondary (some ip) old = some ip

abbrev pub access_init : IpAddress × Option IpAddress → Device → Device
access_init (ip, secondary) d = record d {
  management_ip = some ip;
  secondary_management_ip = or_secondary secondary d.secondary_management_ip;
  state = DeviceState.init;
  device_type = DeviceType.access;
}

-- `not napalm_get_oldip_result or not napalm_get_oldip_result.failed`: the old address still answers,
-- or it is not known that it does not.
abbrev pub old_ip_answers : Option Bool → Bool
old_ip_answers none = true
old_ip_answers (some failed) = is_false failed

abbrev pub finish_found :
    Bool → String → IpAddress × Option IpAddress → Option Device → Exec Db Bool
finish_found answers old_hostname ips none = raise no_result_found
finish_found true old_hostname ips (some dev) = do modify (roll_back dev old_hostname); pure false
finish_found false old_hostname ips (some dev) = do
  modify (λ db. drop_reservations dev.id (set_id dev.id (access_init ips) db))
  pure true

-- The session after the push: whether the initialisation goes on.
unfoldable pub access_finish :
    InitEnv → AccessArgs → String → IpAddress × Option IpAddress → Exec Db Bool
access_finish env args old_hostname ips = do
  dev ← gets (λ db. find_id args.device_id db.devices)
  finish_found (old_ip_answers (env.old_ip_get args.new_hostname)) old_hostname ips dev

abbrev pub step2_delay : InitEnv → Option (ℕ × String) → ℕ
step2_delay env none = env.init_mgmt_timeout
step2_delay env (some pair) = 60 + 2 * env.init_mgmt_timeout

abbrev pub schedule_peer :
    InitEnv → AccessArgs → Option (ℕ × String) → List String → Exec Db (Unit {0})
schedule_peer env args none uplink_hostnames = pure tt
schedule_peer env args (some (id, name)) uplink_hostnames = do
  schedule_mlag_peer_init env.sync id name uplink_hostnames args.scheduled_by
  pure tt

abbrev pub access_jobs : InitEnv → AccessArgs → Found → Bool → Exec Db (Option ℕ)
access_jobs env args found false = pure none
access_jobs env args found true = do
  id ← step2_job env.sync (step2_delay env (mlag_pair args)) args.device_id 1 args.scheduled_by
  schedule_peer env args (mlag_pair args) found.uplink_hostnames
  pure (some id)

-- `init_access_device_step1(device_id, new_hostname, mlag_peer_id, mlag_peer_new_hostname,
-- uplink_hostnames_arg, job_id, scheduled_by)`, with the id of the next job.
unfoldable pub init_access_device_step1 : InitEnv → AccessArgs → Exec Db (Option ℕ)
init_access_device_step1 env args = do
  (dev, found, ips) ← access_prepare env args
  lift env.rebuild_settings_cache
  goes_on ← access_finish env args dev.hostname ips
  access_jobs env args found goes_on
