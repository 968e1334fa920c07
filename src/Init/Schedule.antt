-- ===== src/Init/Schedule.antt =====
-- The jobs that an initialisation schedules: `schedule_mlag_peer_init`, `schedule_init_device_step2` and
-- `schedule_discover_device` of src/cnaas_nms/devicehandler/init_device.py. An iteration below 1, as the
-- default -1, is 0.
pub mod Chain
use cnaas_nms.Prelude.{
  ℕ, ◌+◌, ◌*◌, String, Bool, true, false, Option, none, some, List, [], ◌∷◌, ◌&&◌, if◌then◌else◌,
  ltb, leb,
}
use cnaas_nms.Prelude.Exec.{Exec, Result, ok, err}
use cnaas_nms.Schema.{Db, ArgValue}
use cnaas_nms.Jobs.Scheduler.{add_onetime_job}
use cnaas_nms.Sync.Env.{Env}

abbrev pub text_or_null : Option String → ArgValue
text_or_null none = ArgValue.null
text_or_null (some s) = ArgValue.text s

-- The functions' paths, as the scheduler is given them.
abbrev pub access_step1_path : String
access_step1_path = "cnaas_nms.devicehandler.init_device:init_access_device_step1"

abbrev pub step2_path : String
step2_path = "cnaas_nms.devicehandler.init_device:init_device_step2"

abbrev pub discover_path : String
discover_path = "cnaas_nms.devicehandler.init_device:discover_device"

-- `scheduler.add_onetime_job(func, when, scheduled_by, kwargs)`: the arguments are texts, numbers and
-- lists of texts.
abbrev pub schedule : Env → String → ℕ → Option String → List (String × ArgValue) → Exec Db ℕ
schedule env func when scheduled_by kwargs =
    add_onetime_job true env.use_mule env.now func (some when) scheduled_by kwargs

-- `schedule_mlag_peer_init`
unfoldable pub schedule_mlag_peer_init :
    Env
    → (mlag_peer_id : ℕ) → (mlag_peer_new_hostname : String) → (uplink_hostnames : List String)
    → (scheduled_by : Option String) → Exec Db ℕ
schedule_mlag_peer_init env mlag_peer_id mlag_peer_new_hostname uplink_hostnames scheduled_by =
    schedule env access_step1_path 60 scheduled_by (
      ("device_id", ArgValue.number mlag_peer_id)
      ∷ ("new_hostname", ArgValue.text mlag_peer_new_hostname)
      ∷ ("uplink_hostnames_arg", ArgValue.names uplink_hostnames)
      ∷ ("scheduled_by", text_or_null scheduled_by)
      ∷ [])

abbrev pub some_id : Result ℕ × Db → Result (Option ℕ) × Db
some_id (err e, db) = (err e, db)
some_id (ok id, db) = (ok (some id), db)

abbrev pub step2_job : Env → ℕ → ℕ → ℕ → Option String → Exec Db ℕ
step2_job env when device_id iteration scheduled_by =
    schedule env step2_path when scheduled_by
      (("device_id", ArgValue.number device_id) ∷ ("iteration", ArgValue.number iteration) ∷ [])

-- `schedule_init_device_step2(device_id, iteration, scheduled_by)`
unfoldable pub schedule_init_device_step2 :
    Env → (device_id iteration : ℕ) → (scheduled_by : Option String) → Exec Db (Option ℕ)
schedule_init_device_step2 env device_id iteration scheduled_by db =
    if ltb 0 iteration && ltb iteration 2
    then some_id (step2_job env (30 * iteration) device_id (iteration + 1) scheduled_by db)
    else (ok none, db)

abbrev pub discover_job : Env → String → String → ℕ → Option String → Exec Db ℕ
discover_job env ztp_mac dhcp_ip iteration scheduled_by =
    schedule env discover_path (60 * iteration) scheduled_by (
      ("ztp_mac", ArgValue.text ztp_mac)
      ∷ ("dhcp_ip", ArgValue.text dhcp_ip)
      ∷ ("iteration", ArgValue.number iteration)
      ∷ [])

-- `schedule_discover_device(ztp_mac, dhcp_ip, iteration, scheduled_by)`
unfoldable pub schedule_discover_device :
    Env
    → (ztp_mac dhcp_ip : String) → (iteration : ℕ) → (scheduled_by : Option String)
    → Exec Db (Option ℕ)
schedule_discover_device env ztp_mac dhcp_ip iteration scheduled_by db =
    if ltb 0 iteration && leb iteration 3
    then some_id (discover_job env ztp_mac dhcp_ip iteration scheduled_by db)
    else (ok none, db)
