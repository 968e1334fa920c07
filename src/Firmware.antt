-- ===== src/Firmware.antt =====
-- `device_upgrade_task` and `device_upgrade` of src/cnaas_nms/devicehandler/firmware.py. The subtasks that
-- talk to a switch are answers; the steps that were run are listed in their order.
pub mod Reboots
use cnaas_nms.Prelude.{
  ℕ, String, Bool, true, false, Option, none, some, List, [], ◌∷◌, ◌&&◌, ◌||◌, if◌then◌else◌,
  str_eq, is_false,
}
use cnaas_nms.Prelude.Exec.{
  Error, Result, ok, err, exception, value_error, task_error, unbound_local,
}
use cnaas_nms.Schema.{Db, Device}
use cnaas_nms.Sync.Env.{Env}
use cnaas_nms.Sync.Inventory.{load, inventory_selector, names, one, nobody, given, HostArg}
use cnaas_nms.Sync.Tasks.{find_device}

pub data UpgradeStep : Type 0 where
  pre_flight_check firmware_download firmware_activate device_reboot post_flight_check : UpgradeStep

pub record UpgradeArgs : Type 0 where
  pub pre_flight : Bool
  pub download : Bool
  pub activate : Bool
  pub reboot : Bool
  pub post_flight : Bool

-- How the subtask that activates the firmware ends.
pub data ActivateAnswer : Type 0 where
  activated already_active not_activated : ActivateAnswer

pub record UpgradeAnswers : Type 0 where
  pub pre_flight_ok : Bool  -- it neither raises nor fails
  pub download_ok : Bool
  pub activation : ActivateAnswer

abbrev pub Run : Type 0
Run = Result (Unit {0}) × List UpgradeStep

abbrev pub also : UpgradeStep → Run → Run
also step (r, steps) = (r, step ∷ steps)

abbrev pub when : Bool → UpgradeStep → Run → Run
when b step run = if b then also step run else run

-- The reboot and the post-flight check, whose failures are only logged.
abbrev pub after_activate : UpgradeArgs → (skip : Bool) → Run
after_activate args skip =
    when (args.reboot && is_false skip) device_reboot
      (when (args.post_flight && is_false skip) post_flight_check (ok tt, []))

abbrev pub activate_by : UpgradeArgs → ActivateAnswer → Run
activate_by args activated = after_activate args false
activate_by args already_active = after_activate args true
activate_by args not_activated = (err task_error, [])

abbrev pub after_download : UpgradeArgs → UpgradeAnswers → Run
after_download args answers =
    if args.activate
    then also firmware_activate (activate_by args answers.activation)
    else after_activate args false

abbrev pub after_pre_flight : UpgradeArgs → UpgradeAnswers → Run
after_pre_flight args answers =
    if args.download
    then also firmware_download
        (if answers.download_ok then after_download args answers else (err exception, []))
    else after_download args answers

-- `device_upgrade_task` on one host. A pre-flight check that fails ends the task like one that raises:
-- its bare `raise` has no exception to raise again.
unfoldable pub device_upgrade_task : UpgradeArgs → UpgradeAnswers → Run
device_upgrade_task args answers =
    if args.pre_flight
    then also pre_flight_check
        (if answers.pre_flight_ok then after_pre_flight args answers else (err exception, []))
    else after_pre_flight args answers

abbrev is_eos : Device → Bool
is_eos dev = elim dev.platform [ none ↦ false | some p ↦ str_eq p "eos" ]

-- The loop over `device_list`.
unfoldable pub check_platforms : List String → Db → Result (Unit {0})
check_platforms [] db = ok tt
check_platforms (host ∷ hosts) db =
    let rest = check_platforms hosts db in
    elim (find_device host db.devices) [
      | none ↦ err exception
      | some dev ↦ if is_eos dev then rest else err exception
    ]

abbrev pub host_arg : Option String → HostArg
host_arg none = nobody
host_arg (some s) = one s

abbrev has_text : Option String → Bool
has_text none = false
has_text (some s) = is_false (str_eq s "")

-- The hosts that are selected: by name, else by group.
unfoldable pub upgrade_hosts : Env → (hostname group : Option String) → Db → Result (List String)
upgrade_hosts env hostname group db =
    let nr = load env.get_groups db.devices in
    if has_text hostname
    then ok (names (inventory_selector nr true (host_arg hostname) none none).hosts)
    else if has_text group
    then ok (names (inventory_selector nr true nobody none group).hosts)
    else err value_error

abbrev runs : UpgradeArgs → (String → UpgradeAnswers) → List String → List (String × Run)
runs args answers [] = []
runs args answers (host ∷ hosts) =
    (host, device_upgrade_task args (answers host)) ∷ runs args answers hosts

abbrev checked_runs :
    UpgradeArgs
    → (String → UpgradeAnswers)
    → Option Error
    → List String
    → Result (Unit {0})
    → Result (List (String × Run))
checked_runs args answers raises hosts (err e) = err e
checked_runs args answers (some e) hosts (ok _) = err unbound_local
checked_runs args answers none hosts (ok _) = ok (runs args answers hosts)

abbrev selected_runs :
    UpgradeArgs
    → (String → UpgradeAnswers)
    → Option Error
    → Db
    → Result (List String)
    → Result (List (String × Run))
selected_runs args answers raises db (err e) = err e
selected_runs args answers raises db (ok hosts) =
    checked_runs args answers raises hosts (check_platforms hosts db)

-- `device_upgrade`. Where the run itself raises, `nrresult` has no value at the return.
unfoldable pub device_upgrade :
    Env
    → UpgradeArgs
    → (hostname group : Option String) → (answers : String → UpgradeAnswers)
    → (raises : Option Error) → Db
    → Result (List (String × Run))
device_upgrade env args hostname group answers raises db =
    selected_runs args answers raises db (upgrade_hosts env hostname group db)
