-- ===== src/Examples/Settings.antt =====
-- Settings, groups, firmware and changed files, tried out.
use cnaas_nms.Prelude.{◌≡◌, refl, ℕ, String, true, none, some, List, [], ◌∷◌, any, str_eq}
use cnaas_nms.Prelude.Exec.{ok, err, vlan_conflict_error}
use cnaas_nms.Settings.Vlans.{
  Vxlan, DeviceSettings, check_vlan_collisions, from_keys, check_devices, check_vxlan, check_vxlans,
  in_internal_range,
}
use cnaas_nms.Settings.Vlans.Turns.{AllFit, Extends}
use cnaas_nms.Settings.Vlans.Unique.{check_vlan_collisions-AllFit}
use cnaas_nms.Settings.Groups.{
  Group, get_groups, get_groups_priorities, primary_group, find_primary_group,
  get_groups_priorities_sorted, insert_sorted, sort_priorities,
}
use cnaas_nms.Settings.Groups.Primary.{IsPrimary, primary_group-IsPrimary}
use cnaas_nms.Firmware.{UpgradeArgs, UpgradeAnswers, activated, device_upgrade_task}
use cnaas_nms.Firmware.Reboots.{is_reboot, Ready, device_upgrade_task-reboot}
use cnaas_nms.Repos.{GroupAnswers, Filename, Unsynced, settings_syncstatus, everything, basedir}
use cnaas_nms.Repos.Marked.{is_global, settings_syncstatus-everything}
use cnaas_nms.Examples.Data.{db0}

abbrev vxlan : ℕ → ℕ → String → Vxlan
vxlan vni vlan_id name = record { vni = some vni; vlan_id = some vlan_id; vlan_name = some name }

abbrev settings_of : List (String × Vxlan) → DeviceSettings
settings_of vxlans = record { vxlans = some vxlans; internal_vlans = some (3006, 4094) }

abbrev devices1 : List (String × DeviceSettings)
devices1 =
    ("access1", settings_of (("students", vxlan 100500 500 "STUDENT") ∷ []))
    ∷ ("dist1", settings_of (("students", vxlan 100500 500 "STUDENT") ∷ []))
    ∷ []

check_vlan_collisions_test : check_vlan_collisions true (600 ∷ []) devices1 db0 ≡ ok tt
unfolding check_vlan_collisions check_devices check_vxlans check_vxlan in_internal_range
check_vlan_collisions_test = refl

-- The VLAN of a management domain is taken.
check_vlan_collisions_management :
    check_vlan_collisions true (500 ∷ []) devices1 db0 ≡ err vlan_conflict_error
unfolding check_vlan_collisions check_devices check_vxlans check_vxlan
check_vlan_collisions_management = refl

check_vlan_collisions-AllFit_example :
    (names : List (ℕ × String)) × Extends (from_keys (600 ∷ [])) names × AllFit names devices1
check_vlan_collisions-AllFit_example =
    check_vlan_collisions-AllFit (600 ∷ []) devices1 db0 check_vlan_collisions_test

abbrev groups1 : List Group
groups1 =
    record { name = some "CAMPUS"; regex = some "access1"; group_priority = some 10 }
    ∷ record { name = some "DEFAULT"; regex = none; group_priority = some 1 }
    ∷ record { name = some "LAB"; regex = some "access1"; group_priority = some 20 }
    ∷ []

primary_group_test : primary_group str_eq groups1 "access1" ≡ "LAB"
unfolding find_primary_group get_groups_priorities_sorted sort_priorities get_groups_priorities
    insert_sorted get_groups
primary_group_test = refl

primary_group-IsPrimary_example :
    IsPrimary
      (get_groups str_eq (some "access1") groups1)
      (get_groups_priorities str_eq none groups1 [])
      (primary_group str_eq groups1 "access1")
primary_group-IsPrimary_example = primary_group-IsPrimary str_eq groups1 "access1"

abbrev upgrade1 : UpgradeArgs
upgrade1 = record {
  pre_flight = true;
  download = true;
  activate = true;
  reboot = true;
  post_flight = true;
}

abbrev answers1 : UpgradeAnswers
answers1 = record { pre_flight_ok = true; download_ok = true; activation = activated }

device_upgrade_task_test : any is_reboot (device_upgrade_task upgrade1 answers1).1 ≡ true
unfolding device_upgrade_task
device_upgrade_task_test = refl

device_upgrade_task-reboot_example : Ready upgrade1 answers1
device_upgrade_task-reboot_example =
    device_upgrade_task-reboot upgrade1 answers1 device_upgrade_task_test

abbrev groups_answer : GroupAnswers
groups_answer = record { groups = "LAB" ∷ []; primary_groups = ("access1", "LAB") ∷ [] }

abbrev files1 : List Filename
files1 =
    record { dir = "groups"; second = some "LAB" }
    ∷ record { dir = "global"; second = some "routing.yml" }
    ∷ []

abbrev nothing : Unsynced
nothing = record { devtypes = []; hostnames = [] }

files1_test : any is_global files1 ≡ true
unfolding basedir
files1_test = refl

settings_syncstatus-everything_example :
    settings_syncstatus groups_answer files1 nothing ≡ everything
settings_syncstatus-everything_example =
    settings_syncstatus-everything groups_answer files1 nothing files1_test
