-- ===== src/Examples/Confirm.antt =====
-- Confirming and applying, tried out.
use cnaas_nms.Prelude.{◌≡◌, refl, true, false, none, some, List, [], ◌∷◌}
use cnaas_nms.Prelude.Exec.{Error, ok}
use cnaas_nms.Schema.{Db}
use cnaas_nms.Jobs.Joblock.{find_by_job}
use cnaas_nms.Jobs.Joblock.Unique.{new_lock}
use cnaas_nms.Sync.Inventory.{load, select_devices}
use cnaas_nms.Sync.Tasks.{HostRun, is_err}
use cnaas_nms.Sync.Confirm.{ConfirmArgs, ApplyArgs, confirm_devices, confirm_selected, apply_config}
use cnaas_nms.Sync.Confirm.Confirmed.{confirm_devices_frees}
use cnaas_nms.Sync.Confirm.Applied.{is_unmanaged, apply_config_outcome}
use cnaas_nms.Examples.Data.{db0, env0}

abbrev confirm_args : ConfirmArgs
confirm_args = record {
  prev_job_id = 2;
  hostnames = "access1" ∷ [];
  job_id = 5;
  scheduled_by = none;
  resync = false;
}

abbrev locked_db : Db
locked_db = record db0 { locks = new_lock 1 "devices" 2 ∷ [] }

confirm_devices_frees_example :
    ((runs : List HostRun)
      → (confirm_devices env0 confirm_args locked_db).0 ≡ ok runs
      → find_by_job 2 (confirm_devices env0 confirm_args locked_db).1.locks ≡ none)
    × ((e : Error)
        → env0.confirm_raises ≡ some e
        → find_by_job 2 (confirm_devices env0 confirm_args locked_db).1.locks ≡ none)
unfolding confirm_selected load select_devices
confirm_devices_frees_example =
    confirm_devices_frees env0 confirm_args 1 locked_db ("access1" ∷ []) refl refl

abbrev apply_args : ApplyArgs
apply_args = record { hostname = "dist1"; dry_run = false; job_id = 6; scheduled_by = some "admin" }

apply_config_outcome_example :
    (false ≡ false
      → (apply_config env0 apply_args db0).0 ≡ ok tt
      → is_unmanaged "dist1" (apply_config env0 apply_args db0).1 ≡ true)
    × (false ≡ true → (apply_config env0 apply_args db0).1 ≡ db0)
    × (is_err (apply_config env0 apply_args db0).0 ≡ true
        → (apply_config env0 apply_args db0).1 ≡ db0)
apply_config_outcome_example = apply_config_outcome env0 apply_args db0
