-- ===== src/Sync/Confirm/Applied.antt =====
-- What applying a static configuration leaves behind.
use cnaas_nms.Prelude.{
  is_false, ◌≡◌, refl, Bool, true, false, arith, String, none, some, ◌&&◌, is_some, lookup,
  str_eq_refl,
}
use cnaas_nms.Prelude.Exec.{ok}
use cnaas_nms.Schema.{Db, DeviceState, state_eq}
use cnaas_nms.Sync.History.Events.{lookup-add_sync_event}
use cnaas_nms.Sync.Env.{Env}
use cnaas_nms.Sync.Tasks.{find_device, is_err}
use cnaas_nms.Sync.Marking.Marks.{find_device-set_device}
use cnaas_nms.Sync.Confirm.{ApplyArgs, apply_config, mark_applied, unmanage}

abbrev pub is_unmanaged : String → Db → Bool
is_unmanaged host db = elim (find_device host db.devices) [
  | none ↦ false
  | some dev ↦
      state_eq dev.state DeviceState.unmanaged
      && is_false dev.synchronized
      && is_some (lookup host db.sync_events)
]

-- Applying a configuration for real and returning leaves the device unmanaged, out of sync and with
-- a sync event. A dry run, or a call that raises, changes nothing.
pub apply_config_outcome :
    (env : Env) (args : ApplyArgs) (db : Db)
    → (args.dry_run ≡ false
        → (apply_config env args db).0 ≡ ok tt
        → is_unmanaged args.hostname (apply_config env args db).1 ≡ true)
      × (args.dry_run ≡ true → (apply_config env args db).1 ≡ db)
      × (is_err (apply_config env args db).0 ≡ true → (apply_config env args db).1 ≡ db)
unfolding apply_config mark_applied
apply_config_outcome env args db =
    let f = find_device-set_device args.hostname args.hostname unmanage db.devices (λ d. refl) in
    let s = str_eq_refl args.hostname in
    let l =
      lookup-add_sync_event env.now args.hostname "apply_config" args.scheduled_by
        (some args.job_id) none args.hostname db.sync_events in
    ground (arith, f, s, l)
