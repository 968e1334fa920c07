-- ===== src/Init/Access.antt =====
-- `init_access_device_step1` and `init_mlag_peer_only` of
-- src/cnaas_nms/devicehandler/init_device.py. Each commit ends a phase, and a phase that raises is rolled
-- back; the plugin hook cannot fail the job.
use cnaas_nms.Prelude.{
  ℕ, zero, suc, String, Bool, true, false, Option, none, some, List, [], ◌∷◌, ◌++◌, ◌||◌,
  if◌then◌else◌, str_eq,
}
use cnaas_nms.Prelude.Exec.{
  Exec, Error, Result, ok, err, pure, raise, query, modify, handle, exception, value_error,
  device_state_error, device_sync_error, unbound_local, ◌>>=◌, ◌>>◌,
}
use cnaas_nms.Schema.{Db, Device, DeviceState, DeviceType, IpAddress, Mgmtdomain, state_eq}
use cnaas_nms.Lookup.{find_mgmtdomain}
use cnaas_nms.Sync.Locks.{session}
use cnaas_nms.Topology.{LinkDict, deduplicate_linknet_dicts}
use cnaas_nms.Links.{find_id, then_do}
use cnaas_nms.Links.Interfaces.{update_interfacedb_worker}
use cnaas_nms.Links.Linknets.{UpdateArgs, update_linknets}
use cnaas_nms.Links.Uplinks.{get_linknets_as_dict, get_uplink_peer_hostnames}
use cnaas_nms.Init.{InitEnv}
use cnaas_nms.Init.Checks.{pre_init_checks, pre_init_check_neighbors}
use cnaas_nms.Init.Synced.{check_neighbor_sync, pre_init_check_mlag}
use cnaas_nms.Init.Schedule.{schedule_mlag_peer_init}
use cnaas_nms.Init.Rows.{reserve_both, clear, rename, forget_events}

pub record AccessArgs : Type 0 where
  pub device_id : ℕ
  pub new_hostname : String
  pub mlag_peer_id : Option ℕ
  pub mlag_peer_new_hostname : Option String
  pub uplink_hostnames_arg : List String
  pub scheduled_by : Option String

abbrev truthy_id : Option ℕ → Option ℕ
truthy_id none = none
truthy_id (some zero) = none
truthy_id (some (suc n)) = some (suc n)

abbrev truthy_text : Option String → Option String
truthy_text none = none
truthy_text (some s) = if str_eq s "" then none else some s

abbrev both : Option ℕ → Option String → Option (ℕ × String)
both (some id) (some name) = some (id, name)
both _ _ = none

-- `if mlag_peer_id and mlag_peer_new_hostname`
abbrev pub mlag_pair : AccessArgs → Option (ℕ × String)
mlag_pair args = both (truthy_id args.mlag_peer_id) (truthy_text args.mlag_peer_new_hostname)

-- `mlag_peer_id or mlag_peer_new_hostname`
abbrev pub half_pair : AccessArgs → Bool
half_pair args =
    (elim (truthy_id args.mlag_peer_id) [ none ↦ false | some _ ↦ true ])
    || (elim (truthy_text args.mlag_peer_new_hostname) [ none ↦ false | some _ ↦ true ])

abbrev pub both_uplinks : Device → Device → Db → Result (List String)
both_uplinks dev peer db =
    then_do (get_uplink_peer_hostnames dev db)
      (λ us. then_do (get_uplink_peer_hostnames peer db) (λ vs. ok (us ++ vs)))

abbrev pub managed_device : Option Device → Result Device
managed_device none = err value_error
managed_device (some dev) =
    if state_eq dev.state DeviceState.managed then ok dev else err device_state_error

-- `init_mlag_peer_only(device_id, mlag_peer_id, mlag_peer_new_hostname, job_id, scheduled_by)`
unfoldable pub init_mlag_peer_only :
    InitEnv
    → (device_id mlag_peer_id : ℕ) → (mlag_peer_new_hostname : String)
    → (scheduled_by : Option String) → Exec Db ℕ
init_mlag_peer_only env device_id mlag_peer_id mlag_peer_new_hostname scheduled_by = do
  dev ← query (λ db. managed_device (find_id device_id db.devices))
  peer ← query (pre_init_checks env.reachable mlag_peer_id (DeviceState.discovered ∷ []))
  uplink_hostnames ← query (both_uplinks dev peer)
  schedule_mlag_peer_init env.sync mlag_peer_id mlag_peer_new_hostname uplink_hostnames scheduled_by

-- After the peer has been scheduled the job goes on, with no device in its variable.
abbrev pub peer_only : InitEnv → AccessArgs → Option (ℕ × String) → Exec Db Device
peer_only env args none = raise device_state_error
peer_only env args (some (id, name)) = do
  init_mlag_peer_only env args.device_id id name args.scheduled_by
  raise unbound_local

abbrev pub wrong_state : InitEnv → AccessArgs → Error → Exec Db Device
wrong_state env args device_state_error = peer_only env args (mlag_pair args)
wrong_state env args e = raise e

-- The device that is initialised.
unfoldable pub access_device : InitEnv → AccessArgs → Exec Db Device
access_device env args =
    handle (query (pre_init_checks env.reachable args.device_id (DeviceState.discovered ∷ [])))
      (wrong_state env args)

abbrev pub access_links : String → Option Device → Bool → UpdateArgs
access_links hostname peer dry_run = record {
  hostname = hostname;
  devtype = DeviceType.access;
  ztp_hostname = none;
  mlag_peer = elim peer [ none ↦ none | some d ↦ some d.id ];
  dry_run = dry_run;
}

-- What is known before the checks: the links, the uplinks, and the device's MLAG peer.
pub record Found : Type 0 where
  pub linknets : List LinkDict
  pub uplink_hostnames : List String
  pub mlag_peer : Option Device

-- The first device of an MLAG pair.
unfoldable pub find_pair : InitEnv → Device → List LinkDict → ℕ → Exec Db Found
find_pair env dev linknets_dev peer_id = do
  peer ← query (pre_init_checks env.reachable peer_id (DeviceState.discovered ∷ []))
  seen_dev ← update_linknets env.links (access_links dev.hostname (some peer) true) []
  linknets_peer ← query (get_linknets_as_dict peer)
  seen_peer ← update_linknets env.links (access_links peer.hostname (some dev) true) []
  let linknets = deduplicate_linknet_dicts (linknets_dev ++ seen_dev ++ linknets_peer ++ seen_peer)
  update_interfacedb_worker env.links dev true false (some peer.hostname) linknets
  update_interfacedb_worker env.links peer true false (some dev.hostname) linknets
  uplink_hostnames ← query (both_uplinks dev peer)
  query (pre_init_check_mlag dev peer)
  query (pre_init_check_mlag peer dev)
  pure (record { linknets = linknets; uplink_hostnames = uplink_hostnames; mlag_peer = some peer })

-- A device that is not part of an MLAG pair.
unfoldable pub find_single : InitEnv → Device → List LinkDict → Exec Db Found
find_single env dev linknets_dev = do
  seen_dev ← update_linknets env.links (access_links dev.hostname none true) []
  let linknets = deduplicate_linknet_dicts (linknets_dev ++ seen_dev)
  update_interfacedb_worker env.links dev true false none linknets
  uplink_hostnames ← query (get_uplink_peer_hostnames dev)
  pure (record { linknets = linknets; uplink_hostnames = uplink_hostnames; mlag_peer = none })

-- The branches: the first device of a pair, the second, or a single one.
abbrev pub find_links :
    InitEnv
    → AccessArgs
    → Device
    → List LinkDict
    → Option (ℕ × String)
    → List String
    → Exec Db Found
find_links env args dev ls (some (id, name)) uplinks = find_pair env dev ls id
find_links env args dev ls none (u ∷ us) = pure (record {
  linknets = deduplicate_linknet_dicts ls;
  uplink_hostnames = u ∷ us;
  mlag_peer = none;
})
find_links env args dev ls none [] =
    if half_pair args then raise value_error else find_single env dev ls

-- An uplink that is not in sync is only logged.
abbrev pub allow_unsynced : Error → Exec Db (Unit {0})
allow_unsynced device_sync_error = pure tt
allow_unsynced e = raise e

unfoldable pub verify_uplinks : InitEnv → Device → Found → Exec Db (Unit {0})
verify_uplinks env dev found = do
  query
      (λ db. pre_init_check_neighbors db dev DeviceType.access found.linknets none found.mlag_peer)
  session (check_neighbor_sync env.sync found.uplink_hostnames)

-- The second device of a pair is not checked.
abbrev pub access_checks : InitEnv → Device → Found → List String → Exec Db (Unit {0})
access_checks env dev found [] = handle (verify_uplinks env dev found) allow_unsynced
access_checks env dev found (u ∷ us) = pure tt

abbrev pub update_peer : InitEnv → Option Device → Exec Db (List LinkDict)
update_peer env none = pure []
update_peer env (some peer) = update_linknets env.links (access_links peer.hostname none false) []

abbrev pub found_domain : Option Mgmtdomain → Result Mgmtdomain
found_domain none = err exception
found_domain (some dom) = ok dom

-- From the commit of the links to the rename.
unfoldable pub access_rows :
    InitEnv → AccessArgs → Device → Found → Exec Db (IpAddress × Option IpAddress)
access_rows env args dev found = do
  update_linknets env.links (access_links dev.hostname found.mlag_peer false) []
  update_peer env found.mlag_peer
  dom ← query (λ db. then_do (find_mgmtdomain db found.uplink_hostnames) found_domain)
  modify (clear env.sync.now args.device_id)
  ips ← session (reserve_both env args.device_id dom)
  query (λ db. env.populate_device_vars db args.device_id args.new_hostname DeviceType.access)
  rename args.device_id args.new_hostname
  modify (forget_events dev.hostname)
  pure ips

-- The first session.
unfoldable pub access_prepare :
    InitEnv → AccessArgs → Exec Db (Device × Found × (IpAddress × Option IpAddress))
access_prepare env args = do
  dev ← access_device env args
  linknets ← query (get_linknets_as_dict dev)
  found ← find_links env args dev linknets (mlag_pair args) args.uplink_hostnames_arg
  access_checks env dev found args.uplink_hostnames_arg
  ips ← access_rows env args dev found
  pure (dev, found, ips)
