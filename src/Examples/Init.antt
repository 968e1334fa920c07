-- ===== src/Examples/Init.antt =====
-- The initialisation of an access switch with two uplinks, tried out.
use cnaas_nms.Links.SetFacts.{fact_data, set_facts}
use cnaas_nms.Jobs.Scheduler.{
  add_onetime_job, comment_column, job_function_name, new_job, ticket_ref_column,
}
use cnaas_nms.Init.Schedule.{schedule_init_device_step2}
use cnaas_nms.Sync.History.{remove_sync_events}
use cnaas_nms.Addressing.{
  clean_reservations, find_free_mgmt_ip, find_free_primary_mgmt_ip, find_free_secondary_mgmt_ip,
  first_free, hosts,
}
use cnaas_nms.Init.Rows.{rename, reserve_both, reserve_primary, reserve_secondary}
use cnaas_nms.Links.Interfaces.{
  filter_interfaces, make_plan, report_all, update_interfacedb, update_interfacedb_worker,
  write_all, write_one,
}
use cnaas_nms.Links.Iftype.{
  downlink_loop, expand_interface_settings, verify_expanded, verify_peer_iftype,
}
use cnaas_nms.Links.Linknets.{check_link, update_link, update_linknets, update_links}
use cnaas_nms.Links.Uplinks.{
  get_linknets_as_dict, get_neighbors, get_uplink_peer_hostnames, get_uplinks, neighbor_ifnames,
  peers_of, put_all, reset_uplink_interfaces,
}
use cnaas_nms.Sync.Inventory.{inventory_selector, load}
use cnaas_nms.Sync.Tasks.{run_check, sync_check_hash}
use cnaas_nms.Sync.Score.{split, starts}
use cnaas_nms.Lookup.{
  find_for_two, find_mgmtdomain, rest_of_part, strip_dot, valid_hostname, valid_part, find_for_one,
}
use cnaas_nms.Prelude.{◌≡◌, refl, ℕ, String, true, false, none, some, List, [], ◌∷◌, Option}
use cnaas_nms.Prelude.Exec.{ok, ◌>>=◌}
use cnaas_nms.Schema.{Db, DeviceState, IpAddress}
use cnaas_nms.Topology.{
  LinkDict, create_linknet, deduplicate_from, deduplicate_linknet_dicts, get_linknets,
  linknet_str_a, linknet_str_b,
}
use cnaas_nms.Links.{FactsAnswer}
use cnaas_nms.Init.{InitEnv}
use cnaas_nms.Init.Checks.{pre_init_check_neighbors, see_link, see_links, pre_init_checks}
use cnaas_nms.Init.Synced.{check_neighbor_sync, check_neighbors, confcheck_devices, mark_failed}
use cnaas_nms.Init.Synced.Checked.{Checked, check_neighbor_sync-Checked}
use cnaas_nms.Init.Schedule.{discover_path, step2_path}
use cnaas_nms.Init.Schedule.Chain.{chain, Ends}
use cnaas_nms.Init.Discover.{DiscoverArgs, discover_device}
use cnaas_nms.Init.Discover.Retries.{discover_device-chain}
use cnaas_nms.Init.Second.{Step2Args, init_device_step2}
use cnaas_nms.Init.Second.Managed.{init_device_step2-chain}
use cnaas_nms.Init.Access.{
  AccessArgs, access_device, access_prepare, access_rows, find_single, verify_uplinks,
}
use cnaas_nms.Init.FirstStep.{access_finish, init_access_device_step1}
use cnaas_nms.Init.FirstStep.RolledBack.{RolledBack, access_finish-RolledBack}
use cnaas_nms.Init.Lifecycle.{Course, state_at, InitJob, run_jobs, run_job}
use cnaas_nms.Init.Lifecycle.FirstMoved.{init_access_device_step1-discovered}
use cnaas_nms.Init.Lifecycle.Refinement.{run_jobs-Course, Onward, run_jobs-Onward}
use cnaas_nms.Examples.Data.{db0, db2, ip, access1, init0, env0, facts1}

abbrev uplink : String → ℕ → String → LinkDict
uplink port id name = record {
  device_a_hostname = "access1";
  device_a_id = 1;
  device_a_port = port;
  device_b_hostname = name;
  device_b_id = id;
  device_b_port = "Ethernet5";
  redundant_link = some true;
}

abbrev uplinks : List LinkDict
uplinks = uplink "Ethernet1" 2 "dist1" ∷ uplink "Ethernet2" 3 "dist2" ∷ []

check_neighbor_sync_test : (check_neighbor_sync env0 ("dist1" ∷ []) db2).0 ≡ ok tt
unfolding check_neighbor_sync check_neighbors confcheck_devices run_check inventory_selector load
check_neighbor_sync_test = refl

check_neighbor_sync-Checked_example :
    Checked env0 ("dist1" ∷ []) db2 (check_neighbor_sync env0 ("dist1" ∷ []) db2).1
check_neighbor_sync-Checked_example =
    check_neighbor_sync-Checked env0 ("dist1" ∷ []) db2 check_neighbor_sync_test

abbrev discovery1 : DiscoverArgs
discovery1 = record {
  ztp_mac = "0800275C091F";
  dhcp_ip = "10.0.0.20";
  address = ip 20;
  scheduled_by = none;
}

abbrev quiet : ℕ → Db → Db
quiet i db = db

discover_device-chain_example :
    Ends 3 (chain discover_path (discover_device init0 discovery1) quiet 3 (some 1) db2)
discover_device-chain_example = discover_device-chain init0 discovery1 quiet db2

abbrev second1 : Step2Args
second1 = record { device_id = 1; job_id = some 5; scheduled_by = none }

init_device_step2-chain_example :
    Ends 2 (chain step2_path (init_device_step2 init0 second1) quiet 2 (some 1) db2)
init_device_step2-chain_example = init_device_step2-chain init0 second1 quiet db2

abbrev access_args : AccessArgs
access_args = record {
  device_id = 1;
  new_hostname = "eosaccess";
  mlag_peer_id = none;
  mlag_peer_new_hostname = none;
  uplink_hostnames_arg = [];
  scheduled_by = some "admin";
}

first_step_test : (init_access_device_step1 init0 access_args db2).0 ≡ ok (some 4)
unfolding init_access_device_step1 access_prepare access_device pre_init_checks get_linknets_as_dict
    get_linknets find_single update_linknets update_links update_link check_link verify_peer_iftype
    verify_expanded expand_interface_settings downlink_loop create_linknet update_interfacedb_worker
    make_plan get_uplinks get_neighbors neighbor_ifnames filter_interfaces starts write_one
    write_all report_all put_all pre_init_check_neighbors see_links see_link find_mgmtdomain
    find_for_two find_for_one verify_uplinks check_neighbor_sync check_neighbors confcheck_devices
    mark_failed load inventory_selector run_check sync_check_hash access_rows reserve_both
    reserve_primary reserve_secondary clean_reservations find_free_mgmt_ip find_free_primary_mgmt_ip
    find_free_secondary_mgmt_ip first_free hosts rename valid_hostname valid_part rest_of_part
    strip_dot access_finish get_uplink_peer_hostnames peers_of remove_sync_events
    schedule_init_device_step2 add_onetime_job new_job comment_column ticket_ref_column
    job_function_name reset_uplink_interfaces update_interfacedb deduplicate_linknet_dicts
    deduplicate_from linknet_str_a linknet_str_b split ◌>>=◌
first_step_test = refl

init_access_device_step1-discovered_example : state_at 1 db2 ≡ some DeviceState.discovered
init_access_device_step1-discovered_example =
    init_access_device_step1-discovered init0 access_args db2 (some 4) first_step_test

-- The device answers with its new name.
abbrev renamed0 : InitEnv
renamed0 = record init0 {
  get_facts = λ _. FactsAnswer.got (record facts1 { hostname = "eosaccess" });
}

abbrev jobs1 : List (InitEnv × InitJob)
jobs1 = (init0, InitJob.access_step1 access_args) ∷ (renamed0, InitJob.step2 second1 1) ∷ []

jobs_test : state_at 1 (run_jobs jobs1 db2) ≡ some DeviceState.managed
unfolding run_jobs run_job init_device_step2 init_access_device_step1 access_prepare access_device
    pre_init_checks get_linknets_as_dict get_linknets find_single update_linknets update_links
    update_link check_link verify_peer_iftype verify_expanded expand_interface_settings
    downlink_loop create_linknet update_interfacedb_worker make_plan get_uplinks get_neighbors
    neighbor_ifnames filter_interfaces starts write_one write_all report_all put_all
    pre_init_check_neighbors see_links see_link find_mgmtdomain find_for_two find_for_one
    verify_uplinks check_neighbor_sync check_neighbors confcheck_devices mark_failed load
    inventory_selector run_check sync_check_hash access_rows reserve_both reserve_primary
    reserve_secondary clean_reservations find_free_mgmt_ip find_free_primary_mgmt_ip
    find_free_secondary_mgmt_ip first_free hosts rename valid_hostname valid_part rest_of_part
    strip_dot access_finish get_uplink_peer_hostnames peers_of remove_sync_events
    schedule_init_device_step2 add_onetime_job new_job comment_column ticket_ref_column
    job_function_name reset_uplink_interfaces update_interfacedb deduplicate_linknet_dicts
    deduplicate_from linknet_str_a linknet_str_b split set_facts fact_data ◌>>=◌
jobs_test = refl

run_jobs-Course_example : Course (state_at 1 db2) (state_at 1 (run_jobs jobs1 db2))
run_jobs-Course_example = run_jobs-Course 1 jobs1 db2

run_jobs-Onward_example : Onward (state_at 1 db2) (state_at 1 (run_jobs jobs1 db2))
run_jobs-Onward_example = run_jobs-Onward 1 jobs1 db2

-- The device still answers on its old address.
abbrev answers_still : InitEnv
answers_still = record init0 { old_ip_get = λ _. some false }

abbrev addresses : IpAddress × Option IpAddress
addresses = (ip 262, none)

access_finish-RolledBack_example :
    let (r, db') = access_finish answers_still access_args "access1" addresses db0 in
    (r ≡ ok false) × RolledBack access1 "access1" db'
access_finish-RolledBack_example =
    access_finish-RolledBack answers_still access_args "access1" addresses db0 access1 refl refl
