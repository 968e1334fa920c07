-- ===== src/Examples/Links.antt =====
-- Links and interfaces, tried out: an access switch with an uplink to a DIST switch.
use cnaas_nms.Sync.Score.{starts}
use cnaas_nms.Links.Uplinks.{get_neighbors, get_uplinks, neighbor_ifnames}
use cnaas_nms.Prelude.{
  ◌≡◌, refl, String, true, false, none, some, List, [], ◌∷◌, map, mem, any, select, first, is_false,
  str_eq, if◌then◌else◌,
}
use cnaas_nms.Prelude.Exec.{ok, ◌>>=◌}
use cnaas_nms.Schema.{Db, DeviceType, Interface}
use cnaas_nms.Topology.{LinkDict, create_linknet}
use cnaas_nms.Links.{InterfaceSettings, is_interface}
use cnaas_nms.Links.Iftype.{
  verify_peer_iftype, expanded, downlink_loop, expand_interface_settings, verify_expanded,
}
use cnaas_nms.Links.Iftype.Accepted.{Accepted, verify_peer_iftype-Accepted}
use cnaas_nms.Links.Interfaces.{
  Plan, make_plan, update_interfacedb_worker, not_of, filter_interfaces,
}
use cnaas_nms.Links.Interfaces.Classes.{
  class_in, class_for, stays, update_interfacedb_worker-class_in,
}
use cnaas_nms.Links.Linknets.{UpdateArgs, update_linknets, check_link, update_link, update_links}
use cnaas_nms.Links.Linknets.DryRun.{dry, update_linknets-dry_run}
use cnaas_nms.Links.Linknets.Ports.{IsWired}
use cnaas_nms.Links.Linknets.Wired.{update_linknets-IsWired}
use cnaas_nms.Links.SetFacts.{set_facts, fact_data}
use cnaas_nms.Links.SetFacts.Stored.{set_facts-idempotent}
use cnaas_nms.Examples.Data.{db0, access1, dist1, links0, facts1}

abbrev uplink : LinkDict
uplink = record {
  device_a_hostname = "access1";
  device_a_id = 1;
  device_a_port = "Ethernet1";
  device_b_hostname = "dist1";
  device_b_id = 2;
  device_b_port = "Ethernet5";
  redundant_link = some true;
}

abbrev args1 : UpdateArgs
args1 = record {
  hostname = "access1";
  devtype = DeviceType.access;
  ztp_hostname = none;
  mlag_peer = none;
  dry_run = false;
}

abbrev db1 : Db
db1 = (update_linknets links0 args1 [] db0).1

update_linknets_test :
    map (λ l. (l.device_a_port)) db1.linknets ≡ "Ethernet1" ∷ "Ethernet1" ∷ "Ethernet2" ∷ []
unfolding update_linknets update_links ◌>>=◌ update_link check_link verify_peer_iftype
    verify_expanded expand_interface_settings downlink_loop create_linknet
update_linknets_test = refl

update_linknets-IsWired_example : IsWired db1.linknets
update_linknets-IsWired_example = update_linknets-IsWired links0 args1 [] db0 (refl, tt)

update_linknets-dry_run_example : (update_linknets links0 (dry args1) [] db0).1 ≡ db0
update_linknets-dry_run_example = update_linknets-dry_run links0 args1 [] db0

abbrev dist1_settings : List InterfaceSettings
dist1_settings = record { name = "Ethernet5"; ifclass = "downlink"; redundant_link = true } ∷ []

verify_peer_iftype_test :
    verify_peer_iftype links0 db0 DeviceType.access none "Ethernet1" dist1
      (some dist1_settings)
      "Ethernet5"
    ≡ ok true
unfolding verify_peer_iftype verify_expanded expand_interface_settings downlink_loop
verify_peer_iftype_test = refl

verify_peer_iftype-Accepted_example :
    Accepted DeviceType.access DeviceType.dist "Ethernet1" "Ethernet5"
      (expanded links0 none)
      (expanded links0 (some dist1_settings))
      (first (is_interface 2 "Ethernet5") db0.interfaces)
      true
verify_peer_iftype-Accepted_example =
    verify_peer_iftype-Accepted links0 db0 DeviceType.access none "Ethernet1" dist1
      (some dist1_settings) "Ethernet5" true verify_peer_iftype_test

abbrev plan1 : Plan
plan1 = record {
  physical = "Ethernet1" ∷ "Ethernet2" ∷ [];
  uplinks = ("Ethernet1", "dist1") ∷ [];
  mlag_ifs = [];
}

make_plan_test : make_plan links0 access1 true none (uplink ∷ []) db0 ≡ ok plan1
unfolding make_plan get_uplinks get_neighbors filter_interfaces starts neighbor_ifnames
make_plan_test = refl

abbrev rows1 : List Interface
rows1 = (update_interfacedb_worker links0 access1 true false none (uplink ∷ []) db0).1.interfaces

update_interfacedb_worker-class_in_example :
    ((name : String)
      → mem name plan1.physical ≡ true
      → class_in 1 name rows1 ≡ some (class_for plan1 name))
    × (any (λ i. is_false (stays 1 plan1.physical i)) rows1 ≡ false)
    × (select (not_of 1) rows1 ≡ select (not_of 1) db0.interfaces)
update_interfacedb_worker-class_in_example =
    update_interfacedb_worker-class_in links0 access1 none (uplink ∷ []) db0 plan1 make_plan_test

set_facts-idempotent_example :
    let dev' = (set_facts access1 facts1).1 in
    ((set_facts dev' facts1).0 ≡ [])
    × ((set_facts dev' facts1).1 ≡ dev')
    × (dev'.serial
        ≡ (if str_eq (fact_data "ABC123") "" then access1.serial else some (fact_data "ABC123")))
set_facts-idempotent_example = set_facts-idempotent access1 facts1
