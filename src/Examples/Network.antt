-- ===== src/Examples/Network.antt =====
-- Addresses, permissions and links, tried out.
use cnaas_nms.Prelude.{
  ℕ, String, ◌≡◌, ◌<◌, ◌+◌, ◌*◌, refl, true, false, none, some, List, [], ◌∷◌, any, ◌&&◌, ◌||◌,
  str_eq,
}
use cnaas_nms.Prelude.Exec.{ok}
use cnaas_nms.Schema.{Mgmtdomain, IpInterface, IpNetwork}
use cnaas_nms.Addressing.{
  find_free_mgmt_ip, find_free_infra_linknet, is_used_link, hosts, first_link, first_free,
}
use cnaas_nms.Addressing.Free.{find_free_infra_linknet_free}
use cnaas_nms.Addressing.Scan.{free_links}
use cnaas_nms.Rbac.{
  PermissionModel, PermissionsModel, Claim, text, check_if_api_call_is_permitted,
  check_if_default_permissions_role_exist, get_permissions_user,
}
use cnaas_nms.Rbac.Granted.{
  grants, has_role, default_permissions, check_if_api_call_is_permitted-any,
  get_permissions_user-any,
}
use cnaas_nms.Topology.{LinkDict, deduplicate_linknet_dicts}
use cnaas_nms.Topology.Dedup.{IsDistinct, meets, deduplicate_linknet_dicts-IsDistinct}
use cnaas_nms.Examples.Data.{db0, ip}

abbrev gw : IpInterface
gw = record { ip = ip 9; prefixlen = 29 }

abbrev domain : Mgmtdomain
domain = record {
  id = 1;
  ipv4_gw = some gw;
  ipv6_gw = none;
  device_a_id = 2;
  device_b_id = 3;
  vlan = 600;
}

-- The devices have address 10, and the first host of 8/29 is kept back.
free_ip : find_free_mgmt_ip 1 db0 domain 4 ≡ ok (some (ip 11))
unfolding find_free_mgmt_ip hosts first_free
free_ip = refl

abbrev link_net : IpNetwork
link_net = record { version = 4; network_address = 40; prefixlen = 29 }

abbrev found_net : IpNetwork
found_net = record { version = 4; network_address = 44; prefixlen = 31 }

find_free_infra_linknet_free_example :
    (n : ℕ) × (found_net ≡ record { version = 4; network_address = 40 + 2 * n; prefixlen = 31 })
    × (n < 4)
    × (is_used_link db0 44 ≡ false)
    × (free_links (is_used_link db0) 40 n ≡ 1)
unfolding find_free_infra_linknet first_link
find_free_infra_linknet_free_example = find_free_infra_linknet_free link_net db0 1 found_net refl

abbrev reader : PermissionModel
reader = record { methods = some ("GET" ∷ []); endpoints = some ("*" ∷ []) }

abbrev writer : PermissionModel
writer = record { methods = some ("*" ∷ []); endpoints = some ("/devices" ∷ []) }

abbrev rules : PermissionsModel
rules = record {
  default_permissions = some "read";
  group_mappings = ("email", ("a@example.org", "write" ∷ []) ∷ []) ∷ [];
  roles = ("read", reader ∷ []) ∷ ("write", writer ∷ []) ∷ [];
}

check_if_api_call_is_permitted-any_example :
    check_if_api_call_is_permitted str_eq "PUT" "/devices" (reader ∷ writer ∷ [])
    ≡ ok (any (grants str_eq "PUT" "/devices") (reader ∷ writer ∷ []))
check_if_api_call_is_permitted-any_example =
    check_if_api_call_is_permitted-any str_eq "PUT" "/devices" (reader ∷ writer ∷ []) refl

abbrev user : List (String × Claim)
user = ("email", text "a@example.org") ∷ []

get_permissions_user-any_example :
    (permissions : List PermissionModel) × (get_permissions_user (some rules) user ≡ ok permissions)
    × (any (grants str_eq "PUT" "/devices") permissions ≡ (
        any (grants str_eq "PUT" "/devices") (default_permissions rules)
        || any
            (λ r.
              has_role user r.0 rules.group_mappings && any (grants str_eq "PUT" "/devices") r.1)
            rules.roles))
unfolding check_if_default_permissions_role_exist
get_permissions_user-any_example =
    get_permissions_user-any (grants str_eq "PUT" "/devices") rules user refl

abbrev there : LinkDict
there = record {
  device_a_hostname = "a";
  device_a_id = 1;
  device_a_port = "1";
  device_b_hostname = "b";
  device_b_id = 2;
  device_b_port = "2";
  redundant_link = none;
}

abbrev back : LinkDict
back = record {
  device_a_hostname = "b";
  device_a_id = 2;
  device_a_port = "2";
  device_b_hostname = "a";
  device_b_id = 1;
  device_b_port = "1";
  redundant_link = none;
}

deduplicate_linknet_dicts-IsDistinct_example :
    IsDistinct (deduplicate_linknet_dicts (there ∷ back ∷ []))
    × (meets back (deduplicate_linknet_dicts (there ∷ back ∷ [])) ≡ true)
deduplicate_linknet_dicts-IsDistinct_example =
    deduplicate_linknet_dicts-IsDistinct (there ∷ []) back []
