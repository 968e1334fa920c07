-- ===== src/Examples/Lookup.antt =====
-- Host names and management domains, tried out.
use cnaas_nms.Prelude.{◌≡◌, ◌≤◌, refl, true, none, some, [], ◌∷◌, All, length}
use cnaas_nms.Schema.{Db, Mgmtdomain}
use cnaas_nms.Sync.Score.{Text, codes, split}
use cnaas_nms.Lookup.{
  valid_hostname, valid_part, rest_of_part, strip_dot, find_mgmtdomain, find_for_two,
}
use cnaas_nms.Lookup.Names.{IsLabel, valid_hostname-IsLabel}
use cnaas_nms.Lookup.Domains.{Agrees, find_mgmtdomain-Agrees}
use cnaas_nms.Examples.Data.{db0, ip}

abbrev name : Text
name = codes "eosdist1.example.org."

valid_hostname-IsLabel_example :
    (1 ≤ length (strip_dot name))
    × (length (strip_dot name) ≤ 253)
    × All IsLabel (split b'.' (strip_dot name))
unfolding valid_hostname valid_part rest_of_part strip_dot split
valid_hostname-IsLabel_example = valid_hostname-IsLabel name refl

-- `$` stands before a newline at the end of a name.
newline_accepted : valid_hostname (97 ∷ b'\n' ∷ []) ≡ true
unfolding valid_hostname valid_part rest_of_part strip_dot split
newline_accepted = refl

abbrev domain : Mgmtdomain
domain = record {
  id = 1;
  ipv4_gw = some (record { ip = ip 9; prefixlen = 29 });
  ipv6_gw = none;
  device_a_id = 2;
  device_b_id = 3;
  vlan = 600;
}

abbrev domain_db : Db
domain_db = record db0 { mgmtdomains = domain ∷ [] }

find_mgmtdomain-Agrees_example : Agrees domain (find_mgmtdomain domain_db ("dist2" ∷ "dist1" ∷ []))
unfolding find_mgmtdomain find_for_two valid_hostname valid_part rest_of_part strip_dot split
find_mgmtdomain-Agrees_example = find_mgmtdomain-Agrees domain_db "dist1" "dist2" domain refl
