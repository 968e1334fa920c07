-- ===== src/Addressing.antt =====
-- The search for free addresses: src/cnaas_nms/db/mgmtdomain.py and
-- src/cnaas_nms/devicehandler/underlay.py, and the reservations of src/cnaas_nms/db/reservedip.py.
-- Networks are those of Python's `ipaddress`: a base address and a prefix length.
pub mod Scan
pub mod Free
use cnaas_nms.Prelude.{
  is_false, ℕ, zero, suc, ◌+◌, ◌-◌, ◌*◌, ◌%◌, ◌^◌, Bool, true, false, Option, none, some, List, [],
  ◌∷◌, ◌++◌, ◌||◌, ◌&&◌, ◌==◌, if◌then◌else◌, ltb, leb, any, select,
}
use cnaas_nms.Prelude.Exec.{Error, Result, ok, err, value_error}
use cnaas_nms.Schema.{
  Db, Device, Mgmtdomain, ReservedIp, Linknet, IpAddress, IpNetwork, IpInterface, ip_eq,
}

-- A run of addresses: the first one, and how many there are.
pub record Range : Type 0 where
  pub base : ℕ
  pub count : ℕ

abbrev bits : ℕ → ℕ
bits version = if version == 4 then 32 else 128

-- `ip_interface(addr).network`
abbrev pub network : IpInterface → IpNetwork
network i = record {
  version = i.ip.version;
  network_address = i.ip.value - i.ip.value % 2 ^ (bits i.ip.version - i.prefixlen);
  prefixlen = i.prefixlen;
}

-- `num_addresses`
abbrev pub size : IpNetwork → ℕ
size n = 2 ^ (bits n.version - n.prefixlen)

-- `net.hosts()`: without the network address, and in version 4 without the broadcast address; a
-- network of one or two addresses gives them all.
unfoldable pub hosts : IpNetwork → Range
hosts n =
    if leb (bits n.version) (n.prefixlen + 1)
    then record { base = n.network_address; count = size n }
    else if n.version == 4
    then record { base = n.network_address + 1; count = size n - 2 }
    else record { base = n.network_address + 1; count = size n - 1 }

-- `islice(addresses, n, None)`
abbrev pub islice : Range → ℕ → Range
islice r n = record { base = r.base + n; count = r.count - n }

-- `next(dropwhile(is_taken, candidates), None)`, over `count` addresses from `a` on.
unfoldable pub first_free : (ℕ → Bool) → (a count : ℕ) → Option ℕ
first_free is_taken a zero = none
first_free is_taken a (suc count) =
    let rest = first_free is_taken (a + 1) count in if is_taken a then rest else some a

abbrev pub has_ip : Option IpAddress → IpAddress → Bool
has_ip none a = false
has_ip (some b) a = ip_eq b a

-- `_get_taken_ips`: the first addresses of the devices, and the reservations.
abbrev pub is_taken : Db → IpAddress → Bool
is_taken db a =
    any (λ dev. has_ip dev.management_ip a) db.devices || any (λ r. ip_eq r.ip a) db.reserved_ips

abbrev pub address : ℕ → ℕ → IpAddress
address version value = record { version = version; value = value }

abbrev at_version : ℕ → Option ℕ → Option IpAddress
at_version version none = none
at_version version (some a) = some (address version a)

abbrev pub search_net : (reserved_count : ℕ) → Db → IpNetwork → Option IpAddress
search_net reserved_count db net =
    let candidates = islice (hosts net) reserved_count in
    at_version net.version
      (first_free (λ a. is_taken db (address net.version a)) candidates.base candidates.count)

abbrev pub gateway : Mgmtdomain → ℕ → Option IpInterface
gateway dom version = if version == 4 then dom.ipv4_gw else dom.ipv6_gw

abbrev search_gw : (reserved_count : ℕ) → Db → Option IpInterface → Option IpAddress
search_gw reserved_count db none = none
search_gw reserved_count db (some gw) = search_net reserved_count db (network gw)

-- `find_free_mgmt_ip(session, version)`; `reserved_count` is MGMTDOMAIN_RESERVED_COUNT.
unfoldable pub find_free_mgmt_ip :
    (reserved_count : ℕ) → Db → Mgmtdomain → (version : ℕ) → Result (Option IpAddress)
find_free_mgmt_ip reserved_count db dom version =
    if version == 4 || version == 6
    then ok (search_gw reserved_count db (gateway dom version))
    else err value_error

-- `find_free_primary_mgmt_ip`; `primary` is MGMTDOMAIN_PRIMARY_IP_VERSION.
unfoldable pub find_free_primary_mgmt_ip :
    (primary reserved_count : ℕ) → Db → Mgmtdomain → Result (Option IpAddress)
find_free_primary_mgmt_ip primary reserved_count db dom =
    find_free_mgmt_ip reserved_count db dom primary

-- `find_free_secondary_mgmt_ip`
unfoldable pub find_free_secondary_mgmt_ip :
    (primary reserved_count : ℕ) → Db → Mgmtdomain → Result (Option IpAddress)
find_free_secondary_mgmt_ip primary reserved_count db dom =
    find_free_mgmt_ip reserved_count db dom (if primary == 4 then 6 else 4)

-- `find_free_infra_ip`: the subnets of prefix length 32 are the addresses of the network.
unfoldable pub find_free_infra_ip : IpNetwork → Db → Option IpAddress
find_free_infra_ip net db = at_version 4 (
    first_free (λ a. any (λ dev. has_ip dev.infra_ip (address 4 a)) db.devices) net.network_address
      (size net))

-- `find_free_mgmt_lo_ip`
unfoldable pub find_free_mgmt_lo_ip : IpNetwork → Db → Option IpAddress
find_free_mgmt_lo_ip net db =
    at_version 4 (first_free (λ a. is_taken db (address 4 a)) net.network_address (size net))

abbrev is_link_of : ℕ → Option IpNetwork → Bool
is_link_of base none = false
is_link_of base (some n) = n.network_address == base && n.prefixlen == 31

abbrev numbered : Linknet → Bool
numbered ln = elim ln.device_a_ip [ none ↦ false | some ip ↦ true ]

-- `net in used_linknets`
abbrev pub is_used_link : Db → ℕ → Bool
is_used_link db base = any (λ ln. numbered ln && is_link_of base ln.ipv4_network) db.linknets

-- The loop over the /31 subnets: `current_offset` free ones are passed over.
unfoldable pub first_link : (ℕ → Bool) → (current_offset base count : ℕ) → Option ℕ
first_link is_used current_offset base zero = none
first_link is_used zero base (suc count) =
    let rest = first_link is_used zero (base + 2) count in if is_used base then rest else some base
first_link is_used (suc offset) base (suc count) =
    let skip = first_link is_used (suc offset) (base + 2) count in
    let next = first_link is_used offset (base + 2) count in if is_used base then skip else next

abbrev link_at : Option ℕ → Option IpNetwork
link_at none = none
link_at (some base) = some (record { version = 4; network_address = base; prefixlen = 31 })

-- A linknet with an address and no network stops the query.
abbrev pub is_broken_link : Linknet → Bool
is_broken_link ln = numbered ln && (elim ln.ipv4_network [ none ↦ true | some n ↦ false ])

-- `find_free_infra_linknet(session, offset)`
unfoldable pub find_free_infra_linknet : IpNetwork → Db → (offset : ℕ) → Result (Option IpNetwork)
find_free_infra_linknet net db offset =
    if any is_broken_link db.linknets || ltb 31 net.prefixlen
    then err value_error
    else ok (
        link_at
          (first_link (is_used_link db) offset net.network_address (2 ^ (31 - net.prefixlen))))

abbrev is_of : Option ℕ → ReservedIp → Bool
is_of none r = false
is_of (some device_id) r = r.device_id == device_id

-- `clean_reservations(session, device, expiry_time)`
unfoldable pub clean_reservations : (now expiry_time : ℕ) → Option ℕ → Db → Db
clean_reservations now expiry_time device db = record db {
  reserved_ips =
      select (λ r. is_false (is_of device r || ltb (r.last_seen + expiry_time) now))
        db.reserved_ips;
}
