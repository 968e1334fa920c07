-- ===== src/Lookup.antt =====
-- Host names and management domains: `Device.valid_hostname` of src/cnaas_nms/db/device.py, and
-- `find_mgmtdomain` of src/cnaas_nms/db/helper.py. A host name is a list of code points.
pub mod Names
pub mod Domains
use cnaas_nms.Prelude.{
  ℕ, zero, suc, ◌+◌, String, Bool, true, false, Option, none, some, List, [], ◌∷◌, ◌||◌, ◌&&◌, ◌==◌,
  if◌then◌else◌, ltb, leb, select, first, length,
}
use cnaas_nms.Prelude.Exec.{Error, Result, ok, err, value_error, exception, attribute_error}
use cnaas_nms.Schema.{Db, Device, DeviceType, Mgmtdomain, IpAddress, IpInterface, type_eq}
use cnaas_nms.Sync.Score.{Text, split, codes}
use cnaas_nms.Sync.Tasks.{find_device}
use cnaas_nms.Addressing.{network, size}

-- `[a-z0-9]` under IGNORECASE, which folds four more letters to i, s and k.
abbrev pub is_alnum : ℕ → Bool
is_alnum c =
    (leb 97 c && leb c 122)
    || (leb 65 c && leb c 90)
    || (leb 48 c && leb c 57)
    || c == 304
    || c == 305
    || c == 383
    || c == 8490

-- `[a-z0-9-]{0,61}[a-z0-9]$` on what follows the first character, of which `room` may be read; `$`
-- also stands before a newline at the end.
unfoldable pub rest_of_part : (room : ℕ) → Text → Bool
rest_of_part room [] = false
rest_of_part zero (c ∷ s) = false
rest_of_part (suc room) (c ∷ []) = is_alnum c
rest_of_part (suc room) (c ∷ d ∷ s) =
    let more = rest_of_part room (d ∷ s) in
    (is_alnum c && ends d s) || ((is_alnum c || c == b'-') && more)
  where
    ends : ℕ → Text → Bool
    ends d [] = d == b'\n'
    ends d (e ∷ s) = false

abbrev only_newline : Text → Bool
only_newline [] = true
only_newline (c ∷ []) = c == b'\n'
only_newline (c ∷ d ∷ s) = false

-- `hostname_part_re.match(x)`
unfoldable pub valid_part : Text → Bool
valid_part [] = false
valid_part (c ∷ s) = is_alnum c && (only_newline s || rest_of_part 62 s)

-- `if hostname.endswith("."): hostname = hostname[:-1]`
unfoldable pub strip_dot : Text → Text
strip_dot [] = []
strip_dot (c ∷ []) = if c == b'.' then [] else c ∷ []
strip_dot (c ∷ d ∷ s) = c ∷ strip_dot (d ∷ s)

abbrev pub all_parts : List Text → Bool
all_parts [] = true
all_parts (part ∷ parts) = valid_part part && all_parts parts

-- `valid_hostname(hostname)`
unfoldable pub valid_hostname : Text → Bool
valid_hostname hostname =
    let name = strip_dot hostname in
    leb 1 (length name) && leb (length name) 253 && all_parts (split b'.' name)

-- `ipv4_address in IPv4Interface(mgmtdom.ipv4_gw).network`
abbrev pub in_network : IpAddress → IpInterface → Bool
in_network a gw =
    a.version == 4
    && leb (network gw).network_address a.value
    && ltb a.value ((network gw).network_address + size (network gw))

-- `find_mgmtdomain_by_ip(session, ipv4_address)`: a domain without a gateway cannot be parsed, and
-- an address that is missing has no version to compare.
unfoldable pub find_mgmtdomain_by_ip :
    Option IpAddress → List Mgmtdomain → Result (Option Mgmtdomain)
find_mgmtdomain_by_ip address [] = ok none
find_mgmtdomain_by_ip address (dom ∷ doms) =
    let rest = find_mgmtdomain_by_ip address doms in
    elim dom.ipv4_gw [
      | none ↦ err value_error
      | some gw ↦ elim address [
        | none ↦ err attribute_error
        | some a ↦ if in_network a gw then ok (some dom) else rest
      ]
    ]

-- `query.one_or_none()`, with the exception that `MultipleResultsFound` becomes.
abbrev pub one_or_none : List Mgmtdomain → Result (Option Mgmtdomain)
one_or_none [] = ok none
one_or_none (dom ∷ []) = ok (some dom)
one_or_none (dom ∷ dom' ∷ doms) = err exception

-- The domains of exactly these two devices, whichever is first.
abbrev pub joins : ℕ → ℕ → Mgmtdomain → Bool
joins a b dom =
    (dom.device_a_id == a && dom.device_b_id == b) || (dom.device_a_id == b && dom.device_b_id == a)

abbrev is_core : List Device → ℕ → Bool
is_core devices id = elim (first (λ d. d.id == id) devices) [
  | none ↦ false
  | some d ↦ type_eq d.device_type DeviceType.core
]

abbrev pub has_core : List Device → Mgmtdomain → Bool
has_core devices dom = is_core devices dom.device_a_id || is_core devices dom.device_b_id

abbrev pub or_core : Db → Result (Option Mgmtdomain) → Result (Option Mgmtdomain)
or_core db (ok none) = one_or_none (select (has_core db.devices) db.mgmtdomains)
or_core db r = r

-- Where one of the two domains is missing, the message of the exception reads a column of it, which
-- raises `AttributeError` first.
abbrev pub same_domain :
    Result (Option Mgmtdomain) → Result (Option Mgmtdomain) → Result (Option Mgmtdomain)
same_domain (err e) r = err e
same_domain (ok m) (err e) = err e
same_domain (ok none) (ok m) = err attribute_error
same_domain (ok (some dom)) (ok none) = err attribute_error
same_domain (ok (some dom)) (ok (some dom')) =
    if dom.id == dom'.id then ok (some dom) else err exception

abbrev pub is_type : DeviceType → Device → Bool
is_type t d = type_eq d.device_type t

-- One uplink device.
unfoldable pub find_for_one : Db → Device → Result (Option Mgmtdomain)
find_for_one db device0 =
    if is_type DeviceType.dist device0
    then elim (first (λ dom. dom.device_a_id == device0.id || dom.device_b_id == device0.id)
        db.mgmtdomains) [ none ↦ err exception | some dom ↦ ok (some dom) ]
    else if is_type DeviceType.access device0
    then find_mgmtdomain_by_ip device0.management_ip db.mgmtdomains
    else ok none

-- The branches over the types of two uplink devices: both are distribution switches, or both are
-- access switches.
abbrev pub by_types :
    (dist0 dist1 access0 access1 : Bool)
    → (pair by_ip : Result (Option Mgmtdomain)) → Result (Option Mgmtdomain)
by_types dist0 dist1 access0 access1 pair by_ip =
    if dist0 || dist1
    then (if dist0 && dist1 then pair else err value_error)
    else if access0 || access1
    then (if access0 && access1 then by_ip else err value_error)
    else err exception

abbrev pub pair_domain : Db → ℕ → ℕ → Result (Option Mgmtdomain)
pair_domain db a b = or_core db (one_or_none (select (joins a b) db.mgmtdomains))

-- Two uplink devices.
unfoldable pub find_for_two : Db → Device → Device → Result (Option Mgmtdomain)
find_for_two db device0 device1 =
    by_types (is_type DeviceType.dist device0) (is_type DeviceType.dist device1)
      (is_type DeviceType.access device0) (is_type DeviceType.access device1)
      (pair_domain db device0.id device1.id)
      (same_domain (find_mgmtdomain_by_ip device0.management_ip db.mgmtdomains)
        (find_mgmtdomain_by_ip device1.management_ip db.mgmtdomains))

abbrev with_one : Db → Option Device → Result (Option Mgmtdomain)
with_one db none = err value_error
with_one db (some d) = find_for_one db d

abbrev pub with_two : Db → Option Device → Option Device → Result (Option Mgmtdomain)
with_two db (some d) (some e) = find_for_two db d e
with_two db _ _ = err value_error

-- `find_mgmtdomain(session, hostnames)`
unfoldable pub find_mgmtdomain : Db → List String → Result (Option Mgmtdomain)
find_mgmtdomain db [] = err value_error
find_mgmtdomain db (h ∷ []) =
    if valid_hostname (codes h) then with_one db (find_device h db.devices) else err value_error
find_mgmtdomain db (h ∷ i ∷ []) =
    if valid_hostname (codes h) && valid_hostname (codes i)
    then with_two db (find_device h db.devices) (find_device i db.devices)
    else err value_error
find_mgmtdomain db (h ∷ i ∷ j ∷ hs) = err value_error
