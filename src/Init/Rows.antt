-- ===== src/Init/Rows.antt =====
-- The rows that both first steps of an initialisation write: the reservations of addresses of
-- src/cnaas_nms/db/reservedip.py, and the new name of the device.
use cnaas_nms.Prelude.{
  is_false, ℕ, String, Bool, true, false, Option, none, some, [], ◌∷◌, ◌++◌, ◌&&◌, ◌==◌,
  if◌then◌else◌, any, select, str_eq,
}
use cnaas_nms.Prelude.Exec.{
  Exec, ok, err, pure, raise, query, modify, exception, integrity_error, ◌>>=◌, ◌>>◌,
}
use cnaas_nms.Schema.{Db, IpAddress, Mgmtdomain}
use cnaas_nms.Addressing.{
  find_free_primary_mgmt_ip, find_free_secondary_mgmt_ip, clean_reservations,
}
use cnaas_nms.Sync.History.{remove_sync_events}
use cnaas_nms.Init.{InitEnv, set_id}

-- `session.add(ReservedIP(device=dev, ip=ip, ip_version=ip.version))`: the device has no other
-- reservation of the version, since its reservations were cleared before.
abbrev pub reserve : ℕ → ℕ → IpAddress → Db → Db
reserve now device_id ip db = record db {
  reserved_ips =
      db.reserved_ips
      ++ record { device_id = device_id; ip_version = ip.version; ip = ip; last_seen = now } ∷ [];
}

-- Delete the reservations of the device.
abbrev pub drop_reservations : ℕ → Db → Db
drop_reservations device_id db = record db {
  reserved_ips = select (λ r. is_false (r.device_id == device_id)) db.reserved_ips;
}

-- `ReservedIP.clean_reservations(session, device=dev)`: reservations expire after a day.
abbrev pub clear : ℕ → ℕ → Db → Db
clear now device_id db = clean_reservations now 86400 (some device_id) db

abbrev pub is_dual_stack : Mgmtdomain → Bool
is_dual_stack dom =
    (elim dom.ipv4_gw [ none ↦ false | some _ ↦ true ])
    && (elim dom.ipv6_gw [ none ↦ false | some _ ↦ true ])

-- An address that must have been found.
abbrev pub reserved : ℕ → ℕ → Option IpAddress → Exec Db IpAddress
reserved now device_id none = raise exception
reserved now device_id (some ip) = do modify (reserve now device_id ip); pure ip

unfoldable pub reserve_primary : InitEnv → ℕ → Mgmtdomain → Exec Db IpAddress
reserve_primary env device_id dom = do
  ip ← query (λ db. find_free_primary_mgmt_ip env.primary_version env.reserved_count db dom)
  reserved env.sync.now device_id ip

abbrev pub secondary_if : InitEnv → ℕ → Mgmtdomain → Bool → Exec Db (Option IpAddress)
secondary_if env device_id dom false = pure none
secondary_if env device_id dom true = do
  ip ← query (λ db. find_free_secondary_mgmt_ip env.primary_version env.reserved_count db dom)
  a ← reserved env.sync.now device_id ip
  pure (some a)

unfoldable pub reserve_secondary : InitEnv → ℕ → Mgmtdomain → Exec Db (Option IpAddress)
reserve_secondary env device_id dom = secondary_if env device_id dom (is_dual_stack dom)

-- The session writes both, or neither.
unfoldable pub reserve_both : InitEnv → ℕ → Mgmtdomain → Exec Db (IpAddress × Option IpAddress)
reserve_both env device_id dom = do
  ip ← reserve_primary env device_id dom
  secondary ← reserve_secondary env device_id dom
  pure (ip, secondary)

abbrev pub is_taken_by_other : ℕ → String → Db → Bool
is_taken_by_other device_id name db =
    any (λ d. is_false (d.id == device_id) && str_eq d.hostname name) db.devices

-- `dev.hostname = new_hostname`, and the commit, which the unique constraint can refuse.
unfoldable pub rename : ℕ → String → Exec Db (Unit {0})
rename device_id name db =
    if is_taken_by_other device_id name db
    then (err integrity_error, db)
    else (ok tt, set_id device_id (λ d. record d { hostname = name }) db)

abbrev pub forget_events : String → Db → Db
forget_events hostname db = record db { sync_events = remove_sync_events hostname db.sync_events }
