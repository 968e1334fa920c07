-- ===== src/Init/FirstStep/RolledBack.antt =====
-- What is left of an initialisation whose push did not change the address of the device.
use cnaas_nms.Prelude.{
  ℕ, ◌≡◌, refl, ap, ◌∙◌, String, Bool, true, false, Option, some, List, [], ◌∷◌, ◌==◌, ◌||◌, arith,
  select, is_false, ==_iff, first-update_self, ==_refl, first_sound, any,
}
use cnaas_nms.Prelude.Exec.{ok, ◌>>=◌}
use cnaas_nms.Schema.{Db, Device, IpAddress, Linknet, ReservedIp}
use cnaas_nms.Topology.{get_linknets}
use cnaas_nms.Links.{find_id}
use cnaas_nms.Links.Uplinks.{get_uplink_peer_hostnames, reset_uplink_interfaces}
use cnaas_nms.Links.Uplinks.Reset.{reset_uplink_interfaces-get_uplink_peer_hostnames}
use cnaas_nms.Init.{InitEnv}
use cnaas_nms.Init.Access.{AccessArgs}
use cnaas_nms.Init.FirstStep.{access_finish, roll_back, old_ip_answers}

-- The device has its old name, and no links, no reserved addresses and no uplinks.
abbrev pub RolledBack : Device → String → Db → Type 0
RolledBack dev old_hostname db =
    (find_id dev.id db.devices ≡ some (record dev { hostname = old_hostname }))
    × (get_linknets dev db ≡ [])
    × (any (λ r. r.device_id == dev.id) db.reserved_ips ≡ false)
    × (get_uplink_peer_hostnames dev db ≡ ok [])

abbrev of_device : ℕ → Linknet → Bool
of_device id ln = ln.device_a_id == id || ln.device_b_id == id

no_links :
    (id : ℕ) (ls : List Linknet)
    → select (of_device id) (select (λ ln. is_false (of_device id ln)) ls) ≡ []
no_links id [] = refl
no_links id (l ∷ ls) = ground (arith, no_links id ls)

no_reservations :
    (id : ℕ) (rs : List ReservedIp)
    → any (λ r. r.device_id == id) (select (λ r. is_false (r.device_id == id)) rs) ≡ false
no_reservations id [] = refl
no_reservations id (r ∷ rs) = ground (arith, no_reservations id rs)

roll_back-RolledBack :
    (dev : Device) (old : String) (db : Db)
    → find_id dev.id db.devices ≡ some dev
    → RolledBack dev old (roll_back dev old db)
unfolding get_linknets reset_uplink_interfaces
roll_back-RolledBack dev old db h = (
  first-update_self (λ d. d.id == dev.id) (λ d. record d { hostname = old }) db.devices dev h
      (==_refl dev.id),
  no_links dev.id db.linknets,
  no_reservations dev.id db.reserved_ips,
  (reset_uplink_interfaces-get_uplink_peer_hostnames dev _).0,
)

found_own :
    (id : ℕ) (db : Db) (dev : Device)
    → find_id id db.devices ≡ some dev
    → find_id dev.id db.devices ≡ some dev
found_own id db dev e =
    ap (λ i. find_id i db.devices)
      ((==_iff dev.id id).0 (first_sound (λ d. d.id == id) db.devices dev e))
    ∙ e

-- Where the device still answers on its old address after the push, or it is not known that it does
-- not, the session that follows returns that the initialisation does not go on, and leaves the device
-- with its old name, without links, reserved addresses and uplinks.
pub access_finish-RolledBack :
    (env : InitEnv) (args : AccessArgs) (old : String) (ips : IpAddress × Option IpAddress)
    (db : Db) (dev : Device)
    → find_id args.device_id db.devices ≡ some dev
    → old_ip_answers (env.old_ip_get args.new_hostname) ≡ true
    → let (r, db') = access_finish env args old ips db in (r ≡ ok false) × RolledBack dev old db'
unfolding access_finish ◌>>=◌ get_linknets get_uplink_peer_hostnames
access_finish-RolledBack env args old ips db dev h answers =
    rw (h, answers) (refl, roll_back-RolledBack dev old db (found_own args.device_id db dev h))
