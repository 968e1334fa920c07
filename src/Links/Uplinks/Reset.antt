-- ===== src/Links/Uplinks/Reset.antt =====
-- The uplinks of a device after a reset, and what `get_uplinks` answers from the rows.
use cnaas_nms.Prelude.{
  ◌≡◌, refl, Bool, true, false, List, [], ◌∷◌, ◌==◌, arith, select, update, if◌then◌else◌,
}
use cnaas_nms.Prelude.Exec.{ok}
use cnaas_nms.Schema.{Db, Device, Interface}
use cnaas_nms.Links.Uplinks.{
  reset_uplink_interfaces, get_uplink_peer_hostnames, is_uplink_of, reset_interface, peers_of,
}

select-reset :
    (dev : Device) (is : List Interface)
    → select (is_uplink_of dev.id) (update (is_uplink_of dev.id) reset_interface is) ≡ []
select-reset dev [] = refl
select-reset dev (i ∷ is) = ground (arith, select-reset dev is)

select-others :
    (dev : Device) (p : Interface → Bool)
    → ((i : Interface)
        → is_uplink_of dev.id i ≡ true
        → (p i ≡ false) × (p (reset_interface i) ≡ false))
    → (is : List Interface)
    → select p (update (is_uplink_of dev.id) reset_interface is) ≡ select p is
select-others dev p h [] = refl
select-others dev p h (i ∷ is) = ground (arith, h i, select-others dev p h is)

abbrev pub not_of : Device → Interface → Bool
not_of dev i = if i.device_id == dev.id then false else true

-- After a reset the device has no uplink peers, and the interfaces of other devices are as before.
pub reset_uplink_interfaces-get_uplink_peer_hostnames :
    (dev : Device) (db : Db)
    → (get_uplink_peer_hostnames dev (reset_uplink_interfaces dev db) ≡ ok [])
      × (select (not_of dev) (reset_uplink_interfaces dev db).interfaces
          ≡ select (not_of dev) db.interfaces)
unfolding reset_uplink_interfaces get_uplink_peer_hostnames peers_of
reset_uplink_interfaces-get_uplink_peer_hostnames dev db = (
  rw (select-reset dev db.interfaces) refl,
  select-others dev (not_of dev) (λ i h. (ground arith, ground arith)) db.interfaces,
)
