-- ===== src/Settings/Vlans/Unique.antt =====
-- Settings without VLAN conflicts.
use cnaas_nms.Prelude.{
  ℕ, ◌≡◌, refl, sym, ap, ◌∙◌, String, Bool, true, false, Option, none, some, List, [], ◌∷◌, ◌==◌,
  arith, mem, Bool-cases, inl, inr, ==_iff, ==_refl,
}
use cnaas_nms.Prelude.Exec.{Result, ok, err, ok_inj}
use cnaas_nms.Schema.{Db}
use cnaas_nms.Settings.Vlans.{
  Vxlan, DeviceSettings, Used, check_vlan_collisions, check_devices, check_vxlans, check_vxlan,
  has_id, entries, fresh, start, from_keys, done, access_names,
}
use cnaas_nms.Settings.Vlans.Turns.{
  vlan_of, apart, apart_from, Fits, DeviceFits, AllFit, Extends, Extends-put, Turn, vni-Turn,
  and_then-returned,
}

-- A turn with unique VLANs: the dict is extended, and the ids only grow.
Turn-Extends :
    (internal : Option (ℕ × ℕ)) (name : String) (vlan : Option ℕ) (used used' : Used)
    → Turn true internal name vlan used used'
    → Extends used.global_vlans used'.global_vlans
Turn-Extends internal name vlan used used' (inl t) = rw (t.1) (λ id n h. h)
Turn-Extends internal name vlan used used' (inr (id, is, free, vlans, ids)) =
    rw vlans (Extends-put used.global_vlans id name (ground (arith, free)))

Turn-has_id :
    (internal : Option (ℕ × ℕ)) (name : String) (vlan : Option ℕ) (used used' : Used) (k : ℕ)
    → Turn true internal name vlan used used'
    → has_id k used.vlan_ids ≡ true
    → has_id k used'.vlan_ids ≡ true
Turn-has_id internal name vlan used used' k (inl t) h = rw (t.2) h
Turn-has_id internal name vlan used used' k (inr (id, is, free, vlans, ids)) h =
    rw ids (ground (arith, h))

check_vxlans-Extends :
    (access : Bool) (internal : Option (ℕ × ℕ)) (vxlans : List (String × Vxlan)) (used used' : Used)
    → check_vxlans true access internal vxlans used ≡ ok used'
    → Extends used.global_vlans used'.global_vlans
unfolding check_vxlans check_vxlan
check_vxlans-Extends access internal [] used used' h =
    rw⁻¹ (ap (λ u. u.global_vlans) (ok_inj h)) (λ id n k. k)
check_vxlans-Extends access internal ((name, vxlan) ∷ vxlans) used used' h =
    let (u, is, more) =
      and_then-returned (check_vxlan true access internal name vxlan used)
        (check_vxlans true access internal vxlans) used' h in
    let first_turn =
      Turn-Extends internal name (vlan_of vxlan) used u
        (vni-Turn true access internal name vxlan vxlan.vni used u refl is) in
    let others = check_vxlans-Extends access internal vxlans u used' more in
    λ id n k. others id n (first_turn id n k)

differs_id :
    (o id : ℕ) (ids : List ℕ) → has_id o ids ≡ false → has_id id ids ≡ true → (o == id) ≡ false
differs_id o id ids h k = elim (Bool-cases (o == id)) [
  | inl e ↦ absurd (contra (sym h ∙ ap (λ i. has_id i ids) ((==_iff o id).0 e) ∙ k))
  | inr e ↦ e
]
  where
    contra : false ≡ true → ⊥
    contra p = cc

Turn-apart :
    (internal : Option (ℕ × ℕ)) (name : String) (vlan : Option ℕ) (used used' : Used) (id : ℕ)
    (rest : Bool)
    → Turn true internal name vlan used used'
    → has_id id used.vlan_ids ≡ true
    → rest ≡ true
    → apart_from vlan id rest ≡ true
Turn-apart internal name vlan used used' id rest (inl t) k r = rw (t.0) r
Turn-apart internal name vlan used used' id rest (inr (o, is, free, vlans, ids)) k r =
    rw (is, differs_id o id used.vlan_ids (ground (arith, free)) k) r

check_vxlans-apart :
    (access : Bool) (internal : Option (ℕ × ℕ)) (vxlans : List (String × Vxlan)) (used used' : Used)
    (id : ℕ)
    → check_vxlans true access internal vxlans used ≡ ok used'
    → has_id id used.vlan_ids ≡ true
    → apart id vxlans ≡ true
unfolding check_vxlans check_vxlan
check_vxlans-apart access internal [] used used' id h k = refl
check_vxlans-apart access internal ((name, vxlan) ∷ vxlans) used used' id h k =
    let (u, is, more) =
      and_then-returned (check_vxlan true access internal name vxlan used)
        (check_vxlans true access internal vxlans) used' h in
    let t = vni-Turn true access internal name vxlan vxlan.vni used u refl is in
    Turn-apart internal name (vlan_of vxlan) used u id (apart id vxlans) t k (
      check_vxlans-apart access internal vxlans u used' id more
        (Turn-has_id internal name (vlan_of vxlan) used u id t k))

Turn-Fits :
    (access : Bool) (internal : Option (ℕ × ℕ)) (name : String) (vlan : Option ℕ)
    (vxlans : List (String × Vxlan)) (used u used' : Used)
    → Turn true internal name vlan used u
    → check_vxlans true access internal vxlans u ≡ ok used'
    → Fits used'.global_vlans internal name vlan vxlans
Turn-Fits access internal name vlan vxlans used u used' (inl t) more = rw (t.0) tt
Turn-Fits access internal name vlan vxlans used u used' (inr (id, is, free, vlans, ids)) more =
    rw is (
      check_vxlans-Extends access internal vxlans u used' more id name
          (rw vlans (ground (arith, ==_refl id))),
      ground (arith, free),
      check_vxlans-apart access internal vxlans u used' id more
          (rw ids (ground (arith, ==_refl id))),
    )

check_vxlans-Fits :
    (access : Bool) (internal : Option (ℕ × ℕ)) (vxlans : List (String × Vxlan)) (used used' : Used)
    → check_vxlans true access internal vxlans used ≡ ok used'
    → DeviceFits used'.global_vlans internal vxlans
unfolding check_vxlans check_vxlan
check_vxlans-Fits access internal [] used used' h = tt
check_vxlans-Fits access internal ((name, vxlan) ∷ vxlans) used used' h =
    let (u, is, more) =
      and_then-returned (check_vxlan true access internal name vxlan used)
        (check_vxlans true access internal vxlans) used' h in
    (
      Turn-Fits access internal name (vlan_of vxlan) vxlans used u used'
          (vni-Turn true access internal name vxlan vxlan.vni used u refl is) more,
      check_vxlans-Fits access internal vxlans u used' more,
    )

Fits-Extends :
    (names names' : List (ℕ × String)) (internal : Option (ℕ × ℕ)) (name : String) (vlan : Option ℕ)
    (rest : List (String × Vxlan))
    → Extends names names'
    → Fits names internal name vlan rest
    → Fits names' internal name vlan rest
Fits-Extends names names' internal name none rest e h = tt
Fits-Extends names names' internal name (some id) rest e h = (e id name h.0, h.1, h.2)

DeviceFits-Extends :
    (names names' : List (ℕ × String)) (internal : Option (ℕ × ℕ)) (vxlans : List (String × Vxlan))
    → Extends names names'
    → DeviceFits names internal vxlans
    → DeviceFits names' internal vxlans
DeviceFits-Extends names names' internal [] e h = tt
DeviceFits-Extends names names' internal ((name, vxlan) ∷ vxlans) e h = (
  Fits-Extends names names' internal name (vlan_of vxlan) vxlans e h.0,
  DeviceFits-Extends names names' internal vxlans e h.1,
)

check_devices-Extends :
    (access : List String) (devices : List (String × DeviceSettings)) (used used' : Used)
    → check_devices true access devices used ≡ ok used'
    → Extends used.global_vlans used'.global_vlans
unfolding check_devices
check_devices-Extends access [] used used' h =
    rw⁻¹ (ap (λ u. u.global_vlans) (ok_inj h)) (λ id n k. k)
check_devices-Extends access ((host, settings) ∷ devices) used used' h =
    let (u, is, more) =
      and_then-returned
        (check_vxlans true (mem host access) settings.internal_vlans (entries settings)
          (fresh used))
        (check_devices true access devices) used' h in
    λ id n k. check_devices-Extends access devices u used' more id n (
      check_vxlans-Extends (mem host access) settings.internal_vlans (entries settings) (fresh used)
        u is id n k)

check_devices-AllFit :
    (access : List String) (devices : List (String × DeviceSettings)) (used used' : Used)
    → check_devices true access devices used ≡ ok used'
    → AllFit used'.global_vlans devices
unfolding check_devices
check_devices-AllFit access [] used used' h = tt
check_devices-AllFit access ((host, settings) ∷ devices) used used' h =
    let (u, is, more) =
      and_then-returned
        (check_vxlans true (mem host access) settings.internal_vlans (entries settings)
          (fresh used))
        (check_devices true access devices) used' h in
    (
      DeviceFits-Extends u.global_vlans used'.global_vlans settings.internal_vlans
          (entries settings) (check_devices-Extends access devices u used' more)
          (check_vxlans-Fits (mem host access) settings.internal_vlans (entries settings)
            (fresh used) u is),
      check_devices-AllFit access devices u used' more,
    )

done-ok : (r : Result Used) → done r ≡ ok tt → (used : Used) × (r ≡ ok used)
done-ok (err e) h = cc
done-ok (ok used) h = (used, refl)

-- Where VLANs have to be globally unique (`unique_vlans`), settings that pass the check have one name for
-- each VLAN id: there is a dict that gives every management VLAN the name `management` and the VLAN of
-- every entry with an integer VNI the entry's name, over all devices. Among the entries of one device
-- that have an integer VNI no VLAN id is used twice, and none lies in the internal range. Of entries
-- without one nothing is said: the check skips them.
pub check_vlan_collisions-AllFit :
    (mgmt_vlans : List ℕ) (devices : List (String × DeviceSettings)) (db : Db)
    → check_vlan_collisions true mgmt_vlans devices db ≡ ok tt
    → (names : List (ℕ × String)) × Extends (from_keys mgmt_vlans) names × AllFit names devices
unfolding check_vlan_collisions
check_vlan_collisions-AllFit mgmt_vlans devices db h =
    let (used, is) = done-ok _ h in
    (
      used.global_vlans,
      check_devices-Extends (access_names db.devices) devices (start mgmt_vlans) used is,
      check_devices-AllFit (access_names db.devices) devices (start mgmt_vlans) used is,
    )
