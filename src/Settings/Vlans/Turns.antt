-- ===== src/Settings/Vlans/Turns.antt =====
-- What one turn of the VLAN check does, and what fits a dict of VLAN names.
use cnaas_nms.Prelude.{
  ℕ, ◌≡◌, refl, sym, ap, ◌⊎◌, ◌∙◌, String, Bool, true, false, Option, none, some, List, [], ◌∷◌,
  ◌==◌, ◌&&◌, arith, if◌then◌else◌, mem, eq_iff, Bool-cases, inl, inr, ==_iff,
}
use cnaas_nms.Prelude.Exec.{Result, ok, err, ok_inj}
use cnaas_nms.Settings.Vlans.{
  Vxlan, DeviceSettings, Used, check_vni, check_id, check_name, conflicts, and_then, value_at,
  put_at, differs, in_internal_range, entries,
}

abbrev pub vlan_given : Option ℕ → Option ℕ → Option ℕ
vlan_given none id = none
vlan_given (some vni) id = id

-- The VLAN that an entry uses: none, where its VNI or its VLAN id is missing.
abbrev pub vlan_of : Vxlan → Option ℕ
vlan_of vxlan = vlan_given vxlan.vni vxlan.vlan_id

-- The dict gives the VLAN that name.
abbrev pub Names : List (ℕ × String) → String → Option ℕ → Type 0
Names names name none = Unit
Names names name (some id) = value_at id names ≡ some name

abbrev pub apart_from : Option ℕ → ℕ → Bool → Bool
apart_from none id rest = rest
apart_from (some other) id rest = if other == id then false else rest

-- The VLAN is none of those of the other entries.
abbrev pub apart : ℕ → List (String × Vxlan) → Bool
apart id [] = true
apart id ((name, vxlan) ∷ vxlans) = let rest = apart id vxlans in apart_from (vlan_of vxlan) id rest

-- The VLAN of an entry of a device, where it has one: the dict gives it the entry's name, it lies
-- outside the internal range, and no other entry of the device has it.
abbrev pub Fits :
    List (ℕ × String) → Option (ℕ × ℕ) → String → Option ℕ → List (String × Vxlan) → Type 0
Fits names internal name none rest = Unit
Fits names internal name (some id) rest =
    (value_at id names ≡ some name)
    × (in_internal_range internal id ≡ false)
    × (apart id rest ≡ true)

abbrev pub DeviceFits : List (ℕ × String) → Option (ℕ × ℕ) → List (String × Vxlan) → Type 0
DeviceFits names internal [] = Unit
DeviceFits names internal ((name, vxlan) ∷ vxlans) =
    Fits names internal name (vlan_of vxlan) vxlans × DeviceFits names internal vxlans

abbrev pub AllFit : List (ℕ × String) → List (String × DeviceSettings) → Type 0
AllFit names [] = Unit
AllFit names ((hostname, settings) ∷ devices) =
    DeviceFits names settings.internal_vlans (entries settings) × AllFit names devices

-- The second dict keeps what the first one says.
abbrev pub Extends : List (ℕ × String) → List (ℕ × String) → Type 0
Extends names names' =
    (id : ℕ) (name : String) → value_at id names ≡ some name → value_at id names' ≡ some name

same_name :
    (o : Option String) (name old : String) → differs o name ≡ false → o ≡ some old → name ≡ old
same_name none name old d h = cc
same_name (some other) name old d h = ground (arith, eq_iff other name, d, h)

pub Extends-put :
    (names : List (ℕ × String)) (id : ℕ) (name : String)
    → differs (value_at id names) name ≡ false
    → Extends names (put_at id name names)
Extends-put names id name d k old h = elim (Bool-cases (id == k)) [
  | inl e ↦ rw e (
      ap some (
        same_name (value_at id names) name old d
          (ap (λ i. value_at i names) ((==_iff id k).0 e) ∙ h)))
  | inr e ↦ rw e h
]

-- What one turn did: the entry has no VLAN, or a new one without a conflict.
abbrev pub Turn : Bool → Option (ℕ × ℕ) → String → Option ℕ → Used → Used → Type 0
Turn unique internal name vlan used used' =
    ((vlan ≡ none) × (used'.global_vlans ≡ used.global_vlans) × (used'.vlan_ids ≡ used.vlan_ids))
    ⊎ ((id : ℕ) × (vlan ≡ some id)
        × (conflicts unique internal name id used ≡ false)
        × (used'.global_vlans ≡ put_at id name used.global_vlans)
        × (used'.vlan_ids ≡ id ∷ used.vlan_ids))

name_turn :
    (access : Bool) (vlan_name : Option String) (used used' : Used)
    → check_name access vlan_name used ≡ ok used'
    → (used'.global_vlans ≡ used.global_vlans) × (used'.vlan_ids ≡ used.vlan_ids)
name_turn access none used used' h =
    (ap (λ u. u.global_vlans) (sym (ok_inj h)), ap (λ u. u.vlan_ids) (sym (ok_inj h)))
name_turn access (some v) used used' h = elim (Bool-cases (mem v used.vlan_names && access)) [
  | inl e ↦ cc
  | inr e ↦ (
    ap (λ u. u.global_vlans) (sym (ok_inj (rw e at h))),
    ap (λ u. u.vlan_ids) (sym (ok_inj (rw e at h))),
  )
]

id-Turn :
    (unique access : Bool) (internal : Option (ℕ × ℕ)) (name : String) (id : Option ℕ)
    (vlan_name : Option String) (used used' : Used)
    → check_id unique access internal name id vlan_name used ≡ ok used'
    → Turn unique internal name id used used'
id-Turn unique access internal name none vlan_name used used' h =
    inl (refl, ap (λ u. u.global_vlans) (sym (ok_inj h)), ap (λ u. u.vlan_ids) (sym (ok_inj h)))
id-Turn unique access internal name (some id) vlan_name used used' h =
    elim (Bool-cases (conflicts unique internal name id used)) [
      | inl e ↦ cc
      | inr e ↦
          let (vlans, ids) = name_turn access vlan_name _ used' (rw e at h) in
          inr (id, refl, e, vlans, ids)
    ]

pub vni-Turn :
    (unique access : Bool) (internal : Option (ℕ × ℕ)) (name : String) (vxlan : Vxlan)
    (vni : Option ℕ) (used used' : Used)
    → vxlan.vni ≡ vni
    → check_vni unique access internal name vxlan vni used ≡ ok used'
    → Turn unique internal name (vlan_of vxlan) used used'
vni-Turn unique access internal name vxlan none used used' e h =
    rw e
      (inl (refl, ap (λ u. u.global_vlans) (sym (ok_inj h)), ap (λ u. u.vlan_ids) (sym (ok_inj h))))
vni-Turn unique access internal name vxlan (some vni) used used' e h =
    elim (Bool-cases (differs (value_at vni used.global_vnis) name)) [
      | inl d ↦ cc
      | inr d ↦ rw e (
          id-Turn unique access internal name vxlan.vlan_id vxlan.vlan_name
            (record used { global_vnis = put_at vni name used.global_vnis }) used' (rw d at h))
    ]

pub and_then-returned :
    (r : Result Used) (f : Used → Result Used) (used : Used)
    → and_then r f ≡ ok used
    → (u : Used) × (r ≡ ok u) × (f u ≡ ok used)
and_then-returned (err e) f used h = cc
and_then-returned (ok u) f used h = (u, refl, h)
