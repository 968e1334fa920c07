-- ===== src/Sync/Inventory/Chosen.antt =====
-- Which devices a sync selects.
use cnaas_nms.Prelude.{
  is_false, ◌≡◌, refl, ◌∙◌, List, [], ◌∷◌, Bool, true, ◌&&◌, ◌||◌, select, arith, String, Option,
  Bool-cases, inl, inr, none, some, mem, str_eq, append, if◌then◌else◌,
}
use cnaas_nms.Sync.Inventory.{
  Host, HostArg, nobody, several, given, chosen, text_given, select_devices, inventory_selector,
}

module _ {A : Type 0} where
  select-select :
      (p q : A → Bool) (xs : List A) → select p (select q xs) ≡ select (λ x. q x && p x) xs
  select-select p q [] = refl
  select-select p q (x ∷ xs) = ground (arith, select-select p q xs)

  select_cong : (p q : A → Bool) (xs : List A) → ((x : A) → p x ≡ q x) → select p xs ≡ select q xs
  select_cong p q [] e = refl
  select_cong p q (x ∷ xs) e = ground (arith, e x, select_cong p q xs e)

abbrev selects : HostArg → (device_type group : Option String) → Bool → Host → Bool
selects hostname device_type group resync h =
    chosen hostname device_type group h
    && h.managed
    && (resync || given hostname || is_false h.synchronized)

inventory_selector_hosts :
    (nr : List Host) (resync : Bool) (hostname : HostArg) (device_type group : Option String)
    → (inventory_selector nr resync hostname device_type group).hosts
      ≡ select (selects hostname device_type group resync) nr
unfolding inventory_selector
inventory_selector_hosts nr resync hostname device_type group =
    let p : Host → Bool = chosen hostname device_type group in
    let two = select-select (λ h. h.managed) p nr in
    let three = select-select (λ h. is_false h.synchronized) (λ h. p h && h.managed) nr in
    elim (Bool-cases (resync || given hostname)) [
      | inl e ↦ rw (two, e) (select_cong (λ h. p h && h.managed) _ nr (λ h. ground arith))
      | inr e ↦
          rw (two, e, three)
            (select_cong (λ h. p h && h.managed && is_false h.synchronized) _ nr
              (λ h. ground arith))
    ]

abbrev pub in_group : String → Host → Bool
in_group group h = str_eq group "" || mem group h.groups

-- Of a type, which is a group with a prefix, or else of a group; an empty text asks for nothing.
abbrev pub is_of : (device_type group : Option String) → Host → Bool
is_of none none h = true
is_of none (some g) h = in_group g h
is_of (some t) none h = str_eq t "" || mem (append "T_" t) h.groups
is_of (some t) (some g) h = if str_eq t "" then in_group g h else mem (append "T_" t) h.groups

-- The devices that a sync is asked for: the named ones, else those of a type, else those of a group,
-- else all; of these the managed ones, and of these, unless they are named or a resync is asked for,
-- those out of sync.
abbrev pub asked : List String → (device_type group : Option String) → Bool → Host → Bool
asked (n ∷ hostnames) device_type group resync h = mem h.name (n ∷ hostnames) && h.managed
asked [] device_type group resync h =
    is_of device_type group h && h.managed && (resync || is_false h.synchronized)

module _ (nr : List Host) (resync : Bool) where
  untyped :
      (group : Option String)
      → (select_devices nr [] none group resync).hosts ≡ select (asked [] none group resync) nr
  unfolding select_devices
  untyped none =
      inventory_selector_hosts nr resync nobody none none
      ∙ select_cong (selects nobody none none resync) (asked [] none none resync) nr
          (λ h. ground arith)
  untyped (some g) = elim (Bool-cases (text_given (some g))) [
    | inl f ↦
        rw (f, inventory_selector_hosts nr resync nobody none (some g))
          (select_cong (selects nobody none (some g) resync) (asked [] none (some g) resync) nr
            (λ h. ground (arith, f)))
    | inr f ↦
        rw (f, inventory_selector_hosts nr resync nobody none none)
          (select_cong (selects nobody none none resync) (asked [] none (some g) resync) nr
            (λ h. ground (arith, f)))
  ]

  -- An empty type asks for nothing.
  asked_empty :
      (t : String) (group : Option String) (h : Host)
      → str_eq t "" ≡ true
      → asked [] none group resync h ≡ asked [] (some t) group resync h
  asked_empty t none h e = ground (arith, e)
  asked_empty t (some g) h e = ground (arith, e)

  type_skipped :
      (t : String) (group : Option String)
      → str_eq t "" ≡ true
      → (select_devices nr [] (some t) group resync).hosts
        ≡ (select_devices nr [] none group resync).hosts
  unfolding select_devices
  type_skipped t group e = rw e refl

  asked_typed :
      (t : String) (group : Option String) (h : Host)
      → text_given (some t) ≡ true
      → selects nobody (some t) none resync h ≡ asked [] (some t) group resync h
  asked_typed t none h e = ground (arith, e)
  asked_typed t (some g) h e = ground (arith, e)

-- The hosts that `select_devices` returns are the hosts of the inventory that are asked for, in the
-- order of the inventory.
pub select_devices-asked :
    (nr : List Host) (hostnames : List String) (device_type group : Option String) (resync : Bool)
    → (select_devices nr hostnames device_type group resync).hosts
      ≡ select (asked hostnames device_type group resync) nr
select_devices-asked nr (n ∷ hostnames) device_type group resync =
    unfold select_devices in
    inventory_selector_hosts nr true (several (n ∷ hostnames)) none none
    ∙ select_cong (selects (several (n ∷ hostnames)) none none true)
        (asked (n ∷ hostnames) device_type group resync) nr (λ h. ground arith)
select_devices-asked nr [] none group resync = untyped nr resync group
select_devices-asked nr [] (some t) group resync = elim (Bool-cases (text_given (some t))) [
  | inl e ↦
      unfold select_devices in
      rw (e, inventory_selector_hosts nr resync nobody (some t) none)
        (select_cong (selects nobody (some t) none resync) (asked [] (some t) group resync) nr
          (λ h. asked_typed nr resync t group h e))
  | inr e ↦
      type_skipped nr resync t group (ground (arith, e))
      ∙ untyped nr resync group
      ∙ select_cong (asked [] none group resync) (asked [] (some t) group resync) nr
          (λ h. asked_empty nr resync t group h (ground (arith, e)))
]
