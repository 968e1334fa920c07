-- ===== src/Links/SetFacts/Stored.antt =====
-- Facts that are stored twice.
use cnaas_nms.Prelude.{
  ◌≡◌, refl, String, false, Option, none, some, [], if◌then◌else◌, arith, str_eq, str_eq_refl,
  eq_iff,
}
use cnaas_nms.Schema.{Device}
use cnaas_nms.Links.{Facts}
use cnaas_nms.Links.SetFacts.{set_facts, new_value, is_new, fact_data}

-- A value that has been stored is not new.
is_new-new_value : (old : Option String) (fact : String) → is_new (new_value old fact) fact ≡ false
is_new-new_value none fact = ground (arith, str_eq_refl fact)
is_new-new_value (some v) fact = ground (arith, str_eq_refl fact)

new_value_lem :
    (old : Option String) (fact : String)
    → new_value old fact ≡ (if str_eq fact "" then old else some fact)
new_value_lem none fact = ground arith
new_value_lem (some v) fact = ground (arith, eq_iff v fact)

-- The stored facts are those of the device, cut to the length of their columns, where they are not
-- empty; and storing the same facts again reports nothing and changes nothing.
pub set_facts-idempotent :
    (dev : Device) (facts : Facts)
    → let dev' = (set_facts dev facts).1 in
      ((set_facts dev' facts).0 ≡ [])
      × ((set_facts dev' facts).1 ≡ dev')
      × (dev'.serial ≡ (
          if str_eq (fact_data facts.serial_number) ""
          then dev.serial
          else some (fact_data facts.serial_number)))
unfolding set_facts
set_facts-idempotent dev facts = (
  rw
      (
        is_new-new_value dev.vendor (fact_data facts.vendor),
        is_new-new_value dev.model (fact_data facts.model),
        is_new-new_value dev.os_version (fact_data facts.os_version),
        is_new-new_value dev.serial (fact_data facts.serial_number),
      )
      refl,
  rw
      (
        is_new-new_value dev.vendor (fact_data facts.vendor),
        is_new-new_value dev.model (fact_data facts.model),
        is_new-new_value dev.os_version (fact_data facts.os_version),
        is_new-new_value dev.serial (fact_data facts.serial_number),
      )
      refl,
  new_value_lem dev.serial (fact_data facts.serial_number),
)
