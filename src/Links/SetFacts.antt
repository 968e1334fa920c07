-- ===== src/Links/SetFacts.antt =====
-- `set_facts` and `update_facts` of src/cnaas_nms/devicehandler/update.py.
pub mod Stored
use cnaas_nms.Prelude.{
  ℕ, String, Bool, true, false, Option, none, some, List, [], ◌∷◌, ◌++◌, ◌||◌, if◌then◌else◌,
  str_eq,
}
use cnaas_nms.Prelude.Exec.{Exec, Result, ok, err, value_error, key_error}
use cnaas_nms.Schema.{Db, Device, DeviceState, state_eq}
use cnaas_nms.Jobs.Scheduler.{prefix}
use cnaas_nms.Sync.Tasks.{find_device, set_device}
use cnaas_nms.Links.{Facts, FactsAnswer, failed, missing, got}

-- An entry of `diff`.
pub record FactDiff : Type 0 where
  pub attribute : String
  pub old : Option String
  pub new : String

abbrev is_value : Option String → String → Bool
is_value none v = false
is_value (some u) v = str_eq u v

-- `fact_data and obj_data != fact_data`
abbrev pub is_new : Option String → String → Bool
is_new old fact = if str_eq fact "" then false else if is_value old fact then false else true

abbrev pub new_value : Option String → String → Option String
new_value old fact = if is_new old fact then some fact else old

abbrev pub diff_of : String → Option String → String → List FactDiff
diff_of attribute old fact =
    if is_new old fact then record { attribute = attribute; old = old; new = fact } ∷ [] else []

-- `facts[dict_key][:maxlen]`: the columns hold 64 characters.
unfoldable pub fact_data : String → String
unfolding prefix
fact_data fact = prefix 64 fact

-- `set_facts(dev, facts)`: the returned dict, and the device that is written.
unfoldable pub set_facts : Device → Facts → List FactDiff × Device
set_facts dev facts =
    let vendor = fact_data facts.vendor in
    let model = fact_data facts.model in
    let os_version = fact_data facts.os_version in
    let serial = fact_data facts.serial_number in
    (
      diff_of "vendor" dev.vendor vendor
          ++ diff_of "model" dev.model model
          ++ diff_of "os_version" dev.os_version os_version
          ++ diff_of "serial" dev.serial serial,
      record dev {
        vendor = new_value dev.vendor vendor;
        model = new_value dev.model model;
        os_version = new_value dev.os_version os_version;
        serial = new_value dev.serial serial;
      },
    )

-- What `update_facts` returns: the nornir result of a device that did not answer, or the diff.
pub data FactsResult : Type 0 where
  no_contact : FactsResult
  diff : List FactDiff → FactsResult

abbrev facts_of : (ℕ × Facts) → Device → Device
facts_of (now, facts) dev = record ((set_facts dev facts).1) { last_seen = now }

abbrev store_facts : ℕ → String → Device → FactsAnswer → Exec Db FactsResult
store_facts now hostname dev failed db = (ok no_contact, db)
store_facts now hostname dev missing db = (err key_error, db)
store_facts now hostname dev (got facts) db =
    (ok (diff (set_facts dev facts).0), set_device hostname (facts_of (now, facts)) db)

abbrev facts_for : ℕ → (String → FactsAnswer) → String → Option Device → Exec Db FactsResult
facts_for now get_facts hostname none db = (err value_error, db)
facts_for now get_facts hostname (some dev) db =
    if state_eq dev.state DeviceState.managed || state_eq dev.state DeviceState.unmanaged
    then store_facts now hostname dev (get_facts hostname) db
    else (err value_error, db)

-- `update_facts(hostname)`
unfoldable pub update_facts : ℕ → (String → FactsAnswer) → String → Exec Db FactsResult
update_facts now get_facts hostname db =
    facts_for now get_facts hostname (find_device hostname db.devices) db
