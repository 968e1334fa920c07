-- ===== src/Repos.antt =====
-- Which devices a refresh of a repository leaves unsynchronized: `settings_syncstatus` of
-- src/cnaas_nms/db/git.py and `set_devtype_syncstatus` of src/cnaas_nms/db/device.py. A set is a list;
-- file names are split into their parts. An entry that raises in the loop is only logged.
pub mod Marked
use cnaas_nms.Prelude.{
  ℕ, String, Bool, true, false, Option, none, some, List, [], ◌∷◌, ◌++◌, ◌&&◌, if◌then◌else◌,
  str_eq, mem, append,
}
use cnaas_nms.Schema.{Db, Device, DeviceType, type_eq}
use cnaas_nms.Sync.Score.{codes}
use cnaas_nms.Sync.History.{add_sync_event}
use cnaas_nms.Sync.Tasks.{set_device}
use cnaas_nms.Lookup.{valid_hostname}

-- The answer: device types and host names.
pub record Unsynced : Type 0 where
  pub devtypes : List DeviceType
  pub hostnames : List String

-- The directory of a changed file, as the branches tell them apart; `other` is not in DIR_STRUCTURE.
pub data Basedir : Type 0 where
  everywhere fabric access dist core device_dir group_dir other : Basedir

unfoldable pub basedir : String → Basedir
basedir dir =
    if str_eq dir "global"
    then everywhere
    else if str_eq dir "fabric"
    then fabric
    else if str_eq dir "access"
    then access
    else if str_eq dir "dist"
    then dist
    else if str_eq dir "core"
    then core
    else if str_eq dir "devices"
    then device_dir
    else if str_eq dir "groups"
    then group_dir
    else other

-- `filename.split(os.path.sep)`: the first part, and the second, if there is one.
pub record Filename : Type 0 where
  pub dir : String
  pub second : Option String

-- The hosts whose primary group it is.
abbrev pub hosts_of : String → List (String × String) → List String
hosts_of group [] = []
hosts_of group ((host, g) ∷ mapping) =
    let rest = hosts_of group mapping in if str_eq group g then host ∷ rest else rest

abbrev add_types : List DeviceType → Unsynced → Unsynced
add_types ts u = record u { devtypes = u.devtypes ++ ts }

abbrev add_hosts : List String → Unsynced → Unsynced
add_hosts hs u = record u { hostnames = u.hostnames ++ hs }

-- What `get_groups()` and `get_device_primary_groups()` answer.
pub record GroupAnswers : Type 0 where
  pub groups : List String
  pub primary_groups : List (String × String)

abbrev device_hosts : Option String → List String
device_hosts none = []
device_hosts (some host) = if valid_hostname (codes host) then host ∷ [] else []

abbrev group_hosts : GroupAnswers → Option String → List String
group_hosts answers none = []
group_hosts answers (some group) =
    if mem group answers.groups then hosts_of group answers.primary_groups else []

-- What a file outside the global directory adds.
abbrev pub add_file : GroupAnswers → Basedir → Option String → Unsynced → Unsynced
add_file answers fabric second u = add_types (DeviceType.dist ∷ DeviceType.core ∷ []) u
add_file answers access second u = add_types (DeviceType.access ∷ []) u
add_file answers dist second u = add_types (DeviceType.dist ∷ []) u
add_file answers core second u = add_types (DeviceType.core ∷ []) u
add_file answers device_dir second u = add_hosts (device_hosts second) u
add_file answers group_dir second u = add_hosts (group_hosts answers second) u
add_file answers _ second u = u

abbrev pub everything : Unsynced
everything = record {
  devtypes = DeviceType.access ∷ DeviceType.dist ∷ DeviceType.core ∷ [];
  hostnames = [];
}

abbrev pub file_or_all : Basedir → Unsynced → Unsynced
file_or_all everywhere rest = everything
file_or_all _ rest = rest

-- The loop of `settings_syncstatus`, with the sets so far: a global file ends it.
unfoldable pub settings_syncstatus : GroupAnswers → List Filename → Unsynced → Unsynced
settings_syncstatus answers [] u = u
settings_syncstatus answers (f ∷ files) u =
    let rest = settings_syncstatus answers files (add_file answers (basedir f.dir) f.second u) in
    file_or_all (basedir f.dir) rest

abbrev pub is_platform : Option String → Device → Bool
is_platform none d = true
is_platform (some p) d =
    if str_eq p "" then true else elim d.platform [ none ↦ false | some q ↦ str_eq q p ]

abbrev pub is_marked : DeviceType → Option String → Device → Bool
is_marked devtype platform d = type_eq d.device_type devtype && is_platform platform d

abbrev pub mark_device : ℕ → Option String → String → Option ℕ → Bool → Device → Db → Db
mark_device now by repo_type job_id false d db = db
mark_device now by repo_type job_id true d db =
    record (set_device d.hostname (λ e. record e { synchronized = false }) db) {
      sync_events =
          add_sync_event now d.hostname (append "refresh_" repo_type) by job_id none db.sync_events;
    }

unfoldable pub mark_devices :
    (now : ℕ)
    → DeviceType
    → (by : Option String) → (repo_type : String) → (platform : Option String) → (job_id : Option ℕ)
    → List Device
    → Db
    → Db
mark_devices now devtype by repo_type platform job_id [] db = db
mark_devices now devtype by repo_type platform job_id (d ∷ ds) db =
    mark_devices now devtype by repo_type platform job_id ds
      (mark_device now by repo_type job_id (is_marked devtype platform d) d db)

-- `set_devtype_syncstatus(session, devtype, by, repo_type, platform, job_id)`
unfoldable pub set_devtype_syncstatus :
    (now : ℕ)
    → DeviceType
    → (by : Option String) → (repo_type : String) → (platform : Option String) → (job_id : Option ℕ)
    → Db
    → Db
unfolding mark_devices
set_devtype_syncstatus now devtype by repo_type platform job_id db =
    mark_devices now devtype by repo_type platform job_id db.devices db
