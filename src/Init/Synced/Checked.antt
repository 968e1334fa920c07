-- ===== src/Init/Synced/Checked.antt =====
-- Neighbours that have passed the check.
use cnaas_nms.Prelude.{
  ◌≡◌, refl, String, true, false, Option, none, some, List, [], ◌∷◌, arith, All, Bool, mem, eq_iff,
  str_eq, str_eq_refl, Bool-cases, inl, inr, select,
}
use cnaas_nms.Prelude.Exec.{Result, Error, ok, err}
use cnaas_nms.Schema.{Db, Device, DeviceState, state_eq}
use cnaas_nms.Sync.Env.{Env}
use cnaas_nms.Sync.Tasks.{HostRun, find_device, run_check, run_failed, sync_check_hash, is_err}
use cnaas_nms.Sync.Inventory.{Host, chosen, several, names, load, inventory_selector}
use cnaas_nms.Links.{then_do-returned}
use cnaas_nms.Init.Synced.{
  check_neighbor_sync, check_neighbors, check_neighbor, then_confcheck, confcheck_devices,
  confcheck_runs, confcheck_run, checked_hosts,
}

abbrev pub IsSynced : Db → String → Type 0
IsSynced db name =
    (d : Device) × (find_device name db.devices ≡ some d)
    × (state_eq d.state DeviceState.managed ≡ true)
    × (d.synchronized ≡ true)

one-IsSynced :
    (db : Db) (name : String) (o : Option Device)
    → find_device name db.devices ≡ o
    → check_neighbor o ≡ ok tt
    → IsSynced db name
one-IsSynced db name none e h = cc
one-IsSynced db name (some d) e h = (d, e, ground (arith, h), ground (arith, h))

All-IsSynced : (hs : List String) (db : Db) → check_neighbors hs db ≡ ok tt → All (IsSynced db) hs
unfolding check_neighbors
All-IsSynced [] db e = tt
All-IsSynced (h ∷ hs) db e =
    let (u, is, k) =
      then_do-returned (check_neighbor (find_device h db.devices)) (λ _. check_neighbors hs db) tt
        e in
    (one-IsSynced db h _ refl is, All-IsSynced hs db k)

-- What the hash check of the hosts has done, where it returned.
abbrev pub HashChecked : Env → List HostRun → Db → Db → Type 0
HashChecked env runs db db' = (run_failed runs ≡ false) × (db' ≡ db)

runs-checked :
    (env : Env) (runs : List HostRun) (db : Db)
    → (confcheck_runs env runs db).0 ≡ ok tt
    → HashChecked env runs db (confcheck_runs env runs db).1
runs-checked env runs db h = (ground (arith, h), ground (arith, h))

confcheck-checked :
    (env : Env) (raises : Option Error) (runs : List HostRun) (db : Db)
    → (confcheck_run env raises runs db).0 ≡ ok tt
    → HashChecked env runs db (confcheck_run env raises runs db).1
confcheck-checked env (some e) runs db h = cc
confcheck-checked env none runs db h = runs-checked env runs db h

-- Where a hash of the device's configuration is stored, it is that of the running one.
abbrev pub Unchanged : Env → Db → String → Type 0
Unchanged env db name =
    (d : Device) (stored : String)
    → find_device name db.devices ≡ some d
    → d.confhash ≡ some stored
    → (config : String) × (env.running name ≡ ok config) × (env.sha256 config ≡ stored)

hash_found :
    (env : Env) (db : Db) (name stored : String) (d : Device) (r : Result String)
    → env.running name ≡ r
    → find_device name db.devices ≡ some d
    → d.confhash ≡ some stored
    → is_err (sync_check_hash env false db name) ≡ false
    → (config : String) × (r ≡ ok config) × (env.sha256 config ≡ stored)
unfolding sync_check_hash
hash_found env db name stored d (err e) is found has h = ground (arith, is, found, has, h)
hash_found env db name stored d (ok config) is found has h =
    (config, refl, ground (arith, is, found, has, h, eq_iff stored (env.sha256 config)))

check-Unchanged :
    (env : Env) (db : Db) (name : String)
    → is_err (sync_check_hash env false db name) ≡ false
    → Unchanged env db name
check-Unchanged env db name h =
    λ d stored found has. hash_found env db name stored d (env.running name) refl found has h

runs-Unchanged :
    (env : Env) (db : Db) (hosts : List String)
    → run_failed (run_check env false db hosts) ≡ false
    → (name : String) → mem name hosts ≡ true
    → Unchanged env db name
unfolding run_check
runs-Unchanged env db [] h name m = cc
runs-Unchanged env db (host ∷ hosts) h name m = elim (Bool-cases (str_eq name host)) [
  | inl e ↦ rw ((eq_iff name host).0 e) (check-Unchanged env db host (ground (arith, h)))
  | inr e ↦ runs-Unchanged env db hosts (ground (arith, h)) name (ground (arith, m, e))
]

-- The devices whose configurations are compared: those that are named, or all where none is.
abbrev pub is_compared : List String → String → Bool
is_compared [] name = true
is_compared (h ∷ hostnames) name = mem name (h ∷ hostnames)

abbrev picked : List String → List Host → List String
picked hostnames nr =
    names (select (λ h. h.managed) (select (chosen (several hostnames) none none) nr))

picked-compared :
    (P : String → Type 0) (get_groups : String → List String) (hostnames : List String)
    (ds : List Device)
    → ((name : String) → mem name (picked hostnames (load get_groups ds)) ≡ true → P name)
    → All
        (λ d.
          state_eq d.state DeviceState.managed ≡ true
          → is_compared hostnames d.hostname ≡ true
          → P d.hostname)
        ds
unfolding load
picked-compared P get_groups hostnames [] f = tt
picked-compared P get_groups [] (d ∷ ds) f = (
  λ m a. f d.hostname (ground (arith, m, a, str_eq_refl d.hostname)),
  picked-compared P get_groups [] ds (λ name e. f name (ground (arith, e))),
)
picked-compared P get_groups (h ∷ hostnames) (d ∷ ds) f = (
  λ m a. f d.hostname (ground (arith, m, a, str_eq_refl d.hostname)),
  picked-compared P get_groups (h ∷ hostnames) ds (λ name e. f name (ground (arith, e))),
)

-- What a check that went through says of the database before it, and of the one after it.
abbrev pub Checked : Env → List String → Db → Db → Type 0
Checked env hostnames db db' =
    All (IsSynced db) hostnames
    × All
        (λ d.
          state_eq d.state DeviceState.managed ≡ true
          → is_compared hostnames d.hostname ≡ true
          → Unchanged env db d.hostname)
        db.devices
    × (db' ≡ db)

hash-Checked :
    (env : Env) (hostnames : List String) (db db' : Db)
    → All (IsSynced db) hostnames
    → HashChecked env (run_check env false db (checked_hosts env hostnames db)) db db'
    → Checked env hostnames db db'
unfolding inventory_selector
hash-Checked env hostnames db db' synced h = (
  synced,
  picked-compared (Unchanged env db) env.get_groups hostnames db.devices
      (runs-Unchanged env db (checked_hosts env hostnames db) h.0),
  h.1,
)

after-neighbors :
    (env : Env) (hostnames : List String) (db : Db) (r : Result (Unit {0}))
    → check_neighbors hostnames db ≡ r
    → (then_confcheck env hostnames r db).0 ≡ ok tt
    → Checked env hostnames db (then_confcheck env hostnames r db).1
unfolding confcheck_devices
after-neighbors env hostnames db (err e) is h = cc
after-neighbors env hostnames db (ok tt) is h =
    hash-Checked env hostnames db _ (All-IsSynced hostnames db is)
      (confcheck-checked env env.check_raises _ db h)

-- A check of the neighbours that goes through has found each of them managed and marked synchronized,
-- and has written nothing. Of every managed device that is named, or of every managed device where no
-- name is given, the running configuration was read where a hash of it is stored, and has that hash.
pub check_neighbor_sync-Checked :
    (env : Env) (hostnames : List String) (db : Db)
    → (check_neighbor_sync env hostnames db).0 ≡ ok tt
    → Checked env hostnames db (check_neighbor_sync env hostnames db).1
unfolding check_neighbor_sync
check_neighbor_sync-Checked env hostnames db h = after-neighbors env hostnames db _ refl h
