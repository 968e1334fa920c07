-- ===== src/Init/Lifecycle/FirstMoved.antt =====
-- What the first steps do to the states of the devices.
use cnaas_nms.Prelude.{
  ℕ, ◌≡◌, refl, ap, ◌∙◌, String, Bool, true, false, Option, none, some, List, [], ◌∷◌, ◌==◌,
  first_sound, ==_iff,
}
use cnaas_nms.Prelude.Exec.{
  Exec, Result, ok, err, raise, pure, query, modify, lift, gets, continue, ok_inj, ◌>>=◌,
}
use cnaas_nms.Prelude.Same.{
  Same-bind, Same-pure, Same-raise, Same-modify, Same-query, Same-gets, >>=-returned,
}
use cnaas_nms.Schema.{Db, Device, DeviceType, DeviceState, IpAddress}
use cnaas_nms.Links.{find_id}
use cnaas_nms.Init.{InitEnv, set_id}
use cnaas_nms.Init.Checks.{pre_init_checks}
use cnaas_nms.Init.Rows.{drop_reservations}
use cnaas_nms.Links.Uplinks.{reset_uplink_interfaces}
use cnaas_nms.Init.Access.{AccessArgs, Found, mlag_pair, access_prepare}
use cnaas_nms.Init.FirstStep.{
  init_access_device_step1, access_finish, finish_found, access_jobs, schedule_peer, roll_back,
  access_init,
}
use cnaas_nms.Init.Fabric.{
  FabricArgs, init_fabric_device_step1, fabric_checks, fabric_rows, fabric_addresses, fabric_finish,
  fabric_jobs, fabric_type, reserve_lo, given_infra, finish_row, fabric_init,
}
use cnaas_nms.Init.Lifecycle.{begin, Move, stay, state_at}
use cnaas_nms.Init.Lifecycle.States.{state-update, set_id-Move}
use cnaas_nms.Init.Lifecycle.Kept.{Kept, Kept-update_linknets}
use cnaas_nms.Init.Lifecycle.Phases.{
  Kept-check, Kept-session, Kept-rename, Kept-peer, Kept-clear, Kept-job, Kept-set_id,
}
use cnaas_nms.Init.Lifecycle.Prepared.{Kept-prepare, prepared-discovered, checked-discovered}

module _ (j : ℕ) where
  -- The state of the device stays or makes a transition.
  abbrev pub Moved : {A : Type 0} → Db → Result A × Db → Type 0
  Moved db r = Move (state_at j db) (state_at j r.1)

  continue-Moved :
      {A B : Type 0} (r : Result A) (k : A → Exec Db B) (db : Db)
      → ((a : A) → r ≡ ok a → Moved db (k a db))
      → Moved db (continue r k db)
  continue-Moved (ok a) k db h = h a refl
  continue-Moved (err e) k db h = stay

  -- First a phase that keeps the states, then one that may change one.
  bind-Moved :
      {A B : Type 0} (m : Exec Db A) (k : A → Exec Db B) (db : Db)
      → Kept j m
      → ((a : A) → (m db).0 ≡ ok a → Moved (m db).1 (k a (m db).1))
      → Moved db ((m >>= k) db)
  unfolding ◌>>=◌
  bind-Moved m k db keeps h = rw⁻¹ (keeps.at db) (continue-Moved (m db).0 k (m db).1 h)

  continue-Kept :
      {A B : Type 0} (r : Result A) (k : A → Exec Db B) (db : Db)
      → ((a : A) → Kept j (k a))
      → state_at j (continue r k db).1 ≡ state_at j db
  continue-Kept (ok a) k db h = (h a).at db
  continue-Kept (err e) k db h = refl

  -- First a phase that may change one, then phases that keep them.
  Moved-bind :
      {A B : Type 0} (m : Exec Db A) (k : A → Exec Db B) (db : Db)
      → Moved db (m db)
      → ((a : A) → Kept j (k a))
      → Moved db ((m >>= k) db)
  unfolding ◌>>=◌
  Moved-bind m k db h keeps = rw (continue-Kept (m db).0 k (m db).1 keeps) h

  -- The row that is found has the id, so its state is known.
  own_state :
      (id : ℕ) (s : DeviceState) (dev : Device) (db : Db)
      → find_id id db.devices ≡ some dev
      → state_at id db ≡ some s
      → state_at dev.id db ≡ some s
  own_state id s dev db e h =
      ap (λ i. state_at i db)
        ((==_iff dev.id id).0 (first_sound (λ d. d.id == id) db.devices dev e))
      ∙ h

  found-Moved :
      (answers : Bool) (old : String) (ips : IpAddress × Option IpAddress) (id : ℕ)
      (o : Option Device) (db : Db)
      → find_id id db.devices ≡ o
      → state_at id db ≡ some DeviceState.discovered
      → Moved db (finish_found answers old ips o db)
  unfolding raise modify reset_uplink_interfaces
  found-Moved answers old ips id none db e h = stay
  found-Moved true old ips id (some dev) db e h =
      Moved-bind (modify (roll_back dev old)) (λ _. pure false) db
        (rw
          (state-update j (λ d. d.id == dev.id) (λ d. record d { hostname = old })
            (λ d. (refl, refl)) db.devices)
          stay)
        (λ u. Same-pure _ _)
  found-Moved false old ips id (some dev) db e h =
      Moved-bind (modify (λ db'. drop_reservations dev.id (set_id dev.id (access_init ips) db')))
        (λ _. pure true) db
        (set_id-Move dev.id j (access_init ips) DeviceState.discovered DeviceState.init db
          (λ d. (refl, refl)) begin (own_state id DeviceState.discovered dev db e h))
        (λ u. Same-pure _ _)

  finish-Moved :
      (env : InitEnv) (args : AccessArgs) (old : String) (ips : IpAddress × Option IpAddress)
      (db : Db)
      → state_at args.device_id db ≡ some DeviceState.discovered
      → Moved db (access_finish env args old ips db)
  unfolding access_finish gets
  finish-Moved env args old ips db h =
      bind-Moved (gets (λ d. find_id args.device_id d.devices)) _ db (record { at = λ d. refl })
        (λ o e. found-Moved _ old ips args.device_id o db (ok_inj e) h)

  Kept-schedule_peer :
      (env : InitEnv) (args : AccessArgs) (pair : Option (ℕ × String)) (hosts : List String)
      → Kept j (schedule_peer env args pair hosts)
  Kept-schedule_peer env args none hosts = Same-pure _ _
  Kept-schedule_peer env args (some (peer, name)) hosts =
      Same-bind _ _ _ (Kept-peer j env.sync peer name hosts args.scheduled_by) (λ n. Same-pure _ _)

  Kept-jobs :
      (env : InitEnv) (args : AccessArgs) (found : Found) (b : Bool)
      → Kept j (access_jobs env args found b)
  Kept-jobs env args found false = Same-pure _ _
  Kept-jobs env args found true = Same-bind _ _ _ (Kept-job j _ _ _ _ _ _ _) (λ id.
      Same-bind _ _ _ (Kept-schedule_peer env args (mlag_pair args) found.uplink_hostnames)
        (λ u. Same-pure _ _))

  pub init_access_device_step1-Move :
      (env : InitEnv) (args : AccessArgs) (db : Db)
      → Moved db (init_access_device_step1 env args db)
  unfolding init_access_device_step1 lift
  init_access_device_step1-Move env args db =
      bind-Moved (access_prepare env args) _ db (Kept-prepare j env args) (λ r e.
        let db' = (access_prepare env args db).1 in
        bind-Moved (lift env.rebuild_settings_cache) _ db' (record { at = λ d. refl })
          (λ u k.
            Moved-bind (access_finish env args r.0.hostname r.2) _ db'
              (finish-Moved env args r.0.hostname r.2 db' (
                (Kept-prepare args.device_id env args).at db ∙ prepared-discovered env args db r e))
              (λ b. Kept-jobs env args r.1 b)))

  Kept-fabric_checks :
      (env : InitEnv) (args : FabricArgs) (devtype : DeviceType)
      → Kept j (fabric_checks env args devtype)
  unfolding fabric_checks
  Kept-fabric_checks env args devtype = Same-bind _ _ _ (Same-query _ _) (λ dev.
      Same-bind _ _ _ (Kept-update_linknets j env.links _ _) (λ ls.
        Same-bind _ _ _ (Same-query _ _) (λ ns.
          Same-bind _ _ _ (Kept-session j _ (Kept-check j env.sync ns)) (λ u. Same-pure _ _))))

  Kept-reserve_lo : (env : InitEnv) (id : ℕ) (ip : Option IpAddress) → Kept j (reserve_lo env id ip)
  Kept-reserve_lo env id none = Same-raise _ _
  Kept-reserve_lo env id (some ip) =
      Same-bind _ _ _ (Same-modify _ _ (λ db. refl)) (λ u. Same-pure _ _)

  Kept-given : (infra : Option IpAddress) (ip : IpAddress) → Kept j (given_infra infra ip)
  Kept-given none ip = Same-raise _ _
  Kept-given (some a) ip = Same-pure _ _

  Kept-addresses : (env : InitEnv) (id : ℕ) → Kept j (fabric_addresses env id)
  unfolding fabric_addresses
  Kept-addresses env id = Same-bind _ _ _ (Same-gets _ _) (λ mgmt.
      Same-bind _ _ _ (Same-gets _ _) (λ infra. Same-bind _ _ _ (Kept-reserve_lo env id mgmt) (λ ip.
        Same-bind _ _ _ (Kept-set_id j id (λ d. record d { infra_ip = infra }) (λ d. (refl, refl)))
          (λ u. Kept-given infra ip))))

  Kept-fabric_rows :
      (env : InitEnv) (args : FabricArgs) (dev : Device) (devtype : DeviceType)
      → Kept j (fabric_rows env args dev devtype)
  unfolding fabric_rows
  Kept-fabric_rows env args dev devtype =
      Same-bind _ _ _
        (Kept-set_id j args.device_id (λ d. record d { device_type = devtype }) (λ d. (refl, refl)))
        (λ u. Same-bind _ _ _ (Kept-update_linknets j env.links _ _) (λ ls.
          Same-bind _ _ _ (Kept-clear j env.sync.now args.device_id) (λ v.
            Same-bind _ _ _ (Kept-addresses env args.device_id) (λ ip.
              Same-bind _ _ _ (Same-query _ _) (λ w.
                Same-bind _ _ _ (Kept-rename j args.device_id args.new_hostname)
                  (λ x. Same-pure _ _))))))

  Kept-fabric_jobs :
      (env : InitEnv) (args : FabricArgs) (hosts : List String)
      → Kept j (fabric_jobs env args hosts)
  unfolding fabric_jobs
  Kept-fabric_jobs env args hosts =
      Same-bind _ _ _ (Kept-job j _ _ _ _ _ _ _) (λ id. Kept-job j _ _ _ _ _ _ _)

  row-Moved :
      (id : ℕ) (ip : IpAddress) (o : Option Device) (db : Db)
      → state_at id db ≡ some DeviceState.discovered
      → Moved db (finish_row id ip o db)
  unfolding raise modify
  row-Moved id ip none db h = stay
  row-Moved id ip (some d) db h =
      set_id-Move id j (fabric_init ip) DeviceState.discovered DeviceState.init db
        (λ x. (refl, refl)) begin h

  fabric-finish-Moved :
      (id : ℕ) (ip : IpAddress) (db : Db)
      → state_at id db ≡ some DeviceState.discovered
      → Moved db (fabric_finish id ip db)
  unfolding fabric_finish gets
  fabric-finish-Moved id ip db h =
      bind-Moved (gets (λ d. find_id id d.devices)) _ db (record { at = λ d. refl })
        (λ o e. row-Moved id ip o db h)

checks-discovered :
    (env : InitEnv) (args : FabricArgs) (devtype : DeviceType) (db : Db) (r : Device × List String)
    → (fabric_checks env args devtype db).0 ≡ ok r
    → state_at args.device_id db ≡ some DeviceState.discovered
unfolding fabric_checks query
checks-discovered env args devtype db r h =
    let (dev, is, k, more) =
      >>=-returned
        (query (pre_init_checks env.reachable args.device_id (DeviceState.discovered ∷ []))) _ db r
        h in
    (checked-discovered env.reachable args.device_id db dev is).1

pub init_fabric_device_step1-Move :
    (j : ℕ) (env : InitEnv) (args : FabricArgs) (db : Db)
    → Moved j db (init_fabric_device_step1 env args db)
unfolding init_fabric_device_step1 lift
init_fabric_device_step1-Move j env args db =
    bind-Moved j (lift (fabric_type args.device_type)) _ db (record { at = λ d. refl })
      (λ devtype e.
        bind-Moved j (fabric_checks env args devtype) _ db (Kept-fabric_checks j env args devtype)
          (λ r k.
            let db₁ = (fabric_checks env args devtype db).1 in
            let db₂ = (fabric_rows env args r.0 devtype db₁).1 in
            bind-Moved j (fabric_rows env args r.0 devtype) _ db₁
              (Kept-fabric_rows j env args r.0 devtype)
              (λ ip l.
                bind-Moved j (lift env.rebuild_settings_cache) _ db₂ (record { at = λ d. refl })
                  (λ u m.
                    Moved-bind j (fabric_finish args.device_id ip) _ db₂
                      (fabric-finish-Moved j args.device_id ip db₂ (
                        (Kept-fabric_rows args.device_id env args r.0 devtype).at db₁
                        ∙ (Kept-fabric_checks args.device_id env args devtype).at db
                        ∙ checks-discovered env args devtype db r k))
                      (λ v. Kept-fabric_jobs j env args r.1)))))

-- Where the first step of an access device returns, the device was in the state DISCOVERED. So it
-- raises for a device in another state, also where it has scheduled the initialisation of the MLAG
-- peer of a managed device.
pub init_access_device_step1-discovered :
    (env : InitEnv) (args : AccessArgs) (db : Db) (next_job : Option ℕ)
    → (init_access_device_step1 env args db).0 ≡ ok next_job
    → state_at args.device_id db ≡ some DeviceState.discovered
unfolding init_access_device_step1
init_access_device_step1-discovered env args db next_job h =
    let (r, is, k, more) = >>=-returned (access_prepare env args) _ db next_job h in
    prepared-discovered env args db r is
