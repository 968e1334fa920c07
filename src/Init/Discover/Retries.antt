-- ===== src/Init/Discover/Retries.antt =====
-- The attempts at a discovery, and at the second step of an initialisation.
use cnaas_nms.Prelude.{
  ℕ, String, ◌+◌, ◌≤◌, ◌≡◌, ◌≢◌, List, [], ◌∷◌, Option, none, some, arith, if_elim, select, ltb,
  leb, ◌&&◌, ==_refl,
}
use cnaas_nms.Prelude.Exec.{ok, err, value_error}
use cnaas_nms.Schema.{Db, Device, DeviceState, state_eq}
use cnaas_nms.Sync.Env.{Env}
use cnaas_nms.Links.{FactsAnswer, failed, missing, got}
use cnaas_nms.Init.{InitEnv}
use cnaas_nms.Init.Schedule.{schedule_discover_device, discover_job, discover_path, some_id}
use cnaas_nms.Jobs.Scheduler.{add_onetime_job}
use cnaas_nms.Init.Schedule.Chain.{chain, Ends, Again, chain-Ends}
use cnaas_nms.Init.Discover.{
  DiscoverArgs, seen_at, set_mac, has_mac, discover_device, discover_rows, after_contact,
}

schedule-stops :
    (env : Env) (mac ip : String) (i : ℕ) (by : Option String) (db : Db)
    → 4 ≤ i
    → schedule_discover_device env mac ip i by db ≡ (ok none, db)
unfolding schedule_discover_device
schedule-stops env mac ip i by db h = ground (arith, h)

contact-stops :
    (env : InitEnv) (args : DiscoverArgs) (i : ℕ) (answer : FactsAnswer) (db : Db)
    → 3 ≤ i
    → (id : ℕ) → (after_contact env args i answer db).0 ≢ ok (some id)
contact-stops env args i failed db h id =
    rw
      (schedule-stops env.sync args.ztp_mac args.dhcp_ip (i + 1) args.scheduled_by db
        (omega (arith, h)))
      (λ e. cc)
contact-stops env args i missing db h id = λ e. cc
contact-stops env args i (got facts) db h id = λ e. cc

rows-stop :
    (env : InitEnv) (args : DiscoverArgs) (i : ℕ) (ds : List Device) (db : Db)
    → 3 ≤ i
    → (id : ℕ) → (discover_rows env args i ds db).0 ≢ ok (some id)
rows-stop env args i [] db h id = λ e. cc
rows-stop env args i (d ∷ e ∷ ds) db h id = λ e. cc
rows-stop env args i (d ∷ []) db h id =
    if_elim (λ r. r.0 ≢ ok (some id)) (state_eq d.state DeviceState.dhcp_boot)
      (after_contact env args i (env.get_facts d.hostname)
        (set_mac args.ztp_mac (seen_at args.address) db))
      (err value_error, db) (λ e. contact-stops env args i (env.get_facts d.hostname) _ h id)
      (λ e k. cc)

job-Again :
    (env : Env) (mac ip : String) (i : ℕ) (by : Option String) (db : Db)
    → Again discover_path i (some_id (discover_job env mac ip (i + 1) by db))
unfolding add_onetime_job
job-Again env mac ip i by db id h =
    let same : db.next_job_id ≡ id = ground (arith, h) in ground (arith, same, ==_refl id)

schedule-Again :
    (env : Env) (mac ip : String) (i : ℕ) (by : Option String) (db : Db)
    → Again discover_path i (schedule_discover_device env mac ip (i + 1) by db)
unfolding schedule_discover_device
schedule-Again env mac ip i by db =
    if_elim (Again discover_path i) (ltb 0 (i + 1) && leb (i + 1) 3)
      (some_id (discover_job env mac ip (i + 1) by db)) (ok none, db)
      (λ e. job-Again env mac ip i by db) (λ e id k. cc)

contact-Again :
    (env : InitEnv) (args : DiscoverArgs) (i : ℕ) (answer : FactsAnswer) (db : Db)
    → Again discover_path i (after_contact env args i answer db)
contact-Again env args i failed db =
    schedule-Again env.sync args.ztp_mac args.dhcp_ip i args.scheduled_by db
contact-Again env args i missing db = λ id k. cc
contact-Again env args i (got facts) db = λ id k. cc

rows-Again :
    (env : InitEnv) (args : DiscoverArgs) (i : ℕ) (ds : List Device) (db : Db)
    → Again discover_path i (discover_rows env args i ds db)
rows-Again env args i [] db = λ id k. cc
rows-Again env args i (d ∷ e ∷ ds) db = λ id k. cc
rows-Again env args i (d ∷ []) db =
    if_elim (Again discover_path i) (state_eq d.state DeviceState.dhcp_boot)
      (after_contact env args i (env.get_facts d.hostname)
        (set_mac args.ztp_mac (seen_at args.address) db))
      (err value_error, db) (λ e. contact-Again env args i (env.get_facts d.hostname) _)
      (λ e id k. cc)

-- A discovery that begins with iteration 1 runs three times at most, whatever the device answers and
-- whatever else writes the database between the attempts: each next attempt is the one that the
-- scheduler was handed, with the iteration of its arguments.
pub discover_device-chain :
    (env : InitEnv) (args : DiscoverArgs) (between : ℕ → Db → Db) (db : Db)
    → Ends 3 (chain discover_path (discover_device env args) between 3 (some 1) db)
unfolding discover_device
discover_device-chain env args between db =
    chain-Ends discover_path (discover_device env args) between 3
      (λ i db'. rows-Again env args i (select (has_mac args.ztp_mac) db'.devices) db')
      (λ i db' h. rows-stop env args i (select (has_mac args.ztp_mac) db'.devices) db' h) 2 1 db
      (omega arith)
