-- ===== src/Init/Second/Managed.antt =====
-- The second step of an initialisation: its attempts, and what it makes of the device.
use cnaas_nms.Prelude.{
  ℕ, ◌≤◌, ◌≡◌, ◌≢◌, String, Option, none, some, arith, if_elim, str_eq, ltb, ◌&&◌, ◌+◌, ◌*◌,
  ==_refl,
}
use cnaas_nms.Prelude.Exec.{Result, ok, err, device_state_error, init_error}
use cnaas_nms.Schema.{Db, Device, DeviceState, state_eq}
use cnaas_nms.Sync.Env.{Env}
use cnaas_nms.Links.{FactsAnswer, failed, missing, got, find_id}
use cnaas_nms.Init.{InitEnv}
use cnaas_nms.Init.Schedule.{schedule_init_device_step2, step2_job, step2_path, some_id}
use cnaas_nms.Jobs.Scheduler.{add_onetime_job}
use cnaas_nms.Init.Schedule.Chain.{chain, Ends, Again, chain-Ends}
use cnaas_nms.Init.Second.{Step2Args, init_device_step2, second_step, after_login, make_managed}

schedule-stops :
    (env : Env) (id i : ℕ) (by : Option String) (db : Db)
    → 2 ≤ i
    → schedule_init_device_step2 env id i by db ≡ (ok none, db)
unfolding schedule_init_device_step2
schedule-stops env id i by db h = ground (arith, h)

abbrev Last : ℕ → Result (Option ℕ) × Db → Type 0
Last id r = r.0 ≢ ok (some id)

none_differs : (id : ℕ) (db : Db) → Last id (ok none, db)
none_differs id db k = cc

login-stops :
    (env : InitEnv) (args : Step2Args) (i : ℕ) (host : String) (answer : FactsAnswer) (db : Db)
    → 2 ≤ i
    → (id : ℕ) → (after_login env args i host answer db).0 ≢ ok (some id)
login-stops env args i host failed db h id =
    rw (schedule-stops env.sync args.device_id i args.scheduled_by db h) (λ e. cc)
login-stops env args i host missing db h id = λ e. cc
login-stops env args i host (got facts) db h id =
    if_elim (Last id) (str_eq host facts.hostname) (ok none, make_managed env args host facts db)
      (err init_error, db) (λ e. none_differs id (make_managed env args host facts db)) (λ e k. cc)

step-stops :
    (env : InitEnv) (args : Step2Args) (i : ℕ) (o : Option Device) (db : Db)
    → 2 ≤ i
    → (id : ℕ) → (second_step env args i o db).0 ≢ ok (some id)
step-stops env args i none db h id = λ e. cc
step-stops env args i (some d) db h id =
    if_elim (λ r. r.0 ≢ ok (some id)) (state_eq d.state DeviceState.init)
      (after_login env args i d.hostname (env.get_facts d.hostname) db) (err device_state_error, db)
      (λ e. login-stops env args i d.hostname (env.get_facts d.hostname) db h id) (λ e k. cc)

job-Again :
    (env : Env) (when device_id i : ℕ) (by : Option String) (db : Db)
    → Again step2_path i (some_id (step2_job env when device_id (i + 1) by db))
unfolding add_onetime_job
job-Again env when device_id i by db id h =
    let same : db.next_job_id ≡ id = ground (arith, h) in ground (arith, same, ==_refl id)

schedule-Again :
    (env : Env) (device_id i : ℕ) (by : Option String) (db : Db)
    → Again step2_path i (schedule_init_device_step2 env device_id i by db)
unfolding schedule_init_device_step2
schedule-Again env device_id i by db =
    if_elim (Again step2_path i) (ltb 0 i && ltb i 2)
      (some_id (step2_job env (30 * i) device_id (i + 1) by db)) (ok none, db)
      (λ e. job-Again env (30 * i) device_id i by db) (λ e id k. cc)

login-Again :
    (env : InitEnv) (args : Step2Args) (i : ℕ) (host : String) (answer : FactsAnswer) (db : Db)
    → Again step2_path i (after_login env args i host answer db)
login-Again env args i host failed db =
    schedule-Again env.sync args.device_id i args.scheduled_by db
login-Again env args i host missing db = λ id k. cc
login-Again env args i host (got facts) db =
    if_elim (Again step2_path i) (str_eq host facts.hostname)
      (ok none, make_managed env args host facts db) (err init_error, db) (λ e id k. cc)
      (λ e id k. cc)

step-Again :
    (env : InitEnv) (args : Step2Args) (i : ℕ) (o : Option Device) (db : Db)
    → Again step2_path i (second_step env args i o db)
step-Again env args i none db = λ id k. cc
step-Again env args i (some d) db =
    if_elim (Again step2_path i) (state_eq d.state DeviceState.init)
      (after_login env args i d.hostname (env.get_facts d.hostname) db) (err device_state_error, db)
      (λ e. login-Again env args i d.hostname (env.get_facts d.hostname) db) (λ e id k. cc)

-- The second step of an initialisation, which begins with iteration 1, runs twice at most, whatever
-- the device answers and whatever else writes the database between the attempts: the second attempt is
-- the one that the scheduler was handed, with the iteration of its arguments.
pub init_device_step2-chain :
    (env : InitEnv) (args : Step2Args) (between : ℕ → Db → Db) (db : Db)
    → Ends 2 (chain step2_path (init_device_step2 env args) between 2 (some 1) db)
unfolding init_device_step2
init_device_step2-chain env args between db =
    chain-Ends step2_path (init_device_step2 env args) between 2
      (λ i db'. step-Again env args i (find_id args.device_id db'.devices) db')
      (λ i db' h. step-stops env args i (find_id args.device_id db'.devices) db' h) 1 1 db
      (omega arith)
