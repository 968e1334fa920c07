-- ===== src/Init/Lifecycle/Refinement.antt =====
-- Sequences of jobs, against the life of a device.
use cnaas_nms.Prelude.{
  ℕ, ◌≡◌, ◌⊎◌, inl, inr, refl, sym, ap, ◌∙◌, Option, some, List, [], ◌∷◌, ◌≤◌, suc, arith,
}
use cnaas_nms.Schema.{Db, DeviceState, device_state_value}
use cnaas_nms.Init.{InitEnv}
use cnaas_nms.Init.Lifecycle.{
  discover, begin, finish, Move, stay, go, Course, here, next, state_at, InitJob, discovery,
  access_step1, fabric_step1, step2, run_job, run_jobs,
}
use cnaas_nms.Init.Lifecycle.Moved.{discover_device-Move, init_device_step2-Move}
use cnaas_nms.Init.Lifecycle.FirstMoved.{
  init_access_device_step1-Move, init_fabric_device_step1-Move,
}

run_job-Move :
    (j : ℕ) (env : InitEnv) (job : InitJob) (db : Db)
    → Move (state_at j db) (state_at j (run_job env job db))
unfolding run_job
run_job-Move j env (discovery args i) db = discover_device-Move j env args i db
run_job-Move j env (access_step1 args) db = init_access_device_step1-Move j env args db
run_job-Move j env (fabric_step1 args) db = init_fabric_device_step1-Move j env args db
run_job-Move j env (step2 args i) db = init_device_step2-Move j env args i db

Course-first : {s t u : Option DeviceState} → Move s t → Course t u → Course s u
Course-first m here = next here m
Course-first m (next p n) = next (Course-first m p) n

-- Any sequence of the jobs of an initialisation, in any order, with any answers of the devices, and
-- whether they return or raise, takes each device along the transitions from DHCP_BOOT to DISCOVERED,
-- from there to INIT and from there to MANAGED, and along no other.
pub run_jobs-Course :
    (j : ℕ) (jobs : List (InitEnv × InitJob)) (db : Db)
    → Course (state_at j db) (state_at j (run_jobs jobs db))
unfolding run_jobs
run_jobs-Course j [] db = here
run_jobs-Course j ((env, job) ∷ jobs) db =
    Course-first (run_job-Move j env job db) (run_jobs-Course j jobs (run_job env job db))

-- What a state can become, by its place in the life of a device.
abbrev pub Onward : Option DeviceState → Option DeviceState → Type 0
Onward s t =
    (s ≡ t)
    ⊎ ((u : DeviceState) × (v : DeviceState) × (s ≡ some u)
        × (t ≡ some v)
        × (2 ≤ device_state_value u)
        × (suc (device_state_value u) ≤ device_state_value v)
        × (device_state_value v ≤ 5))

Move-Onward : (s t : Option DeviceState) → Move s t → Onward s t
Move-Onward s t stay = inl refl
Move-Onward s t (go discover) = inr (
  DeviceState.dhcp_boot,
  DeviceState.discovered,
  refl,
  refl,
  omega arith,
  omega arith,
  omega arith,
)
Move-Onward s t (go begin) =
    inr
      (DeviceState.discovered, DeviceState.init, refl, refl, omega arith, omega arith, omega arith)
Move-Onward s t (go finish) =
    inr (DeviceState.init, DeviceState.managed, refl, refl, omega arith, omega arith, omega arith)

some_inj : {a b : DeviceState} → some a ≡ some b → a ≡ b
some_inj h = cc

same_value : (a b : DeviceState) → a ≡ b → device_state_value a ≡ device_state_value b
same_value a b h = ap device_state_value h

Onward-trans : (s t u : Option DeviceState) → Onward s t → Onward t u → Onward s u
Onward-trans s t u (inl e) q = rw e q
Onward-trans s t u (inr p) (inl e) = rw⁻¹ e (inr p)
Onward-trans s t u (inr (a, b, ha, hb, l, m, n)) (inr (c, d, hc, hd, l', m', n')) =
    inr (a, d, ha, hd, l, omega (arith, m, m', same_value b c (some_inj (sym hb ∙ hc))), n')

Course-Onward : (s t : Option DeviceState) → Course s t → Onward s t
Course-Onward s t here = inl refl
Course-Onward s t (next {t = m} p q) = Onward-trans s m t (Course-Onward s m p) (Move-Onward m t q)

-- After any sequence of the jobs of an initialisation a device has the state that it had, or one that
-- comes later, up to MANAGED; and it had one between DHCP_BOOT and INIT. So the jobs leave devices in
-- all other states, managed ones too, where they are.
pub run_jobs-Onward :
    (j : ℕ) (jobs : List (InitEnv × InitJob)) (db : Db)
    → Onward (state_at j db) (state_at j (run_jobs jobs db))
run_jobs-Onward j jobs db = Course-Onward _ _ (run_jobs-Course j jobs db)
