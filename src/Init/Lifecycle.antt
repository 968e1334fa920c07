-- ===== src/Init/Lifecycle.antt =====
-- The life of a device, seen from outside, and the jobs that drive it.
pub mod States
pub mod Kept
pub mod Phases
pub mod Moved
pub mod Prepared
pub mod FirstMoved
pub mod Refinement
use cnaas_nms.Prelude.{ℕ, String, Option, none, some, List, [], ◌∷◌}
use cnaas_nms.Prelude.Exec.{Exec, Result, ok, err}
use cnaas_nms.Schema.{Db, Device, DeviceState}
use cnaas_nms.Links.{find_id}
use cnaas_nms.Init.{InitEnv}
use cnaas_nms.Init.Discover.{DiscoverArgs, discover_device}
use cnaas_nms.Init.Second.{Step2Args, init_device_step2}
use cnaas_nms.Init.Fabric.{FabricArgs, init_fabric_device_step1}
use cnaas_nms.Init.Access.{AccessArgs}
use cnaas_nms.Init.FirstStep.{init_access_device_step1}

-- What an initialisation may do to the state of a device.
pub data Transition : DeviceState → DeviceState → Type 0 where
  discover : Transition DeviceState.dhcp_boot DeviceState.discovered
  begin : Transition DeviceState.discovered DeviceState.init
  finish : Transition DeviceState.init DeviceState.managed

-- One job: the state of a device stays, or makes one transition.
pub data Move : Option DeviceState → Option DeviceState → Type 0 where
  stay : {s : Option DeviceState} → Move s s
  go : {s t : DeviceState} → Transition s t → Move (some s) (some t)

-- Any number of jobs.
pub data Course (s : Option DeviceState) : Option DeviceState → Type 0 where
  here : Course s s
  next : {t u : Option DeviceState} → Course s t → Move t u → Course s u

abbrev pub state_of : Option Device → Option DeviceState
state_of none = none
state_of (some d) = some d.state

-- The state of the device with that id; none, where there is none.
abbrev pub state_at : ℕ → Db → Option DeviceState
state_at id db = state_of (find_id id db.devices)

-- The jobs of an initialisation.
pub data InitJob : Type 0 where
  discovery : DiscoverArgs → ℕ → InitJob
  access_step1 : AccessArgs → InitJob
  fabric_step1 : FabricArgs → InitJob
  step2 : Step2Args → ℕ → InitJob

-- What a job leaves in the database, whether it returns or raises.
unfoldable pub run_job : InitEnv → InitJob → Db → Db
run_job env (discovery args i) db = (discover_device env args i db).1
run_job env (access_step1 args) db = (init_access_device_step1 env args db).1
run_job env (fabric_step1 args) db = (init_fabric_device_step1 env args db).1
run_job env (step2 args i) db = (init_device_step2 env args i db).1

-- A sequence of jobs, each with its own answers of the devices.
unfoldable pub run_jobs : List (InitEnv × InitJob) → Db → Db
unfolding run_job
run_jobs [] db = db
run_jobs ((env, job) ∷ jobs) db = run_jobs jobs (run_job env job db)
