-- ===== src/Lib.antt =====
-- A model of CNaaS-NMS, the network management system of src/cnaas_nms, and what its jobs, locks and
-- searches guarantee.
--
-- The program is a Python service. Its API handlers and its background jobs share a PostgreSQL
-- database and a redis server. A job is added as a row of the job table (db/job.py) by the scheduler
-- (scheduler/scheduler.py), which hands it to a worker; the worker runs the function inside
-- `job_wrapper` (scheduler/wrapper.py), which keeps the row in step. Jobs that push configuration to
-- devices take the lock "devices" of the table joblock (db/joblock.py). The largest of them,
-- `sync_devices` (devicehandler/sync_devices.py), selects devices from the inventory, checks that
-- their configuration is what was last stored, takes the lock, pushes, marks the device rows, keeps
-- the sync history (devicehandler/sync_history.py), and may schedule a job that confirms the commits.
--
-- Which file models what, with the source's paths under src/cnaas_nms:
--   Prelude      shared names: Boolean tests, lists, dicts, and `Exec`, the actions that read and write
--                a state and may raise, with the rules for actions that leave a part of it alone
--   Schema       the rows and enumerations of db/*.py, and `Db`, the state that handlers share
--   Jobs         db/job.py (Job, Wait, History), db/joblock.py (Joblock), scheduler/wrapper.py (Wrapper),
--                scheduler/scheduler.py (Scheduler), api/jobs.py (Abort)
--   Sync         devicehandler/sync_devices.py (Tasks, Locks, Marking, Devices, Confirm, with Env for
--                the answers from outside), changescore.py (Score), sync_history.py (History),
--                nornir_helper.py and nornir_plugins/cnaas_inventory.py (Inventory)
--   Addressing   db/mgmtdomain.py, db/reservedip.py and devicehandler/underlay.py
--   Topology     db/linknet.py, and the methods of db/device.py that read links
--   Links        devicehandler/update.py (Interfaces, Linknets, SetFacts), devicehandler/get.py (Iftype,
--                Uplinks, Interfaces), expand_interface_settings of db/device_vars.py, and the methods of
--                db/device.py that follow links to neighbours and uplinks
--   Init         devicehandler/init_device.py: the checks (Checks, Synced), the jobs that it schedules
--                (Schedule), discovery (Discover), the first step of a fabric device (Fabric) and of an
--                access device (Access up to the push, FirstStep after it), the second step (Second),
--                the writes that they share (Rows), and the states of a device (Lifecycle)
--   Settings     the checks of VLANs (Vlans) and the groups of hosts (Groups) of db/settings.py
--   Firmware     device_upgrade and its task of devicehandler/firmware.py
--   Repos        settings_syncstatus of db/git.py and set_devtype_syncstatus of db/device.py
--   Lookup       find_mgmtdomain of db/helper.py and valid_hostname of db/device.py
--   Rbac         tools/rbac/rbac.py and models/permissions.py
--   MergeDict    tools/mergedict.py
--   Examples     concrete data, tests, and the theorems applied to it
--
-- A function that changes tables is an action on `Db`; a method that changes one row is a function on
-- that row. Each exception is a value of `Error`, without its message. A session that raises rolls the
-- tables back, and redis keeps what was written. Times are seconds, addresses are numbers with a
-- version, and the change scores are exact fractions in place of floats.
--
-- A device is found with DHCP_BOOT, moves to DISCOVERED when a discovery reaches it, to INIT when a
-- first step has pushed its base configuration, and to MANAGED in the second step. The first steps use
-- the linknets and interfaces that Links keeps, the addresses of Addressing, the configuration check
-- of Sync and the scheduler of Jobs, and each session of a step commits where the code commits.
--
-- What the devices, the settings repository, the clock, nornir and the other jobs do comes from
-- outside: it is an argument, for the sync jobs the record `Env`, for the
-- links `LinkEnv` and for the initialisation `InitEnv`, which holds both. Globbing by Python's `fnmatch` is an
-- argument too. The one loop without a structural bound is the polling of `wait_for_job_completion`:
-- its fuel is the timeout and two more looks, since a second passes between two looks. The jobs that
-- schedule themselves again are followed by `chain`, with fuel 3 for a discovery and 2 for a second
-- step, which are the bounds that their iterations keep.
--
-- Not modelled: rendering of templates and the variables given to them, the commands sent to devices
-- (base configuration, certificates, firmware, interface bouncing), of which only the outcome is read;
-- reading and merging of settings files, git; the other API resources (request parsing around the
-- modelled operations), plugin hooks, logging and event streams. What the database itself refuses is
-- modelled where the code relies on it (the unique columns of joblock); the lengths of other text
-- columns and the foreign keys are not.
pub mod Prelude
pub mod Schema
pub mod Jobs
pub mod Sync
pub mod Addressing
pub mod Rbac
pub mod Topology
pub mod Links
pub mod Lookup
pub mod Init
pub mod Settings
pub mod Firmware
pub mod Repos
pub mod MergeDict
pub mod Examples
