-- ===== src/Sync.antt =====
-- Synchronising devices: devicehandler/sync_devices.py with the change score of
-- devicehandler/changescore.py, the inventory selection of devicehandler/nornir_helper.py and the
-- history of devicehandler/sync_history.py.
pub mod Score
pub mod Inventory
pub mod History
pub mod Env
pub mod Tasks
pub mod Locks
pub mod Marking
pub mod Devices
pub mod Confirm
