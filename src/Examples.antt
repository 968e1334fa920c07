-- ===== src/Examples.antt =====
-- Concrete data, tests of the definitions on it, and the properties applied to it.
mod Data
mod Locks
mod Jobs
mod Sync
mod Phases
mod Confirm
mod Network
mod Lookup
mod Merge
mod Mlag
mod Links
mod Settings
mod Init
