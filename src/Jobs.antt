-- ===== src/Jobs.antt =====
-- The job tracker: db/job.py, db/joblock.py, scheduler/wrapper.py, scheduler/scheduler.py and the
-- abort call of api/jobs.py.
pub mod Job
pub mod Joblock
pub mod Wrapper
pub mod Scheduler
pub mod Wait
pub mod History
pub mod Abort
