-- ===== src/Scheduler.antt =====
-- scheduler/: the pieces of the executor that are modelled.
pub mod Cache
