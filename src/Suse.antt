-- ===== src/Suse.antt =====
-- SUSE, the thread scheduler (Planificador/SUSE/SUSE.c).
pub mod Model
pub mod Ready
pub mod Schedule
pub mod Semaphore
pub mod Thread
pub mod Metrics
pub mod Program
pub mod Invariant
pub mod Count
pub mod Steps
pub mod Runs
pub mod Requests
pub mod Decoding
pub mod Tests
