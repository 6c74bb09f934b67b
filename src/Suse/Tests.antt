-- ===== src/Suse/Tests.antt =====
-- Concrete data on which the server of SUSE.c runs: estimates that are numbers, a sort by insertion in
-- the place of `list_sort`, and states reached by a few requests.
pub mod Sort
pub mod Runs
mod Semaphores
