-- ===== src/Muse.antt =====
-- The frames, the swap and the segments of the memory server (Memoria/muse.c).
pub mod Model
pub mod Frames
pub mod Clock
pub mod Swap
pub mod Start
pub mod Segments
pub mod Heap
pub mod Alloc
pub mod Free
pub mod Connection
pub mod Tests
