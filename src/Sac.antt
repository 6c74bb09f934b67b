-- ===== src/Sac.antt =====
-- The blocks of the file server (Sac-Server/estructuras.c).
pub mod Model
pub mod Blocks
pub mod Paths
pub mod Nodes
pub mod Freeing
pub mod Growing
pub mod Directories
pub mod Connection
pub mod Attributes
pub mod Tests
