-- ===== src/Hilolay/Tests.antt =====
-- The library of Planificador/Hilolay on concrete calls.
pub mod Socket
pub mod Calls
