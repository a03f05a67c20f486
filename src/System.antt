-- ===== src/System.antt =====
-- system/: the whole device in one process.
pub mod SystemSim
