-- ===== src/Programs.antt =====
-- apps/: the programs that run the parts.
pub mod SafeStop
pub mod AppMain
pub mod DeviceViewModel
