-- ===== src/App.antt =====
-- app/: the application processor.
pub mod OtaUpdater
pub mod TelemetryStore
pub mod McuClient
pub mod Recipe
pub mod Cooking
pub mod Runtime
