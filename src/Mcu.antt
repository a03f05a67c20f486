-- ===== src/Mcu.antt =====
-- mcu/: the safety MCU.
pub mod Limits
pub mod Interlocks
pub mod MotorController
pub mod HeaterPid
pub mod Device
pub mod CommandHandler
pub mod Telemetry
pub mod SafetyMcu
