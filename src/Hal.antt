-- ===== src/Hal.antt =====
-- hal/: what one run of the firmware sees of the devices behind the interfaces. An interface has
-- no code, so each device is the answers that it gives: lists of them, where successive calls may
-- differ, which the theorems leave arbitrary.
pub mod Uart
