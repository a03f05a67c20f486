-- ===== src/Mcu/Limits.antt =====
-- mcu/safety_limits.h.
use agentic_engineering_trai.Base.{ℕ, ℤ, pos}

abbrev pub max_rpm : ℕ
max_rpm = 10700

abbrev pub lid_open_max_rpm : ℕ
lid_open_max_rpm = 500

abbrev pub unlocked_max_rpm : ℕ
unlocked_max_rpm = 6400

abbrev pub unlock_max_rpm : ℕ
unlock_max_rpm = 100

abbrev pub spill_guard_temp_c : ℕ
spill_guard_temp_c = 60

abbrev pub spill_guard_max_rpm : ℕ
spill_guard_max_rpm = 6400

abbrev pub tare_max_rpm : ℕ
tare_max_rpm = 50

abbrev pub overtemp_cutoff_c : ℕ
overtemp_cutoff_c = 165

abbrev pub heater_min_target_deci : ℤ
heater_min_target_deci = pos 370

abbrev pub heater_max_target_deci : ℤ
heater_max_target_deci = pos 1600

abbrev pub link_timeout_ms : ℕ
link_timeout_ms = 5000
