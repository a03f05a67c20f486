-- ===== src/App/Cooking.antt =====
-- app/cooking/program.h: a program drives the machine by commands of the client. The telemetry store
-- is the client's; `now` is the clock, `elapsed_ms` the time since the program started.
pub mod TurboPulse
pub mod GuidedRecipe
pub mod TimedModes
pub mod SousVide
pub mod Program
pub mod Controller
use agentic_engineering_trai.Base.{ℕ, ◌*◌, ltb, if◌then◌else◌, u16}

abbrev pub dial_to_rpm : ℕ → ℕ
dial_to_rpm dial = u16 ((if ltb 10 dial then 10 else dial) * 1070)
