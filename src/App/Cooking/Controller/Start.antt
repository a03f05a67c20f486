-- ===== src/App/Cooking/Controller/Start.antt =====
-- A program starts from outputs that are known to be off.
use agentic_engineering_trai.Base.{◌≡◌, true, Option}
use agentic_engineering_trai.Common.Floats.{Floats}
use agentic_engineering_trai.App.OtaUpdater.{OtaUpdater}
use agentic_engineering_trai.App.Cooking.Program.{Program}
use agentic_engineering_trai.App.Cooking.Controller.{CookingController, step_busy}

module _ (fl : Floats) where
  open fl use {Float}

  -- Both outputs are acknowledged as off, and the program that waited is the one that runs.
  pub record StartsSafely (acked : CookingController Float) (waiting running : Option Program)
      : Type 0 where
    pub heater_off : acked.shutdown_heater_done ≡ true
    pub motor_off : acked.shutdown_motor_done ≡ true
    pub same_program : running ≡ waiting

  -- A session as `tick_10ms` leaves it to its session part.
  abbrev stepped : CookingController Float → CookingController Float
  stepped c = record c { ota = step_busy fl c.ota }
