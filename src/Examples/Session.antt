-- ===== src/Examples/Session.antt =====
-- The cooking session and the runtime on concrete data.
use agentic_engineering_trai.Base.{ℕ, ◌+◌, ◌≡◌, refl, arith, [], ◌∷◌, u32, false, true, some}
use agentic_engineering_trai.Common.Floats.{tenths}
use agentic_engineering_trai.Hal.Uart.{Uart}
use agentic_engineering_trai.Sim.Watchdog.{new_watchdog}
use agentic_engineering_trai.App.McuClient.{new_client}
use agentic_engineering_trai.App.Cooking.TimedModes.{new_dough}
use agentic_engineering_trai.App.Cooking.Program.{Program, dough}
use agentic_engineering_trai.App.Cooking.Controller.{
  CookingController, new_controller, stopping, start_program, tick_10ms,
}
use agentic_engineering_trai.App.Cooking.Controller.Invariant.{
  IsValid, new_controller-IsValid, start_program-IsValid,
}
use agentic_engineering_trai.App.Cooking.Controller.Safety.{
  IsDown, tick_10ms-IsDown, tick_10ms-start_program,
}
use agentic_engineering_trai.App.Runtime.{ApplicationRuntime, new_runtime}
use agentic_engineering_trai.App.Runtime.Alive.{IsFresh, run_for, run_for-IsFresh}

abbrev quiet : Uart
quiet = record { rx = []; accepts = []; wire = [] }

abbrev kneading : Program
kneading = dough (new_dough 60)

abbrev resting : CookingController ℕ
resting = new_controller tenths (new_client quiet) new_watchdog

-- A program was started, and waits for the shutdown.
abbrev waiting : CookingController ℕ
waiting = (start_program tenths resting (some kneading)).0

waiting-IsValid : IsValid waiting
waiting-IsValid =
    start_program-IsValid tenths resting (some kneading)
      (new_controller-IsValid tenths (new_client quiet) new_watchdog)

-- The machine has reported a fault.
abbrev failing : CookingController ℕ
failing = record resting { client = record (new_client quiet) { last_fault = 2 } }

failing-IsValid : IsValid failing
failing-IsValid =
    new_controller-IsValid tenths (record (new_client quiet) { last_fault = 2 }) new_watchdog

tick_10ms-IsDown_example : IsDown (tick_10ms tenths failing 10)
tick_10ms-IsDown_example = tick_10ms-IsDown tenths failing 10 failing-IsValid refl

tick_10ms-start_program_example :
    IsDown (tick_10ms tenths (start_program tenths failing (some kneading)).0 10)
tick_10ms-start_program_example =
    tick_10ms-start_program tenths failing (some kneading) 10 failing-IsValid refl

-- Both outputs have been acknowledged as off.
abbrev shut : CookingController ℕ
shut = record resting {
  state = stopping;
  shutdown_heater_sent = true;
  shutdown_heater_done = true;
  shutdown_motor_sent = true;
  shutdown_motor_done = true;
  start_after_shutdown = true;
  pending_program = some kneading;
}

-- The watchdog was fed five milliseconds ago.
abbrev runtime : ApplicationRuntime ℕ
runtime =
    record (new_runtime tenths quiet
      (record { last_feed_ms = 4294967290; armed = true; tripped = false })) { app_divider = 5 }

-- The millisecond counter wraps in between.
run_for-IsFresh_example :
    (r' : ApplicationRuntime ℕ) × (run_for tenths
        ((λ u. u) ∷ (λ u. record u { rx = 1 ∷ [] }) ∷ [])
        runtime
        4294967295
      ≡ some r')
    × IsFresh r'.app_divider r'.controller.watchdog (u32 (4294967295 + 2))
run_for-IsFresh_example =
    run_for-IsFresh tenths ((λ u. u) ∷ (λ u. record u { rx = 1 ∷ [] }) ∷ []) runtime 4294967295
      (omega arith)
      record {
        bounded = omega arith;
        fed = omega arith;
        recent = λ a. omega arith;
        untripped = refl;
      }
