-- ===== src/Examples/Programs.antt =====
-- The programs on concrete inputs.
use agentic_engineering_trai.Base.{
  ℕ, ◌*◌, ◌≡◌, ◌≢◌, ◌⊎◌, refl, arith, List, [], ◌∷◌, true, false, none, some, replicate,
  length-replicate, pos, pos_part,
}
use agentic_engineering_trai.Common.Floats.{tenths, tenths-FloatLaws}
use agentic_engineering_trai.Common.Text.{codes, strtol, Converted}
use agentic_engineering_trai.Hal.Uart.{Uart}
use agentic_engineering_trai.Protocol.Wire.{response}
use agentic_engineering_trai.Protocol.Wire
use agentic_engineering_trai.Protocol.FrameWriter.{frame_bytes}
use agentic_engineering_trai.Sim.Watchdog.{new_watchdog}
use agentic_engineering_trai.App.Recipe.RecipeLibrary.{new_library}
use agentic_engineering_trai.App.Recipe.RecipeLibrary.Stocked.{new_library-IsStocked}
use agentic_engineering_trai.App.Cooking.Controller.{running}
use agentic_engineering_trai.App.Runtime.{new_runtime}
use agentic_engineering_trai.Programs.SafeStop.Order.{InOrder}
use agentic_engineering_trai.Programs.AppMain.{
  AppMain, AppInput, Step, new_app, quiet, typed, quit_app, read_console, run_app,
}
use agentic_engineering_trai.Programs.AppMain.Quits.{run_app-quit_app}
use agentic_engineering_trai.Programs.AppMain.Completed.{heard, run_app-InOrder}
use agentic_engineering_trai.Programs.AppMain.Commands.{Sends, read_console-Sends}
use agentic_engineering_trai.Programs.DeviceViewModel.{DeviceViewModel, request_shutdown}
use agentic_engineering_trai.Programs.DeviceViewModel.Starts.{
  IsPlanned, Narrows, starts_manual, ui_call, ui_call-IsPlanned,
}
use agentic_engineering_trai.Programs.DeviceViewModel.Shutdown.{
  Passing, pass, run_timer, run_timer-request_shutdown, pass-request_shutdown,
}

abbrev silent : Uart
silent = record { rx = []; accepts = []; wire = [] }

abbrev started_app : AppMain
started_app = new_app silent

-- Whole numbers as tenths.
abbrev whole : List ℕ → Converted ℕ
whole s = record {
  value = pos_part (strtol s).value * 10;
  behind = (strtol s).behind;
  errno = false;
}

read_console-Sends_example :
    Sends started_app (read_console tenths whole started_app (typed (some (codes "set-temp 60"))))
read_console-Sends_example =
    read_console-Sends tenths tenths-FloatLaws whole started_app
      (typed (some (codes "set-temp 60")))

abbrev nothing_happens : AppInput
nothing_happens = record { received = []; accepts = []; connected = true; console = quiet }

run_app-quit_app_example :
    (s : Step) × (n : ℕ) × (run_app tenths whole
        (replicate 1000 nothing_happens)
        (quit_app started_app)
      ≡ some s)
    × (s.exit ≡ some n)
run_app-quit_app_example =
    run_app-quit_app tenths whole (replicate 1000 nothing_happens) started_app
      (omega (arith, length-replicate 1000 nothing_happens))
      (omega (arith, length-replicate 1000 nothing_happens))

abbrev view : DeviceViewModel ℕ
view = record {
  now_us = 0;
  runtime = new_runtime tenths silent new_watchdog;
  recipes = new_library;
  control_connected = false;
  control_out = [];
  simulator_status = [];
  connected = true;
  shutdown_requested = false;
  ready_to_quit = false;
  timer_active = true;
  shutdown_deadline_ms = 0;
  refresh_divider = 0;
}

view-IsPlanned : IsPlanned view
view-IsPlanned = record { stocked = new_library-IsStocked; legal = tt }

same-Narrows : Narrows tenths tenths (λ x. x)
same-Narrows = record { within = λ a b x h k low high. (low, high) }

ui_call-IsPlanned_example : IsPlanned (
    ui_call tenths tenths-FloatLaws tenths tenths-FloatLaws
      (λ x. x)
      same-Narrows
      view
      (starts_manual 600 (pos 3) (pos 5)))
ui_call-IsPlanned_example =
    ui_call-IsPlanned tenths tenths-FloatLaws tenths tenths-FloatLaws (λ x. x) same-Narrows view
      (starts_manual 600 (pos 3) (pos 5)) view-IsPlanned

abbrev busy_view : DeviceViewModel ℕ
busy_view = record view {
  runtime = record view.runtime { controller = record view.runtime.controller { state = running } };
}

abbrev passing : Passing
passing = record { change = λ u. u; transport = true }

run_timer-request_shutdown_example :
    (m : DeviceViewModel ℕ) × (run_timer tenths
        (replicate 1000 passing)
        (request_shutdown tenths busy_view)
      ≡ some m)
    × (m.ready_to_quit ≡ true)
    × (m.timer_active ≡ false)
run_timer-request_shutdown_example =
    run_timer-request_shutdown tenths (replicate 1000 passing) busy_view refl refl refl
      (omega (arith, length-replicate 1000 passing)) (omega (arith, length-replicate 1000 passing))

pass-request_shutdown_example :
    (m : DeviceViewModel ℕ) × (pass tenths
        (request_shutdown tenths (record busy_view { now_us = 4294966500000 }))
        passing
      ≡ some m)
    × (m.ready_to_quit ≡ true)
pass-request_shutdown_example =
    pass-request_shutdown tenths (record busy_view { now_us = 4294966500000 }) passing refl refl
      refl (omega arith) (omega arith)

-- The end of the console, and the safety MCU's responses to the two requests.
abbrev input : List ℕ → AppInput
input bytes = record { received = bytes; accepts = 10 ∷ []; connected = true; console = quiet }

abbrev goodbye : List AppInput
goodbye =
    record (input []) { console = typed none }
    ∷ input []
    ∷ input (frame_bytes response 0 Wire.heater_off [] 0)
    ∷ input (frame_bytes response 1 Wire.motor_stop [] 0)
    ∷ []

run_app-InOrder_example :
    (s : Step) × (run_app tenths whole goodbye started_app ≡ some s)
    × ((s.exit ≢ some 0)
        ⊎ InOrder Wire.heater_off Wire.motor_stop (heard tenths whole goodbye started_app))
run_app-InOrder_example = run_app-InOrder tenths whole goodbye started_app refl
