-- ===== src/App/Runtime.antt =====
-- app/application_runtime.cpp: one millisecond of the application processor. The client is the one of
-- the controller, and so is the updater, which `attach_ota` gives to it.
pub mod Alive
use agentic_engineering_trai.Base.{ℕ, ◌+◌, Option, none, some, leb, if◌then◌else◌, u8}
use agentic_engineering_trai.Common.Floats.{Floats}
use agentic_engineering_trai.Hal.Uart.{Uart}
use agentic_engineering_trai.Sim.Watchdog.{Watchdog}
use agentic_engineering_trai.App.OtaUpdater.{new_updater}
use agentic_engineering_trai.App.McuClient.{McuClient, new_client, pump}
use agentic_engineering_trai.App.Cooking.Controller.{CookingController, new_controller, tick_10ms}

pub record ApplicationRuntime (Float : Type 0) : Type 0 where
  pub controller : CookingController Float
  pub app_divider : ℕ

module _ (fl : Floats) where
  open fl use {Float}

  abbrev pub new_runtime : Uart → Watchdog → ApplicationRuntime Float
  new_runtime uart watchdog = record {
    controller = record (new_controller fl (new_client uart) watchdog) { ota = some new_updater };
    app_divider = 0;
  }

  -- With the client that `poll` has left.
  unfoldable pub after_poll : ApplicationRuntime Float → McuClient → ℕ → ApplicationRuntime Float
  after_poll r client now =
      let polled : CookingController Float = record r.controller { client = client } in
      let divider = u8 (r.app_divider + 1) in
      if leb 10 divider
      then record { controller = tick_10ms fl polled now; app_divider = 0 }
      else record { controller = polled; app_divider = divider }

  abbrev pub runtime_with :
      Option McuClient → ApplicationRuntime Float → ℕ → Option (ApplicationRuntime Float)
  runtime_with none r now = none
  runtime_with (some client) r now = some (after_poll r client now)

  -- None means that the fuel of `poll` ran out.
  unfoldable pub tick_1ms : ApplicationRuntime Float → ℕ → Option (ApplicationRuntime Float)
  tick_1ms r now = runtime_with (pump r.controller.client now) r now
