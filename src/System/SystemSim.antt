-- ===== src/System/SystemSim.antt =====
-- system/system_sim.cpp: the simulated machine, the safety MCU and the application processor in lockstep.
-- What the two processors share with the machine, the source reaches through pointers; here it is
-- copied in front of a tick and back behind it. What the line gives to each end in a millisecond,
-- and the noise of the sensors, is an argument: sim/in_memory_transport.h has its own module.
pub mod Guarded
use agentic_engineering_trai.Base.{List, Bool, Option, none, some, if◌then◌else◌}
use mathlib.Core.List.{map}
use agentic_engineering_trai.Common.Status.{ok}
use agentic_engineering_trai.Common.Floats.{Floats, of_nat}
use agentic_engineering_trai.Hal.Uart.{Uart}
use agentic_engineering_trai.Sim.Lid.{LidModel}
use agentic_engineering_trai.Sim.Plant.{shown_rpm, read_raw_counts}
use agentic_engineering_trai.Sim.Board.{
  SimBoard, new_board, now_ms, step_board, set_power_w, command_duty, read_deci_celsius,
}
use agentic_engineering_trai.App.McuClient.{McuClient}
use agentic_engineering_trai.App.Runtime.{ApplicationRuntime, new_runtime}
use agentic_engineering_trai.App.Runtime
use agentic_engineering_trai.Mcu.Device.{Hardware, Mcu}
use agentic_engineering_trai.Mcu.SafetyMcu.{new_mcu}
use agentic_engineering_trai.Mcu.SafetyMcu

pub record SystemSim (Float : Type 0) : Type 0 where
  pub board : SimBoard Float
  pub mcu : Mcu Float
  pub app : ApplicationRuntime Float

-- One millisecond: the noise of the temperature and of the scale's readings, what the line does to the
-- UARTs of the two processors, and whether a duty of zero was set in front of the last duty of the tick,
-- which is the one that the state of the MCU keeps.
pub record Millisecond (Float : Type 0) : Type 0 where
  pub noise : Float
  pub shakes : List (Float × Float)
  pub halted : Bool
  pub mcu_line : Uart → Uart
  pub app_line : Uart → Uart

module _ (fl : Floats) where
  open fl use {Float}

  -- `hardware()`: what the MCU sees of the machine.
  abbrev pub hardware : SimBoard Float → Millisecond Float → Uart → Hardware Float
  hardware b i uart = record {
    now_ms = now_ms fl b;
    temperature = read_deci_celsius fl b i.noise;
    rpm = shown_rpm fl b.motor;
    stalled = b.motor.stalled;
    scale =
        map
          (λ (s : Float × Float). record {
            status = ok;
            value = read_raw_counts fl b.scale s.0 s.1;
          })
          i.shakes;
    lid = b.lid;
    uart = uart;
    power_w = b.heater_w;
  }

  -- The machine behind the MCU's tick: its lid, its heater and its motor.
  unfoldable pub drive_board : SimBoard Float → Bool → Mcu Float → SimBoard Float
  drive_board b halted m =
      let heated = set_power_w fl (record b { lid = m.hw.lid }) m.hw.power_w in
      command_duty fl (if halted then command_duty fl heated (of_nat fl 0) else heated) m.motor.duty

  abbrev pub lend_app :
      ApplicationRuntime Float → SimBoard Float → (Uart → Uart) → ApplicationRuntime Float
  lend_app r b line =
      let client : McuClient = record r.controller.client {
        uart = line r.controller.client.uart;
      } in
      record r { controller = record r.controller { watchdog = b.watchdog; client = client } }

  abbrev pub with_app :
      SimBoard Float → Mcu Float → Option (ApplicationRuntime Float) → Option (SystemSim Float)
  with_app b m none = none
  with_app b m (some r) =
      some (record { board = record b { watchdog = r.controller.watchdog }; mcu = m; app = r })

  abbrev pub with_mcu :
      SystemSim Float
      → SimBoard Float
      → Millisecond Float
      → Option (Mcu Float)
      → Option (SystemSim Float)
  with_mcu s b i none = none
  with_mcu s b i (some m) =
      with_app (drive_board b i.halted m) m
        (Runtime.tick_1ms fl (lend_app s.app b i.app_line) (now_ms fl b))

  -- One round of `step_ms`; none means that a receive loop did not end.
  unfoldable pub step_system : SystemSim Float → Millisecond Float → Option (SystemSim Float)
  step_system s i =
      let b = step_board fl s.board in
      with_mcu s b i
        (SafetyMcu.tick_1ms fl (record s.mcu { hw = hardware b i (i.mcu_line s.mcu.hw.uart) }))

  abbrev pub new_system : LidModel → Uart → Uart → Millisecond Float → SystemSim Float
  new_system lid mcu_uart app_uart i =
      let b = new_board fl lid in
      record {
        board = b;
        mcu = new_mcu fl (hardware b i mcu_uart);
        app = new_runtime fl app_uart b.watchdog;
      }
