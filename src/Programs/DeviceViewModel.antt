-- ===== src/Programs/DeviceViewModel.antt =====
-- apps/ui/device_view_model.cpp: what the user interface shows of the application processor and lets the
-- user do. `dbl` is `double`, `narrow` the conversion to `float`, and `format` Qt's text of a mass
-- with one digit behind the point. The watchdog of this program does nothing. Qt's signals are left out.
pub mod Starts
pub mod Shutdown
use Prim.Native.String.{String}
use agentic_engineering_trai.Base.{
  ℕ, ◌+◌, ◌*◌, ◌/◌, ◌%◌, ◌^◌, List, [], ◌∷◌, ◌++◌, Bool, true, false, not, ◌&&◌, ◌||◌, Option, none,
  some, ℤ, pos, pos_part, bit_and, leb, ltb_ℤ, ◌==◌, if◌then◌else◌, u8, u32,
}
use agentic_engineering_trai.Common.Status.{Status, is_ok}
use agentic_engineering_trai.Common.Floats.{Floats, of_nat, from_celsius}
use agentic_engineering_trai.Common.Text.{codes, equal}
use agentic_engineering_trai.Protocol.Wire.{flag_lid_closed, flag_lid_locked}
use agentic_engineering_trai.App.TelemetryStore.{latest, has_data}
use agentic_engineering_trai.App.McuClient.{McuClient}
use agentic_engineering_trai.App.McuClient
use agentic_engineering_trai.App.Recipe.{Recipe}
use agentic_engineering_trai.App.Recipe.RecipeLibrary.{RecipeLibrary, recipe_at}
use agentic_engineering_trai.App.Cooking.Controller.{
  SessionState, idle, done, CookingController, start_manual, start_recipe, stop_session,
  session_user_next, session_awaiting_user,
}
use agentic_engineering_trai.App.Runtime.{ApplicationRuntime, tick_1ms}

-- `control_out` is what was written to the control socket.
pub record DeviceViewModel (Float : Type 0) : Type 0 where
  pub now_us : ℕ
  pub runtime : ApplicationRuntime Float
  pub recipes : RecipeLibrary
  pub control_connected : Bool
  pub control_out : List ℕ
  pub simulator_status : List ℕ
  pub connected : Bool
  pub shutdown_requested : Bool
  pub ready_to_quit : Bool
  pub timer_active : Bool
  pub shutdown_deadline_ms : ℕ
  pub refresh_divider : ℕ

-- The name of the fault code that was received.
unfoldable pub fault_name : ℕ → String
fault_name fault =
    if fault == 0
    then ""
    else if fault == 1
    then "Over-temperature"
    else if fault == 2
    then "Motor stalled"
    else if fault == 3
    then "Temperature sensor failure"
    else if fault == 4
    then "MCU link lost"
    else "Unknown fault"

abbrev pub is_over : SessionState → Bool
is_over idle = true
is_over done = true
is_over _ = false

module _ {Float : Type 0} where
  abbrev pub vm_client : DeviceViewModel Float → McuClient
  vm_client m = m.runtime.controller.client

  -- `clock_.now_ms()`
  abbrev pub vm_ms : DeviceViewModel Float → ℕ
  vm_ms m = u32 (m.now_us / 1000)

  unfoldable pub lid_state : DeviceViewModel Float → String
  lid_state m =
      let flags = (latest (vm_client m).store).flags in
      if not (bit_and flags flag_lid_locked == 0)
      then "locked"
      else if not (bit_and flags flag_lid_closed == 0)
      then "closed"
      else "open"

  unfoldable pub fault_text : DeviceViewModel Float → String
  unfolding fault_name
  fault_text m = fault_name (vm_client m).last_fault

  unfoldable pub weight : DeviceViewModel Float → ℤ
  weight m = (latest (vm_client m).store).grams

  unfoldable pub shown_speed : DeviceViewModel Float → ℕ
  shown_speed m = (latest (vm_client m).store).rpm

  unfoldable pub has_telemetry : DeviceViewModel Float → Bool
  has_telemetry m = has_data (vm_client m).store

  abbrev pub put_controller :
      DeviceViewModel Float → CookingController Float → DeviceViewModel Float
  put_controller m c = record m { runtime = record m.runtime { controller = c } }

  abbrev pub put_client : DeviceViewModel Float → McuClient → DeviceViewModel Float
  put_client m c = put_controller m (record m.runtime.controller { client = c })

  unfoldable pub vm_tare : DeviceViewModel Float → DeviceViewModel Float × Bool
  vm_tare m =
      let (c, status) = McuClient.tare (vm_client m) (vm_ms m) in
      if m.connected then (put_client m c, is_ok status) else (m, false)

  -- `written` is whether the socket took the whole line.
  unfoldable pub send_simulator :
      DeviceViewModel Float → List ℕ → Bool → DeviceViewModel Float × Bool
  send_simulator m command written =
      if not m.control_connected
      then (record m { simulator_status = codes "Simulator controls disconnected" }, false)
      else if not written
      then (record m { simulator_status = codes "Could not send simulator action" }, false)
      else (
        record m {
          control_out = m.control_out ++ command ++ b'\n' ∷ [];
          simulator_status = codes "Applying action...";
        },
        true,
      )

  unfoldable pub set_lid_open : DeviceViewModel Float → Bool → Bool → DeviceViewModel Float × Bool
  set_lid_open m opens written =
      send_simulator m (if opens then codes "lid open" else codes "lid close") written

  -- The lines that have been received, trimmed.
  unfoldable pub read_responses : DeviceViewModel Float → List (List ℕ) → DeviceViewModel Float
  read_responses m [] = m
  read_responses m (response ∷ more) =
      read_responses
        (record m {
          simulator_status =
              if equal response (codes "ok") then codes "Action applied" else response;
        })
        more

  unfoldable pub finish_ui : DeviceViewModel Float → DeviceViewModel Float
  finish_ui m = record m { ready_to_quit = true; timer_active = false }

  -- `transport` is whether the socket is connected.
  unfoldable pub refresh_ui : DeviceViewModel Float → Bool → DeviceViewModel Float
  refresh_ui m transport = record m { connected = transport }

module _ (fl : Floats) where
  open fl use {Float}

  unfoldable pub next_step : DeviceViewModel Float → DeviceViewModel Float
  next_step m =
      if session_awaiting_user fl m.runtime.controller
      then put_controller m (session_user_next fl m.runtime.controller)
      else m

  unfoldable pub stop_ui : DeviceViewModel Float → DeviceViewModel Float
  stop_ui m = put_controller m (stop_session fl m.runtime.controller)

  abbrev pub after_start :
      DeviceViewModel Float → CookingController Float × Status → DeviceViewModel Float × Bool
  after_start m (c, status) = (put_controller m c, is_ok status)

  abbrev pub start_found : DeviceViewModel Float → Option Recipe → DeviceViewModel Float × Bool
  start_found m none = (m, false)
  start_found m (some recipe) = after_start m (start_recipe fl m.runtime.controller (some recipe))

  unfoldable pub start_recipe_at : DeviceViewModel Float → ℤ → DeviceViewModel Float × Bool
  start_recipe_at m index =
      if not m.connected || ltb_ℤ index (pos 0)
      then (m, false)
      else start_found m (recipe_at m.recipes (pos_part index))

  unfoldable pub request_shutdown : DeviceViewModel Float → DeviceViewModel Float
  request_shutdown m =
      if m.ready_to_quit || m.shutdown_requested
      then m
      else if is_over m.runtime.controller.state
      then finish_ui m
      else record m {
        shutdown_requested = true;
        shutdown_deadline_ms = u32 (vm_ms m + 1000);
        runtime = record m.runtime { controller = stop_session fl m.runtime.controller };
      }

  abbrev pub divide_refresh : DeviceViewModel Float → Bool → DeviceViewModel Float
  divide_refresh m transport =
      if leb 25 (m.refresh_divider + 1)
      then refresh_ui (record m { refresh_divider = 0 }) transport
      else record m { refresh_divider = m.refresh_divider + 1 }

  abbrev pub must_finish : DeviceViewModel Float → Bool
  must_finish m = is_over m.runtime.controller.state || leb m.shutdown_deadline_ms (vm_ms m)

  unfoldable pub check_shutdown : DeviceViewModel Float → DeviceViewModel Float
  check_shutdown m = if m.shutdown_requested && must_finish m then finish_ui m else m

  -- The part of `tick` behind the runtime.
  unfoldable pub after_tick : DeviceViewModel Float → Bool → DeviceViewModel Float
  after_tick m transport = check_shutdown (divide_refresh m transport)

  abbrev pub ticked :
      DeviceViewModel Float
      → Bool
      → Option (ApplicationRuntime Float)
      → Option (DeviceViewModel Float)
  ticked m transport none = none
  ticked m transport (some r) = some (after_tick (record m { runtime = r }) transport)

  -- None means that the runtime did not end its millisecond.
  unfoldable pub tick_ui : DeviceViewModel Float → Bool → Option (DeviceViewModel Float)
  tick_ui m transport =
      let later : DeviceViewModel Float = record m { now_us = (m.now_us + 1000) % 2 ^ 64 } in
      ticked later transport (tick_1ms fl later.runtime (vm_ms later))

  module _ (dbl : Floats) (narrow : dbl.Float → Float) where
    -- A temperature that is neither zero nor one that the heater takes.
    abbrev pub is_off_scale : dbl.Float → Bool
    is_off_scale t =
        not (dbl.le t (of_nat dbl 0) && dbl.le (of_nat dbl 0) t)
        && (dbl.lt t (of_nat dbl 37) || dbl.lt (of_nat dbl 160) t)

    unfoldable pub start_manual_ui :
        DeviceViewModel Float → dbl.Float → ℤ → ℤ → DeviceViewModel Float × Bool
    start_manual_ui m temperature_c speed minutes =
        if ((not m.connected || not (dbl.is_finite temperature_c))
            || (ltb_ℤ speed (pos 0) || ltb_ℤ (pos 10) speed))
          || ((ltb_ℤ minutes (pos 1) || ltb_ℤ (pos 1440) minutes) || is_off_scale temperature_c)
        then (m, false)
        else after_start m (
            start_manual fl m.runtime.controller (from_celsius fl (narrow temperature_c))
              (u8 (pos_part speed)) (u32 (pos_part minutes * 60)))

    abbrev pub is_offered : List ℕ → Bool
    is_offered word =
        (equal word (codes "water") || equal word (codes "oil"))
        || (equal word (codes "flour") || equal word (codes "other"))

    unfoldable pub add_ingredient :
        (dbl.Float → List ℕ)
        → DeviceViewModel Float
        → dbl.Float
        → List ℕ
        → Bool
        → DeviceViewModel Float × Bool
    add_ingredient format m grams ingredient written =
        if (not (dbl.is_finite grams)
            || (dbl.lt grams (dbl.ratio (pos 1) 10) || dbl.lt (of_nat dbl 2200) grams))
          || not (is_offered ingredient)
        then (m, false)
        else send_simulator m (codes "add " ++ format grams ++ b' ' ∷ ingredient) written
