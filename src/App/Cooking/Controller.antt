-- ===== src/App/Cooking/Controller.antt =====
-- app/cooking/cooking_controller.cpp: the cooking session. The client, the attached updater and the
-- watchdog, which the source reaches by pointers, are part of the state; `now` is the clock.
pub mod Invariant
pub mod Tick
pub mod Safety
pub mod Start
use agentic_engineering_trai.Base.{
  ℕ, Bool, true, false, not, ◌&&◌, ◌||◌, Option, none, some, ℤ, ◌==◌, if◌then◌else◌, sub_u32,
}
use agentic_engineering_trai.Common.Status.{Status, ok, invalid_argument, not_ready, is_ok}
use agentic_engineering_trai.Common.Floats.{Floats, of_nat}
use agentic_engineering_trai.Sim.Watchdog.{Watchdog, feed_watchdog}
use agentic_engineering_trai.Protocol.Wire.{Frame, FrameType, response}
use agentic_engineering_trai.Protocol.Wire
use agentic_engineering_trai.App.OtaUpdater.{OtaUpdater, is_verifying, step}
use agentic_engineering_trai.App.TelemetryStore.{average_temp_c, max_temp_c}
use agentic_engineering_trai.App.McuClient
use agentic_engineering_trai.App.McuClient.{McuClient, take_response}
use agentic_engineering_trai.App.Cooking.TimedModes.{new_manual}
use agentic_engineering_trai.App.Recipe.{Recipe}
use agentic_engineering_trai.App.Cooking.GuidedRecipe.{new_guided}
use agentic_engineering_trai.App.Cooking.Program.{
  Program, manual, guided, program_on_tick, program_finished, program_user_next,
  program_awaiting_user,
}

pub data SessionState : Type 0 where
  idle running stopping done faulted : SessionState

abbrev pub is_running : SessionState → Bool
is_running running = true
is_running _ = false

abbrev pub is_stopping : SessionState → Bool
is_stopping stopping = true
is_stopping _ = false

abbrev pub is_faulted : SessionState → Bool
is_faulted faulted = true
is_faulted _ = false

abbrev pub is_response : FrameType → Bool
is_response response = true
is_response _ = false

pub record CookingController (Float : Type 0) : Type 0 where
  pub client : McuClient
  pub ota : Option OtaUpdater
  pub watchdog : Watchdog
  pub state : SessionState
  pub program : Option Program
  pub started_ms : ℕ
  pub display_avg_temp_c : Float
  pub hot_bowl : Bool
  pub shutdown_heater_sent : Bool
  pub shutdown_heater_done : Bool
  pub shutdown_motor_sent : Bool
  pub shutdown_motor_done : Bool
  pub fault_shutdown : Bool
  pub start_after_shutdown : Bool
  pub pending_program : Option Program

abbrev pub is_some {ℓ} : {A : Type ℓ} → Option A → Bool
is_some none = false
is_some (some a) = true

abbrev pub clear_command_status : McuClient → McuClient
clear_command_status c = record c { last_command_status = ok }

abbrev pub clear_fault : McuClient → McuClient
clear_fault c = record c { last_fault = 0 }

module _ (fl : Floats) where
  open fl use {Float, lt}

  abbrev pub new_controller : McuClient → Watchdog → CookingController Float
  new_controller client watchdog = record {
    client = client;
    ota = none;
    watchdog = watchdog;
    state = idle;
    program = none;
    started_ms = 0;
    display_avg_temp_c = of_nat fl 0;
    hot_bowl = false;
    shutdown_heater_sent = false;
    shutdown_heater_done = false;
    shutdown_motor_sent = false;
    shutdown_motor_done = false;
    fault_shutdown = false;
    start_after_shutdown = false;
    pending_program = none;
  }

  unfoldable pub begin_program : CookingController Float → Program → ℕ → CookingController Float
  begin_program c program now = record c {
    program = some program;
    started_ms = now;
    shutdown_heater_sent = false;
    shutdown_heater_done = false;
    shutdown_motor_sent = false;
    shutdown_motor_done = false;
    fault_shutdown = false;
    start_after_shutdown = false;
    pending_program = none;
    client = clear_command_status (clear_fault c.client);
    state = running;
  }

  unfoldable pub begin_shutdown : CookingController Float → Bool → CookingController Float
  begin_shutdown c fault = record c {
    shutdown_heater_sent = false;
    shutdown_heater_done = false;
    shutdown_motor_sent = false;
    shutdown_motor_done = false;
    fault_shutdown = fault;
    start_after_shutdown = false;
    pending_program = none;
    client = clear_command_status c.client;
    state = if fault then faulted else stopping;
  }

  -- `program` is none for a null pointer.
  unfoldable pub start_program :
      CookingController Float → Option Program → CookingController Float × Status
  start_program c none = (c, invalid_argument)
  start_program c (some program) =
      if (is_running c.state || is_stopping c.state)
        || (is_faulted c.state && not c.shutdown_motor_done)
      then (c, not_ready)
      else (
        record (begin_shutdown c false) {
          pending_program = some program;
          start_after_shutdown = true;
        },
        ok,
      )

  unfoldable pub start_manual :
      CookingController Float → ℤ → ℕ → ℕ → CookingController Float × Status
  start_manual c temp dial duration_s =
      start_program c (some (manual (new_manual temp dial duration_s)))

  unfoldable pub start_recipe :
      CookingController Float → Option Recipe → CookingController Float × Status
  start_recipe c none = (c, invalid_argument)
  start_recipe c (some recipe) =
      if recipe.step_count == 0
      then (c, invalid_argument)
      else start_program c (some (guided (new_guided recipe)))

  unfoldable pub stop_session : CookingController Float → CookingController Float
  stop_session c =
      if is_stopping c.state && c.start_after_shutdown
      then record c { start_after_shutdown = false; pending_program = none }
      else if not (is_stopping c.state) && not (is_faulted c.state)
      then begin_shutdown c false
      else c

  unfoldable pub session_user_next : CookingController Float → CookingController Float
  session_user_next c = record c {
    program = elim c.program [ none ↦ none | some p ↦ some (program_user_next p) ];
  }

  unfoldable pub session_awaiting_user : CookingController Float → Bool
  session_awaiting_user c = elim c.program [ none ↦ false | some p ↦ program_awaiting_user p ]

  -- The first part of `run_stopping_sequence`: the acknowledgement in a response.
  unfoldable pub acknowledge : CookingController Float → Option Frame → CookingController Float
  acknowledge c none = c
  acknowledge c (some r) =
      if not (is_response r.type)
      then c
      else if (c.shutdown_heater_sent && not c.shutdown_heater_done) && r.msg_id == Wire.heater_off
      then record c { shutdown_heater_done = true }
      else if (c.shutdown_motor_sent && not c.shutdown_motor_done) && r.msg_id == Wire.motor_stop
      then record c { shutdown_motor_done = true }
      else c

  -- The second part: a command that failed is to be sent again.
  unfoldable pub resend : CookingController Float → CookingController Float
  resend c =
      if is_ok c.client.last_command_status
      then c
      else (let c' : CookingController Float = record c {
        client = clear_command_status c.client;
      } in
          if not c.shutdown_heater_done
          then record c' { shutdown_heater_sent = false }
          else if not c.shutdown_motor_done
          then record c' { shutdown_motor_sent = false }
          else c')

  -- Behind the shutdown, by the program that waits.
  unfoldable pub finish_shutdown :
      Option Program → CookingController Float → ℕ → CookingController Float
  finish_shutdown none c now = record c { state = if c.fault_shutdown then faulted else done }
  finish_shutdown (some p) c now =
      if c.start_after_shutdown && not c.fault_shutdown
      then begin_program (record c { pending_program = none }) p now
      else record c { state = if c.fault_shutdown then faulted else done }

  -- The third part: the next command, or the end of the shutdown.
  unfoldable pub proceed : CookingController Float → ℕ → CookingController Float
  proceed c now =
      let (cooling, cooled) = McuClient.heater_off c.client now in
      let (halting, halted) = McuClient.motor_stop c.client now in
      if not c.shutdown_heater_done
      then (if not c.shutdown_heater_sent && not c.client.waiting
          then record c { client = cooling; shutdown_heater_sent = is_ok cooled }
          else c)
      else if not c.shutdown_motor_done
      then (if not c.shutdown_motor_sent && not c.client.waiting
          then record c { client = halting; shutdown_motor_sent = is_ok halted }
          else c)
      else finish_shutdown c.pending_program c now

  unfoldable pub run_stopping_sequence :
      CookingController Float → Option Frame → ℕ → CookingController Float
  run_stopping_sequence c r now = proceed (resend (acknowledge c r)) now

  -- What `tick_10ms` does in front of the session: the watchdog, the response, the display.
  unfoldable pub refresh : CookingController Float → ℕ → CookingController Float × Option Frame
  refresh c now =
      let (client, r) = take_response c.client true in
      (
        record c {
          watchdog = feed_watchdog c.watchdog now;
          client = client;
          display_avg_temp_c = average_temp_c fl client.store 2000;
          hot_bowl = lt (of_nat fl 60) (max_temp_c fl client.store 2000);
        },
        r,
      )

  -- A fault of the machine or a failed command ends the session.
  unfoldable pub check_failure : CookingController Float → CookingController Float
  check_failure c =
      if not (is_faulted c.state)
        && (not (c.client.last_fault == 0) || not (is_ok c.client.last_command_status))
      then begin_shutdown c true
      else c

  abbrev pub step_busy : Option OtaUpdater → Option OtaUpdater
  step_busy none = none
  step_busy (some u) = some (if is_verifying u.state then step u else u)

  unfoldable pub run_program : CookingController Float → Program → ℕ → CookingController Float
  run_program c program now =
      let elapsed_ms = sub_u32 now c.started_ms in
      let (p, client) = program_on_tick fl program c.client now elapsed_ms in
      let c' : CookingController Float = record c { program = some p; client = client } in
      if program_finished p elapsed_ms then begin_shutdown c' false else c'

  -- The session part of `tick_10ms`, by the program that is set.
  unfoldable pub advance_with :
      Option Program → CookingController Float → Option Frame → ℕ → CookingController Float
  advance_with none c r now =
      if is_stopping c.state || is_faulted c.state then run_stopping_sequence c r now else c
  advance_with (some p) c r now =
      if is_running c.state
      then run_program c p now
      else if is_stopping c.state || is_faulted c.state
      then run_stopping_sequence c r now
      else c

  unfoldable pub advance_session :
      CookingController Float → Option Frame → ℕ → CookingController Float
  advance_session c r now = advance_with c.program c r now

  unfoldable pub tick_10ms : CookingController Float → ℕ → CookingController Float
  tick_10ms c now =
      let (c₁, r) = refresh c now in
      let c₂ = check_failure c₁ in advance_session (record c₂ { ota = step_busy c₂.ota }) r now
