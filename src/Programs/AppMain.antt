-- ===== src/Programs/AppMain.antt =====
-- apps/culina_app_main.cpp: the application processor as a program of its own. One round of its loop is
-- given what the socket does and what the console holds; the names of the arguments are not modelled.
pub mod Quits
pub mod Served
pub mod Completed
pub mod Commands
use agentic_engineering_trai.Base.{
  ℕ, ◌+◌, ◌*◌, ◌/◌, ◌%◌, ◌^◌, List, [], ◌∷◌, ◌++◌, Bool, true, false, not, ◌&&◌, ◌||◌, Option, none,
  some, if◌then◌else◌, u16, u32, drop,
}
use agentic_engineering_trai.Common.Status.{Status, is_ok}
use agentic_engineering_trai.Common.Floats.{Floats, of_nat, from_celsius}
use agentic_engineering_trai.Common.Text.{codes, c_string, equal, starts_with, is_empty, Converted}
use agentic_engineering_trai.Common.ParseNumber.{parse_real, parse_u32}
use agentic_engineering_trai.Hal.Uart.{Uart}
use agentic_engineering_trai.Protocol.Wire.{Frame, FrameType, response, nack, ramp_normal}
use agentic_engineering_trai.App.TelemetryStore.{Sample, latest}
use agentic_engineering_trai.App.McuClient.{
  McuClient, new_client, pump, take_response, heater_off, set_heater, set_motor, tare,
}
use agentic_engineering_trai.App.Cooking.Controller.{clear_command_status}
use agentic_engineering_trai.Programs.SafeStop.{
  SafeStop, new_safe_stop, begin_stop, is_active, is_expired, service,
}

-- The values that the loop keeps.
pub record AppMain : Type 0 where
  pub now_us : ℕ
  pub client : McuClient
  pub safe_stop : SafeStop
  pub quit_after_stop : Bool

abbrev pub new_app : Uart → AppMain
new_app uart = record {
  now_us = 0;
  client = new_client uart;
  safe_stop = new_safe_stop;
  quit_after_stop = false;
}

-- `clock.now_ms()`
abbrev pub clock_ms : AppMain → ℕ
clock_ms m = u32 (m.now_us / 1000)

-- What `poll` and `getline` give: an error that is `EINTR` or not, no input, or a line, none at the end.
pub data Console : Type 0 where
  failed : Bool → Console
  quiet : Console
  typed : Option (List ℕ) → Console

-- One millisecond: the bytes that arrive, the numbers of bytes that the socket will take, whether it
-- is still connected, and the console.
pub record AppInput : Type 0 where
  pub received : List ℕ
  pub accepts : List ℕ
  pub connected : Bool
  pub console : Console

-- What is printed.
pub data AppLine : Type 0 where
  stop_complete stop_timed_out disconnected complete protocol_failed invalid stopping unknown
        poll_failed :
      AppLine
  result : Status → AppLine
  reading : Sample → AppLine

-- The state behind a part of a round, what was printed, and the status of the program if it returned.
pub record Step : Type 0 where
  pub state : AppMain
  pub lines : List AppLine
  pub exit : Option ℕ

abbrev pub go_on : AppMain → List AppLine → Step
go_on m lines = record { state = m; lines = lines; exit = none }

abbrev pub leave : AppMain → ℕ → AppLine → Step
leave m exit line = record { state = m; lines = line ∷ []; exit = some exit }

unfoldable pub stop_app : AppMain → AppMain
stop_app m = record m { safe_stop = begin_stop (clock_ms m) }

unfoldable pub quit_app : AppMain → AppMain
quit_app m = record m { safe_stop = begin_stop (clock_ms m); quit_after_stop = true }

unfoldable pub serve_stop : AppMain → Option Frame → Step
serve_stop m r =
    let (s, c, completed) = service m.safe_stop m.client (clock_ms m) r in
    let m' : AppMain = record m { safe_stop = s; client = c } in
    if completed
    then record {
      state = m';
      lines = stop_complete ∷ [];
      exit = if m.quit_after_stop then some 0 else none;
    }
    else if is_expired s (clock_ms m)
    then leave m' 1 stop_timed_out
    else go_on m' []

abbrev forget_status : AppMain → AppMain
forget_status m = record m { client = clear_command_status m.client }

abbrev report_status : AppMain → Step
report_status m =
    if not (is_ok m.client.last_command_status)
    then go_on (forget_status m) (result m.client.last_command_status ∷ [])
    else go_on m []

abbrev pub report_frame : AppMain → FrameType → Step
report_frame m response = go_on m (complete ∷ [])
report_frame m nack = go_on (forget_status m) (protocol_failed ∷ [])
report_frame m _ = report_status m

abbrev pub report_response : AppMain → Option Frame → Step
report_response m none = report_status m
report_response m (some r) = report_frame m r.type

unfoldable pub handle_response : AppMain → Option Frame → Step
handle_response m r = if is_active m.safe_stop then serve_stop m r else report_response m r

abbrev pub send_command : AppMain → McuClient × Status → Step
send_command m (c, status) = go_on (record m { client = c }) (result status ∷ [])

abbrev pub set_speed : AppMain → Option ℕ → Step
set_speed m none = go_on m (invalid ∷ [])
set_speed m (some dial) =
    send_command m (set_motor m.client (clock_ms m) (u16 (u32 (dial * 1070))) ramp_normal)

abbrev pub repeat_exit : Option ℕ → Step → (AppMain → Option Step) → Option Step
repeat_exit (some n) s next = some s
repeat_exit none s next = next s.state

abbrev pub repeat_round : Option Step → (AppMain → Option Step) → Option Step
repeat_round none next = none
repeat_round (some s) next = repeat_exit s.exit s next

module _ (fl : Floats) (strtof : List ℕ → Converted fl.Float) where
  open fl use {Float, lt, le}

  abbrev pub set_temp : AppMain → Option Float → Step
  set_temp m none = go_on m (invalid ∷ [])
  set_temp m (some celsius) =
      if lt (of_nat fl 0) celsius && lt celsius (of_nat fl 37)
      then go_on m (invalid ∷ [])
      else if le celsius (of_nat fl 0) && le (of_nat fl 0) celsius
      then send_command m (heater_off m.client (clock_ms m))
      else send_command m (set_heater m.client (clock_ms m) (from_celsius fl celsius))

  -- A line that is not the end of the session.
  unfoldable pub run_typed : AppMain → List ℕ → Step
  run_typed m line =
      if is_active m.safe_stop
      then go_on m (stopping ∷ [])
      else if equal line (codes "status")
      then go_on m (reading (latest m.client.store) ∷ [])
      else if starts_with line (codes "set-temp ")
      then set_temp m (parse_real fl strtof (c_string (drop 9 line)) (of_nat fl 0) (of_nat fl 160))
      else if starts_with line (codes "set-speed ")
      then set_speed m (parse_u32 (c_string (drop 10 line)) 10)
      else if equal line (codes "tare")
      then send_command m (tare m.client (clock_ms m))
      else if equal line (codes "stop")
      then go_on (stop_app m) []
      else if not (is_empty line)
      then go_on m (unknown ∷ [])
      else go_on m []

  unfoldable pub read_console : AppMain → Console → Step
  read_console m (failed interrupted) =
      if interrupted then go_on m [] else go_on (quit_app m) (poll_failed ∷ [])
  read_console m quiet = go_on m []
  read_console m (typed none) = go_on (quit_app m) []
  read_console m (typed (some line)) =
      if equal line (codes "quit") || equal line (codes "exit")
      then go_on (quit_app m) []
      else run_typed m line

  -- The console is read where the program goes on and does not wait for its last stop.
  abbrev pub after_exit : Option ℕ → Step → Console → Step
  after_exit (some n) s console = s
  after_exit none s console =
      let step = read_console s.state console in
      if s.state.quit_after_stop then s else record step { lines = s.lines ++ step.lines }

  unfoldable pub after_response : Step → Console → Step
  after_response s console = after_exit s.exit s console

  unfoldable pub after_pump : AppMain → AppInput → Step
  after_pump m input =
      let (c, r) = take_response m.client true in
      if not input.connected
      then leave m 1 disconnected
      else after_response (handle_response (record m { client = c }) r) input.console

  abbrev pub pumped : AppMain → AppInput → Option McuClient → Option Step
  pumped m input none = none
  pumped m input (some c) = some (after_pump (record m { client = c }) input)

  -- One round of the loop; none is a receive loop that does not end.
  unfoldable pub app_round : AppMain → AppInput → Option Step
  app_round m input =
      let u = m.client.uart in
      let c : McuClient = record m.client {
        uart = record u { rx = u.rx ++ input.received; accepts = input.accepts };
      } in
      let m' : AppMain = record m { now_us = (m.now_us + 1000) % 2 ^ 64 } in
      pumped m' input (pump c (clock_ms m'))

  -- The loop over the inputs of its rounds, until the program returns: its last round.
  unfoldable pub run_app : List AppInput → AppMain → Option Step
  run_app [] m = some (go_on m [])
  run_app (input ∷ inputs) m = repeat_round (app_round m input) (run_app inputs)
