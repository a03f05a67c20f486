-- ===== src/Cli/Execute.antt =====
-- cli/commands.cpp: `execute_command` and its handlers of more than a line.
pub mod Legal
pub mod Parsed
pub mod Planned
pub mod Refused
use agentic_engineering_trai.Base.{
  ℕ, ◌*◌, List, [], ◌∷◌, Bool, true, false, not, ◌&&◌, ◌||◌, Option, none, some, ltb, leb, ◌==◌,
  if◌then◌else◌, u8, u32, length, drop,
}
use agentic_engineering_trai.Common.Crc16.{crc16_ccitt, crc_seed}
use agentic_engineering_trai.Common.Floats.{Floats, of_nat, from_celsius}
use agentic_engineering_trai.Common.Text.{codes, equal, starts_with}
use agentic_engineering_trai.Protocol.Wire.{ramp_normal}
use agentic_engineering_trai.Sim.Board.{open_lid, close_lid, now_ms}
use agentic_engineering_trai.App.OtaUpdater
use agentic_engineering_trai.App.OtaUpdater.{OtaUpdater, is_verifying}
use agentic_engineering_trai.App.McuClient.{set_motor, set_heater, heater_off, tare, lock_lid}
use agentic_engineering_trai.App.Recipe.{Recipe}
use agentic_engineering_trai.App.Recipe.RecipeLibrary.{find}
use agentic_engineering_trai.App.Cooking.{dial_to_rpm}
use agentic_engineering_trai.App.Cooking.TimedModes.{new_dough, new_steam}
use agentic_engineering_trai.App.Cooking.SousVide.{new_sous_vide}
use agentic_engineering_trai.App.Cooking.TurboPulse.{new_turbo}
use agentic_engineering_trai.App.Cooking.Program.{Program, dough, steam, sous_vide, turbo}
use agentic_engineering_trai.App.Cooking.Controller.{
  SessionState, idle, done, start_program, start_manual, start_recipe, stop_session,
  session_user_next,
}
use agentic_engineering_trai.Cli.Numbers.{tokenize, parse_unsigned, parse_duration_ms, parse_float}
use agentic_engineering_trai.Cli.Commands.{
  CommandEnv, Outcome, accept, refuse, word, with_controller, with_client, join_words, image_from,
  damage, handle_add, handle_expect,
}

-- No session is under way.
abbrev pub at_rest : SessionState → Bool
at_rest idle = true
at_rest done = true
at_rest _ = false

module _ (fl : Floats) (stof : List ℕ → Option (fl.Float × ℕ)) where
  open fl use {Float, lt, le}

  -- The session's controller with a program that starts; the status is only printed.
  abbrev pub launch : CommandEnv Float → Program → Outcome Float
  launch env p =
      accept fl stof (with_controller fl stof env (start_program fl env.controller (some p)).0)

  abbrev pub ota_sized : Option ℕ → CommandEnv Float → OtaUpdater → List (List ℕ) → Outcome Float
  ota_sized none env u args = refuse fl stof env
  ota_sized (some kib) env u args =
      let image = image_from 0 (kib * 1024) in
      let stored = if length args == 3 then damage image else image in
      let (u', status) =
        OtaUpdater.begin u (some stored) (kib * 1024) (crc16_ccitt image crc_seed) in
      if kib == 0 || (length args == 3 && not (equal (word fl stof args 2) (codes "corrupt")))
      then refuse fl stof env
      else accept fl stof (with_controller fl stof env (record env.controller { ota = some u' }))

  abbrev pub ota_with : Option OtaUpdater → CommandEnv Float → List (List ℕ) → Outcome Float
  ota_with none env args = refuse fl stof env
  ota_with (some u) env args =
      if (not (at_rest env.controller.state) || is_verifying u.state) || ltb 3 (length args)
      then refuse fl stof env
      else ota_sized
          (if leb 2 (length args) then parse_unsigned (word fl stof args 1) 65536 else some 512) env
          u args

  -- The updater is attached to the controller.
  unfoldable pub handle_ota : CommandEnv Float → List (List ℕ) → Outcome Float
  handle_ota env args = ota_with env.controller.ota env args

  -- A positive temperature is 37 degrees at least.
  abbrev pub too_cold : Float → Bool
  too_cold celsius = lt (of_nat fl 0) celsius && lt celsius (of_nat fl 37)

  unfoldable pub set_temp_parsed : Option Float → CommandEnv Float → Outcome Float
  set_temp_parsed none env = refuse fl stof env
  set_temp_parsed (some celsius) env =
      let client = env.controller.client in
      let now = now_ms fl env.board in
      let off = (heater_off client now).0 in
      let on = (set_heater client now (from_celsius fl celsius)).0 in
      if too_cold celsius
      then refuse fl stof env
      else accept fl stof (with_client fl stof env (if le celsius (of_nat fl 0) then off else on))

  unfoldable pub set_speed_parsed : Option ℕ → CommandEnv Float → Outcome Float
  set_speed_parsed none env = refuse fl stof env
  set_speed_parsed (some dial) env = accept fl stof (
      with_client fl stof env
        (set_motor env.controller.client (now_ms fl env.board) (dial_to_rpm (u8 dial))
          ramp_normal).0)

  unfoldable pub manual_parsed :
      Option Float → Option ℕ → Option ℕ → CommandEnv Float → Outcome Float
  manual_parsed (some celsius) (some dial) (some minutes) env =
      if too_cold celsius || minutes == 0
      then refuse fl stof env
      else accept fl stof (
          with_controller fl stof env
            (start_manual fl env.controller (from_celsius fl celsius) (u8 dial)
              (u32 (minutes * 60))).0)
  manual_parsed (some celsius) (some dial) none env = refuse fl stof env
  manual_parsed (some celsius) none minutes env = refuse fl stof env
  manual_parsed none dial minutes env = refuse fl stof env

  -- A program for a number of minutes.
  unfoldable pub timed_parsed : (ℕ → Program) → Option ℕ → CommandEnv Float → Outcome Float
  timed_parsed program none env = refuse fl stof env
  timed_parsed program (some minutes) env =
      if minutes == 0 then refuse fl stof env else launch env (program (u32 (minutes * 60)))

  unfoldable pub sous_vide_parsed : Option Float → Option ℕ → CommandEnv Float → Outcome Float
  sous_vide_parsed none minutes env = refuse fl stof env
  sous_vide_parsed (some celsius) minutes env =
      timed_parsed (λ s. sous_vide (new_sous_vide (from_celsius fl celsius) s)) minutes env

  unfoldable pub turbo_parsed : Option ℕ → CommandEnv Float → Outcome Float
  turbo_parsed none env = refuse fl stof env
  turbo_parsed (some pulse_ms) env =
      if pulse_ms == 0 then refuse fl stof env else launch env (turbo (new_turbo (u32 pulse_ms)))

  unfoldable pub load_found : Option Recipe → CommandEnv Float → Outcome Float
  load_found none env = accept fl stof env
  load_found (some recipe) env =
      accept fl stof (with_controller fl stof env (start_recipe fl env.controller (some recipe)).0)

  unfoldable pub wait_parsed : Option ℕ → CommandEnv Float → Outcome Float
  wait_parsed none env = refuse fl stof env
  wait_parsed (some ms) env = record { env = env; accepted = true; wait_ms = ms }

  unfoldable pub handle_lid : CommandEnv Float → List ℕ → Outcome Float
  handle_lid env how =
      let client = env.controller.client in
      let now = now_ms fl env.board in
      if equal how (codes "open")
      then accept fl stof (record env { board = open_lid fl env.board })
      else if equal how (codes "close")
      then accept fl stof (record env { board = close_lid fl env.board })
      else if equal how (codes "lock")
      then accept fl stof (with_client fl stof env (lock_lid client now true).0)
      else if equal how (codes "unlock")
      then accept fl stof (with_client fl stof env (lock_lid client now false).0)
      else refuse fl stof env

  -- A chain of `else if`: the first outcome whose condition holds, or the last one.
  unfoldable pub first_of : List (Bool × Outcome Float) → Outcome Float → Outcome Float
  first_of [] other = other
  first_of ((holds, o) ∷ rest) other = if holds then o else first_of rest other

  -- The commands that set a program or a target, with the condition of each.
  abbrev pub cooking_commands :
      CommandEnv Float → List ℕ → List (List ℕ) → List (Bool × Outcome Float)
  cooking_commands env cmd args =
      let a = word fl stof args in
      let n = length args in
      let celsius = parse_float fl stof (a 1) (of_nat fl 0) (of_nat fl 160) in
      let minutes = parse_unsigned (a 1) 1440 in
      (equal cmd (codes "set-temp") && n == 2, set_temp_parsed celsius env)
      ∷ (equal cmd (codes "set-speed") && n == 2, set_speed_parsed (parse_unsigned (a 1) 10) env)
      ∷ (
        equal cmd (codes "manual") && n == 4,
        manual_parsed celsius (parse_unsigned (a 2) 10) (parse_unsigned (a 3) 1440) env,
      )
      ∷ (equal cmd (codes "dough") && n == 2, timed_parsed (λ s. dough (new_dough s)) minutes env)
      ∷ (equal cmd (codes "steam") && n == 2, timed_parsed (λ s. steam (new_steam s)) minutes env)
      ∷ (
        equal cmd (codes "sous-vide") && n == 3,
        sous_vide_parsed (parse_float fl stof (a 1) (of_nat fl 37) (of_nat fl 90))
            (parse_unsigned (a 2) 1440) env,
      )
      ∷ (equal cmd (codes "turbo") && n == 2, turbo_parsed (parse_unsigned (a 1) 2000) env)
      ∷ (
        equal cmd (codes "load") && leb 2 n,
        load_found (find env.recipes (join_words (drop 1 args))) env,
      )
      ∷ []

  -- The other commands.
  abbrev pub other_commands :
      CommandEnv Float → List ℕ → List (List ℕ) → List (Bool × Outcome Float)
  other_commands env cmd args =
      let a = word fl stof args in
      let n = length args in
      (equal cmd (codes "help"), accept fl stof env)
      ∷ (equal cmd (codes "status"), accept fl stof env)
      ∷ (equal cmd (codes "add"), handle_add fl stof env args)
      ∷ (
        equal cmd (codes "next"),
        accept fl stof (with_controller fl stof env (session_user_next fl env.controller)),
      )
      ∷ (
        equal cmd (codes "stop"),
        accept fl stof (with_controller fl stof env (stop_session fl env.controller)),
      )
      ∷ (
        equal cmd (codes "tare"),
        accept fl stof
            (with_client fl stof env (tare env.controller.client (now_ms fl env.board)).0),
      )
      ∷ (equal cmd (codes "weigh"), accept fl stof env)
      ∷ (equal cmd (codes "lid") && n == 2, handle_lid env (a 1))
      ∷ (equal cmd (codes "ota-verify"), handle_ota env args)
      ∷ (equal cmd (codes "wait") && n == 2, wait_parsed (parse_duration_ms (a 1)) env)
      ∷ (equal cmd (codes "expect"), handle_expect fl stof env args)
      ∷ (
        equal cmd (codes "quit") || equal cmd (codes "exit"),
        accept fl stof (record env { quit_requested = true }),
      )
      ∷ []

  -- The names differ, so the order of the tests does not matter.
  abbrev pub execute_words : CommandEnv Float → List (List ℕ) → Outcome Float
  execute_words env [] = accept fl stof env
  execute_words env (cmd ∷ args) =
      if starts_with cmd (codes "#")
      then accept fl stof env
      else first_of (cooking_commands env cmd (cmd ∷ args))
          (first_of (other_commands env cmd (cmd ∷ args)) (refuse fl stof env))

  unfoldable pub execute_command : CommandEnv Float → List ℕ → Outcome Float
  execute_command env line = execute_words env (tokenize line)
