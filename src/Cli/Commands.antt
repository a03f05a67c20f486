-- ===== src/Cli/Commands.antt =====
-- cli/commands.cpp: what a command does to the device. Of `SystemSim` the environment holds what the
-- commands reach: the board, and the controller with its client and its updater, and the recipes. The
-- printed text is left out. `wait` lets the device run; the milliseconds are part of the outcome.
use agentic_engineering_trai.Base.{
  ℕ, zero, suc, ◌+◌, ◌*◌, ◌/◌, List, [], ◌∷◌, ◌++◌, Bool, true, false, not, ◌||◌, Option, none,
  some, pos, negsuc, ◌==◌, if◌then◌else◌, u8, length, get_or, set, bit_and, bit_xor,
}
use agentic_engineering_trai.Common.Floats.{Floats, of_nat}
use agentic_engineering_trai.Common.Text.{codes, equal}
use agentic_engineering_trai.Protocol.Wire.{flag_lid_closed, flag_lid_locked}
use agentic_engineering_trai.Sim.Plant.{float_eq}
use agentic_engineering_trai.Sim.Board.{SimBoard, add_mass, set_viscosity}
use agentic_engineering_trai.Mcu.HeaterPid.{to_celsius}
use agentic_engineering_trai.App.TelemetryStore.{latest, average_temp_c}
use agentic_engineering_trai.App.McuClient.{McuClient}
use agentic_engineering_trai.App.Recipe.RecipeLibrary.{RecipeLibrary}
use agentic_engineering_trai.App.Cooking.Program.{
  Program, dough, manual, steam, sous_vide, turbo, guided,
}
use agentic_engineering_trai.App.Cooking.Controller.{
  SessionState, idle, running, stopping, done, faulted, CookingController,
}
use agentic_engineering_trai.Cli.Numbers.{parse_float}

pub record CommandEnv (Float : Type 0) : Type 0 where
  pub board : SimBoard Float
  pub controller : CookingController Float
  pub recipes : RecipeLibrary
  pub expect_failures : ℕ
  pub quit_requested : Bool

-- The environment, whether the command was accepted, and how long the device is to run.
pub record Outcome (Float : Type 0) : Type 0 where
  pub env : CommandEnv Float
  pub accepted : Bool
  pub wait_ms : ℕ

abbrev pub session_state_name : SessionState → List ℕ
session_state_name idle = codes "idle"
session_state_name running = codes "running"
session_state_name stopping = codes "stopping"
session_state_name done = codes "done"
session_state_name faulted = codes "FAULT"

-- The names of the programs; a recipe's is its own.
abbrev pub program_name : Option Program → List ℕ
program_name none = codes "none"
program_name (some (dough p)) = codes "dough"
program_name (some (manual p)) = codes "manual"
program_name (some (steam p)) = codes "steam"
program_name (some (sous_vide p)) = codes "sous-vide"
program_name (some (turbo p)) = codes "turbo"
program_name (some (guided p)) = p.recipe.name

abbrev pub lid_text : ℕ → List ℕ
lid_text flags =
    if not (bit_and flags flag_lid_locked == 0)
    then codes "locked"
    else if not (bit_and flags flag_lid_closed == 0)
    then codes "closed"
    else codes "open"

-- The words behind the command, with blanks between them.
abbrev pub join_words : List (List ℕ) → List ℕ
join_words [] = []
join_words (w ∷ []) = w
join_words (w ∷ (v ∷ ws)) = w ++ b' ' ∷ join_words (v ∷ ws)

-- The test image: byte `i` is 13 * i + 5.
abbrev pub image_from : ℕ → ℕ → List ℕ
image_from i zero = []
image_from i (suc n) = u8 (i * 13 + 5) ∷ image_from (i + 1) n

abbrev pub damage : List ℕ → List ℕ
damage image =
    let middle = length image / 2 in set image middle (bit_xor (get_or image middle 0) 255)

module _ (fl : Floats) (stof : List ℕ → Option (fl.Float × ℕ)) where
  open fl use {Float, lt, le, sub, ratio}

  abbrev pub accept : CommandEnv Float → Outcome Float
  accept env = record { env = env; accepted = true; wait_ms = 0 }

  abbrev pub refuse : CommandEnv Float → Outcome Float
  refuse env = record { env = env; accepted = false; wait_ms = 0 }

  abbrev pub word : List (List ℕ) → ℕ → List ℕ
  word args i = get_or args i []

  abbrev pub with_controller : CommandEnv Float → CookingController Float → CommandEnv Float
  with_controller env c = record env { controller = c }

  abbrev pub with_client : CommandEnv Float → McuClient → CommandEnv Float
  with_client env client = record env { controller = record env.controller { client = client } }

  abbrev pub viscosity_of : List ℕ → Float
  viscosity_of name =
      if equal name (codes "water")
      then of_nat fl 1
      else if equal name (codes "oil")
      then ratio (pos 18) 10
      else if equal name (codes "flour") || equal name (codes "dough")
      then ratio (pos 65) 10
      else of_nat fl 2

  abbrev pub add_parsed : Option Float → CommandEnv Float → List ℕ → Outcome Float
  add_parsed none env name = refuse env
  add_parsed (some grams) env name =
      accept
        (record env { board = set_viscosity fl (add_mass fl env.board grams) (viscosity_of name) })

  unfoldable pub handle_add : CommandEnv Float → List (List ℕ) → Outcome Float
  handle_add env args =
      if not (length args == 3)
      then refuse env
      else (let remaining = sub (of_nat fl 2200) env.board.scale.true_mass_g in
          add_parsed (parse_float fl stof (word args 2) (ratio (pos 1) 10) remaining) env
            (word args 1))

  -- The measured value of a metric, or its text, or none.
  abbrev pub metric_value : CommandEnv Float → List ℕ → Option Float
  metric_value env metric =
      let store = env.controller.client.store in
      if equal metric (codes "temp")
      then some (to_celsius fl (latest store).deci_celsius)
      else if equal metric (codes "avg-temp")
      then some (average_temp_c fl store 2000)
      else if equal metric (codes "rpm")
      then some (of_nat fl (latest store).rpm)
      else if equal metric (codes "weight")
      then some (ratio (latest store).grams 1)
      else none

  abbrev pub metric_text : CommandEnv Float → List ℕ → Option (List ℕ)
  metric_text env metric =
      if equal metric (codes "state")
      then some (session_state_name env.controller.state)
      else if equal metric (codes "program")
      then some (program_name env.controller.program)
      else if equal metric (codes "lid")
      then some (lid_text (latest env.controller.client.store).flags)
      else none

  -- None for an operator that there is not.
  abbrev pub compare_values : List ℕ → Float → Float → Option Bool
  compare_values op actual want =
      if equal op (codes ">=")
      then some (le want actual)
      else if equal op (codes "<=")
      then some (le actual want)
      else if equal op (codes ">")
      then some (lt want actual)
      else if equal op (codes "<")
      then some (lt actual want)
      else if equal op (codes "==")
      then some (float_eq fl actual want)
      else if equal op (codes "!=")
      then some (not (float_eq fl actual want))
      else none

  abbrev pub compare_texts : List ℕ → List ℕ → List ℕ → Option Bool
  compare_texts op actual expected =
      if equal op (codes "==")
      then some (equal actual expected)
      else if equal op (codes "!=")
      then some (not (equal actual expected))
      else none

  -- A comparison that fails is counted.
  abbrev pub judge : Option Bool → CommandEnv Float → Outcome Float
  judge none env = refuse env
  judge (some true) env = accept env
  judge (some false) env = accept (record env { expect_failures = env.expect_failures + 1 })

  abbrev compare_wanted : Option Float → List ℕ → Float → Option Bool
  compare_wanted none op actual = none
  compare_wanted (some want) op actual = compare_values op actual want

  abbrev expect_text : Option (List ℕ) → List ℕ → List ℕ → Option Bool
  expect_text none op expected = none
  expect_text (some actual) op expected = compare_texts op actual expected

  abbrev expect_value : Option Float → Option (List ℕ) → List ℕ → List ℕ → Option Bool
  expect_value none text op expected = expect_text text op expected
  expect_value (some actual) text op expected =
      compare_wanted
        (parse_float fl stof expected (ratio (negsuc 999999) 1) (ratio (pos 1000000) 1)) op actual

  unfoldable pub handle_expect : CommandEnv Float → List (List ℕ) → Outcome Float
  handle_expect env args =
      if not (length args == 4)
      then refuse env
      else judge
          (expect_value (metric_value env (word args 1)) (metric_text env (word args 1))
            (word args 2) (word args 3))
          env
