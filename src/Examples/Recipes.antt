-- ===== src/Examples/Recipes.antt =====
-- Recipe files and the library on concrete data.
use agentic_engineering_trai.Base.{
  ℕ, ◌*◌, ◌<◌, ◌≡◌, refl, arith, List, [], ◌∷◌, ◌++◌, false, true, some, none, Option, pos_part,
  get_or,
}
use agentic_engineering_trai.Common.Status.{ok}
use agentic_engineering_trai.Common.Floats.{tenths, tenths-FloatLaws}
use agentic_engineering_trai.Common.Text.{codes, equal, is_empty, strtol, Converted}
use agentic_engineering_trai.Protocol.Wire.{Frame, empty_frame, heater_set_target, put_i16}
use agentic_engineering_trai.Mcu.HeaterPid
use agentic_engineering_trai.Examples.Mcu.{started}
use agentic_engineering_trai.Mcu.CommandHandler.{handle, respond, nack_request}
use agentic_engineering_trai.App.Recipe.{Recipe, RecipeStep, empty_recipe, empty_step, is_heat}
use agentic_engineering_trai.App.Recipe.Parser.{
  File, parse_recipe_file, parse_lines, parse_line, parse_entry, parse_step, parse_fields,
  parse_kind, apply_tokens, apply_field, parse_long, parse_temperature, read_lines,
}
use agentic_engineering_trai.App.Recipe.Parser.Legal.{IsRunnable, parse_recipe_file-IsRunnable}
use agentic_engineering_trai.App.Recipe.Parser.Accepted.{handle-heater_set_target-parse_recipe_file}
use agentic_engineering_trai.App.Recipe.RecipeLibrary.{
  RecipeLibrary, new_library, load_directory, load_entries, load_entry, has_rcp_extension, find,
  find_in,
}
use agentic_engineering_trai.App.Recipe.RecipeLibrary.Stocked.{
  IsReady, find-load_directory, new_library-IsStocked,
}

-- Whole numbers as tenths.
abbrev whole : List ℕ → Converted ℕ
whole s =
    let r = strtol s in record { value = pos_part r.value * 10; behind = r.behind; errno = r.errno }

abbrev proofing : File
proofing = record {
  contents =
      codes "name: Proof"
      ++ 10 ∷ codes "step: heat | temp=40 | time=60 | text=Wait"
      ++ 10 ∷ codes "step: note"
      ++ 10 ∷ [];
  read_fails = false;
}

abbrev files : List ℕ → Option File
files path = some proofing

abbrev parsed : Recipe
parsed = (parse_recipe_file tenths whole files (codes "p.rcp") empty_recipe).0

accepted : (parse_recipe_file tenths whole files (codes "p.rcp") empty_recipe).1 ≡ ok
unfolding parse_recipe_file parse_lines parse_line parse_entry parse_step parse_fields parse_kind
    apply_tokens apply_field parse_long parse_temperature read_lines
accepted = refl

parse_recipe_file-IsRunnable_example :
    IsRunnable parsed × (0 < parsed.step_count) × (is_empty parsed.name ≡ false)
parse_recipe_file-IsRunnable_example =
    parse_recipe_file-IsRunnable tenths tenths-FloatLaws whole files (codes "p.rcp") empty_recipe
      accepted

-- The first step, and the request for its target.
abbrev first_step : RecipeStep
first_step = get_or parsed.recipe_steps 0 empty_step

abbrev heat_request : Frame
heat_request = record empty_frame {
  msg_id = heater_set_target;
  payload = put_i16 first_step.target_temp ++ [];
  payload_len = 2;
}

parsed_all : parse_recipe_file tenths whole files (codes "p.rcp") empty_recipe ≡ (parsed, ok)
unfolding parse_recipe_file parse_lines parse_line parse_entry parse_step parse_fields parse_kind
    apply_tokens apply_field parse_long parse_temperature read_lines
parsed_all = refl

counted : 0 < parsed.step_count
unfolding parse_recipe_file parse_lines parse_line parse_entry parse_step parse_fields parse_kind
    apply_tokens apply_field parse_long parse_temperature read_lines
counted = omega arith

heats : is_heat first_step.kind ≡ true
unfolding parse_recipe_file parse_lines parse_line parse_entry parse_step parse_fields parse_kind
    apply_tokens apply_field parse_long parse_temperature read_lines
heats = refl

handle-heater_set_target-parse_recipe_file_example :
    (handle tenths heat_request started.inputs false started
      ≡ respond tenths
          (record started { pid = HeaterPid.set_target tenths started.pid first_step.target_temp })
          heat_request
          none
          0)
    × (handle tenths heat_request started.inputs true started
        ≡ nack_request tenths started heat_request)
handle-heater_set_target-parse_recipe_file_example =
    handle-heater_set_target-parse_recipe_file tenths tenths-FloatLaws whole files (codes "p.rcp")
      empty_recipe parsed first_step 0 [] heat_request started.inputs started parsed_all counted
      refl heats refl refl refl refl

-- A directory with a recipe and another file.
abbrev names : List (List ℕ)
names = codes "notes.txt" ∷ codes "p.rcp" ∷ []

abbrev loaded : RecipeLibrary
loaded = (load_directory tenths whole files new_library (codes "recipes") (some names)).0

found : find loaded (codes "Proof") ≡ some parsed
unfolding load_directory load_entries load_entry has_rcp_extension find find_in parse_recipe_file
    parse_lines parse_line parse_entry parse_step parse_fields parse_kind apply_tokens apply_field
    parse_long parse_temperature read_lines
found = refl

find-load_directory_example : IsReady parsed × (equal parsed.name (codes "Proof") ≡ true)
find-load_directory_example =
    find-load_directory tenths tenths-FloatLaws whole files new_library (codes "recipes")
      (some names) (codes "Proof") parsed new_library-IsStocked found
