-- ===== src/App/Recipe/Parser.antt =====
-- app/recipe/recipe_parser.cpp: recipes from files. `strtof` and the opening of files are parameters;
-- `fgets` reads the contents of a file line by line.
pub mod Steps
pub mod Legal
pub mod Accepted
use agentic_engineering_trai.Base.{
  ℕ, ◌+◌, ◌-◌, List, [], ◌∷◌, ◌++◌, Bool, true, false, not, ◌&&◌, ◌||◌, Option, none, some, ℤ, pos,
  ltb, leb, ltb_ℤ, ◌==◌, if◌then◌else◌, u8, of_int32, to_int32, take, drop, get_or, set,
}
use agentic_engineering_trai.Common.Status.{
  Status, ok, invalid_argument, overflow, hardware_fault, is_ok,
}
use agentic_engineering_trai.Common.Floats.{Floats, of_nat, from_celsius}
use agentic_engineering_trai.Common.Text.{
  codes, c_string, has_char, equal, starts_with, is_empty, skip_spaces, trim_end, cut_at, split_at,
  Converted, strtol,
}
use agentic_engineering_trai.App.Recipe.{
  StepKind, note, mix, heat, weigh, RecipeStep, empty_step, Recipe, empty_recipe, max_steps,
}

unfoldable pub parse_kind : List ℕ → Option StepKind
parse_kind token =
    if equal token (codes "note")
    then some note
    else if equal token (codes "mix")
    then some mix
    else if equal token (codes "heat")
    then some heat
    else if equal token (codes "weigh")
    then some weigh
    else none

pub record Fields : Type 0 where
  pub temp : Bool
  pub speed : Bool
  pub time : Bool
  pub weight : Bool

abbrev pub no_fields : Fields
no_fields = record { temp = false; speed = false; time = false; weight = false }

-- Something was converted, and only blanks are behind it.
abbrev pub ends_blank : Option (List ℕ) → Bool
ends_blank none = false
ends_blank (some behind) = is_empty (skip_spaces behind)

unfoldable pub parse_long : List ℕ → ℤ → ℤ → Option ℤ
parse_long text min max =
    let read = strtol text in
    if (read.errno || not (ends_blank read.behind))
      || (ltb_ℤ read.value min || ltb_ℤ max read.value)
    then none
    else some read.value

-- Each stores a parsed number, none when the text was refused.
abbrev pub store_temp : Option ℤ → RecipeStep → Fields → RecipeStep × Fields × Bool
store_temp none step fields = (step, record fields { temp = false }, false)
store_temp (some v) step fields =
    (record step { target_temp = v }, record fields { temp = true }, true)

abbrev pub store_speed : Option ℤ → RecipeStep → Fields → RecipeStep × Fields × Bool
store_speed none step fields =
    (record step { dial_speed = 0 }, record fields { speed = false }, false)
store_speed (some v) step fields =
    (record step { dial_speed = u8 (of_int32 v) }, record fields { speed = true }, true)

abbrev pub store_time : Option ℤ → RecipeStep → Fields → RecipeStep × Fields × Bool
store_time none step fields =
    (record step { duration_s = 0 }, record fields { time = false }, false)
store_time (some v) step fields =
    (record step { duration_s = of_int32 v }, record fields { time = true }, true)

abbrev pub store_weight : Option ℤ → RecipeStep → Fields → RecipeStep × Fields × Bool
store_weight none step fields =
    (record step { target_weight = pos 0 }, record fields { weight = false }, false)
store_weight (some v) step fields =
    (record step { target_weight = to_int32 (of_int32 v) }, record fields { weight = true }, true)

abbrev pub is_complete : StepKind → RecipeStep → Fields → Bool
is_complete note step fields = true
is_complete mix step fields = (fields.speed && ltb 0 step.dial_speed) && fields.time
is_complete heat step fields = fields.temp && fields.time
is_complete weigh step fields = fields.weight

-- What one read of at most 255 characters gives, and whether it came to the end of the file.
pub record Line : Type 0 where
  pub content : List ℕ
  pub at_end : Bool

-- The characters of a file, and whether reading fails behind them.
pub record File : Type 0 where
  pub contents : List ℕ
  pub read_fails : Bool

-- The last line has no newline; it is lost when reading fails.
abbrev pub last_line : List ℕ → Bool → List Line
last_line [] fails = []
last_line (c ∷ s) fails = if fails then [] else record { content = c ∷ s; at_end = true } ∷ []

-- What the calls of `fgets(line, 256, file)` give, one after the other; `buffer` holds what the
-- current call has read, and `room` how much it may still read.
unfoldable pub read_lines : List ℕ → ℕ → List ℕ → Bool → List Line
read_lines buffer room [] fails = last_line buffer fails
read_lines buffer room (c ∷ s) fails =
    let full = c == 10 || leb room 1 in
    let rest =
      read_lines (if full then [] else buffer ++ c ∷ []) (if full then 255 else room - 1) s fails in
    if full then record { content = buffer ++ c ∷ []; at_end = false } ∷ rest else rest

-- What the function returns, by the status that the loop ends with.
abbrev pub final_status : Recipe → Bool → Status → Status
final_status out fails status =
    if not (is_ok status)
    then status
    else if fails
    then hardware_fault
    else if is_empty out.name || out.step_count == 0
    then invalid_argument
    else ok

module _ (fl : Floats) (strtof : List ℕ → Converted fl.Float) where
  open fl use {lt, is_finite}

  unfoldable pub parse_temperature : List ℕ → Option ℤ
  parse_temperature text =
      let read = strtof text in
      if ((read.errno || not (ends_blank read.behind)) || not (is_finite read.value))
        || (lt read.value (of_nat fl 37) || lt (of_nat fl 160) read.value)
      then none
      else some (from_celsius fl read.value)

  unfoldable pub apply_field : RecipeStep → Fields → List ℕ → List ℕ → RecipeStep × Fields × Bool
  apply_field step fields key value =
      if equal key (codes "text")
      then (record step { text = take 95 value }, fields, true)
      else if equal key (codes "temp")
      then store_temp (parse_temperature value) step fields
      else if equal key (codes "speed")
      then store_speed (parse_long value (pos 0) (pos 10)) step fields
      else if equal key (codes "time")
      then store_time (parse_long value (pos 1) (pos 86400)) step fields
      else if equal key (codes "weight")
      then store_weight (parse_long value (pos 1) (pos 2200)) step fields
      else (step, fields, true)

  -- A token behind the first, cut at its equals sign.
  abbrev pub apply_token :
      List ℕ × Option (List ℕ) → RecipeStep → Fields → RecipeStep × Fields × Bool
  apply_token (key, none) step fields = (step, fields, true)
  apply_token (key, some value) step fields =
      apply_field step fields (trim_end key) (skip_spaces value)

  -- The last component tells whether no field was refused.
  unfoldable pub apply_tokens : List (List ℕ) → RecipeStep → Fields → RecipeStep × Fields × Bool
  apply_tokens [] step fields = (step, fields, true)
  apply_tokens (t ∷ ts) step fields =
      let (step', fields', good) =
        apply_token (cut_at b'=' (trim_end (skip_spaces t))) step fields in
      let rest = apply_tokens ts step' fields' in if good then rest else (step', fields', false)

  -- By the kind that the first token names.
  unfoldable pub parse_fields : Option StepKind → List (List ℕ) → RecipeStep → RecipeStep × Status
  parse_fields none ts step = (step, invalid_argument)
  parse_fields (some kind) ts step =
      let (step', fields, good) = apply_tokens ts (record step { kind = kind }) no_fields in
      (step', if good && is_complete step'.kind step' fields then ok else invalid_argument)

  unfoldable pub parse_step : List ℕ → RecipeStep → RecipeStep × Status
  parse_step body step =
      let (first, ts) = split_at b'|' body in
      parse_fields (parse_kind (trim_end (skip_spaces first))) ts step

  unfoldable pub parse_entry : Recipe → List ℕ → Recipe × Status
  parse_entry out p =
      let (step, status) =
        parse_step (take 255 (skip_spaces (drop 5 p)))
          (get_or out.recipe_steps out.step_count empty_step) in
      if is_empty p || starts_with p (codes "#")
      then (out, ok)
      else if starts_with p (codes "name:")
      then (record out { name = take 31 (skip_spaces (drop 5 p)) }, ok)
      else if not (starts_with p (codes "step:"))
      then (out, ok)
      else if leb max_steps out.step_count
      then (out, overflow)
      else (
        record out {
          recipe_steps = set out.recipe_steps out.step_count step;
          step_count = if is_ok status then out.step_count + 1 else out.step_count;
        },
        status,
      )

  unfoldable pub parse_line : Recipe → Line → Recipe × Status
  parse_line out line =
      let s = c_string line.content in
      if not (has_char s 10) && not line.at_end
      then (out, overflow)
      else parse_entry out (skip_spaces (trim_end s))

  -- A status that is not Ok ends the loop.
  unfoldable pub parse_lines : Recipe → List Line → Recipe × Status
  parse_lines out [] = (out, ok)
  parse_lines out (l ∷ ls) =
      let (out', status) = parse_line out l in
      let rest = parse_lines out' ls in if is_ok status then rest else (out', status)

  abbrev pub parse_opened : Option File → Recipe → Recipe × Status
  parse_opened none out = (out, invalid_argument)
  parse_opened (some file) out =
      let (out', status) =
        parse_lines empty_recipe (read_lines [] 255 file.contents file.read_fails) in
      (out', final_status out' file.read_fails status)

  -- `open` is `fopen(path, "r")`, none where that fails. `path` and `out` are no null pointers.
  unfoldable pub parse_recipe_file : (List ℕ → Option File) → List ℕ → Recipe → Recipe × Status
  parse_recipe_file open_file path out = parse_opened (open_file path) out
