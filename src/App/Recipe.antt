-- ===== src/App/Recipe.antt =====
-- app/recipe/recipe.h: recipes. An array of characters is the string that it holds.
pub mod Parser
pub mod RecipeLibrary
use agentic_engineering_trai.Base.{ℕ, Bool, true, false, List, [], ℤ, pos, replicate}

pub data StepKind : Type 0 where
  note mix heat weigh : StepKind

abbrev pub is_heat : StepKind → Bool
is_heat heat = true
is_heat _ = false

pub record RecipeStep : Type 0 where
  pub kind : StepKind
  pub text : List ℕ
  pub target_temp : ℤ
  pub dial_speed : ℕ
  pub duration_s : ℕ
  pub target_weight : ℤ

abbrev pub empty_step : RecipeStep
empty_step = record {
  kind = note;
  text = [];
  target_temp = pos 0;
  dial_speed = 0;
  duration_s = 0;
  target_weight = pos 0;
}

pub record Recipe : Type 0 where
  pub name : List ℕ
  pub recipe_steps : List RecipeStep
  pub step_count : ℕ

-- The length of the array of steps.
abbrev pub max_steps : ℕ
max_steps = 16

abbrev pub empty_recipe : Recipe
empty_recipe = record { name = []; recipe_steps = replicate max_steps empty_step; step_count = 0 }
