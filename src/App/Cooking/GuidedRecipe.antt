-- ===== src/App/Cooking/GuidedRecipe.antt =====
-- app/cooking/guided_recipe.cpp: a recipe, step by step.
use agentic_engineering_trai.Base.{
  ℕ, ◌+◌, ◌*◌, ◌≡◌, ◌⊎◌, inl, inr, refl, ap, Bool, true, false, arith, leb, ltb, ◌&&◌, leb_ℤ, ◌==◌,
  if◌then◌else◌, u32, sub_u32, get_or, Bool-cases,
}
use agentic_engineering_trai.Common.Status.{is_ok}
use agentic_engineering_trai.Protocol.Wire.{ramp_normal, ramp_gentle}
use agentic_engineering_trai.App.TelemetryStore.{latest}
use agentic_engineering_trai.App.Recipe.{
  StepKind, note, mix, heat, weigh, RecipeStep, empty_step, Recipe,
}
use agentic_engineering_trai.App.McuClient
use agentic_engineering_trai.App.McuClient.{McuClient, set_motor, set_heater, tare}
use agentic_engineering_trai.App.Cooking.{dial_to_rpm}

pub data RecipePhase : Type 0 where
  setup run teardown : RecipePhase

pub record GuidedRecipe : Type 0 where
  pub recipe : Recipe
  pub step_index : ℕ
  pub phase : RecipePhase
  pub command_index : ℕ
  pub step_started_ms : ℕ
  pub advance_requested : Bool
  pub scale_tared : Bool

abbrev pub new_guided : Recipe → GuidedRecipe
new_guided recipe = record {
  recipe = recipe;
  step_index = 0;
  phase = setup;
  command_index = 0;
  step_started_ms = 0;
  advance_requested = false;
  scale_tared = false;
}

-- Each gives the program, the client, and whether it is done.
unfoldable pub run_setup :
    StepKind → RecipeStep → GuidedRecipe → McuClient → ℕ → GuidedRecipe × McuClient × Bool
run_setup note step g c now = (g, c, true)
run_setup mix step g c now =
    let (c', status) = set_motor c now (dial_to_rpm step.dial_speed) ramp_normal in
    (g, c', is_ok status)
run_setup heat step g c now =
    let (heating, status) = set_heater c now step.target_temp in
    let (moving, moved) = set_motor c now (dial_to_rpm step.dial_speed) ramp_gentle in
    if g.command_index == 0
    then (if is_ok status then record g { command_index = 1 } else g, heating, false)
    else (g, moving, is_ok moved)
run_setup weigh step g c now =
    let (c', status) = tare c now in
    if g.scale_tared
    then (g, c, true)
    else (record g { scale_tared = is_ok status }, c', is_ok status)

unfoldable pub step_done : StepKind → RecipeStep → GuidedRecipe → McuClient → ℕ → Bool
step_done note step g c elapsed_ms = g.advance_requested
step_done weigh step g c elapsed_ms = leb_ℤ step.target_weight (latest c.store).grams
step_done _ step g c elapsed_ms =
    leb (u32 (step.duration_s * 1000)) (sub_u32 elapsed_ms g.step_started_ms)

unfoldable pub run_teardown :
    StepKind → GuidedRecipe → McuClient → ℕ → GuidedRecipe × McuClient × Bool
run_teardown mix g c now = let (c', status) = McuClient.motor_stop c now in (g, c', is_ok status)
run_teardown heat g c now =
    let (cooling, status) = McuClient.heater_off c now in
    let (stopped, done) = McuClient.motor_stop c now in
    if g.command_index == 0
    then (if is_ok status then record g { command_index = 1 } else g, cooling, false)
    else (g, stopped, is_ok done)
run_teardown _ g c now = (g, c, true)

unfoldable pub advance : GuidedRecipe → GuidedRecipe
advance g = record g {
  step_index = g.step_index + 1;
  phase = setup;
  command_index = 0;
  advance_requested = false;
}

-- The `switch` of `on_tick`.
unfoldable pub tick_phase :
    RecipePhase → RecipeStep → GuidedRecipe → McuClient → ℕ → ℕ → GuidedRecipe × McuClient
tick_phase setup step g c now elapsed_ms =
    let (g', c', done) = run_setup step.kind step g c now in
    (
      if done
          then record g' { step_started_ms = elapsed_ms; command_index = 0; phase = run }
          else g',
      c',
    )
tick_phase run step g c now elapsed_ms = (
  if step_done step.kind step g c elapsed_ms
      then record g { command_index = 0; phase = teardown }
      else g,
  c,
)
tick_phase teardown step g c now elapsed_ms =
    let (g', c', done) = run_teardown step.kind g c now in (if done then advance g' else g', c')

unfoldable pub guided_on_tick : GuidedRecipe → McuClient → ℕ → ℕ → GuidedRecipe × McuClient
guided_on_tick g c now elapsed_ms =
    if leb g.recipe.step_count g.step_index
    then (g, c)
    else tick_phase g.phase (get_or g.recipe.recipe_steps g.step_index empty_step) g c now
        elapsed_ms

unfoldable pub user_next : GuidedRecipe → GuidedRecipe
user_next g = record g { advance_requested = true }

-- A note that is being shown waits for the user.
abbrev pub is_running_note : RecipePhase → StepKind → Bool
is_running_note run note = true
is_running_note _ _ = false

unfoldable pub awaiting_user : GuidedRecipe → Bool
awaiting_user g =
    ltb g.step_index g.recipe.step_count
    && is_running_note g.phase (get_or g.recipe.recipe_steps g.step_index empty_step).kind

unfoldable pub progress_current : GuidedRecipe → ℕ
progress_current g =
    if ltb g.step_index g.recipe.step_count then g.step_index + 1 else g.recipe.step_count

unfoldable pub guided_finished : GuidedRecipe → Bool
guided_finished g = leb g.recipe.step_count g.step_index

setup_onward :
    (k : StepKind) (step : RecipeStep) (g : GuidedRecipe) (c : McuClient) (now : ℕ)
    → let g' = (run_setup k step g c now).0 in
      (g'.recipe ≡ g.recipe)
      × (g.scale_tared ≡ true → g'.scale_tared ≡ true)
      × (g'.step_index ≡ g.step_index)
unfolding run_setup
setup_onward note step g c now = ground arith
setup_onward mix step g c now = ground arith
setup_onward heat step g c now = ground arith
setup_onward weigh step g c now = ground arith

teardown_onward :
    (k : StepKind) (g : GuidedRecipe) (c : McuClient) (now : ℕ)
    → let g' = (run_teardown k g c now).0 in
      (g'.recipe ≡ g.recipe)
      × (g.scale_tared ≡ true → g'.scale_tared ≡ true)
      × (g'.step_index ≡ g.step_index)
unfolding run_teardown
teardown_onward note g c now = ground arith
teardown_onward mix g c now = ground arith
teardown_onward heat g c now = ground arith
teardown_onward weigh g c now = ground arith

-- The step that a program is at.
abbrev pub current_step : GuidedRecipe → RecipeStep
current_step g = get_or g.recipe.recipe_steps g.step_index empty_step

tick_phase_onward :
    (p : RecipePhase) (step : RecipeStep) (g : GuidedRecipe) (c : McuClient) (now elapsed_ms : ℕ)
    → let g' = (tick_phase p step g c now elapsed_ms).0 in
      (g'.recipe ≡ g.recipe)
      × (g.scale_tared ≡ true → g'.scale_tared ≡ true)
      × ((g'.step_index ≡ g.step_index) ⊎ ((p ≡ teardown) × (g'.step_index ≡ g.step_index + 1)))
unfolding tick_phase advance
tick_phase_onward setup step g c now elapsed_ms =
    let (recipe, tared, index) = setup_onward step.kind step g c now in
    elim (Bool-cases (run_setup step.kind step g c now).2) [
      | inl e ↦ rw e (recipe, tared, inl index)
      | inr e ↦ rw e (recipe, tared, inl index)
    ]
tick_phase_onward run step g c now elapsed_ms =
    elim (Bool-cases (step_done step.kind step g c elapsed_ms)) [
      | inl e ↦ rw e (refl, λ h. h, inl refl)
      | inr e ↦ rw e (refl, λ h. h, inl refl)
    ]
tick_phase_onward teardown step g c now elapsed_ms =
    let (recipe, tared, index) = teardown_onward step.kind g c now in
    elim (Bool-cases (run_teardown step.kind g c now).2) [
      | inl e ↦ rw e (recipe, tared, inr (refl, ap (λ k. k + 1) index))
      | inr e ↦ rw e (recipe, tared, inl index)
    ]

-- A tick stays at the current step or goes on to the very next one, and that only when the step is
-- being taken down; the recipe stays the same.
pub guided_on_tick_onward :
    (g : GuidedRecipe) (c : McuClient) (now elapsed_ms : ℕ)
    → let g' = (guided_on_tick g c now elapsed_ms).0 in
      (g'.recipe ≡ g.recipe)
      × ((g'.step_index ≡ g.step_index)
          ⊎ ((g.phase ≡ teardown) × (g'.step_index ≡ g.step_index + 1)))
unfolding guided_on_tick
guided_on_tick_onward g c now elapsed_ms =
    let (recipe, tared, index) = tick_phase_onward g.phase (current_step g) g c now elapsed_ms in
    elim (Bool-cases (leb g.recipe.step_count g.step_index)) [
      | inl e ↦ rw e (refl, inl refl)
      | inr e ↦ rw e (recipe, index)
    ]

tick_phase_weigh :
    (p : RecipePhase) (step : RecipeStep) (g : GuidedRecipe) (c : McuClient) (now elapsed_ms : ℕ)
    → g.scale_tared ≡ true
    → step.kind ≡ weigh
    → (tick_phase p step g c now elapsed_ms).1 ≡ c
unfolding tick_phase run_setup run_teardown
tick_phase_weigh setup step g c now elapsed_ms h k = rw (k, h) refl
tick_phase_weigh run step g c now elapsed_ms h k = refl
tick_phase_weigh teardown step g c now elapsed_ms h k = rw k refl

-- Once the scale counts as tared it does so at every later tick, and a tick at a weighing step then
-- sends nothing: no later weighing step tares the scale again.
pub guided_on_tick_tared :
    (g : GuidedRecipe) (c : McuClient) (now elapsed_ms : ℕ)
    → g.scale_tared ≡ true
    → ((guided_on_tick g c now elapsed_ms).0.scale_tared ≡ true)
      × ((current_step g).kind ≡ weigh → (guided_on_tick g c now elapsed_ms).1 ≡ c)
unfolding guided_on_tick
guided_on_tick_tared g c now elapsed_ms h =
    let (recipe, tared, index) = tick_phase_onward g.phase (current_step g) g c now elapsed_ms in
    elim (Bool-cases (leb g.recipe.step_count g.step_index)) [
      | inl e ↦ rw e (h, λ k. refl)
      | inr e ↦ rw e (tared h, tick_phase_weigh g.phase (current_step g) g c now elapsed_ms h)
    ]
