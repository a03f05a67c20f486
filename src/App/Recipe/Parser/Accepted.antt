-- ===== src/App/Recipe/Parser/Accepted.antt =====
-- The safety MCU takes what the parser lets through.
use agentic_engineering_trai.Base.{
  ℕ, ◌<◌, ◌≡◌, refl, ap, ◌∙◌, subst, List, true, false, ◌||◌, Option, none, arith, ℤ, pos, negsuc,
  ltb_ℤ, ◌≤ℤ◌, ◌++◌, get_or, IsInt16,
}
use agentic_engineering_trai.Common.Status.{ok}
use agentic_engineering_trai.Common.Floats.{Floats, FloatLaws}
use agentic_engineering_trai.Common.Text.{Converted}
use agentic_engineering_trai.Protocol.Wire.{Frame, is_request, heater_set_target, get_i16, put_i16}
use agentic_engineering_trai.Protocol.Wire.Fields.{get_i16-put_i16}
use agentic_engineering_trai.Mcu.Interlocks.{Inputs}
use agentic_engineering_trai.Mcu.HeaterPid
use agentic_engineering_trai.Mcu.Limits.{heater_min_target_deci, heater_max_target_deci}
use agentic_engineering_trai.Mcu.Device.{Mcu}
use agentic_engineering_trai.Mcu.CommandHandler.{
  respond, nack_request, handle_heater_set_target, run_entry, handle,
}
use agentic_engineering_trai.App.Recipe.{
  StepKind, note, mix, heat, weigh, is_heat, RecipeStep, empty_step, Recipe,
}
use agentic_engineering_trai.App.Recipe.Parser.{File, parse_recipe_file}
use agentic_engineering_trai.App.Recipe.Parser.Steps.{IsLegal, IsStep}
use agentic_engineering_trai.App.Recipe.Parser.Legal.{IsRunnable, parse_recipe_file-IsRunnable}

heat-IsLegal :
    (k : StepKind) (s : RecipeStep)
    → is_heat k ≡ true
    → IsLegal k s
    → (pos 370 ≤ℤ s.target_temp) × (s.target_temp ≤ℤ pos 1600)
heat-IsLegal note s e h = cc
heat-IsLegal mix s e h = cc
heat-IsLegal heat s e h = (h.0, h.1)
heat-IsLegal weigh s e h = cc

IsInt16-target : (t : ℤ) → pos 370 ≤ℤ t → t ≤ℤ pos 1600 → IsInt16 t
IsInt16-target (pos n) low high = (omega arith, omega arith)
IsInt16-target (negsuc n) low high = absurd (omega arith)

in_limits :
    (t : ℤ)
    → pos 370 ≤ℤ t
    → t ≤ℤ pos 1600
    → (ltb_ℤ t heater_min_target_deci || ltb_ℤ heater_max_target_deci t) ≡ false
in_limits (pos n) low high = ground arith
in_limits (negsuc n) low high = absurd (omega arith)

module _ (fl : Floats) where
  open fl use {Float}

  handle_heater_set_target-accepts :
      (t : ℤ) (rest : List ℕ) (request : Frame) (state : Inputs Float) (m : Mcu Float)
      → pos 370 ≤ℤ t
      → t ≤ℤ pos 1600
      → request.payload_len ≡ 2
      → request.payload ≡ put_i16 t ++ rest
      → handle_heater_set_target fl request state m
        ≡ respond fl (record m { pid = HeaterPid.set_target fl m.pid t }) request none 0
  unfolding handle_heater_set_target
  handle_heater_set_target-accepts t rest request state m low high size bytes =
      let read : get_i16 request.payload ≡ t =
        ap get_i16 bytes ∙ get_i16-put_i16 t rest (IsInt16-target t low high) in
      rw (size, read, in_limits t low high) refl

  handle-accepts :
      (t : ℤ) (rest : List ℕ) (request : Frame) (state : Inputs Float) (m : Mcu Float)
      → pos 370 ≤ℤ t
      → t ≤ℤ pos 1600
      → is_request request.type ≡ true
      → request.msg_id ≡ heater_set_target
      → request.payload_len ≡ 2
      → request.payload ≡ put_i16 t ++ rest
      → (handle fl request state false m
          ≡ respond fl (record m { pid = HeaterPid.set_target fl m.pid t }) request none 0)
        × (handle fl request state true m ≡ nack_request fl m request)
  unfolding handle run_entry
  handle-accepts t rest request state m low high kind id size bytes = (
    simp (kind, id) (handle_heater_set_target-accepts t rest request state m low high size bytes),
    simp (kind, id) refl,
  )

  -- The heating steps of a recipe that the parser accepted: when the request that sets the target of
  -- one of them arrives, with two bytes of payload that hold that target, the safety MCU sets it and
  -- hands a response to the link where there is no fault, whatever its state; in a fault it refuses
  -- the request and sets nothing.
  pub handle-heater_set_target-parse_recipe_file :
      (laws : FloatLaws fl) (strtof : List ℕ → Converted Float) (open_file : List ℕ → Option File)
      (path : List ℕ) (out recipe : Recipe) (s : RecipeStep) (i : ℕ) (rest : List ℕ)
      (request : Frame) (state : Inputs Float) (m : Mcu Float)
      → parse_recipe_file fl strtof open_file path out ≡ (recipe, ok)
      → i < recipe.step_count
      → get_or recipe.recipe_steps i empty_step ≡ s
      → is_heat s.kind ≡ true
      → is_request request.type ≡ true
      → request.msg_id ≡ heater_set_target
      → request.payload_len ≡ 2
      → request.payload ≡ put_i16 s.target_temp ++ rest
      → (handle fl request state false m
          ≡ respond fl
              (record m { pid = HeaterPid.set_target fl m.pid s.target_temp })
              request
              none
              0)
        × (handle fl request state true m ≡ nack_request fl m request)
  handle-heater_set_target-parse_recipe_file laws strtof open_file path out recipe s i rest request
        state m h below here hot kind id size bytes =
      let (runnable, steps, named) =
        parse_recipe_file-IsRunnable fl laws strtof open_file path out (ap (λ r. r.1) h) in
      let legal : IsStep s =
        subst IsStep here ((subst IsRunnable (ap (λ r. r.0) h) runnable).legal i below) in
      let (low, high) = heat-IsLegal s.kind s hot legal.1 in
      handle-accepts s.target_temp rest request state m low high kind id size bytes
