-- ===== src/Programs/DeviceViewModel/Starts.antt =====
-- What the user interface lets the user start.
use mathlib.Core.Option.{some-injective}
use agentic_engineering_trai.Base.{
  ℕ, ◌*◌, ◌≤◌, ◌≡◌, refl, ap, ◌⊎◌, inl, inr, Bool, true, false, not, ◌&&◌, ◌||◌, Option, none, some,
  ℤ, pos, negsuc, pos_part, ◌≤ℤ◌, ltb_ℤ, arith, Bool-cases, branch, u8, u32, ltb, ltb→lt, ◌==◌,
  subst,
}
use agentic_engineering_trai.Common.Status.{Status}
use agentic_engineering_trai.Common.Floats.{Floats, FloatLaws, of_nat, between, from_celsius}
use agentic_engineering_trai.App.Recipe.{Recipe}
use agentic_engineering_trai.App.Recipe.RecipeLibrary.{RecipeLibrary, recipe_at}
use agentic_engineering_trai.App.Recipe.RecipeLibrary.Stocked.{IsReady, IsStocked}
use agentic_engineering_trai.App.Cooking.Program.{Program, guided}
use agentic_engineering_trai.App.Cooking.GuidedRecipe.{new_guided}
use agentic_engineering_trai.App.Cooking.Controller.{
  CookingController, start_program, start_manual, start_recipe, session_user_next,
  session_awaiting_user,
}
use agentic_engineering_trai.Cli.Execute.Legal.{
  IsDuration, IsLegalProgram, IsLegalPlan, start_program-IsLegalPlan, stop_session-IsLegalPlan,
}
use agentic_engineering_trai.Programs.DeviceViewModel.{
  DeviceViewModel, put_controller, start_found, start_recipe_at, start_manual_ui, is_off_scale,
  next_step, stop_ui, vm_tare, request_shutdown, finish_ui, is_over,
}

-- The recipes are ready, and a program that waits to be started is legal.
pub record IsPlanned {F : Type 0} (m : DeviceViewModel F) : Type 0 where
  pub stocked : IsStocked m.recipes
  pub legal : IsLegalPlan m.runtime.controller.pending_program

-- The conversion to `float` keeps a value between two integers.
pub record Narrows (fl dbl : Floats) (narrow : dbl.Float → fl.Float) : Type 0 where
  pub within :
      (a b : ℕ) (x : dbl.Float)
      → a ≤ 1070
      → b ≤ 1070
      → dbl.le (of_nat dbl a) x ≡ true
      → dbl.le x (of_nat dbl b) ≡ true
      → (fl.le (of_nat fl a) (narrow x) ≡ true) × (fl.le (narrow x) (of_nat fl b) ≡ true)

zero_only : (z : ℤ) → pos 0 ≤ℤ z → z ≤ℤ pos 0 → z ≡ pos 0
zero_only (pos n) h k = ap pos (omega arith)
zero_only (negsuc n) h k = absurd (omega arith)

minutes-IsDuration :
    (m : ℤ)
    → ltb_ℤ m (pos 1) ≡ false
    → ltb_ℤ (pos 1440) m ≡ false
    → IsDuration (u32 (u32 (pos_part m * 60) * 1000))
minutes-IsDuration m h k = (ground arith, ground arith)

none-some : (r : Recipe) → ◌≡◌ {A = Option Recipe} none (some r) → ⊥
none-some r e = cc

dial_small : (speed : ℤ) → ltb_ℤ (pos 10) speed ≡ false → u8 (pos_part speed) ≤ 10
dial_small speed h = ground arith

module _ (fl : Floats) where
  open fl use {Float}

  next_step-IsPlanned : (m : DeviceViewModel Float) → IsPlanned m → IsPlanned (next_step fl m)
  unfolding next_step session_user_next
  next_step-IsPlanned m h =
      branch IsPlanned (session_awaiting_user fl m.runtime.controller)
        (λ e. record { stocked = h.stocked; legal = h.legal }) (λ e. h)

  stop_ui-IsPlanned : (m : DeviceViewModel Float) → IsPlanned m → IsPlanned (stop_ui fl m)
  unfolding stop_ui
  stop_ui-IsPlanned m h = record {
    stocked = h.stocked;
    legal = stop_session-IsLegalPlan fl (λ s. none) m.runtime.controller h.legal;
  }

  vm_tare-IsPlanned : (m : DeviceViewModel Float) → IsPlanned m → IsPlanned (vm_tare m).0
  unfolding vm_tare
  vm_tare-IsPlanned m h =
      branch (λ (k : DeviceViewModel Float × Bool). IsPlanned k.0) m.connected
        (λ e. record { stocked = h.stocked; legal = h.legal }) (λ e. h)

  request_shutdown-IsPlanned :
      (m : DeviceViewModel Float) → IsPlanned m → IsPlanned (request_shutdown fl m)
  unfolding request_shutdown finish_ui
  request_shutdown-IsPlanned m h =
      branch IsPlanned (m.ready_to_quit || m.shutdown_requested) (λ e. h)
        (λ e.
          branch IsPlanned (is_over m.runtime.controller.state)
            (λ f. record { stocked = h.stocked; legal = h.legal })
            (λ f. record {
              stocked = h.stocked;
              legal = stop_session-IsLegalPlan fl (λ s. none) m.runtime.controller h.legal;
            }))

  start_program-IsPlanned :
      (m : DeviceViewModel Float) (p : Program)
      → IsPlanned m
      → IsLegalProgram p
      → IsPlanned (put_controller m (start_program fl m.runtime.controller (some p)).0)
  start_program-IsPlanned m p h k = record {
    stocked = h.stocked;
    legal = start_program-IsLegalPlan fl (λ s. none) m.runtime.controller p h.legal k;
  }

  start_found-IsPlanned :
      (o : Option Recipe) (m : DeviceViewModel Float)
      → IsPlanned m
      → ((r : Recipe) → o ≡ some r → IsReady r)
      → IsPlanned (start_found fl m o).0
  unfolding start_recipe
  start_found-IsPlanned none m h k = h
  start_found-IsPlanned (some r) m h k =
      branch (λ (c : CookingController Float × Status). IsPlanned (put_controller m c.0))
        (r.step_count == 0) (λ e. record { stocked = h.stocked; legal = h.legal })
        (λ e. start_program-IsPlanned m (guided (new_guided r)) h (k r refl))

  recipe_at-IsReady :
      (l : RecipeLibrary) (i : ℕ) (r : Recipe) → IsStocked l → recipe_at l i ≡ some r → IsReady r
  unfolding recipe_at
  recipe_at-IsReady l i r h e = elim (Bool-cases (ltb i l.count)) [
    | inl below ↦
        subst IsReady (some-injective _ r (rw below at e)) (h.ready i (ltb→lt i l.count below))
    | inr above ↦ absurd (none-some r (rw above at e))
  ]

  start_recipe_at-IsPlanned :
      (m : DeviceViewModel Float) (index : ℤ)
      → IsPlanned m
      → IsPlanned (start_recipe_at fl m index).0
  unfolding start_recipe_at
  start_recipe_at-IsPlanned m index h =
      branch (λ (k : DeviceViewModel Float × Bool). IsPlanned k.0)
        (not m.connected || ltb_ℤ index (pos 0)) (λ e. h)
        (λ e.
          start_found-IsPlanned (recipe_at m.recipes (pos_part index)) m h
            (λ r found. recipe_at-IsReady m.recipes (pos_part index) r h.stocked found))

  module _ (laws : FloatLaws fl) (dbl : Floats) (dbl_laws : FloatLaws dbl)
      (narrow : dbl.Float → Float) (narrows : Narrows fl dbl narrow) where
    -- Zero, or a temperature that the heater takes.
    legal_heat :
        (x : dbl.Float)
        → dbl.is_finite x ≡ true
        → is_off_scale fl dbl narrow x ≡ false
        → (from_celsius fl (narrow x) ≡ pos 0)
          ⊎ (pos 370 ≤ℤ from_celsius fl (narrow x)) × (from_celsius fl (narrow x) ≤ℤ pos 1600)
    legal_heat x real scale =
        elim (Bool-cases (dbl.le x (of_nat dbl 0) && dbl.le (of_nat dbl 0) x)) [
          | inl zero ↦
              let (above, below) =
                narrows.within 0 0 x (omega arith) (omega arith) (ground (arith, zero))
                  (ground (arith, zero)) in
              let (least, most) =
                laws.trunc_ten 0 0 (narrow x) (omega arith) (omega arith) above below in
              inl (zero_only (from_celsius fl (narrow x)) least most)
          | inr other ↦
              let (low, high) =
                between dbl dbl_laws 37 160 x (omega arith) (omega arith) real
                  (ground (arith, scale, other)) (ground (arith, scale, other)) in
              let (above, below) = narrows.within 37 160 x (omega arith) (omega arith) low high in
              inr (laws.trunc_ten 37 160 (narrow x) (omega arith) (omega arith) above below)
        ]

    start_manual_ui-IsPlanned :
        (m : DeviceViewModel Float) (t : dbl.Float) (speed minutes : ℤ)
        → IsPlanned m
        → IsPlanned (start_manual_ui fl dbl narrow m t speed minutes).0
    unfolding start_manual_ui start_manual
    start_manual_ui-IsPlanned m t speed minutes h =
        branch (λ (k : DeviceViewModel Float × Bool). IsPlanned k.0)
          (((not m.connected || not (dbl.is_finite t))
              || (ltb_ℤ speed (pos 0) || ltb_ℤ (pos 10) speed))
            || ((ltb_ℤ minutes (pos 1) || ltb_ℤ (pos 1440) minutes)
                || is_off_scale fl dbl narrow t))
          (λ e. h)
          (λ e. start_program-IsPlanned m _ h (
            legal_heat t (ground (arith, e)) (ground (arith, e)),
            dial_small speed (ground (arith, e)),
            minutes-IsDuration minutes (ground (arith, e)) (ground (arith, e)),
          ))

    -- What the user can do to the session.
    pub data UiCall : Type 0 where
      starts_manual : dbl.Float → ℤ → ℤ → UiCall
      starts_recipe : ℤ → UiCall
      steps_on stops_session tares asks_to_quit : UiCall

    unfoldable pub ui_call : DeviceViewModel Float → UiCall → DeviceViewModel Float
    ui_call m (starts_manual t speed minutes) = (start_manual_ui fl dbl narrow m t speed minutes).0
    ui_call m (starts_recipe index) = (start_recipe_at fl m index).0
    ui_call m steps_on = next_step fl m
    ui_call m stops_session = stop_ui fl m
    ui_call m tares = (vm_tare m).0
    ui_call m asks_to_quit = request_shutdown fl m

    -- Whatever the user asks for, with whatever numbers, a program that then waits to be started is within
    -- the limits of the machine, when that was so before and the recipes of the library are ready. The
    -- laws of both floating-point types are assumed.
    pub ui_call-IsPlanned :
        (m : DeviceViewModel Float) (call : UiCall) → IsPlanned m → IsPlanned (ui_call m call)
    unfolding ui_call
    ui_call-IsPlanned m (starts_manual t speed minutes) h =
        start_manual_ui-IsPlanned m t speed minutes h
    ui_call-IsPlanned m (starts_recipe index) h = start_recipe_at-IsPlanned m index h
    ui_call-IsPlanned m steps_on h = next_step-IsPlanned m h
    ui_call-IsPlanned m stops_session h = stop_ui-IsPlanned m h
    ui_call-IsPlanned m tares h = vm_tare-IsPlanned m h
    ui_call-IsPlanned m asks_to_quit h = request_shutdown-IsPlanned m h
