-- ===== src/Cli/Execute/Legal.antt =====
-- The programs that the commands can plan.
use agentic_engineering_trai.Base.{
  ℕ, ◌≤◌, ◌≡◌, sym, subst, List, Bool, true, false, not, ◌&&◌, ◌||◌, Option, none, some, ◌⊎◌, inl,
  inr, Bool-cases, pos, ◌≤ℤ◌, if◌then◌else◌,
}
use agentic_engineering_trai.Common.Floats.{Floats}
use agentic_engineering_trai.App.Recipe.RecipeLibrary.Stocked.{IsReady, IsStocked}
use agentic_engineering_trai.App.Cooking.Program.{
  Program, dough, manual, steam, sous_vide, turbo, guided,
}
use agentic_engineering_trai.App.Cooking.Controller.{
  CookingController, is_running, is_stopping, is_faulted, begin_shutdown, start_program,
  stop_session,
}
use agentic_engineering_trai.Cli.Commands.{CommandEnv, Outcome, accept, refuse}
use agentic_engineering_trai.Cli.Execute.{launch}

-- One minute to one day, in milliseconds.
abbrev pub IsDuration : ℕ → Type 0
IsDuration ms = (60000 ≤ ms) × (ms ≤ 86400000)

-- The programs within the limits of the machine.
abbrev pub IsLegalProgram : Program → Type 0
IsLegalProgram (dough p) = IsDuration p.duration_ms
IsLegalProgram (steam p) = IsDuration p.duration_ms
IsLegalProgram (manual p) =
    ((p.temp_deci ≡ pos 0) ⊎ (pos 370 ≤ℤ p.temp_deci) × (p.temp_deci ≤ℤ pos 1600))
    × (p.dial ≤ 10)
    × IsDuration p.duration_ms
IsLegalProgram (sous_vide p) =
    (pos 370 ≤ℤ p.target_deci) × (p.target_deci ≤ℤ pos 900) × IsDuration p.duration_ms
IsLegalProgram (turbo p) = (1 ≤ p.pulse_ms) × (p.pulse_ms ≤ 2000)
IsLegalProgram (guided p) = IsReady p.recipe

abbrev pub IsLegalPlan : Option Program → Type 0
IsLegalPlan none = Unit
IsLegalPlan (some p) = IsLegalProgram p

-- The library holds ready recipes, and a program that waits to be started is legal.
pub record IsPrepared {F : Type 0} (env : CommandEnv F) : Type 0 where
  pub stocked : IsStocked env.recipes
  pub legal : IsLegalPlan env.controller.pending_program

pub record Plans {F : Type 0} (o : Outcome F) : Type 0 where
  pub prepared : IsPrepared o.env

pub choose :
    {F : Type 0} (b : Bool) {x y : Outcome F} → Plans x → Plans y → Plans (if b then x else y)
choose true p q = p
choose false p q = q

module _ (fl : Floats) (stof : List ℕ → Option (fl.Float × ℕ)) where
  open fl use {Float, lt, le, is_finite}

  pub start_program-IsLegalPlan :
      (c : CookingController Float) (p : Program)
      → IsLegalPlan c.pending_program
      → IsLegalProgram p
      → IsLegalPlan (start_program fl c (some p)).0.pending_program
  unfolding start_program
  start_program-IsLegalPlan c p h k =
      elim (Bool-cases (
        (is_running c.state || is_stopping c.state)
        || (is_faulted c.state && not c.shutdown_motor_done))) [ inl e ↦ rw e h | inr e ↦ rw e k ]

  pub stop_session-IsLegalPlan :
      (c : CookingController Float)
      → IsLegalPlan c.pending_program
      → IsLegalPlan (stop_session fl c).pending_program
  unfolding stop_session begin_shutdown
  stop_session-IsLegalPlan c h = elim (Bool-cases (is_stopping c.state && c.start_after_shutdown)) [
    | inl e ↦ rw e _
    | inr e₁ ↦ elim (Bool-cases (not (is_stopping c.state) && not (is_faulted c.state))) [
      | inl e ↦ rw (e₁, e) _
      | inr e ↦ rw (e₁, e) h
    ]
  ]

  pub yes : {env : CommandEnv Float} → IsPrepared env → Plans (accept fl stof env)
  yes h = record { prepared = h }

  pub no : {env : CommandEnv Float} → IsPrepared env → Plans (refuse fl stof env)
  no h = record { prepared = h }

  -- A controller with the same plan, and a board that has changed.
  pub same_plan :
      (env after : CommandEnv Float)
      → IsPrepared env
      → after.recipes ≡ env.recipes
      → after.controller.pending_program ≡ env.controller.pending_program
      → Plans (accept fl stof after)
  same_plan env after h e k = yes record {
    stocked = subst IsStocked (sym e) h.stocked;
    legal = subst IsLegalPlan (sym k) h.legal;
  }

  pub new_plan :
      (env : CommandEnv Float) (p : Program)
      → IsPrepared env
      → IsLegalProgram p
      → Plans (launch fl stof env p)
  new_plan env p h k =
      yes
        record { stocked = h.stocked; legal = start_program-IsLegalPlan env.controller p h.legal k }
