-- ===== src/Cli/Execute/Parsed.antt =====
-- The programs that the parsed arguments of a command plan.
use agentic_engineering_trai.Base.{
  ℕ, ◌*◌, ◌≤◌, ◌≡◌, refl, ap, List, true, false, not, ◌||◌, Option, none, some, arith, ◌⊎◌, inl,
  inr, Bool-cases, ℤ, pos, negsuc, ◌≤ℤ◌, length, ◌==◌, u8, u32,
}
use agentic_engineering_trai.Common.Floats.{Floats, FloatLaws, of_nat, from_celsius, between}
use agentic_engineering_trai.App.Recipe.{Recipe}
use agentic_engineering_trai.App.Recipe.RecipeLibrary.Stocked.{IsReady}
use agentic_engineering_trai.App.Cooking.TimedModes.{new_manual}
use agentic_engineering_trai.App.Cooking.SousVide.{new_sous_vide}
use agentic_engineering_trai.App.Cooking.TurboPulse.{new_turbo}
use agentic_engineering_trai.App.Cooking.GuidedRecipe.{new_guided}
use agentic_engineering_trai.App.Cooking.Program.{Program, manual, sous_vide, turbo, guided}
use agentic_engineering_trai.App.Cooking.Controller.{CookingController, start_manual, start_recipe}
use agentic_engineering_trai.Cli.Numbers.{parse_float, accept_float}
use agentic_engineering_trai.Cli.Numbers.Bounds.{IsAtMost}
use agentic_engineering_trai.Cli.Commands.{CommandEnv}
use agentic_engineering_trai.Cli.Execute.{
  too_cold, set_temp_parsed, set_speed_parsed, manual_parsed, timed_parsed, sous_vide_parsed,
  turbo_parsed, load_found,
}
use agentic_engineering_trai.Cli.Execute.Legal.{
  IsDuration, IsLegalProgram, IsLegalPlan, IsPrepared, Plans, choose, yes, no, same_plan, new_plan,
  start_program-IsLegalPlan,
}

module _ (fl : Floats) (stof : List ℕ → Option (fl.Float × ℕ)) where
  open fl use {Float, lt, le, is_finite}

  -- A parsed float lies between the two integers.
  abbrev pub IsParsed : ℕ → ℕ → Option Float → Type 0
  IsParsed low high none = Unit
  IsParsed low high (some x) =
      (is_finite x ≡ true) × (lt x (of_nat fl low) ≡ false) × (lt (of_nat fl high) x ≡ false)

  accept_float-IsParsed :
      (o : Option (Float × ℕ)) (size low high : ℕ)
      → IsParsed low high (accept_float fl stof o size (of_nat fl low) (of_nat fl high))
  accept_float-IsParsed none size low high = _
  accept_float-IsParsed (some (x, consumed)) size low high =
      elim (Bool-cases (
        (not (consumed == size) || not (is_finite x))
        || (lt x (of_nat fl low) || lt (of_nat fl high) x))) [
          | inl e ↦ rw e _
          | inr e ↦ rw e ((ground arith, ground arith, ground arith))
        ]

  pub parse_float-IsParsed :
      (text : List ℕ) (low high : ℕ)
      → IsParsed low high (parse_float fl stof text (of_nat fl low) (of_nat fl high))
  unfolding parse_float
  parse_float-IsParsed text low high = accept_float-IsParsed (stof text) (length text) low high

  minutes-IsDuration :
      (m : ℕ) → m ≤ 1440 → (m == 0) ≡ false → IsDuration (u32 (u32 (m * 60) * 1000))
  minutes-IsDuration m h k = (ground arith, ground arith)

  zero_only : (z : ℤ) → pos 0 ≤ℤ z → z ≤ℤ pos 0 → z ≡ pos 0
  zero_only (pos n) h k = ap pos (omega arith)
  zero_only (negsuc n) h k = absurd (omega arith)

  module _ (laws : FloatLaws fl) where
    -- Zero, or a temperature that the heater takes.
    legal_temp :
        (x : Float)
        → IsParsed 0 160 (some x)
        → too_cold fl stof x ≡ false
        → (from_celsius fl x ≡ pos 0)
          ⊎ (pos 370 ≤ℤ from_celsius fl x) × (from_celsius fl x ≤ℤ pos 1600)
    legal_temp x (real, low, high) warm = elim (Bool-cases (lt (of_nat fl 0) x)) [
      | inl e ↦
          let (above, below) =
            between fl laws 37 160 x (omega arith) (omega arith) real (ground arith) high in
          inr (laws.trunc_ten 37 160 x (omega arith) (omega arith) above below)
      | inr e ↦
          let (above, below) = between fl laws 0 0 x (omega arith) (omega arith) real low e in
          let (least, most) = laws.trunc_ten 0 0 x (omega arith) (omega arith) above below in
          inl (zero_only (from_celsius fl x) least most)
    ]

    pub set_temp_parsed-Plans :
        (o : Option Float) (env : CommandEnv Float)
        → IsPrepared env
        → Plans (set_temp_parsed fl stof o env)
    unfolding set_temp_parsed
    set_temp_parsed-Plans none env h = no fl stof h
    set_temp_parsed-Plans (some c) env h =
        choose (too_cold fl stof c) (no fl stof h) (same_plan fl stof env _ h refl refl)

    pub set_speed_parsed-Plans :
        (o : Option ℕ) (env : CommandEnv Float)
        → IsPrepared env
        → Plans (set_speed_parsed fl stof o env)
    unfolding set_speed_parsed
    set_speed_parsed-Plans none env h = no fl stof h
    set_speed_parsed-Plans (some d) env h = same_plan fl stof env _ h refl refl

    pub manual_parsed-Plans :
        (o : Option Float) (p q : Option ℕ) (env : CommandEnv Float)
        → IsPrepared env
        → IsParsed 0 160 o
        → IsAtMost 10 p
        → IsAtMost 1440 q
        → Plans (manual_parsed fl stof o p q env)
    unfolding manual_parsed start_manual
    manual_parsed-Plans (some c) (some d) (some m) env h i j k =
        elim (Bool-cases (too_cold fl stof c || m == 0)) [
          | inl e ↦ rw e (no fl stof h)
          | inr e ↦ rw e (
              new_plan fl stof env (manual (new_manual (from_celsius fl c) (u8 d) (u32 (m * 60)))) h
                (
                  legal_temp c i (ground arith),
                  ground arith,
                  minutes-IsDuration m k (ground arith),
                ))
        ]
    manual_parsed-Plans (some c) (some d) none env h i j k = no fl stof h
    manual_parsed-Plans (some c) none q env h i j k = no fl stof h
    manual_parsed-Plans none p q env h i j k = no fl stof h

    pub timed_parsed-Plans :
        (f : ℕ → Program) (o : Option ℕ) (env : CommandEnv Float)
        → ((s : ℕ) → IsDuration (u32 (s * 1000)) → IsLegalProgram (f s))
        → IsPrepared env
        → IsAtMost 1440 o
        → Plans (timed_parsed fl stof f o env)
    unfolding timed_parsed
    timed_parsed-Plans f none env g h k = no fl stof h
    timed_parsed-Plans f (some m) env g h k = elim (Bool-cases (m == 0)) [
      | inl e ↦ rw e (no fl stof h)
      | inr e ↦
          rw e (
            new_plan fl stof env (f (u32 (m * 60))) h (g (u32 (m * 60)) (minutes-IsDuration m k e)))
    ]

    new_sous_vide-IsLegal :
        (t : ℤ) (s : ℕ)
        → IsDuration (u32 (s * 1000))
        → IsLegalProgram (sous_vide (new_sous_vide t s))
    unfolding new_sous_vide
    new_sous_vide-IsLegal (pos t) s d = (ground arith, ground arith, d)
    new_sous_vide-IsLegal (negsuc t) s d = (ground arith, ground arith, d)

    pub sous_vide_parsed-Plans :
        (o : Option Float) (p : Option ℕ) (env : CommandEnv Float)
        → IsPrepared env
        → IsAtMost 1440 p
        → Plans (sous_vide_parsed fl stof o p env)
    unfolding sous_vide_parsed
    sous_vide_parsed-Plans none p env h k = no fl stof h
    sous_vide_parsed-Plans (some c) p env h k =
        timed_parsed-Plans (λ s. sous_vide (new_sous_vide (from_celsius fl c) s)) p env
          (new_sous_vide-IsLegal (from_celsius fl c)) h k

    pub turbo_parsed-Plans :
        (o : Option ℕ) (env : CommandEnv Float)
        → IsPrepared env
        → IsAtMost 2000 o
        → Plans (turbo_parsed fl stof o env)
    unfolding turbo_parsed
    turbo_parsed-Plans none env h k = no fl stof h
    turbo_parsed-Plans (some p) env h k = elim (Bool-cases (p == 0)) [
      | inl e ↦ rw e (no fl stof h)
      | inr e ↦
          rw e (new_plan fl stof env (turbo (new_turbo (u32 p))) h (ground arith, ground arith))
    ]

    start_recipe-IsLegalPlan :
        (c : CookingController Float) (r : Recipe)
        → IsLegalPlan c.pending_program
        → IsReady r
        → IsLegalPlan (start_recipe fl c (some r)).0.pending_program
    unfolding start_recipe
    start_recipe-IsLegalPlan c r h k = elim (Bool-cases (r.step_count == 0)) [
      | inl e ↦ rw e h
      | inr e ↦ rw e (start_program-IsLegalPlan fl stof c (guided (new_guided r)) h k)
    ]

    pub load_found-Plans :
        (o : Option Recipe) (env : CommandEnv Float)
        → IsPrepared env
        → ((r : Recipe) → o ≡ some r → IsReady r)
        → Plans (load_found fl stof o env)
    unfolding load_found
    load_found-Plans none env h k = yes fl stof h
    load_found-Plans (some r) env h k = yes fl stof record {
      stocked = h.stocked;
      legal = start_recipe-IsLegalPlan env.controller r h.legal (k r refl);
    }
