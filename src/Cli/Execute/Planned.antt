-- ===== src/Cli/Execute/Planned.antt =====
-- No command line plans a program outside the limits of the machine.
use agentic_engineering_trai.Base.{
  ℕ, refl, All, List, [], ◌∷◌, Bool, true, false, not, ◌&&◌, ◌||◌, Option, none, some, length, drop,
  leb, ltb, ◌==◌, if◌then◌else◌,
}
use agentic_engineering_trai.Common.Floats.{Floats, FloatLaws}
use agentic_engineering_trai.Common.Text.{codes, equal, starts_with}
use agentic_engineering_trai.App.OtaUpdater.{OtaUpdater, is_verifying}
use agentic_engineering_trai.App.Recipe.RecipeLibrary.Stocked.{find-IsReady}
use agentic_engineering_trai.App.Cooking.Controller.{stop_session, session_user_next}
use agentic_engineering_trai.Cli.Numbers.{tokenize, parse_unsigned, parse_duration_ms}
use agentic_engineering_trai.Cli.Numbers.Bounds.{parse_unsigned-IsAtMost}
use agentic_engineering_trai.Cli.Commands.{
  CommandEnv, Outcome, accept, word, with_controller, join_words, handle_add, add_parsed,
  handle_expect, judge,
}
use agentic_engineering_trai.Cli.Execute.{
  at_rest, ota_sized, ota_with, handle_ota, wait_parsed, handle_lid, first_of, cooking_commands,
  other_commands, execute_words, execute_command,
}
use agentic_engineering_trai.Cli.Execute.Legal.{
  IsPrepared, Plans, choose, yes, no, same_plan, stop_session-IsLegalPlan,
}
use agentic_engineering_trai.Cli.Execute.Parsed.{
  parse_float-IsParsed, set_temp_parsed-Plans, set_speed_parsed-Plans, manual_parsed-Plans,
  timed_parsed-Plans, sous_vide_parsed-Plans, turbo_parsed-Plans, load_found-Plans,
}

module _ (fl : Floats) (stof : List ℕ → Option (fl.Float × ℕ)) where
  open fl use {Float}

  add_parsed-Plans :
      (o : Option Float) (env : CommandEnv Float) (name : List ℕ)
      → IsPrepared env
      → Plans (add_parsed fl stof o env name)
  add_parsed-Plans none env name h = no fl stof h
  add_parsed-Plans (some g) env name h = same_plan fl stof env _ h refl refl

  handle_add-Plans :
      (env : CommandEnv Float) (args : List (List ℕ))
      → IsPrepared env
      → Plans (handle_add fl stof env args)
  unfolding handle_add
  handle_add-Plans env args h =
      choose (not (length args == 3)) (no fl stof h)
        (add_parsed-Plans _ env (word fl stof args 1) h)

  judge-Plans :
      (o : Option Bool) (env : CommandEnv Float) → IsPrepared env → Plans (judge fl stof o env)
  judge-Plans none env h = no fl stof h
  judge-Plans (some true) env h = yes fl stof h
  judge-Plans (some false) env h = same_plan fl stof env _ h refl refl

  handle_expect-Plans :
      (env : CommandEnv Float) (args : List (List ℕ))
      → IsPrepared env
      → Plans (handle_expect fl stof env args)
  unfolding handle_expect
  handle_expect-Plans env args h =
      choose (not (length args == 4)) (no fl stof h) (judge-Plans _ env h)

  ota_sized-Plans :
      (o : Option ℕ) (env : CommandEnv Float) (u : OtaUpdater) (args : List (List ℕ))
      → IsPrepared env
      → Plans (ota_sized fl stof o env u args)
  ota_sized-Plans none env u args h = no fl stof h
  ota_sized-Plans (some kib) env u args h =
      choose (kib == 0 || (length args == 3 && not (equal (word fl stof args 2) (codes "corrupt"))))
        (no fl stof h) (same_plan fl stof env _ h refl refl)

  ota_with-Plans :
      (o : Option OtaUpdater) (env : CommandEnv Float) (args : List (List ℕ))
      → IsPrepared env
      → Plans (ota_with fl stof o env args)
  ota_with-Plans none env args h = no fl stof h
  ota_with-Plans (some u) env args h =
      choose ((not (at_rest env.controller.state) || is_verifying u.state) || ltb 3 (length args))
        (no fl stof h)
        (ota_sized-Plans
          (if leb 2 (length args) then parse_unsigned (word fl stof args 1) 65536 else some 512) env
          u args h)

  wait_parsed-Plans :
      (o : Option ℕ) (env : CommandEnv Float) → IsPrepared env → Plans (wait_parsed fl stof o env)
  unfolding wait_parsed
  wait_parsed-Plans none env h = no fl stof h
  wait_parsed-Plans (some ms) env h = record { prepared = h }

  handle_lid-Plans :
      (env : CommandEnv Float) (how : List ℕ) → IsPrepared env → Plans (handle_lid fl stof env how)
  unfolding handle_lid
  handle_lid-Plans env how h =
      choose (equal how (codes "open")) (same_plan fl stof env _ h refl refl) (
        choose (equal how (codes "close")) (same_plan fl stof env _ h refl refl) (
          choose (equal how (codes "lock")) (same_plan fl stof env _ h refl refl) (
            choose (equal how (codes "unlock")) (same_plan fl stof env _ h refl refl)
              (no fl stof h))))

  stopped :
      (env : CommandEnv Float)
      → IsPrepared env
      → Plans (accept fl stof (with_controller fl stof env (stop_session fl env.controller)))
  stopped env h = yes fl stof record {
    stocked = h.stocked;
    legal = stop_session-IsLegalPlan fl stof env.controller h.legal;
  }

  first_of-Plans :
      (os : List (Bool × Outcome Float)) (other : Outcome Float)
      → All (λ o. Plans o.1) os
      → Plans other
      → Plans (first_of fl stof os other)
  unfolding first_of
  first_of-Plans [] other h k = k
  first_of-Plans ((b, o) ∷ os) other h k = choose b h.0 (first_of-Plans os other h.1 k)

  other_commands-Plans :
      (env : CommandEnv Float) (cmd : List ℕ) (args : List (List ℕ))
      → IsPrepared env
      → All (λ o. Plans o.1) (other_commands fl stof env cmd args)
  unfolding handle_ota session_user_next
  other_commands-Plans env cmd args h = (
    yes fl stof h,
    (
      yes fl stof h,
      (
        handle_add-Plans env args h,
        (
          same_plan fl stof env _ h refl refl,
          (
            stopped env h,
            (
              same_plan fl stof env _ h refl refl,
              (
                yes fl stof h,
                (
                  handle_lid-Plans env (word fl stof args 1) h,
                  (
                    ota_with-Plans env.controller.ota env args h,
                    (
                      wait_parsed-Plans (parse_duration_ms (word fl stof args 1)) env h,
                      (handle_expect-Plans env args h, (same_plan fl stof env _ h refl refl, _)),
                    ),
                  ),
                ),
              ),
            ),
          ),
        ),
      ),
    ),
  )

  module _ (laws : FloatLaws fl) where
    cooking_commands-Plans :
        (env : CommandEnv Float) (cmd : List ℕ) (args : List (List ℕ))
        → IsPrepared env
        → All (λ o. Plans o.1) (cooking_commands fl stof env cmd args)
    cooking_commands-Plans env cmd args h =
        let a = word fl stof args in
        let minutes = parse_unsigned-IsAtMost (a 1) 1440 in
        (
          set_temp_parsed-Plans fl stof laws _ env h,
          (
            set_speed_parsed-Plans fl stof laws _ env h,
            (
              manual_parsed-Plans fl stof laws _ _ _ env h
                  (parse_float-IsParsed fl stof (a 1) 0 160) (parse_unsigned-IsAtMost (a 2) 10)
                  (parse_unsigned-IsAtMost (a 3) 1440),
              (
                timed_parsed-Plans fl stof laws _ _ env (λ s d. d) h minutes,
                (
                  timed_parsed-Plans fl stof laws _ _ env (λ s d. d) h minutes,
                  (
                    sous_vide_parsed-Plans fl stof laws _ _ env h
                        (parse_unsigned-IsAtMost (a 2) 1440),
                    (
                      turbo_parsed-Plans fl stof laws _ env h (parse_unsigned-IsAtMost (a 1) 2000),
                      (
                        load_found-Plans fl stof laws _ env h (λ r e.
                            (find-IsReady env.recipes (join_words (drop 1 args)) r h.stocked e).0),
                        _,
                      ),
                    ),
                  ),
                ),
              ),
            ),
          ),
        )

    execute_words-Plans :
        (env : CommandEnv Float) (args : List (List ℕ))
        → IsPrepared env
        → Plans (execute_words fl stof env args)
    execute_words-Plans env [] h = yes fl stof h
    execute_words-Plans env (cmd ∷ args) h = choose (starts_with cmd (codes "#")) (yes fl stof h) (
        first_of-Plans _ _ (cooking_commands-Plans env cmd (cmd ∷ args) h)
          (first_of-Plans _ _ (other_commands-Plans env cmd (cmd ∷ args) h) (no fl stof h)))

    -- Whatever line is typed, a program that then waits to be started is within the limits of the machine
    -- when it was so before: dough and steam last a minute to a day; manual cooking too, with a dial of
    -- at most 10, and heats to nothing or to 37.0 to 160.0 degrees; sous-vide to 37.0 to 90.0; a pulse
    -- lasts 1 ms to 2 s; a recipe is ready. The library holds ready recipes before and behind it. `stof`
    -- is arbitrary; the floating-point laws are assumed.
    pub execute_command-IsPrepared :
        (env : CommandEnv Float) (line : List ℕ)
        → IsPrepared env
        → IsPrepared (execute_command fl stof env line).env
    unfolding execute_command
    execute_command-IsPrepared env line h = (execute_words-Plans env (tokenize line) h).prepared
