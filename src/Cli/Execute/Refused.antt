-- ===== src/Cli/Execute/Refused.antt =====
-- A command that is refused does nothing.
use agentic_engineering_trai.Base.{
  ℕ, ◌≡◌, refl, All, List, [], ◌∷◌, Bool, true, false, not, Option, none, some, length, ◌==◌,
  if◌then◌else◌,
}
use agentic_engineering_trai.Common.Floats.{Floats}
use agentic_engineering_trai.Common.Text.{codes, starts_with}
use agentic_engineering_trai.App.OtaUpdater.{OtaUpdater}
use agentic_engineering_trai.App.Recipe.{Recipe}
use agentic_engineering_trai.App.Cooking.Program.{Program}
use agentic_engineering_trai.Cli.Numbers.{tokenize}
use agentic_engineering_trai.Cli.Commands.{
  CommandEnv, Outcome, accept, refuse, handle_add, add_parsed, handle_expect, judge,
}
use agentic_engineering_trai.Cli.Execute.{
  ota_sized, ota_with, handle_ota, set_temp_parsed, set_speed_parsed, manual_parsed, timed_parsed,
  sous_vide_parsed, turbo_parsed, load_found, wait_parsed, handle_lid, first_of, cooking_commands,
  other_commands, execute_words, execute_command,
}

-- An outcome that is refused leaves the environment as it was, and lets no time pass.
record Keeps {F : Type 0} (env : CommandEnv F) (o : Outcome F) : Type 0 where
  same : o.accepted ≡ false → (o.env ≡ env) × (o.wait_ms ≡ 0)

choose :
    {F : Type 0} (b : Bool) {env : CommandEnv F} {x y : Outcome F}
    → Keeps env x
    → Keeps env y
    → Keeps env (if b then x else y)
choose true p q = p
choose false p q = q

module _ (fl : Floats) (stof : List ℕ → Option (fl.Float × ℕ)) where
  open fl use {Float}

  yes : {env : CommandEnv Float} (after : CommandEnv Float) → Keeps env (accept fl stof after)
  yes after = record { same = λ h. cc }

  no : {env : CommandEnv Float} → Keeps env (refuse fl stof env)
  no = record { same = λ h. (refl, refl) }

  add_parsed-Keeps :
      (o : Option Float) (env : CommandEnv Float) (name : List ℕ)
      → Keeps env (add_parsed fl stof o env name)
  add_parsed-Keeps none env name = no
  add_parsed-Keeps (some g) env name = yes _

  handle_add-Keeps :
      (env : CommandEnv Float) (args : List (List ℕ)) → Keeps env (handle_add fl stof env args)
  unfolding handle_add
  handle_add-Keeps env args = choose (not (length args == 3)) no (add_parsed-Keeps _ env _)

  judge-Keeps : (o : Option Bool) (env : CommandEnv Float) → Keeps env (judge fl stof o env)
  judge-Keeps none env = no
  judge-Keeps (some true) env = yes _
  judge-Keeps (some false) env = yes _

  handle_expect-Keeps :
      (env : CommandEnv Float) (args : List (List ℕ)) → Keeps env (handle_expect fl stof env args)
  unfolding handle_expect
  handle_expect-Keeps env args = choose (not (length args == 4)) no (judge-Keeps _ env)

  ota_sized-Keeps :
      (o : Option ℕ) (env : CommandEnv Float) (u : OtaUpdater) (args : List (List ℕ))
      → Keeps env (ota_sized fl stof o env u args)
  ota_sized-Keeps none env u args = no
  ota_sized-Keeps (some kib) env u args = search (choose, yes, no)

  ota_with-Keeps :
      (o : Option OtaUpdater) (env : CommandEnv Float) (args : List (List ℕ))
      → Keeps env (ota_with fl stof o env args)
  ota_with-Keeps none env args = no
  ota_with-Keeps (some u) env args = search (choose, no, ota_sized-Keeps)

  set_temp_parsed-Keeps :
      (o : Option Float) (env : CommandEnv Float) → Keeps env (set_temp_parsed fl stof o env)
  unfolding set_temp_parsed
  set_temp_parsed-Keeps none env = no
  set_temp_parsed-Keeps (some c) env = search (choose, yes, no)

  set_speed_parsed-Keeps :
      (o : Option ℕ) (env : CommandEnv Float) → Keeps env (set_speed_parsed fl stof o env)
  unfolding set_speed_parsed
  set_speed_parsed-Keeps none env = no
  set_speed_parsed-Keeps (some d) env = yes _

  manual_parsed-Keeps :
      (o : Option Float) (p q : Option ℕ) (env : CommandEnv Float)
      → Keeps env (manual_parsed fl stof o p q env)
  unfolding manual_parsed
  manual_parsed-Keeps (some c) (some d) (some m) env = search (choose, yes, no)
  manual_parsed-Keeps (some c) (some d) none env = no
  manual_parsed-Keeps (some c) none q env = no
  manual_parsed-Keeps none p q env = no

  timed_parsed-Keeps :
      (f : ℕ → Program) (o : Option ℕ) (env : CommandEnv Float)
      → Keeps env (timed_parsed fl stof f o env)
  unfolding timed_parsed
  timed_parsed-Keeps f none env = no
  timed_parsed-Keeps f (some m) env = search (choose, yes, no)

  sous_vide_parsed-Keeps :
      (o : Option Float) (p : Option ℕ) (env : CommandEnv Float)
      → Keeps env (sous_vide_parsed fl stof o p env)
  unfolding sous_vide_parsed
  sous_vide_parsed-Keeps none p env = no
  sous_vide_parsed-Keeps (some c) p env = search (timed_parsed-Keeps)

  turbo_parsed-Keeps :
      (o : Option ℕ) (env : CommandEnv Float) → Keeps env (turbo_parsed fl stof o env)
  unfolding turbo_parsed
  turbo_parsed-Keeps none env = no
  turbo_parsed-Keeps (some p) env = search (choose, yes, no)

  load_found-Keeps :
      (o : Option Recipe) (env : CommandEnv Float) → Keeps env (load_found fl stof o env)
  unfolding load_found
  load_found-Keeps none env = yes _
  load_found-Keeps (some r) env = yes _

  wait_parsed-Keeps :
      (o : Option ℕ) (env : CommandEnv Float) → Keeps env (wait_parsed fl stof o env)
  unfolding wait_parsed
  wait_parsed-Keeps none env = no
  wait_parsed-Keeps (some ms) env = record { same = λ h. cc }

  handle_lid-Keeps :
      (env : CommandEnv Float) (how : List ℕ) → Keeps env (handle_lid fl stof env how)
  unfolding handle_lid
  handle_lid-Keeps env how = search (choose, yes, no)

  first_of-Keeps :
      {env : CommandEnv Float} (os : List (Bool × Outcome Float)) (other : Outcome Float)
      → All (λ o. Keeps env o.1) os
      → Keeps env other
      → Keeps env (first_of fl stof os other)
  unfolding first_of
  first_of-Keeps [] other h k = k
  first_of-Keeps ((b, o) ∷ os) other h k = choose b h.0 (first_of-Keeps os other h.1 k)

  cooking_commands-Keeps :
      (env : CommandEnv Float) (cmd : List ℕ) (args : List (List ℕ))
      → All (λ o. Keeps env o.1) (cooking_commands fl stof env cmd args)
  cooking_commands-Keeps env cmd args = (
    set_temp_parsed-Keeps _ env,
    (
      set_speed_parsed-Keeps _ env,
      (
        manual_parsed-Keeps _ _ _ env,
        (
          timed_parsed-Keeps _ _ env,
          (
            timed_parsed-Keeps _ _ env,
            (
              sous_vide_parsed-Keeps _ _ env,
              (turbo_parsed-Keeps _ env, (load_found-Keeps _ env, _)),
            ),
          ),
        ),
      ),
    ),
  )

  other_commands-Keeps :
      (env : CommandEnv Float) (cmd : List ℕ) (args : List (List ℕ))
      → All (λ o. Keeps env o.1) (other_commands fl stof env cmd args)
  unfolding handle_ota
  other_commands-Keeps env cmd args = (
    yes _,
    (
      yes _,
      (
        handle_add-Keeps env args,
        (
          yes _,
          (
            yes _,
            (
              yes _,
              (
                yes _,
                (
                  handle_lid-Keeps env _,
                  (
                    ota_with-Keeps _ env args,
                    (wait_parsed-Keeps _ env, (handle_expect-Keeps env args, (yes _, _))),
                  ),
                ),
              ),
            ),
          ),
        ),
      ),
    ),
  )

  execute_words-Keeps :
      (env : CommandEnv Float) (args : List (List ℕ)) → Keeps env (execute_words fl stof env args)
  execute_words-Keeps env [] = yes _
  execute_words-Keeps env (cmd ∷ args) = choose (starts_with cmd (codes "#")) (yes _) (
      first_of-Keeps _ _ (cooking_commands-Keeps env cmd (cmd ∷ args))
        (first_of-Keeps _ _ (other_commands-Keeps env cmd (cmd ∷ args)) no))

  -- A command line that is refused leaves the board, the session, the client, the updater and the count
  -- of failed expectations as they were, and lets no time pass. The result of `stof` is arbitrary.
  pub execute_command-Keeps :
      (env : CommandEnv Float) (line : List ℕ)
      → (execute_command fl stof env line).accepted ≡ false
      → ((execute_command fl stof env line).env ≡ env)
        × ((execute_command fl stof env line).wait_ms ≡ 0)
  unfolding execute_command
  execute_command-Keeps env line h = (execute_words-Keeps env (tokenize line)).same h
