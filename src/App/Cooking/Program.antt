-- ===== src/App/Cooking/Program.antt =====
-- app/cooking/program.h: the programs behind one interface, as the values that a `Program` pointer
-- can have. `on_stop` does nothing in any of them.
use agentic_engineering_trai.Base.{ℕ, Bool, true, false, leb}
use agentic_engineering_trai.Common.Floats.{Floats}
use agentic_engineering_trai.App.McuClient.{McuClient}
use agentic_engineering_trai.App.Cooking.TimedModes.{
  DoughMode, ManualMode, SteamMode, dough_on_tick, manual_on_tick, steam_on_tick,
}
use agentic_engineering_trai.App.Cooking.SousVide.{SousVideMode, sous_vide_on_tick}
use agentic_engineering_trai.App.Cooking.TurboPulse
use agentic_engineering_trai.App.Cooking.TurboPulse.{TurboPulse, TurboPhase, turbo_on_tick}
use agentic_engineering_trai.App.Cooking.GuidedRecipe
use agentic_engineering_trai.App.Cooking.GuidedRecipe.{
  GuidedRecipe, guided_on_tick, guided_finished,
}

pub data Program : Type 0 where
  dough : DoughMode → Program
  manual : ManualMode → Program
  steam : SteamMode → Program
  sous_vide : SousVideMode → Program
  turbo : TurboPulse → Program
  guided : GuidedRecipe → Program

abbrev is_turbo_finished : TurboPhase → Bool
is_turbo_finished TurboPulse.finished = true
is_turbo_finished _ = false

-- `finished`
unfoldable pub program_finished : Program → ℕ → Bool
unfolding guided_finished
program_finished (dough p) elapsed_ms = leb p.duration_ms elapsed_ms
program_finished (manual p) elapsed_ms = leb p.duration_ms elapsed_ms
program_finished (steam p) elapsed_ms = leb p.duration_ms elapsed_ms
program_finished (sous_vide p) elapsed_ms = leb p.duration_ms elapsed_ms
program_finished (turbo p) elapsed_ms = is_turbo_finished p.phase
program_finished (guided p) elapsed_ms = guided_finished p

-- `user_next`
unfoldable pub program_user_next : Program → Program
program_user_next (guided p) = guided (GuidedRecipe.user_next p)
program_user_next p = p

-- `awaiting_user`
unfoldable pub program_awaiting_user : Program → Bool
program_awaiting_user (guided p) = GuidedRecipe.awaiting_user p
program_awaiting_user _ = false

module _ (fl : Floats) where
  -- `on_tick`
  unfoldable pub program_on_tick : Program → McuClient → ℕ → ℕ → Program × McuClient
  program_on_tick (dough p) c now elapsed_ms =
      let (p', c') = dough_on_tick p c now elapsed_ms in (dough p', c')
  program_on_tick (manual p) c now elapsed_ms =
      let (p', c') = manual_on_tick p c now in (manual p', c')
  program_on_tick (steam p) c now elapsed_ms =
      let (p', c') = steam_on_tick p c now in (steam p', c')
  program_on_tick (sous_vide p) c now elapsed_ms =
      let (p', c') = sous_vide_on_tick fl p c now in (sous_vide p', c')
  program_on_tick (turbo p) c now elapsed_ms =
      let (p', c') = turbo_on_tick p c now elapsed_ms in (turbo p', c')
  program_on_tick (guided p) c now elapsed_ms =
      let (p', c') = guided_on_tick p c now elapsed_ms in (guided p', c')
