-- ===== src/Examples/Cooking.antt =====
-- The cooking programs on concrete data.
use agentic_engineering_trai.Base.{arith, ◌≡◌, ◌<◌, ◌⊎◌, refl, [], ◌∷◌, true, false, pos}
use agentic_engineering_trai.App.Cooking.TimedModes.{DoughMode, new_dough, dough_on_tick}
use agentic_engineering_trai.Hal.Uart.{write}
use agentic_engineering_trai.Protocol.Wire.{request, lid_unlock}
use agentic_engineering_trai.Protocol.FrameWriter.{frame_bytes, write_frame, length-frame_bytes}
use agentic_engineering_trai.Protocol.Link.{send, enqueue, compact, flush_tx}
use agentic_engineering_trai.App.TelemetryStore.{empty_sample, has_data, latest}
use agentic_engineering_trai.App.McuClient.{McuClient, new_client, lock_lid, submit}
use agentic_engineering_trai.App.Cooking.TurboPulse.{
  TurboPulse, new_turbo, unlocking, finished, turbo_phase, turbo_on_tick, turbo_on_tick-finished,
}
use agentic_engineering_trai.App.Recipe.{weigh, empty_step}
use agentic_engineering_trai.App.Cooking.GuidedRecipe.{
  GuidedRecipe, new_guided, current_step, guided_on_tick, guided_on_tick_tared,
}

abbrev client : McuClient
client = record (new_client (record { rx = []; accepts = []; wire = [] })) {
  store = empty_sample ∷ [];
}

-- A pulse that unlocks the lid, and ends in this tick.
abbrev ending : TurboPulse
ending = record (new_turbo 500) { phase = unlocking }

ended : (turbo_on_tick ending client 40 30).0.phase ≡ finished
unfolding turbo_on_tick turbo_phase lock_lid submit has_data latest send enqueue compact write_frame
    frame_bytes flush_tx write
ended = ground (arith, length-frame_bytes request 0 lid_unlock [] 0 (omega arith))

turbo_on_tick-finished_example :
    (ending.phase ≡ finished)
    ⊎ ((ending.phase ≡ unlocking)
        × (has_data client.store ≡ true)
        × ((latest client.store).rpm < 100))
turbo_on_tick-finished_example = turbo_on_tick-finished ending client 40 30 ended

-- Two weighing steps, the first of which has tared the scale.
abbrev weighing : GuidedRecipe
weighing =
    record (new_guided (record {
      recipe_steps =
          record empty_step { kind = weigh; target_weight = pos 200 }
          ∷ record empty_step { kind = weigh; target_weight = pos 100 }
          ∷ [];
      step_count = 2;
      name = [];
    })) { step_index = 1; scale_tared = true }

guided_on_tick_tared_example :
    ((guided_on_tick weighing client 40 30).0.scale_tared ≡ true)
    × ((current_step weighing).kind ≡ weigh → (guided_on_tick weighing client 40 30).1 ≡ client)
guided_on_tick_tared_example = guided_on_tick_tared weighing client 40 30 refl

-- Dough that is being kneaded.
abbrev kneaded : DoughMode
kneaded = record (new_dough 60) { kneading = true; command_pending = false }

settled : (dough_on_tick kneaded client 140 100).0.command_pending ≡ false
unfolding dough_on_tick
settled = refl
