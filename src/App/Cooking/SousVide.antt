-- ===== src/App/Cooking/SousVide.antt =====
-- app/cooking/sous_vide_mode.cpp: a long hold at a low temperature, without its display texts.
use agentic_engineering_trai.Base.{
  ℕ, ◌*◌, Bool, true, false, not, ℤ, pos, ltb_ℤ, if◌then◌else◌, u32,
}
use agentic_engineering_trai.Common.Status.{is_ok}
use agentic_engineering_trai.Common.Floats.{Floats}
use agentic_engineering_trai.Protocol.Wire.{ramp_gentle}
use agentic_engineering_trai.Mcu.HeaterPid.{to_celsius}
use agentic_engineering_trai.App.TelemetryStore.{average_temp_c}
use agentic_engineering_trai.App.McuClient.{McuClient, set_motor, set_heater}
use agentic_engineering_trai.App.Cooking.{dial_to_rpm}

pub record SousVideMode : Type 0 where
  pub target_deci : ℤ
  pub duration_ms : ℕ
  pub heater_set : Bool
  pub motor_set : Bool
  pub at_temperature : Bool

-- The constructor, with its two limits in order.
unfoldable pub new_sous_vide : ℤ → ℕ → SousVideMode
new_sous_vide target duration_s =
    let low = if ltb_ℤ target (pos 370) then pos 370 else target in
    record {
      target_deci = if ltb_ℤ (pos 900) low then pos 900 else low;
      duration_ms = u32 (duration_s * 1000);
      heater_set = false;
      motor_set = false;
      at_temperature = false;
    }

module _ (fl : Floats) where
  open fl use {Float, le, sub, abs, ratio}

  unfoldable pub sous_vide_on_tick : SousVideMode → McuClient → ℕ → SousVideMode × McuClient
  sous_vide_on_tick p c now =
      let (heating, heated) = set_heater c now p.target_deci in
      let (moving, moved) = set_motor c now (dial_to_rpm 2) ramp_gentle in
      let bath = average_temp_c fl c.store 2000 in
      if not p.heater_set
      then (record p { heater_set = is_ok heated }, heating)
      else if not p.motor_set
      then (record p { motor_set = is_ok moved }, moving)
      else if le (abs (sub bath (to_celsius fl p.target_deci))) (ratio (pos 1) 2)
      then (record p { at_temperature = true }, c)
      else (p, c)
