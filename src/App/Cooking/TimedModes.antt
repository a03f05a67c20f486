-- ===== src/App/Cooking/TimedModes.antt =====
-- app/cooking/dough_mode.cpp, manual_mode.cpp and steam_mode.cpp: the programs that end by their
-- duration. Texts for the display are left out.
use agentic_engineering_trai.Base.{
  ℕ, ◌+◌, ◌*◌, ◌%◌, ◌≡◌, Bool, true, false, not, ◌||◌, arith, ltb, ◌==◌, ℤ, pos, leb_ℤ,
  if◌then◌else◌, u32, bit_and,
}
use agentic_engineering_trai.Common.Status.{is_ok}
use agentic_engineering_trai.Protocol.Wire.{ramp_gentle, ramp_normal, ramp_fast, flag_lid_closed}
use agentic_engineering_trai.App.TelemetryStore.{latest}
use agentic_engineering_trai.App.McuClient.{McuClient, set_motor, set_heater}
use agentic_engineering_trai.App.Cooking.{dial_to_rpm}

abbrev pub knead_ms : ℕ
knead_ms = 4000

abbrev pub rest_ms : ℕ
rest_ms = 2000

pub record DoughMode : Type 0 where
  pub duration_ms : ℕ
  pub kneading : Bool
  pub command_pending : Bool

abbrev pub new_dough : ℕ → DoughMode
new_dough duration_s = record {
  duration_ms = u32 (duration_s * 1000);
  kneading = false;
  command_pending = true;
}

-- Whether the dough is to be kneaded at this time.
abbrev pub want_knead : ℕ → Bool
want_knead elapsed_ms = ltb (elapsed_ms % (knead_ms + rest_ms)) knead_ms

-- `a != b`
abbrev differs : Bool → Bool → Bool
differs true b = not b
differs false b = b

unfoldable pub dough_on_tick : DoughMode → McuClient → ℕ → ℕ → DoughMode × McuClient
dough_on_tick d c now elapsed_ms =
    let want = want_knead elapsed_ms in
    let (c', status) = set_motor c now (if want then dial_to_rpm 3 else 0) ramp_fast in
    if differs want d.kneading || d.command_pending
    then (
      if is_ok status
          then record d { kneading = want; command_pending = false }
          else record d { command_pending = true },
      c',
    )
    else (d, c)

pub record ManualMode : Type 0 where
  pub temp_deci : ℤ
  pub dial : ℕ
  pub duration_ms : ℕ
  pub heater_set : Bool
  pub motor_set : Bool

abbrev pub new_manual : ℤ → ℕ → ℕ → ManualMode
new_manual temp dial duration_s = record {
  temp_deci = temp;
  dial = dial;
  duration_ms = u32 (duration_s * 1000);
  heater_set = false;
  motor_set = false;
}

unfoldable pub manual_on_tick : ManualMode → McuClient → ℕ → ManualMode × McuClient
manual_on_tick p c now =
    let (heating, heated) = set_heater c now p.temp_deci in
    let (moving, moved) = set_motor c now (dial_to_rpm p.dial) ramp_normal in
    if not p.heater_set
    then (if leb_ℤ p.temp_deci (pos 0)
        then (record p { heater_set = true }, c)
        else (record p { heater_set = is_ok heated }, heating))
    else if not p.motor_set
    then (record p { motor_set = is_ok moved }, moving)
    else (p, c)

pub record SteamMode : Type 0 where
  pub duration_ms : ℕ
  pub heater_set : Bool
  pub motor_set : Bool
  pub lid_open : Bool

abbrev pub new_steam : ℕ → SteamMode
new_steam duration_s = record {
  duration_ms = u32 (duration_s * 1000);
  heater_set = false;
  motor_set = false;
  lid_open = false;
}

unfoldable pub steam_on_tick : SteamMode → McuClient → ℕ → SteamMode × McuClient
steam_on_tick p c now =
    let (heating, heated) = set_heater c now (pos 1000) in
    let (moving, moved) = set_motor c now (dial_to_rpm 1) ramp_gentle in
    if not p.heater_set
    then (record p { heater_set = is_ok heated }, heating)
    else if not p.motor_set
    then (record p { motor_set = is_ok moved }, moving)
    else (record p { lid_open = bit_and (latest c.store).flags flag_lid_closed == 0 }, c)

-- After a tick of the dough program the motor command is either still pending, so that the next tick
-- sends it again, or the program kneads exactly when its cycle asks for it.
pub dough_on_tick_lem :
    (d : DoughMode) (c : McuClient) (now elapsed_ms : ℕ)
    → (dough_on_tick d c now elapsed_ms).0.command_pending ≡ false
    → (dough_on_tick d c now elapsed_ms).0.kneading ≡ want_knead elapsed_ms
unfolding dough_on_tick
dough_on_tick_lem d c now elapsed_ms h = ground arith
