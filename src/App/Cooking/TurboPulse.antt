-- ===== src/App/Cooking/TurboPulse.antt =====
-- app/cooking/turbo_pulse.cpp: a burst of the motor under a locked lid.
use agentic_engineering_trai.Base.{
  ℕ, ◌≡◌, ◌<◌, ◌⊎◌, inl, inr, refl, true, false, not, ◌||◌, arith, ltb, leb, ◌==◌, if◌then◌else◌,
  sub_u32,
}
use agentic_engineering_trai.Common.Status.{is_ok}
use agentic_engineering_trai.Protocol.Wire.{ramp_burst}
use agentic_engineering_trai.App.TelemetryStore.{latest, has_data}
use agentic_engineering_trai.App.McuClient
use agentic_engineering_trai.App.McuClient.{McuClient, set_motor, lock_lid}

pub data TurboPhase : Type 0 where
  locking spinning stopping unlocking finished : TurboPhase

pub record TurboPulse : Type 0 where
  pub pulse_ms : ℕ
  pub phase : TurboPhase
  pub spin_started_ms : ℕ

abbrev pub new_turbo : ℕ → TurboPulse
new_turbo pulse_ms = record {
  pulse_ms = if ltb 2000 pulse_ms then 2000 else pulse_ms;
  phase = locking;
  spin_started_ms = 0;
}

-- The `switch` of `on_tick`.
unfoldable pub turbo_phase : TurboPhase → TurboPulse → McuClient → ℕ → ℕ → TurboPulse × McuClient
turbo_phase locking t c now elapsed_ms =
    let (c', status) = lock_lid c now true in
    (if is_ok status then record t { phase = spinning } else t, c')
turbo_phase spinning t c now elapsed_ms =
    let (c', status) = set_motor c now 10700 ramp_burst in
    if t.spin_started_ms == 0
    then (if is_ok status then record t { spin_started_ms = elapsed_ms } else t, c')
    else if leb t.pulse_ms (sub_u32 elapsed_ms t.spin_started_ms)
    then (record t { phase = stopping }, c)
    else (t, c)
turbo_phase stopping t c now elapsed_ms =
    let (c', status) = McuClient.motor_stop c now in
    (if is_ok status then record t { phase = unlocking } else t, c')
turbo_phase unlocking t c now elapsed_ms =
    let (c', status) = lock_lid c now false in
    if not (has_data c.store) || leb 100 (latest c.store).rpm
    then (t, c)
    else (if is_ok status then record t { phase = finished } else t, c')
turbo_phase finished t c now elapsed_ms = (t, c)

unfoldable pub turbo_on_tick : TurboPulse → McuClient → ℕ → ℕ → TurboPulse × McuClient
turbo_on_tick t c now elapsed_ms = turbo_phase t.phase t c now elapsed_ms

-- Where a pulse can come to its end.
turbo_phase_lem :
    (p : TurboPhase) (t : TurboPulse) (c : McuClient) (now elapsed_ms : ℕ)
    → t.phase ≡ p
    → (turbo_phase p t c now elapsed_ms).0.phase ≡ finished
    → (p ≡ finished) ⊎ ((p ≡ unlocking) × (has_data c.store ≡ true) × ((latest c.store).rpm < 100))
unfolding turbo_phase
turbo_phase_lem locking t c now elapsed_ms e h = absurd (ground arith)
turbo_phase_lem spinning t c now elapsed_ms e h = absurd (ground arith)
turbo_phase_lem stopping t c now elapsed_ms e h = absurd (ground arith)
turbo_phase_lem unlocking t c now elapsed_ms e h = inr (refl, ground arith, ground arith)
turbo_phase_lem finished t c now elapsed_ms e h = inl refl

-- A pulse comes to its end only from the phase in which it unlocks the lid, and only when telemetry
-- has been received and its latest sample shows less than 100 rpm.
pub turbo_on_tick-finished :
    (t : TurboPulse) (c : McuClient) (now elapsed_ms : ℕ)
    → (turbo_on_tick t c now elapsed_ms).0.phase ≡ finished
    → (t.phase ≡ finished)
      ⊎ ((t.phase ≡ unlocking) × (has_data c.store ≡ true) × ((latest c.store).rpm < 100))
unfolding turbo_on_tick
turbo_on_tick-finished t c now elapsed_ms h = turbo_phase_lem t.phase t c now elapsed_ms refl h
