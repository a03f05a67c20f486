-- ===== src/Mcu/MotorController/Driven.antt =====
-- mcu/motor_controller.cpp: what the drive gets when the cap is enforced and the ramp is taken one
-- step further, as every control tick does.
use agentic_engineering_trai.Base.{ℕ, ◌≤◌, ◌≡◌, refl, ◌∙◌, false, inl, inr, arith, Bool-cases}
use agentic_engineering_trai.Common.Floats.{Floats, FloatLaws, of_nat}
use agentic_engineering_trai.Mcu.Limits.{max_rpm}
use agentic_engineering_trai.Mcu.MotorController.{
  MotorController, enforce_cap, ramp_step, tick_1ms, active,
}
use agentic_engineering_trai.Mcu.MotorController.Bounds.{
  IsBounded, IsUnder, lt-of_nat, enforce_cap-IsUnder, tick_1ms-IsUnder,
}

module _ (fl : Floats) (laws : FloatLaws fl) where
  open fl use {Float, lt, le, div}
  open laws use {le_trans, le_left, le_right, le_of_lt, le_of_not_lt}

  -- The motor is not given power: nothing is commanded, nor will be.
  pub record IsStopped (m : MotorController Float) : Type 0 where
    pub target_zero : m.target_rpm ≡ 0
    pub commanded_zero : m.commanded_rpm ≡ of_nat fl 0

  not_lt_zero : (cap : ℕ) → cap ≤ max_rpm → lt (of_nat fl cap) (of_nat fl 0) ≡ false
  not_lt_zero cap h = lt-of_nat fl laws cap 0 h (omega arith) ∙ ground arith

  pub enforce_cap-IsStopped :
      {m : MotorController Float} (cap : ℕ)
      → cap ≤ max_rpm
      → IsStopped m
      → IsStopped (enforce_cap fl m cap)
  unfolding enforce_cap
  enforce_cap-IsStopped cap h s = record {
    target_zero = rw s.target_zero (ground arith);
    commanded_zero = rw (s.commanded_zero, not_lt_zero cap h) refl;
  }

  pub tick_1ms-IsStopped : {m : MotorController Float} → IsStopped m → IsStopped (tick_1ms fl m)
  unfolding tick_1ms ramp_step
  tick_1ms-IsStopped s = record {
    target_zero = s.target_zero;
    commanded_zero = rw (s.target_zero, s.commanded_zero, not_lt_zero 0 (omega arith)) refl;
  }

  -- A controller that is not active stands still.
  pub active-IsUnder :
      {m : MotorController Float} → IsBounded fl laws m → active fl m ≡ false → IsUnder fl laws 0 m
  unfolding active
  active-IsUnder v h = record {
    commanded_cap =
        le_of_not_lt _ _ (le_left _ _ v.commanded_low) (le_right _ _ v.commanded_low)
          (ground arith);
    target_cap = ground arith;
  }

  pub enforce_cap-IsUnder_zero :
      {m : MotorController Float} (cap : ℕ)
      → IsUnder fl laws 0 m
      → IsUnder fl laws 0 (enforce_cap fl m cap)
  unfolding enforce_cap
  enforce_cap-IsUnder_zero {m} cap u = record {
    commanded_cap = elim (Bool-cases (lt (of_nat fl cap) m.commanded_rpm)) [
      | inl e ↦ rw e (le_trans _ _ _ (le_of_lt _ _ e) u.commanded_cap)
      | inr e ↦ rw e u.commanded_cap
    ];
    target_cap = ground (arith, u.target_cap);
  }

  -- The controller after one tick under `cap`.
  abbrev pub driven : MotorController Float → ℕ → MotorController Float
  driven m cap = tick_1ms fl (enforce_cap fl m cap)

  -- Both speeds are at most the cap, the duty is the commanded speed over the maximum, and a motor
  -- that stands still or was stopped stays so.
  pub record Driven (m : MotorController Float) (cap : ℕ) (m' : MotorController Float)
      : Type 0 where
    pub under : IsUnder fl laws cap m'
    pub bounded : IsBounded fl laws m'
    pub duty : m'.duty ≡ div m'.commanded_rpm (of_nat fl max_rpm)
    pub still : IsUnder fl laws 0 m → IsUnder fl laws 0 m'
    pub stopped : IsStopped m → IsStopped m'

  -- After one tick under a cap of at most 10700, both speeds are at most the cap and in their ranges,
  -- the duty is the commanded speed over the maximum, and a motor that stood still or was stopped
  -- stays so.
  pub driven-Driven :
      {m : MotorController Float} (cap : ℕ)
      → cap ≤ max_rpm
      → IsBounded fl laws m
      → Driven m cap (driven m cap)
  driven-Driven cap h v =
      let (under, bounded) = enforce_cap-IsUnder fl laws v cap h in
      let (u, b, d) = tick_1ms-IsUnder fl laws bounded cap h under in
      record {
        under = u;
        bounded = b;
        duty = d;
        still = λ z.
            (tick_1ms-IsUnder fl laws bounded 0 (omega arith) (enforce_cap-IsUnder_zero cap z)).0;
        stopped = λ s. tick_1ms-IsStopped (enforce_cap-IsStopped cap h s);
      }
