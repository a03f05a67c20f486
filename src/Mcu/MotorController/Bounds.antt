-- ===== src/Mcu/MotorController/Bounds.antt =====
-- The speed commanded to the drive stays within the cap, whatever the ramp does.
use agentic_engineering_trai.Base.{
  ℕ, ◌*◌, ◌≤◌, ◌≡◌, refl, ap₂, ◌∙◌, true, inl, inr, pos, arith, ltb, leb, if◌then◌else◌, Bool-cases,
}
use agentic_engineering_trai.Common.Floats.{Floats, FloatLaws, of_nat}
use agentic_engineering_trai.Mcu.Limits.{max_rpm}
use agentic_engineering_trai.Mcu.MotorController.{
  MotorController, new_motor, ramp_rate_for, set_target, burst, stop, enforce_cap, ramp_step,
  tick_1ms,
}

module _ (fl : Floats) (laws : FloatLaws fl) where
  open fl use {Float, lt, le, is_finite, add, sub, mul, div, ratio}
  open laws use {
    le_trans, le_left, le_right, le_of_lt, le_of_not_lt, int-tenths, lt-tenths, le-tenths,
    unit_nonneg, unit_le_one, finite_between, mul_nonneg, mul-le, le-add, sub-le,
  }

  pub le-of_nat : (a b : ℕ) → a ≤ max_rpm → b ≤ max_rpm → le (of_nat fl a) (of_nat fl b) ≡ leb a b
  le-of_nat a b p q =
      ap₂ le (int-tenths a p) (int-tenths b q)
      ∙ le-tenths (a * 10) (b * 10) (omega arith) (omega arith)
      ∙ ground arith

  pub lt-of_nat : (a b : ℕ) → a ≤ max_rpm → b ≤ max_rpm → lt (of_nat fl a) (of_nat fl b) ≡ ltb a b
  lt-of_nat a b p q =
      ap₂ lt (int-tenths a p) (int-tenths b q)
      ∙ lt-tenths (a * 10) (b * 10) (omega arith) (omega arith)
      ∙ ground arith

  nat_le : (a b : ℕ) → a ≤ b → b ≤ max_rpm → le (of_nat fl a) (of_nat fl b) ≡ true
  nat_le a b p q = le-of_nat a b (omega arith) q ∙ ground arith

  -- The speeds and the rate lie in their ranges.
  pub record IsBounded (m : MotorController Float) : Type 0 where
    pub commanded_low : le (of_nat fl 0) m.commanded_rpm ≡ true
    pub commanded_high : le m.commanded_rpm (of_nat fl max_rpm) ≡ true
    pub target_high : m.target_rpm ≤ max_rpm
    pub ramp_low : le (of_nat fl 0) m.ramp_rpm_per_s ≡ true
    pub ramp_high : le m.ramp_rpm_per_s (of_nat fl 2500) ≡ true

  -- The speeds are at most `cap`.
  pub record IsUnder (cap : ℕ) (m : MotorController Float) : Type 0 where
    pub commanded_cap : le m.commanded_rpm (of_nat fl cap) ≡ true
    pub target_cap : m.target_rpm ≤ cap

  pub new_motor-IsBounded : IsBounded (new_motor fl)
  new_motor-IsBounded = record {
    commanded_low = nat_le 0 0 (omega arith) (omega arith);
    commanded_high = nat_le 0 10700 (omega arith) (omega arith);
    target_high = omega arith;
    ramp_low = nat_le 0 500 (omega arith) (omega arith);
    ramp_high = nat_le 500 2500 (omega arith) (omega arith);
  }

  rate_bounds :
      (profile : ℕ)
      → (le (of_nat fl 0) (ramp_rate_for fl profile) ≡ true)
        × (le (ramp_rate_for fl profile) (of_nat fl 2500) ≡ true)
  unfolding ramp_rate_for
  rate_bounds profile = ground (
    arith,
    nat_le 0 500 (omega arith) (omega arith),
    nat_le 0 1500 (omega arith) (omega arith),
    nat_le 0 2500 (omega arith) (omega arith),
    nat_le 500 2500 (omega arith) (omega arith),
    nat_le 1500 2500 (omega arith) (omega arith),
    nat_le 2500 2500 (omega arith) (omega arith),
  )

  pub set_target-IsBounded :
      {m : MotorController Float} (rpm profile : ℕ)
      → IsBounded m
      → IsBounded (set_target fl m rpm profile)
  unfolding set_target
  set_target-IsBounded rpm profile v = ground (arith, rate_bounds profile)

  pub burst-IsBounded :
      {m : MotorController Float} (rpm : ℕ) → IsBounded m → IsBounded (burst fl m rpm)
  unfolding burst
  burst-IsBounded {m} rpm v =
      let bounded : ℕ = if ltb max_rpm rpm then max_rpm else rpm in
      let small : bounded ≤ max_rpm = ground arith in
      record {
        commanded_low = nat_le 0 bounded (omega arith) small;
        commanded_high = nat_le bounded max_rpm small (omega arith);
        target_high = small;
        ramp_low = v.ramp_low;
        ramp_high = v.ramp_high;
      }

  pub stop-IsBounded : {m : MotorController Float} → IsBounded m → IsBounded (stop fl m)
  unfolding stop
  stop-IsBounded v = record {
    commanded_low = nat_le 0 0 (omega arith) (omega arith);
    commanded_high = nat_le 0 10700 (omega arith) (omega arith);
    target_high = omega arith;
    ramp_low = v.ramp_low;
    ramp_high = v.ramp_high;
  }

  module _ {m : MotorController Float} (v : IsBounded m) where
    -- After the cap is enforced, both speeds are under it.
    pub enforce_cap-IsUnder :
        (cap : ℕ)
        → cap ≤ max_rpm
        → IsUnder cap (enforce_cap fl m cap) × IsBounded (enforce_cap fl m cap)
    unfolding enforce_cap
    enforce_cap-IsUnder cap h = elim (Bool-cases (lt (of_nat fl cap) m.commanded_rpm)) [
      | inl e ↦ rw e (
        record { commanded_cap = nat_le cap cap (omega arith) h; target_cap = ground arith },
        record {
          commanded_low = nat_le 0 cap (omega arith) h;
          commanded_high = nat_le cap max_rpm h (omega arith);
          target_high = ground (arith, v.target_high);
          ramp_low = v.ramp_low;
          ramp_high = v.ramp_high;
        },
      )
      | inr e ↦ rw e (
        record {
          commanded_cap =
              le_of_not_lt _ _ (nat_le cap cap (omega arith) h) (le_left _ _ v.commanded_high) e;
          target_cap = ground arith;
        },
        record {
          commanded_low = v.commanded_low;
          commanded_high = v.commanded_high;
          target_high = ground (arith, v.target_high);
          ramp_low = v.ramp_low;
          ramp_high = v.ramp_high;
        },
      )
    ]

    step : Float
    step = mul m.ramp_rpm_per_s (ratio (pos 1) 1000)

    step_low : le (of_nat fl 0) step ≡ true
    unfolding step
    step_low =
        mul_nonneg _ _ (finite_between 0 2500 _ (omega arith) (omega arith) v.ramp_low v.ramp_high)
          (finite_between 0 1 _ (omega arith) (omega arith) (unit_nonneg 1000 (omega arith))
            (unit_le_one 1000 (omega arith)))
          v.ramp_low (unit_nonneg 1000 (omega arith))

    step_high : le step (of_nat fl 2500) ≡ true
    unfolding step
    step_high =
        le_trans _ _ _
          (mul-le _ _ (finite_between 0 2500 _ (omega arith) (omega arith) v.ramp_low v.ramp_high)
            v.ramp_low (unit_nonneg 1000 (omega arith)) (unit_le_one 1000 (omega arith)))
          v.ramp_high

    back_low : le (of_nat fl 0) (mul step (of_nat fl 4)) ≡ true
    back_low =
        mul_nonneg _ _ (finite_between 0 2500 _ (omega arith) (omega arith) step_low step_high)
          (finite_between 4 4 _ (omega arith) (omega arith) (nat_le 4 4 (omega arith) (omega arith))
            (nat_le 4 4 (omega arith) (omega arith)))
          step_low (nat_le 0 4 (omega arith) (omega arith))

    commanded_finite : is_finite m.commanded_rpm ≡ true
    commanded_finite =
        finite_between 0 10700 _ (omega arith) (omega arith) v.commanded_low v.commanded_high

    faster_high : le m.commanded_rpm (add m.commanded_rpm step) ≡ true
    faster_high = le-add _ _ commanded_finite step_low

    slower_low : le (sub m.commanded_rpm (mul step (of_nat fl 4))) m.commanded_rpm ≡ true
    slower_low = sub-le _ _ commanded_finite back_low

    -- The ramp ends between 0 and any cap on both speeds.
    pub ramp_step_bounds :
        (cap : ℕ)
        → cap ≤ max_rpm
        → IsUnder cap m
        → (le (of_nat fl 0) (ramp_step fl m) ≡ true) × (le (ramp_step fl m) (of_nat fl cap) ≡ true)
    unfolding ramp_step step
    ramp_step_bounds cap h u =
        let t : Float = of_nat fl m.target_rpm in
        let faster : Float = add m.commanded_rpm step in
        let slower : Float = sub m.commanded_rpm (mul step (of_nat fl 4)) in
        let t_low = nat_le 0 m.target_rpm (omega arith) v.target_high in
        let t_cap = nat_le m.target_rpm cap u.target_cap h in
        elim (Bool-cases (lt m.commanded_rpm t)) [
          | inl below ↦ elim (Bool-cases (lt t faster)) [
            | inl e ↦ rw (below, e) (t_low, t_cap)
            | inr e ↦
                rw (below, e)
                  (
                    le_trans _ _ _ v.commanded_low faster_high,
                    le_trans _ _ _
                        (le_of_not_lt t faster (le_left _ _ t_cap) (le_right _ _ faster_high) e)
                        t_cap,
                  )
          ]
          | inr not_below ↦ elim (Bool-cases (lt t m.commanded_rpm)) [
            | inl above ↦ elim (Bool-cases (lt slower t)) [
              | inl e ↦ rw (not_below, above, e) (t_low, t_cap)
              | inr e ↦
                  rw (not_below, above, e)
                    (
                      le_trans _ _ _ t_low
                          (le_of_not_lt slower t (le_left _ _ slower_low) (le_left _ _ t_cap) e),
                      le_trans _ _ _ slower_low u.commanded_cap,
                    )
            ]
            | inr even ↦ rw (not_below, even) (v.commanded_low, u.commanded_cap)
          ]
        ]

    -- One control tick: if both speeds are under a cap, the drive is given a speed between 0 and that
    -- cap, and they are still under it.
    pub tick_1ms-IsUnder :
        (cap : ℕ)
        → cap ≤ max_rpm
        → IsUnder cap m
        → IsUnder cap (tick_1ms fl m)
          × IsBounded (tick_1ms fl m)
          × ((tick_1ms fl m).duty ≡ div (tick_1ms fl m).commanded_rpm (of_nat fl max_rpm))
    unfolding tick_1ms
    tick_1ms-IsUnder cap h u =
        let (low, high) = ramp_step_bounds cap h u in
        (
          record { commanded_cap = high; target_cap = u.target_cap },
          record {
            commanded_low = low;
            commanded_high = le_trans _ _ _ high (nat_le cap max_rpm h (omega arith));
            target_high = v.target_high;
            ramp_low = v.ramp_low;
            ramp_high = v.ramp_high;
          },
          refl,
        )
