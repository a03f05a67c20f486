-- ===== src/Sim/Board/Bounds.antt =====
-- What the simulated machine keeps, whatever is done to it.
use agentic_engineering_trai.Base.{
  Bool, ℕ, zero, suc, ◌≤◌, ◌≡◌, sym, subst, true, arith, if◌then◌else◌, inl, inr, Bool-cases, pos,
}
use agentic_engineering_trai.Common.Floats.{Floats, FloatLaws, of_nat, of_nat-le}
use agentic_engineering_trai.Sim.Lid.{IsLatched, lid_step, opens, closes, locks, lid_step-IsLatched}
use agentic_engineering_trai.Sim.Plant.{MotorModel, clamp, set_duty, step_motor}
use agentic_engineering_trai.Sim.Board.{
  SimBoard, set_power_w, command_duty, add_mass, set_viscosity, clear_mass, set_temperature_c,
  set_ambient_c, set_reverse, set_sensor_failed, open_lid, close_lid, command_lock, feed_board,
  step_board, step_ms,
}

-- What can happen: the firmware's commands, the user's hands, and time.
pub data BoardEvent (Float : Type 0) : Type 0 where
  heats drives adds thickens warms airs : Float → BoardEvent Float
  opens_lid closes_lid clears feeds : BoardEvent Float
  reverses fails locks_lid : Bool → BoardEvent Float
  passes : ℕ → BoardEvent Float

module _ (fl : Floats) where
  open fl use {Float, le, lt, add, sub, mul, div, ratio}

  unfoldable pub board_step : SimBoard Float → BoardEvent Float → SimBoard Float
  board_step b (heats watts) = set_power_w fl b watts
  board_step b (drives duty) = command_duty fl b duty
  board_step b (adds grams) = add_mass fl b grams
  board_step b (thickens factor) = set_viscosity fl b factor
  board_step b opens_lid = open_lid fl b
  board_step b closes_lid = close_lid fl b
  board_step b (locks_lid locked) = command_lock fl b locked
  board_step b feeds = feed_board fl b
  board_step b clears = clear_mass fl b
  board_step b (warms celsius) = set_temperature_c fl b celsius
  board_step b (airs celsius) = set_ambient_c fl b celsius
  board_step b (reverses reverse) = set_reverse fl b reverse
  board_step b (fails failed) = set_sensor_failed fl b failed
  board_step b (passes ms) = step_ms fl b ms

  -- The commands carry numbers.
  abbrev pub IsNumeric : BoardEvent Float → Type 0
  IsNumeric (heats watts) = le watts watts ≡ true
  IsNumeric (drives duty) = le duty duty ≡ true
  IsNumeric _ = Unit

  abbrev pub IsWithin : Float → Float → Float → Type 0
  IsWithin low high x = (le low x ≡ true) × (le x high ≡ true)

  -- A stalled motor stands still.
  abbrev pub IsStill : MotorModel Float → Type 0
  IsStill m = m.stalled ≡ true → (m.rpm ≡ of_nat fl 0) × (m.current_ma ≡ 2500)

  pub record IsSafe (b : SimBoard Float) : Type 0 where
    pub power : IsWithin (of_nat fl 0) (of_nat fl 1200) b.heater_w
    pub duty : IsWithin (of_nat fl 0) (of_nat fl 1) b.motor.duty
    pub still : IsStill b.motor
    pub latched : IsLatched b.lid

  step_motor-duty :
      (m : MotorModel Float) (dt grams : Float) → (step_motor fl m dt grams).duty ≡ m.duty
  unfolding step_motor
  step_motor-duty m dt grams = ground arith

  step_motor-IsStill :
      (m : MotorModel Float) (dt grams : Float) → IsStill (step_motor fl m dt grams)
  unfolding step_motor
  step_motor-IsStill m dt grams = ground arith

  set_duty-IsStill : (m : MotorModel Float) (d : Float) → IsStill m → IsStill (set_duty fl m d)
  unfolding set_duty
  set_duty-IsStill m d h = ground arith

  module _ (laws : FloatLaws fl) where
    cap-IsWithin :
        (n : ℕ) (y : Float)
        → n ≤ 10700
        → le y y ≡ true
        → le (of_nat fl 0) y ≡ true
        → IsWithin (of_nat fl 0) (of_nat fl n) (if lt (of_nat fl n) y then of_nat fl n else y)
    cap-IsWithin n y h real above =
        let high = of_nat-le fl laws n n (omega arith) h in
        let across = of_nat-le fl laws 0 n (omega arith) h in
        elim (Bool-cases (lt (of_nat fl n) y)) [
          | inl e ↦ rw e ((across, high))
          | inr e ↦ rw e ((above, laws.le_of_not_lt (of_nat fl n) y high real e))
        ]

    clamp-IsWithin :
        (n : ℕ) (x : Float)
        → n ≤ 10700
        → le x x ≡ true
        → IsWithin (of_nat fl 0) (of_nat fl n) (clamp fl (of_nat fl 0) (of_nat fl n) x)
    clamp-IsWithin n x h real =
        let low = of_nat-le fl laws 0 0 (omega arith) (omega arith) in
        elim (Bool-cases (lt x (of_nat fl 0))) [
          | inl e ↦ rw e (cap-IsWithin n (of_nat fl 0) h low low)
          | inr e ↦ rw e (cap-IsWithin n x h real (laws.le_of_not_lt x (of_nat fl 0) real low e))
        ]

    set_duty-IsWithin :
        (m : MotorModel Float) (d : Float)
        → le d d ≡ true
        → IsWithin (of_nat fl 0) (of_nat fl 1) (set_duty fl m d).duty
    unfolding set_duty
    set_duty-IsWithin m d real = clamp-IsWithin 1 d (omega arith) real

    step_board-IsSafe : (b : SimBoard Float) → IsSafe b → IsSafe (step_board fl b)
    unfolding step_board
    step_board-IsSafe b s =
        let dt = ratio (pos 1) 1000 in
        record {
          power = s.power;
          duty =
              subst (IsWithin (of_nat fl 0) (of_nat fl 1))
                (sym (step_motor-duty b.motor dt b.scale.true_mass_g)) s.duty;
          still = step_motor-IsStill b.motor dt b.scale.true_mass_g;
          latched = s.latched;
        }

    step_ms-IsSafe : (ms : ℕ) (b : SimBoard Float) → IsSafe b → IsSafe (step_ms fl b ms)
    unfolding step_ms
    step_ms-IsSafe zero b s = s
    step_ms-IsSafe (suc ms) b s = step_ms-IsSafe ms (step_board fl b) (step_board-IsSafe b s)

    -- Whatever the firmware, the user or a test does to the simulated machine with numbers, the lock of
    -- the lid and the watchdog included, and however long it runs: the heater gets 0 to 1200 watts, the
    -- duty is 0 to 1, a stalled motor stands still and draws 2500 mA, and a locked lid is closed, when
    -- they were so before. The floating-point laws are assumed.
    pub board_step-IsSafe :
        (b : SimBoard Float) (e : BoardEvent Float)
        → IsNumeric e
        → IsSafe b
        → IsSafe (board_step b e)
    unfolding board_step set_power_w command_duty add_mass clear_mass set_viscosity
        set_temperature_c set_ambient_c set_reverse set_sensor_failed open_lid close_lid
        command_lock feed_board lid_step
    board_step-IsSafe b (heats watts) n s = record {
      power = clamp-IsWithin 1200 watts (omega arith) n;
      duty = s.duty;
      still = s.still;
      latched = s.latched;
    }
    board_step-IsSafe b (drives d) n s = record {
      power = s.power;
      duty = set_duty-IsWithin b.motor d n;
      still = set_duty-IsStill b.motor d s.still;
      latched = s.latched;
    }
    board_step-IsSafe b (adds grams) n s = record {
      power = s.power;
      duty = s.duty;
      still = s.still;
      latched = s.latched;
    }
    board_step-IsSafe b (thickens factor) n s = record {
      power = s.power;
      duty = s.duty;
      still = s.still;
      latched = s.latched;
    }
    board_step-IsSafe b opens_lid n s = record {
      power = s.power;
      duty = s.duty;
      still = s.still;
      latched = (lid_step-IsLatched b.lid opens s.latched).0;
    }
    board_step-IsSafe b closes_lid n s = record {
      power = s.power;
      duty = s.duty;
      still = s.still;
      latched = (lid_step-IsLatched b.lid closes s.latched).0;
    }
    board_step-IsSafe b (locks_lid locked) n s = record {
      power = s.power;
      duty = s.duty;
      still = s.still;
      latched = (lid_step-IsLatched b.lid (locks locked) s.latched).0;
    }
    board_step-IsSafe b feeds n s = record {
      power = s.power;
      duty = s.duty;
      still = s.still;
      latched = s.latched;
    }
    board_step-IsSafe b clears n s = record {
      power = s.power;
      duty = s.duty;
      still = s.still;
      latched = s.latched;
    }
    board_step-IsSafe b (warms x) n s = record {
      power = s.power;
      duty = s.duty;
      still = s.still;
      latched = s.latched;
    }
    board_step-IsSafe b (airs x) n s = record {
      power = s.power;
      duty = s.duty;
      still = s.still;
      latched = s.latched;
    }
    board_step-IsSafe b (reverses x) n s = record {
      power = s.power;
      duty = s.duty;
      still = s.still;
      latched = s.latched;
    }
    board_step-IsSafe b (fails x) n s = record {
      power = s.power;
      duty = s.duty;
      still = s.still;
      latched = s.latched;
    }
    board_step-IsSafe b (passes ms) n s = step_ms-IsSafe ms b s
