-- ===== src/Mcu/SafetyMcu/Reach.antt =====
-- The control ticks in sequence. Between two ticks the clock moves on, bytes come, the sensors change
-- and the user moves the lid: the next tick finds any state of the hardware.
use agentic_engineering_trai.Base.{◌≡◌, subst, refl, Option, some, sym, ◌∙◌}
use mathlib.Core.Option.{some-injective}
use agentic_engineering_trai.Common.Floats.{Floats, FloatLaws}
use agentic_engineering_trai.Mcu.MotorController.Bounds.{new_motor-IsBounded}
use agentic_engineering_trai.Mcu.Device.{Hardware, Mcu}
use agentic_engineering_trai.Mcu.SafetyMcu.{new_mcu, tick_1ms}
use agentic_engineering_trai.Mcu.SafetyMcu.Control.{IsSafe, same_control-IsSafe}
use agentic_engineering_trai.Mcu.SafetyMcu.Tick.{IsControlled, IsSampled, tick_1ms-IsControlled}

module _ (fl : Floats) where
  open fl use {Float}

  -- The tick on hardware that is in the state `hw`.
  abbrev pub tick_on : Mcu Float → Hardware Float → Option (Mcu Float)
  tick_on m hw = tick_1ms fl (record m { hw = hw })

  -- The states that a controller can come to.
  pub data IsReachable : Mcu Float → Type 0 where
    starts : (hw : Hardware Float) → IsReachable (new_mcu fl hw)
    ticks :
        (m m' : Mcu Float) (hw : Hardware Float)
        → IsReachable m
        → tick_on m hw ≡ some m'
        → IsReachable m'

  module _ (laws : FloatLaws fl) where
    pub new_mcu-IsSafe : (hw : Hardware Float) → IsSafe fl laws (new_mcu fl hw)
    new_mcu-IsSafe hw = record {
      quiet = λ e. cc;
      bounded = new_motor-IsBounded fl laws;
      legal = λ e. cc;
      sensor = λ e. cc;
    }

    ticks-IsControlled :
        (m : Mcu Float) (hw : Hardware Float)
        → IsSafe fl laws m
        → (m' : Mcu Float) × (tick_on m hw ≡ some m')
          × IsControlled fl laws m'
          × IsSampled fl laws (record m { hw = hw }) m'
    ticks-IsControlled m hw v =
        tick_1ms-IsControlled fl laws (record m { hw = hw })
          (same_control-IsSafe fl laws _ refl refl refl refl v)

    pub reachable-IsSafe : {m : Mcu Float} → IsReachable m → IsSafe fl laws m
    reachable-IsSafe (starts hw) = new_mcu-IsSafe hw
    reachable-IsSafe (ticks m m' hw r e) =
        let (next, same, controlled, sampled) = ticks-IsControlled m hw (reachable-IsSafe r) in
        subst (IsSafe fl laws) (some-injective _ _ (sym same ∙ e)) controlled.safe

    -- From every state that the controller can come to, whatever the hardware shows next and for all
    -- floating-point numbers with the named laws, the tick ends and leaves a state in which: an
    -- unreadable temperature or a trip of the interlocks is a fault; in a fault the motor is stopped
    -- and the heater has no power; the target and the commanded speed are at most the cap for the
    -- sampled inputs, and the duty is that of the commanded speed; an open lid means no heater power;
    -- and 5000 ms without a request mean that neither motor nor heater is driven. The inputs are what
    -- the sensors show in this tick, if the temperature can be read.
    pub reachable-IsControlled :
        (m : Mcu Float) (hw : Hardware Float)
        → IsReachable m
        → (m' : Mcu Float) × (tick_on m hw ≡ some m')
          × IsControlled fl laws m'
          × IsSampled fl laws (record m { hw = hw }) m'
    reachable-IsControlled m hw r = ticks-IsControlled m hw (reachable-IsSafe r)
