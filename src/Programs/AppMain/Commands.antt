-- ===== src/Programs/AppMain/Commands.antt =====
-- The requests that a typed line sends.
use agentic_engineering_trai.Base.{
  ℕ, ◌*◌, ◌≤◌, ◌≡◌, refl, List, true, false, not, ◌||◌, ◌&&◌, Option, none, some, ℤ, pos, ◌≤ℤ◌,
  arith, Bool-cases, branch, ltb, u16, u32, inl, inr, get_or, drop, ◌==◌,
}
use agentic_engineering_trai.Common.Floats.{
  Floats, FloatLaws, of_nat, of_nat-le, between, from_celsius,
}
use agentic_engineering_trai.Common.Text.{Converted, codes, c_string, equal, starts_with, is_empty}
use agentic_engineering_trai.Common.ParseNumber.{strtoul, is_partial, parse_real, parse_u32}
use agentic_engineering_trai.Protocol.Wire.{ramp_normal}
use agentic_engineering_trai.App.McuClient.{heater_off, set_heater, set_motor, tare}
use agentic_engineering_trai.Programs.SafeStop.{is_active}
use agentic_engineering_trai.Programs.AppMain.{
  AppMain, Step, Console, failed, quiet, typed, clock_ms, stop_app, quit_app, set_speed, set_temp,
  run_typed, read_console,
}

-- The step leaves the client alone, or makes one request of it that the safety MCU's limits allow.
pub data Sends (m : AppMain) : Step → Type 0 where
  nothing : {s : Step} → s.state.client ≡ m.client → Sends m s
  no_heat : {s : Step} → s.state.client ≡ (heater_off m.client (clock_ms m)).0 → Sends m s
  heat :
      {s : Step} (t : ℤ)
      → pos 370 ≤ℤ t
      → t ≤ℤ pos 1600
      → s.state.client ≡ (set_heater m.client (clock_ms m) t).0
      → Sends m s
  speed :
      {s : Step} (rpm : ℕ)
      → rpm ≤ 10700
      → s.state.client ≡ (set_motor m.client (clock_ms m) rpm ramp_normal).0
      → Sends m s
  zero_scale : {s : Step} → s.state.client ≡ (tare m.client (clock_ms m)).0 → Sends m s

abbrev AtMost : ℕ → Option ℕ → Type 0
AtMost max none = Unit
AtMost max (some n) = n ≤ max

parse_u32-AtMost : (text : List ℕ) (max : ℕ) → AtMost max (parse_u32 text max)
unfolding parse_u32
parse_u32-AtMost text max =
    let c = strtoul text in
    branch (AtMost max) (is_empty text || get_or text 0 0 == b'-') (λ e. tt)
      (λ e.
        branch (AtMost max)
          ((c.errno || is_partial c.behind) || (ltb max c.value || ltb 4294967295 c.value))
          (λ f. tt) (λ f. ground (arith, f)))

set_speed-Sends : (m : AppMain) (o : Option ℕ) → AtMost 10 o → Sends m (set_speed m o)
set_speed-Sends m none h = nothing refl
set_speed-Sends m (some dial) h = speed (u16 (u32 (dial * 1070))) (omega arith) refl

module _ (fl : Floats) (laws : FloatLaws fl) (strtof : List ℕ → Converted fl.Float) where
  open fl use {Float, lt, le, is_finite}

  -- An accepted number is finite and neither below `min` nor above `max`.
  abbrev InRange : Float → Float → Option Float → Type 0
  InRange min max none = Unit
  InRange min max (some x) = (is_finite x ≡ true) × (lt x min ≡ false) × (lt max x ≡ false)

  parse_real-InRange :
      (text : List ℕ) (min max : Float) → InRange min max (parse_real fl strtof text min max)
  unfolding parse_real
  parse_real-InRange text min max =
      let c = strtof text in
      branch (InRange min max)
        ((c.errno || is_partial c.behind)
          || (not (is_finite c.value) || (lt c.value min || lt max c.value)))
        (λ e. tt) (λ e. (ground (arith, e), ground (arith, e), ground (arith, e)))

  hot :
      (x : Float)
      → InRange (of_nat fl 0) (of_nat fl 160) (some x)
      → (lt (of_nat fl 0) x && lt x (of_nat fl 37)) ≡ false
      → (le x (of_nat fl 0) && le (of_nat fl 0) x) ≡ false
      → (pos 370 ≤ℤ from_celsius fl x) × (from_celsius fl x ≤ℤ pos 1600)
  hot x (finite, low, high) warm zero =
      let (above, below) = between fl laws 0 160 x (omega arith) (omega arith) finite low high in
      let itself = laws.le_refl x finite in
      let positive : lt (of_nat fl 0) x ≡ true = elim (Bool-cases (lt (of_nat fl 0) x)) [
        | inl e ↦ e
        | inr e ↦
            let under =
              laws.le_of_not_lt (of_nat fl 0) x (of_nat-le fl laws 0 0 (omega arith) (omega arith))
                itself e in
            absurd (ground (arith, zero, under, above))
      ] in
      let cool : lt x (of_nat fl 37) ≡ false = ground (arith, warm, positive) in
      let least =
        laws.le_of_not_lt x (of_nat fl 37) itself
          (of_nat-le fl laws 37 37 (omega arith) (omega arith)) cool in
      laws.trunc_ten 37 160 x (omega arith) (omega arith) least below

  set_temp-Sends :
      (m : AppMain) (o : Option Float)
      → InRange (of_nat fl 0) (of_nat fl 160) o
      → Sends m (set_temp fl strtof m o)
  set_temp-Sends m none h = nothing refl
  set_temp-Sends m (some x) h =
      branch (Sends m) (lt (of_nat fl 0) x && lt x (of_nat fl 37)) (λ e. nothing refl)
        (λ warm.
          branch (Sends m) (le x (of_nat fl 0) && le (of_nat fl 0) x) (λ e. no_heat refl)
            (λ zero.
              let (least, most) = hot x h warm zero in heat (from_celsius fl x) least most refl))

  run_typed-Sends : (m : AppMain) (line : List ℕ) → Sends m (run_typed fl strtof m line)
  unfolding run_typed stop_app
  run_typed-Sends m line =
      branch (Sends m) (is_active m.safe_stop) (λ e. nothing refl)
        (λ e.
          branch (Sends m) (equal line (codes "status")) (λ e. nothing refl)
            (λ e.
              branch (Sends m) (starts_with line (codes "set-temp "))
                (λ e.
                  set_temp-Sends m _
                    (parse_real-InRange (c_string (drop 9 line)) (of_nat fl 0) (of_nat fl 160)))
                (λ e.
                  branch (Sends m) (starts_with line (codes "set-speed "))
                    (λ e. set_speed-Sends m _ (parse_u32-AtMost (c_string (drop 10 line)) 10))
                    (λ e.
                      branch (Sends m) (equal line (codes "tare")) (λ e. zero_scale refl)
                        (λ e.
                          branch (Sends m) (equal line (codes "stop")) (λ e. nothing refl)
                            (λ e.
                              branch (Sends m) (not (is_empty line)) (λ e. nothing refl)
                                (λ e. nothing refl)))))))

  -- Whatever the console holds, it makes the program send at most one request: to switch the heater
  -- off or to a target of 37 to 160 degrees, to run the motor at no more than 10700 rpm in the normal
  -- ramp, or to tare.
  pub read_console-Sends :
      (m : AppMain) (console : Console) → Sends m (read_console fl strtof m console)
  unfolding read_console quit_app
  read_console-Sends m (failed interrupted) =
      branch (Sends m) interrupted (λ e. nothing refl) (λ e. nothing refl)
  read_console-Sends m quiet = nothing refl
  read_console-Sends m (typed none) = nothing refl
  read_console-Sends m (typed (some line)) =
      branch (Sends m) (equal line (codes "quit") || equal line (codes "exit")) (λ e. nothing refl)
        (λ e. run_typed-Sends m line)
